-- ===== src/Adversarial/Lookup.antt =====
-- gate0_adversarial.c: the slots as a map from senders to their records.
use gate.Base.{
  ℕ, zero, suc, ◌≡◌, refl, Bool, true, ◌&&◌, List, [], ◌∷◌, Option, none, some, get_or, set, truthy,
  ◌==◌, if◌then◌else◌, arith,
}
use gate.Adversarial.{SenderState, find_sender, free_slot, no_sender}

abbrev pub matches : ℕ → SenderState → Bool
matches id s = truthy s.used && (s.sender_id == id)

-- The record of a sender.
unfoldable pub sender_of : ℕ → List SenderState → Option SenderState
sender_of id [] = none
sender_of id (s ∷ rest) = if matches id s then some s else sender_of id rest

pub find_sender-none :
    (id : ℕ) (senders : List SenderState)
    → find_sender id senders ≡ none
    → sender_of id senders ≡ none
unfolding find_sender sender_of
find_sender-none id [] h = refl
find_sender-none id (s ∷ rest) h = ground (arith, find_sender-none id rest)

pub find_sender-some :
    (id : ℕ) (senders : List SenderState) (i : ℕ)
    → find_sender id senders ≡ some i
    → (sender_of id senders ≡ some (get_or senders i no_sender))
      × (matches id (get_or senders i no_sender) ≡ true)
unfolding find_sender sender_of
find_sender-some id [] i h = cc
find_sender-some id (s ∷ rest) zero h = ground arith
find_sender-some id (s ∷ rest) (suc i) h = ground (arith, find_sender-some id rest i)

-- A record that is moved keeps its sender, and so do all others.
pub sender_of-set_found :
    (k id : ℕ) (senders : List SenderState) (i : ℕ) (r : SenderState)
    → find_sender k senders ≡ some i
    → r.used ≡ (get_or senders i no_sender).used
    → r.sender_id ≡ k
    → sender_of id (set senders i r) ≡ (if k == id then some r else sender_of id senders)
unfolding find_sender sender_of
sender_of-set_found k id [] i r h u e = cc
sender_of-set_found k id (s ∷ rest) zero r h u e = ground arith
sender_of-set_found k id (s ∷ rest) (suc i) r h u e =
    ground (arith, sender_of-set_found k id rest i r)

-- So they do when an unknown sender gets a slot.
pub sender_of-set_free :
    (k id : ℕ) (senders : List SenderState) (i : ℕ) (r : SenderState)
    → free_slot senders ≡ some i
    → sender_of k senders ≡ none
    → r.used ≡ 1
    → r.sender_id ≡ k
    → sender_of id (set senders i r) ≡ (if k == id then some r else sender_of id senders)
unfolding free_slot sender_of
sender_of-set_free k id [] i r h n u e = cc
sender_of-set_free k id (s ∷ rest) zero r h n u e = ground arith
sender_of-set_free k id (s ∷ rest) (suc i) r h n u e =
    ground (arith, sender_of-set_free k id rest i r)
