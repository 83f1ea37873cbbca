-- ===== src/Multi/Lookup.antt =====
-- src/core_multiclient.c: the table as a map from keys to last sequence numbers.
use gate.Base.{
  ℕ, zero, suc, ◌≡◌, ◌<◌, refl, true, ◌&&◌, List, [], ◌∷◌, Option, none, some, Bytes, bytes_eq,
  bytes_eq→eq, bytes_eq_refl, get_or, set, length, if◌then◌else◌, arith,
}
use gate.Command.{SenderRecord}
use gate.Multi.{find_sender, find_free, blank}

-- The last sequence number of the sender with this key, if it is enrolled.
unfoldable pub last_of : Bytes → List SenderRecord → Option ℕ
last_of key [] = none
last_of key (s ∷ rest) =
    if s.used && bytes_eq s.public_key key then some s.last_sequence else last_of key rest

-- What `find_sender` finds.
pub record IsFound (key : Bytes) (senders : List SenderRecord) (i : ℕ) : Type 0 where
  pub used : (get_or senders i blank).used ≡ true
  pub key_same : (get_or senders i blank).public_key ≡ key
  pub known : last_of key senders ≡ some (get_or senders i blank).last_sequence

pub find_sender-some :
    (key : Bytes) (senders : List SenderRecord) (i : ℕ)
    → find_sender key senders ≡ some i
    → IsFound key senders i
unfolding find_sender last_of
find_sender-some key [] i h = cc
find_sender-some key (s ∷ rest) zero h = ground (arith, bytes_eq→eq s.public_key key)
find_sender-some key (s ∷ rest) (suc i) h =
    ground (arith, bytes_eq→eq s.public_key key, find_sender-some key rest i)

pub find_sender-none :
    (key : Bytes) (senders : List SenderRecord)
    → find_sender key senders ≡ none
    → last_of key senders ≡ none
unfolding find_sender last_of
find_sender-none key [] h = refl
find_sender-none key (s ∷ rest) h = ground (arith, find_sender-none key rest)

-- Writing a number to the record found for `key` changes the map at `key` alone.
pub last_of-set_found :
    (key k : Bytes) (senders : List SenderRecord) (i n : ℕ)
    → find_sender key senders ≡ some i
    → last_of k (set senders i (record (get_or senders i blank) { last_sequence = n }))
      ≡ (if bytes_eq key k then some n else last_of k senders)
unfolding find_sender last_of
last_of-set_found key k [] i n h = cc
last_of-set_found key k (s ∷ rest) zero n h = ground (arith, bytes_eq→eq s.public_key key)
last_of-set_found key k (s ∷ rest) (suc i) n h = ground (
  arith,
  bytes_eq→eq s.public_key k,
  bytes_eq→eq key k,
  bytes_eq_refl key,
  last_of-set_found key k rest i n,
)

-- Enrolling a key that the table does not have, in a free record, adds it to the map.
pub last_of-set_free :
    (key k : Bytes) (senders : List SenderRecord) (i n : ℕ)
    → find_sender key senders ≡ none
    → find_free senders ≡ some i
    → last_of k (set senders i (record { public_key = key; last_sequence = n; used = true }))
      ≡ (if bytes_eq key k then some n else last_of k senders)
unfolding find_sender find_free last_of
last_of-set_free key k [] i n h f = cc
last_of-set_free key k (s ∷ rest) zero n h f = ground arith
last_of-set_free key k (s ∷ rest) (suc i) n h f = ground (
  arith,
  bytes_eq→eq s.public_key k,
  bytes_eq→eq key k,
  bytes_eq_refl key,
  last_of-set_free key k rest i n,
)

pub find_free-some :
    (senders : List SenderRecord) (i : ℕ) → find_free senders ≡ some i → i < length senders
unfolding find_free
find_free-some [] i h = cc
find_free-some (s ∷ rest) zero h = omega arith
find_free-some (s ∷ rest) (suc i) h = ground (arith, find_free-some rest i)
