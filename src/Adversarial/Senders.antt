-- ===== src/Adversarial/Senders.antt =====
-- gate0_adversarial.c: each sender's own sequence and rights over a series of attempts.
use gate.Base.{
  ℕ, ◌+◌, ◌≡◌, ◌≢◌, ◌⊎◌, inl, inr, refl, ap, sym, subst, ◌∙◌, List, [], ◌∷◌, none, some, get_or,
  set, Option-cases, Bool-cases, ◌==◌, if◌then◌else◌, arith,
}
use gate.Adversarial.{
  accept, GateVerdict, SenderState, Gate, find_sender, free_slot, bootstrap_sender, new_sender,
  no_sender, Attempt, attempt, serve,
}
use gate.Adversarial.Refusal.{Accepted, gate_evaluate-Accepted}
use gate.Adversarial.Lookup.{
  sender_of, find_sender-none, find_sender-some, sender_of-set_found, sender_of-set_free,
}

-- The record after an attempt.
data Moves (id : ℕ) (s : SenderState) (a : Attempt) (r : GateVerdict × Gate) : Type 0 where
  taken :
      r.0 ≡ accept
      → a.command.sender_id ≡ id
      → a.command.sequence ≡ s.current_seq + 1
      → sender_of id r.1.senders ≡ some (record s { current_seq = a.command.sequence })
      → Moves id s a r
  others :
      (r.0 ≢ accept) ⊎ (a.command.sender_id ≢ id)
      → sender_of id r.1.senders ≡ some s
      → Moves id s a r

next-known :
    (id : ℕ) (s : SenderState) (gate : Gate) (a : Attempt) (i : ℕ)
    → sender_of id gate.senders ≡ some s
    → find_sender a.command.sender_id gate.senders ≡ some i
    → (attempt gate a).0 ≡ accept
    → Accepted gate a.command a.now (attempt gate a).1
    → Moves id s a (attempt gate a)
next-known id s gate a i h e acc v =
    let k = a.command.sender_id in
    let r = get_or gate.senders i no_sender in
    let moved = record r { current_seq = a.command.sequence } in
    let (this, fits) = find_sender-some k gate.senders i e in
    let next : (a.command.sequence ≡ r.current_seq + 1)
        × ((attempt gate a).1.senders ≡ set gate.senders i moved) =
      ground (arith, e, v.next) in
    let own : r.sender_id ≡ k = ground (arith, fits) in
    let after : sender_of id (attempt gate a).1.senders
        ≡ (if k == id then some moved else sender_of id gate.senders) =
      ap (sender_of id) next.1 ∙ sender_of-set_found k id gate.senders i moved e refl own in
    elim (Bool-cases (k == id)) [
      | inr differs ↦ others (inr (ground (arith, differs))) (after ∙ rw differs h)
      | inl same ↦
          let equal : k ≡ id = ground (arith, same) in
          let old : r ≡ s = ground (arith, this, h, equal) in
          taken acc equal (next.0 ∙ ap (λ (x : SenderState). x.current_seq + 1) old) (
            after
            ∙ rw same (
                ap (λ (x : SenderState). some (record x { current_seq = a.command.sequence })) old))
    ]

next-unknown :
    (id : ℕ) (s : SenderState) (gate : Gate) (a : Attempt)
    → sender_of id gate.senders ≡ some s
    → find_sender a.command.sender_id gate.senders ≡ none
    → (attempt gate a).0 ≡ accept
    → Accepted gate a.command a.now (attempt gate a).1
    → Moves id s a (attempt gate a)
unfolding bootstrap_sender
next-unknown id s gate a h e acc v =
    let k = a.command.sender_id in
    let boot : bootstrap_sender gate.senders a.command ≡ some (attempt gate a).1.senders =
      ground (arith, e, v.next) in
    let absent = find_sender-none k gate.senders e in
    let differs : k ≢ id = λ same. ground (arith, absent, h, same) in
    elim (Option-cases (free_slot gate.senders)) [
      | inl full ↦ absurd (ground (arith, full, boot))
      | inr (i, free) ↦ others (inr differs) (
          ground (
            arith,
            boot,
            free,
            sender_of-set_free k id gate.senders i (new_sender a.command) free absent refl refl,
            differs,
          ))
    ]

attempt-Moves :
    (id : ℕ) (s : SenderState) (gate : Gate) (a : Attempt)
    → sender_of id gate.senders ≡ some s
    → Moves id s a (attempt gate a)
attempt-Moves id s gate a h = elim (gate_evaluate-Accepted gate a.command a.now) [
  | inr (refused, same) ↦ others (inl refused) (ap (λ (g : Gate). sender_of id g.senders) same ∙ h)
  | inl (acc, v) ↦ elim (Option-cases (find_sender a.command.sender_id gate.senders)) [
    | inl e ↦ next-unknown id s gate a h e acc v
    | inr (i, e) ↦ next-known id s gate a i h e acc v
  ]
]

-- The numbers of the commands that are accepted from one sender.
pub accepted_from : ℕ → Gate → List Attempt → List ℕ
accepted_from id gate [] = []
accepted_from id gate (a ∷ rest) =
    let done = attempt gate a in
    let later = accepted_from id done.1 rest in
    if a.command.sender_id == id
    then elim done.0 [ accept ↦ a.command.sequence ∷ later | _ ↦ later ]
    else later

-- Each number is the one before it plus one, the first counted from `last`.
abbrev pub Successive : ℕ → List ℕ → Type 0
Successive last [] = Unit {0}
Successive last (n ∷ ns) = (n ≡ last + 1) × Successive n ns

abbrev pub last_of : ℕ → List ℕ → ℕ
last_of last [] = last
last_of last (n ∷ ns) = last_of n ns

accepted_from-taken :
    (id : ℕ) (gate : Gate) (a : Attempt) (rest : List Attempt)
    → (attempt gate a).0 ≡ accept
    → a.command.sender_id ≡ id
    → accepted_from id gate (a ∷ rest)
      ≡ a.command.sequence ∷ accepted_from id (attempt gate a).1 rest
unfolding accepted_from
accepted_from-taken id gate a rest acc same = ground (arith, acc, same)

accepted_from-others :
    (id : ℕ) (gate : Gate) (a : Attempt) (rest : List Attempt)
    → ((attempt gate a).0 ≢ accept) ⊎ (a.command.sender_id ≢ id)
    → accepted_from id gate (a ∷ rest) ≡ accepted_from id (attempt gate a).1 rest
unfolding accepted_from
accepted_from-others id gate a rest h = ground (arith, h)

-- The numbers and the record that they lead to.
abbrev pub Leads : ℕ → SenderState → Gate → List ℕ → Type 0
Leads id s gate numbers =
    Successive s.current_seq numbers
    × (sender_of id gate.senders ≡ some (record s { current_seq = last_of s.current_seq numbers }))

-- Of a sender that has a slot: whatever it and all others send, and when, the numbers of its accepted commands
-- are consecutive from its current one, its record ends at the last of them, and its node and its
-- authority never change.
pub accepted_from-Successive :
    (id : ℕ) (s : SenderState) (gate : Gate) (attempts : List Attempt)
    → sender_of id gate.senders ≡ some s
    → Leads id s (serve gate attempts) (accepted_from id gate attempts)
unfolding serve
accepted_from-Successive id s gate [] h = unfold accepted_from in (tt, h)
accepted_from-Successive id s gate (a ∷ rest) h =
    let gate' = (attempt gate a).1 in
    elim (attempt-Moves id s gate a h) [
      | taken acc same number now ↦
          let s' = record s { current_seq = a.command.sequence } in
          let ih = accepted_from-Successive id s' gate' rest now in
          subst (Leads id s (serve gate' rest)) (sym (accepted_from-taken id gate a rest acc same))
            ((number, ih.0), ih.1)
      | others skipped now ↦
          subst (Leads id s (serve gate' rest)) (sym (accepted_from-others id gate a rest skipped))
            (accepted_from-Successive id s gate' rest now)
    ]
