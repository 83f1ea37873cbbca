-- ===== src/Persist/Torn.antt =====
-- src/persistence.c: what recovery finds after a write that was cut short.
use mathlib.Core.List.{append_assoc, append-nil}
use gate.Base.{
  sizes, ℕ, zero, suc, ◌+◌, ◌-◌, ◌≤◌, ◌<◌, ◌≡◌, refl, ap, sym, subst, ◌∙◌, true, false, List, [],
  ◌∷◌, ◌++◌, Bytes, take, drop, ◌==◌, length, length-append, drop-append_of, replicate, le_bytes,
  All, arith,
}
use gate.Command.{SenderRecord}
use gate.Persist.{
  success, failure, record_size, sender_bytes, sender_of, record_of, persist_sender_state,
  recover_sender_state,
}
use gate.Persist.Layout.{
  IsSender, IsWhole, record_of-IsWhole, sender_of-payload, length-sender_bytes,
}
use gate.Persist.Recovery.{records, recover-records, recover-last, take_all}

length-take : (n : ℕ) (b : Bytes) → length (take n b) ≤ n
length-take zero [] = omega arith
length-take zero (x ∷ b) = omega arith
length-take (suc n) [] = omega arith
length-take (suc n) (x ∷ b) = omega (arith, length-take n b)

length-take_le : (n : ℕ) (b : Bytes) → n ≤ length b → length (take n b) ≡ n
length-take_le zero [] le = refl
length-take_le zero (x ∷ b) le = refl
length-take_le (suc n) [] le = absurd (omega arith)
length-take_le (suc n) (x ∷ b) le = ap suc (length-take_le n b (omega arith))

length-drop : (n : ℕ) (b : Bytes) → length (drop n b) ≡ length b - n
length-drop zero [] = refl
length-drop zero (x ∷ b) = omega arith
length-drop (suc n) [] = omega arith
length-drop (suc n) (x ∷ b) = omega (arith, length-drop n b)

take-drop : (n : ℕ) (b : Bytes) → take n b ++ drop n b ≡ b
take-drop zero [] = refl
take-drop zero (x ∷ b) = refl
take-drop (suc n) [] = refl
take-drop (suc n) (x ∷ b) = ap (λ r. x ∷ r) (take-drop n b)

-- On a file of whole records, a `write` that is cut short is reported, and recovery gives what it
-- gave before.
pub recover-torn :
    (rs : List Bytes) (s other : SenderRecord) (seq cut : ℕ)
    → All IsWhole rs
    → IsSender s
    → cut < record_size
    → let done = persist_sender_state (records rs) s seq true cut in
      (done.0 ≡ failure)
      × (recover_sender_state done.1 true other ≡ recover_sender_state (records rs) true other)
unfolding persist_sender_state
recover-torn rs s other seq cut w v lt =
    let r = record_of s seq in
    let differs : (cut == record_size) ≡ false = ground arith in
    let short : length (take cut r) < record_size = omega (arith, length-take cut r) in
    (
      rw differs refl,
      recover-records rs (take cut r) other w short
          ∙ (sym (recover-records rs [] other w (omega arith))
              ∙ ap (λ f. recover_sender_state f true other) (append-nil (records rs))),
    )

-- A cut beyond a prefix.
take-over : (a b : Bytes) (n m : ℕ) → n ≡ length a + m → take n (a ++ b) ≡ a ++ take m b
take-over [] b n m h = ap (λ k. take k b) (omega (arith, h))
take-over (x ∷ a) b zero m h = absurd (omega (arith, h))
take-over (x ∷ a) b (suc n) m h = ap (λ r. x ∷ r) (take-over a b n m (omega (arith, h)))

-- The sender of a record that begins with the first 85 bytes, or more, of one that was written.
recovered-cut :
    (s : SenderRecord) (seq cut : ℕ) (rest : Bytes)
    → IsSender s
    → 85 ≤ cut
    → sender_of (take 256 (drop 44 (take cut (record_of s seq) ++ rest))) ≡ s
unfolding record_of
recovered-cut s seq cut rest v le =
    let head : Bytes = le_bytes 8 seq ++ (le_bytes 4 41 ++ replicate 32 0) in
    let zeros : Bytes = replicate 215 0 ++ replicate 4 0 in
    let body : Bytes = sender_bytes s in
    let front : length head ≡ 44 = simp sizes in
    let size : length body ≡ 41 = length-sender_bytes s v in
    let shape : record_of s seq ≡ head ++ (body ++ zeros) = simp append_assoc in
    let cut1 : take cut (head ++ (body ++ zeros)) ≡ head ++ take (cut - 44) (body ++ zeros) =
      take-over head (body ++ zeros) cut (cut - 44) (omega (arith, front)) in
    let cut2 : take (cut - 44) (body ++ zeros) ≡ body ++ take (cut - 85) zeros =
      take-over body zeros (cut - 44) (cut - 85) (omega (arith, size)) in
    let tail : Bytes = take (cut - 85) zeros ++ rest in
    let whole : take cut (record_of s seq) ++ rest ≡ head ++ (body ++ tail) =
      ap (λ b. take cut b ++ rest) shape
      ∙ (ap (λ b. b ++ rest) (cut1 ∙ ap (λ b. head ++ b) cut2) ∙ simp append_assoc) in
    ap (λ b. sender_of (take 256 (drop 44 b))) whole
    ∙ (ap (λ b. sender_of (take 256 b)) (drop-append_of head (body ++ tail) front)
        ∙ (ap sender_of (take-over body tail 256 215 (omega (arith, size)))
            ∙ sender_of-payload s (take 215 tail) v))

-- On a file of whole records, if a write of `s` was cut short at 85 bytes or more, then the next
-- persist, of `t`, with a `write` that is whole, reports success, and recovery gives `s`.
pub recover_misaligned :
    (rs : List Bytes) (s t other : SenderRecord) (seq next cut : ℕ)
    → All IsWhole rs
    → IsSender s
    → IsSender t
    → 85 ≤ cut
    → cut < record_size
    → let torn = persist_sender_state (records rs) s seq true cut in
      let done = persist_sender_state torn.1 t next true record_size in
      (done.0 ≡ success) × (recover_sender_state done.1 true other ≡ (success, s))
unfolding persist_sender_state
recover_misaligned rs s t other seq next cut w v v' le lt =
    let a : Bytes = take cut (record_of s seq) in
    let b : Bytes = record_of t next in
    let k : ℕ = record_size - cut in
    let size_a : length a ≡ cut =
      length-take_le cut (record_of s seq) (omega (arith, record_of-IsWhole s seq v)) in
    let size_b : length b ≡ record_size = record_of-IsWhole t next v' in
    let mixed : Bytes = a ++ take k b in
    let mixed_whole : IsWhole mixed =
      omega
        (arith, length-append a (take k b), size_a, length-take_le k b (omega (arith, size_b))) in
    let left : length (drop k b) < record_size = omega (arith, length-drop k b, size_b) in
    let file : records rs ++ (mixed ++ drop k b) ≡ (records rs ++ a) ++ take record_size b =
      rw (take_all b record_size size_b) (
        ap (λ c. records rs ++ c) (append_assoc a (take k b) (drop k b))
        ∙ (ap (λ c. records rs ++ (a ++ c)) (take-drop k b)
            ∙ sym (append_assoc (records rs) a b))) in
    (
      refl,
      subst (λ f. recover_sender_state f true other ≡ (success, s)) file
          (recover-last rs mixed (drop k b) other w mixed_whole left
            ∙ ap (λ x. (success, x)) (recovered-cut s seq cut (take k b) v le)),
    )
