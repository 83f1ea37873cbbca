-- ===== src/Persist/Recovery.antt =====
-- src/persistence.c: what recovery finds after writes that were whole and writes that were cut short.
use mathlib.Core.List.{append_assoc, append-nil}
use gate.Base.{
  ℕ, zero, suc, ◌≤◌, ◌<◌, ◌≡◌, refl, sym, subst, ◌∙◌, true, List, [], ◌∷◌, ◌++◌, Option, none, some,
  Bytes, take, drop, ◌==◌, length, length-append, take-append_of, drop-append_of, All, arith,
}
use gate.Command.{SenderRecord}
use gate.Persist.{
  success, failure, record_size, sender_of, record_of, persist_sender_state, read_records,
  recover_sender_state,
}
use gate.Persist.Layout.{IsSender, IsWhole, record_of-IsWhole, recovered}

-- A file of these records.
abbrev pub records : List Bytes → Bytes
records [] = []
records (r ∷ rs) = r ++ records rs

-- The last of the records, `latest` when there is none.
abbrev pub last_of : List Bytes → Option Bytes → Option Bytes
last_of [] latest = latest
last_of (r ∷ rs) latest = last_of rs (some r)

pub take-short : (n : ℕ) (b : Bytes) → length b < n → length (take n b) < n
take-short zero [] h = h
take-short (suc n) [] h = h
take-short zero (x ∷ b) h = omega arith
take-short (suc n) (x ∷ b) h = omega (arith, take-short n b (omega arith))

-- Whole records are read one by one; a tail that is shorter than a record is not read.
read_records-last :
    (rounds : ℕ) (rs : List Bytes) (tail : Bytes) (latest : Option Bytes)
    → All IsWhole rs
    → length tail < record_size
    → length rs < rounds
    → read_records rounds (records rs ++ tail) latest ≡ last_of rs latest
unfolding read_records
read_records-last zero rs tail latest w s lt = absurd (omega arith)
read_records-last (suc n) [] tail latest w s lt =
    let short : _ = take-short record_size tail s in ground (arith, short)
read_records-last (suc n) (r ∷ rs) tail latest w s lt =
    let body : Bytes = records rs ++ tail in
    let chunk : take record_size (r ++ body) ≡ r = take-append_of r body w.0 in
    let rest : drop record_size (r ++ body) ≡ body = drop-append_of r body w.0 in
    let whole : (length r == record_size) ≡ true = ground (arith, w.0) in
    rw (append_assoc r (records rs) tail, read_records, chunk, rest, whole)
      (read_records-last n rs tail (some r) w.1 s (omega arith))

length-records : (rs : List Bytes) → All IsWhole rs → length rs ≤ length (records rs)
length-records [] w = omega arith
length-records (r ∷ rs) w = omega (arith, length-records rs w.1, length-append r (records rs), w.0)

-- What recovery gives for whole records and a shorter tail.
pub recover-records :
    (rs : List Bytes) (tail : Bytes) (other : SenderRecord)
    → All IsWhole rs
    → length tail < record_size
    → recover_sender_state (records rs ++ tail) true other ≡ elim (last_of rs none) [
      | some latest ↦ (success, sender_of (take 256 (drop 44 latest)))
      | none ↦ (failure, other)
    ]
unfolding recover_sender_state
recover-records rs tail other w s =
    let enough : length rs < suc (length (records rs ++ tail)) =
      omega (arith, length-append (records rs) tail, length-records rs w) in
    rw (read_records-last (suc (length (records rs ++ tail))) rs tail none w s enough) refl

records-snoc : (rs : List Bytes) (r : Bytes) → records (rs ++ (r ∷ [])) ≡ records rs ++ r
records-snoc [] r = append-nil r
records-snoc (x ∷ rs) r = rw (records-snoc rs r) (sym (append_assoc x (records rs) r))

IsWhole-snoc :
    (rs : List Bytes) (r : Bytes) → All IsWhole rs → IsWhole r → All IsWhole (rs ++ (r ∷ []))
IsWhole-snoc [] r w v = (v, tt)
IsWhole-snoc (x ∷ rs) r w v = (w.0, IsWhole-snoc rs r w.1 v)

last_of-snoc :
    (rs : List Bytes) (r : Bytes) (latest : Option Bytes) → last_of (rs ++ (r ∷ [])) latest ≡ some r
last_of-snoc [] r latest = refl
last_of-snoc (x ∷ rs) r latest = last_of-snoc rs r (some x)

pub recover-last :
    (rs : List Bytes) (r tail : Bytes) (other : SenderRecord)
    → All IsWhole rs
    → IsWhole r
    → length tail < record_size
    → recover_sender_state (records rs ++ (r ++ tail)) true other
      ≡ (success, sender_of (take 256 (drop 44 r)))
recover-last rs r tail other w v s =
    let shape : records (rs ++ (r ∷ [])) ++ tail ≡ records rs ++ (r ++ tail) =
      rw (records-snoc rs r) (append_assoc (records rs) r tail) in
    subst (λ f. recover_sender_state f true other ≡ (success, sender_of (take 256 (drop 44 r))))
      shape
      (recover-records (rs ++ (r ∷ [])) tail other (IsWhole-snoc rs r w v) s
        ∙ rw (last_of-snoc rs r none) refl)

pub take_all : (r : Bytes) (n : ℕ) → length r ≡ n → take n r ≡ r
take_all r n l = subst (λ b. take n b ≡ r) (append-nil r) (take-append_of r [] l)

-- On a file of whole records, a persist of a sender that fits the struct, with a `write` that is
-- whole, reports success, and recovery then gives that sender back, whatever the file and the
-- caller's record held.
pub recover-persist :
    (rs : List Bytes) (s other : SenderRecord) (seq : ℕ)
    → All IsWhole rs
    → IsSender s
    → let done = persist_sender_state (records rs) s seq true record_size in
      (done.0 ≡ success) × (recover_sender_state done.1 true other ≡ (success, s))
unfolding persist_sender_state
recover-persist rs s other seq w v =
    let r = record_of s seq in
    let whole = record_of-IsWhole s seq v in
    let file : records rs ++ (r ++ []) ≡ records rs ++ take record_size r =
      rw (take_all r record_size whole, append-nil r) refl in
    (
      refl,
      subst (λ f. recover_sender_state f true other ≡ (success, s)) file
          (rw (recover-last rs r [] other w whole (omega arith), recovered s seq v) refl),
    )
