-- ===== src/Recover/RoundTrip.antt =====
-- wal_test.c and wal_recover.c: what is recovered is what was written, if all of it was.
use mathlib.Core.List.{append_assoc, append-nil}
use native.Mathlib.Nat.{lt_of_le_of_lt}
use native.Mathlib.Decide.{dec_lt}
use gate.Base.{
  ℕ, ◌⊎◌, inl, inr, false, ◌^◌, ◌≤◌, ◌<◌, ◌≡◌, ◌≢◌, Option, refl, ap, sym, ◌∙◌, [], ◌++◌, none,
  some, Bytes, c_string, length, take, drop, length-le_bytes, take-append_of, drop-append_of,
  length-take_le, ◌==◌, le_bytes, of_le, of_le-le_bytes, arith, sizes,
}
use gate.Recover.{
  WalRecord, record_size, record_bytes, test_text, test_record, Write, not_opened, not_written,
  wrote, wal_test_main, wal_recover_main,
}

-- The fields fit their places.
pub record IsRecord (r : WalRecord) (padding : Bytes) : Type 0 where
  pub sequence_u64 : r.sequence < 2 ^ 64
  pub hash_32 : length r.hash ≡ 32
  pub payload_256 : length r.payload ≡ 256
  pub padding_4 : length padding ≡ 4

length-record :
    (r : WalRecord) (padding : Bytes)
    → IsRecord r padding
    → length (record_bytes r padding) ≡ record_size
unfolding record_bytes
length-record r padding v = grind (arith, sizes)

drop-payload :
    (r : WalRecord) (padding : Bytes)
    → IsRecord r padding
    → drop 44 (record_bytes r padding) ≡ r.payload ++ padding
unfolding record_bytes
drop-payload r padding v =
    let front = le_bytes 8 r.sequence ++ (le_bytes 4 r.record_length ++ r.hash) in
    let grouped : record_bytes r padding ≡ front ++ (r.payload ++ padding) = simp append_assoc in
    ap (drop 44) grouped
    ∙ drop-append_of {n = 44} front (r.payload ++ padding) (grind (arith, sizes))

sequence-record :
    (r : WalRecord) (padding : Bytes)
    → IsRecord r padding
    → of_le (take 8 (record_bytes r padding)) ≡ r.sequence
unfolding record_bytes
sequence-record r padding v =
    ap of_le (take-append_of (le_bytes 8 r.sequence) _ (length-le_bytes 8 r.sequence))
    ∙ of_le-le_bytes 8 r.sequence v.sequence_u64

-- Any record whose fields fit, padded anyhow and with anything behind it, is recovered with its number and its
-- text up to the first NUL, the padding being read for one where the payload has none. Its hash and its
-- length make no difference.
pub recover-record :
    (r : WalRecord) (padding rest : Bytes)
    → IsRecord r padding
    → wal_recover_main (some (record_bytes r padding ++ rest))
      ≡ (0, some (r.sequence, c_string (r.payload ++ padding)))
unfolding wal_recover_main
recover-record r padding rest v =
    let whole = take-append_of (record_bytes r padding) rest (length-record r padding v) in
    rw (whole, length-record r padding v, drop-payload r padding v, sequence-record r padding v)
      refl

test-IsRecord : (padding : Bytes) → length padding ≡ 4 → IsRecord test_record padding
unfolding test_record
test-IsRecord padding h = record {
  sequence_u64 = omega arith;
  hash_32 = refl;
  payload_256 = refl;
  padding_4 = h;
}

lt→ne : (a b : ℕ) → a < b → (a == b) ≡ false
lt→ne a b h = ground arith

-- A file that is too short is refused.
recover-short :
    (file : Bytes) → length file < record_size → wal_recover_main (some file) ≡ (1, none)
unfolding wal_recover_main
recover-short file h =
    let less : length (take record_size file) < record_size =
      lt_of_le_of_lt (length-take_le record_size file).1 h in
    rw (lt→ne (length (take record_size file)) record_size less) refl

-- `write` returns no more than it was asked for.
abbrev pub Obeys : Write → Type 0
Obeys (wrote n) = n ≤ record_size
Obeys _ = Unit {0}

written : Write → ℕ
written (wrote n) = n
written _ = 0

-- A record of the writer, written whole.
whole-recovered :
    (padding : Bytes)
    → length padding ≡ 4
    → wal_recover_main (some (take record_size (record_bytes test_record padding)))
      ≡ (0, some (1, test_text))
whole-recovered padding h =
    let bytes = record_bytes test_record padding in
    let v = test-IsRecord padding h in
    let taken : take record_size bytes ≡ bytes ++ [] =
      ap (take record_size) (sym (append-nil bytes))
      ∙ take-append_of bytes [] (length-record test_record padding v)
      ∙ sym (append-nil bytes) in
    ap (λ f. wal_recover_main (some f)) taken
    ∙ recover-record test_record padding [] v
    ∙ unfold test_record c_string in refl

-- Whatever the file held and however the writer's calls end, with a `write` that returns no more than it was asked
-- for: the writer reports success exactly if all of the record was written, and the recovery then
-- succeeds, with number 1 and the writer's text. If the file does not open for the writer, it is
-- left as it was, so that the recovery finds what it found before. After a `write` that fails or is
-- short the recovery fails too.
pub test-recovered :
    (padding : Bytes) (file : Option Bytes) (w : Write)
    → length padding ≡ 4
    → Obeys w
    → let done = wal_test_main padding w file in
      ((done.0 ≡ 0)
        × (w ≡ wrote record_size)
        × (wal_recover_main done.1 ≡ (0, some (1, test_text))))
      ⊎ ((done.0 ≡ 1) × (w ≡ not_opened) × (done.1 ≡ file))
      ⊎ ((done.0 ≡ 1)
          × (w ≢ not_opened)
          × (w ≢ wrote record_size)
          × (wal_recover_main done.1 ≡ (1, none)))
unfolding wal_test_main written
test-recovered padding file not_opened h obeys = inr (inl (refl, refl, refl))
test-recovered padding file not_written h obeys =
    inr (inr (refl, (λ e. cc), (λ e. cc), recover-short [] (omega arith)))
test-recovered padding file (wrote n) h within =
    let bytes = record_bytes test_record padding in
    elim (dec_lt n record_size) [
      | yes less ↦ inr (
          inr (
            ground arith,
            (λ e. cc),
            (λ e. omega (arith, less, ap written e)),
            recover-short (take n bytes) (omega (arith, (length-take_le n bytes).0)),
          ))
      | no all ↦
          let full : n ≡ record_size = omega arith in
          inl (
            ground arith,
            ap wrote full,
            ap (λ k. wal_recover_main (some (take k bytes))) full ∙ whole-recovered padding h,
          )
    ]
