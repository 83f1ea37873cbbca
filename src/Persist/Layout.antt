-- ===== src/Persist/Layout.antt =====
-- src/persistence.c: the bytes of a record, and the sender read back from them.
use mathlib.Core.List.{append_assoc}
use gate.Base.{
  sizes, ℕ, ◌<◌, ◌^◌, ◌≡◌, refl, ap, sym, ◌∙◌, Bool, true, false, ◌++◌, Bytes, take, drop, truthy,
  length, length-le_bytes, length-append, take-append_of, drop-append_of, replicate, le_bytes,
  of_le, of_le-le_bytes, pow256, if◌then◌else◌, arith,
}
use gate.Command.{SenderRecord}
use gate.Persist.{record_size, sender_bytes, sender_of, record_of}

-- The record fits the struct.
pub record IsSender (s : SenderRecord) : Type 0 where
  pub key_32 : length s.public_key ≡ 32
  pub sequence_u64 : s.last_sequence < 2 ^ 64

abbrev pub IsWhole : Bytes → Type 0
IsWhole r = length r ≡ record_size

pub length-sender_bytes : (s : SenderRecord) → IsSender s → length (sender_bytes s) ≡ 41
unfolding sender_bytes
length-sender_bytes s v = simp (sizes, v.key_32)

pub record_of-IsWhole : (s : SenderRecord) (seq : ℕ) → IsSender s → IsWhole (record_of s seq)
unfolding record_of sender_bytes
record_of-IsWhole s seq v = simp (sizes, v.key_32)

flag : (b : Bool) → truthy (if b then 1 else 0) ≡ b
flag true = refl
flag false = refl

small : (b : Bool) → (if b then 1 else 0) < pow256 1
small true = omega arith
small false = omega arith

-- The sender that a record carries in its payload.
pub sender_of-payload :
    (s : SenderRecord) (rest : Bytes) → IsSender s → sender_of (sender_bytes s ++ rest) ≡ s
unfolding sender_of sender_bytes
sender_of-payload s rest v =
    let key = s.public_key in
    let number = le_bytes 8 s.last_sequence in
    let bool : Bytes = le_bytes 1 (if s.used then 1 else 0) in
    let tail : Bytes = bool ++ rest in
    let shape : (key ++ (number ++ bool)) ++ rest ≡ key ++ (number ++ tail) = simp append_assoc in
    let split : key ++ (number ++ tail) ≡ (key ++ number) ++ tail =
      sym (append_assoc key number tail) in
    let front : length (key ++ number) ≡ 40 = simp (sizes, v.key_32) in
    let used : truthy (of_le (take 1 tail)) ≡ s.used =
      ap (λ b. truthy (of_le b))
        (take-append_of bool rest (length-le_bytes 1 (if s.used then 1 else 0)))
      ∙ (ap truthy (of_le-le_bytes 1 (if s.used then 1 else 0) (small s.used)) ∙ flag s.used) in
    rw shape (λ i. record {
      public_key = take-append_of key (number ++ tail) v.key_32 i;
      last_sequence =
          (ap (λ b. of_le (take 8 b)) (drop-append_of key (number ++ tail) v.key_32)
              ∙ (ap of_le (take-append_of number tail (length-le_bytes 8 s.last_sequence))
                  ∙ of_le-le_bytes 8 s.last_sequence v.sequence_u64))
            i;
      used =
          (ap (λ b. truthy (of_le (take 1 (drop 40 b)))) split
              ∙ (ap (λ b. truthy (of_le (take 1 b))) (drop-append_of (key ++ number) tail front)
                  ∙ used))
            i;
    })

pub recovered :
    (s : SenderRecord) (seq : ℕ) → IsSender s → sender_of (take 256 (drop 44 (record_of s seq))) ≡ s
unfolding record_of
recovered s seq v =
    let head : Bytes = le_bytes 8 seq ++ (le_bytes 4 41 ++ replicate 32 0) in
    let payload : Bytes = sender_bytes s ++ replicate 215 0 in
    let shape : record_of s seq ≡ head ++ (payload ++ replicate 4 0) = simp append_assoc in
    let front : length head ≡ 44 = simp sizes in
    let size : length payload ≡ 256 =
      omega (arith, length-append (sender_bytes s) (replicate 215 0), length-sender_bytes s v) in
    ap (λ b. sender_of (take 256 (drop 44 b))) shape
    ∙ (ap (λ b. sender_of (take 256 b)) (drop-append_of head (payload ++ replicate 4 0) front)
        ∙ (ap sender_of (take-append_of payload (replicate 4 0) size)
            ∙ sender_of-payload s (replicate 215 0) v))
