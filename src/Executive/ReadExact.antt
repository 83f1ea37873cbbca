-- ===== src/Executive/ReadExact.antt =====
-- src/executive.c: read_exact, which calls `read` until the buffer is full, the stream ends or a call fails.
use native.Mathlib.Decide.{dec_lt}
use gate.Base.{
  ℕ, suc, ◌+◌, ◌-◌, ◌≤◌, ◌<◌, ◌≡◌, refl, ap, sym, ◌∙◌, subst, List, [], ◌∷◌, ◌++◌, Option, none,
  some, Bytes, length, length-append, take-append_of, take, ltb, if◌then◌else◌, arith,
}
use mathlib.Core.List.{append_assoc, append-nil}

-- What one call of `read` gives: bytes, none of them at the end of the stream; EINTR; another error.
pub data Read : Type 0 where
  got : Bytes → Read
  interrupted failed : Read

-- What `read_exact` gives: -1, or the bytes that it put into the buffer, whose number it returns.
pub data Exact : Type 0 where
  error : Exact
  filled : Bytes → Exact

-- The loop, with the bytes read so far and the results of the calls to come; `none` if these run out
-- before it ends.
read_on : ℕ → Bytes → List Read → Option Exact
read_on size so_far [] = if ltb (length so_far) size then none else some (filled so_far)
read_on size so_far (got [] ∷ rest) = some (filled so_far)
read_on size so_far (got (b ∷ bs) ∷ rest) =
    let more = read_on size (so_far ++ b ∷ bs) rest in
    if ltb (length so_far) size then more else some (filled so_far)
read_on size so_far (interrupted ∷ rest) =
    let more = read_on size so_far rest in
    if ltb (length so_far) size then more else some (filled so_far)
read_on size so_far (failed ∷ rest) =
    if ltb (length so_far) size then some error else some (filled so_far)

unfoldable pub read_exact : ℕ → List Read → Option Exact
unfolding read_on
read_exact size calls = read_on size [] calls

-- No call gives more bytes than it was asked for.
abbrev pub Obeys : ℕ → List Read → Type 0
Obeys room [] = Unit {0}
Obeys room (got bytes ∷ rest) = (length bytes ≤ room) × Obeys (room - length bytes) rest
Obeys room (interrupted ∷ rest) = Obeys room rest
Obeys room (failed ∷ rest) = Unit {0}

-- How many of the calls are not interrupted.
abbrev pub answered : List Read → ℕ
answered [] = 0
answered (got bytes ∷ rest) = suc (answered rest)
answered (interrupted ∷ rest) = answered rest
answered (failed ∷ rest) = suc (answered rest)

-- The bytes of the stream up to its end or to a failure.
abbrev pub stream : List Read → Bytes
stream [] = []
stream (got [] ∷ rest) = []
stream (got (b ∷ bs) ∷ rest) = (b ∷ bs) ++ stream rest
stream (interrupted ∷ rest) = stream rest
stream (failed ∷ rest) = []

-- Does the stream fail, rather than end or go on?
abbrev pub Fails : List Read → Type 0
Fails [] = ⊥
Fails (got [] ∷ rest) = ⊥
Fails (got (b ∷ bs) ∷ rest) = Fails rest
Fails (interrupted ∷ rest) = Fails rest
Fails (failed ∷ rest) = Unit {0}

-- Does the stream end, rather than fail or go on?
abbrev pub Ends : List Read → Type 0
Ends [] = ⊥
Ends (got [] ∷ rest) = Unit {0}
Ends (got (b ∷ bs) ∷ rest) = Ends rest
Ends (interrupted ∷ rest) = Ends rest
Ends (failed ∷ rest) = ⊥

-- What the result must be.
pub data IsExact (size : ℕ) (bytes : Bytes) (calls : List Read) : Exact → Type 0 where
  full : (b : Bytes) → length b ≡ size → b ≡ take size bytes → IsExact size bytes calls (filled b)
  short :
      (b : Bytes) → Ends calls → length b < size → b ≡ bytes → IsExact size bytes calls (filled b)
  broken : Fails calls → length bytes < size → IsExact size bytes calls error

IsExact-move :
    {size : ℕ} {a b : Bytes} {calls more : List Read} {r : Exact}
    → (Fails calls → Fails more)
    → (Ends calls → Ends more)
    → a ≡ b
    → IsExact size a calls r
    → IsExact size b more r
IsExact-move {size} f g e (full c n h) = full c n (h ∙ ap (take size) e)
IsExact-move f g e (short c ends n h) = short c (g ends) n (h ∙ e)
IsExact-move {size} f g e (broken fails n) = broken (f fails) (subst (λ x. length x < size) e n)

-- Where the buffer is already full.
IsExact-full :
    (size : ℕ) (a b : Bytes) (calls : List Read) (e : Option Exact)
    → length a ≡ size
    → e ≡ some (filled a)
    → (r : Exact) × (e ≡ some r) × IsExact size (a ++ b) calls r
IsExact-full size a b calls e h k = (filled a, k, full a h (sym (take-append_of a b h)))

IsExact-end :
    (size : ℕ) (a : Bytes) (calls : List Read)
    → length a ≤ size
    → Ends calls
    → IsExact size (a ++ []) calls (filled a)
IsExact-end size a calls h ends = elim (dec_lt (length a) size) [
  | yes less ↦ short a ends less (sym (append-nil a))
  | no same ↦ full a (omega arith) (sym (take-append_of a [] (omega arith)))
]

read_on-total :
    (size : ℕ) (so_far : Bytes) (calls : List Read)
    → length so_far ≤ size
    → Obeys (size - length so_far) calls
    → size ≤ length so_far + answered calls
    → (r : Exact) × (read_on size so_far calls ≡ some r)
      × IsExact size (so_far ++ stream calls) calls r
unfolding read_on
read_on-total size so_far [] within obeys enough =
    IsExact-full size so_far [] [] _ (omega arith) (ground arith)
read_on-total size so_far (got [] ∷ rest) within obeys enough =
    (filled so_far, refl, IsExact-end size so_far (got [] ∷ rest) within tt)
read_on-total size so_far (got (b ∷ bs) ∷ rest) within obeys enough =
    let longer = length-append so_far (b ∷ bs) in
    elim (dec_lt (length so_far) size) [
      | no same ↦
          IsExact-full size so_far ((b ∷ bs) ++ stream rest) (got (b ∷ bs) ∷ rest) _ (omega arith)
            (ground arith)
      | yes less ↦
          let (r, gives, fits) =
            read_on-total size (so_far ++ b ∷ bs) rest (omega (arith, longer, obeys.0))
              (subst (λ k. Obeys k rest) (omega (arith, longer, obeys.0)) obeys.1)
              (omega (arith, longer)) in
          (
            r,
            ground (arith, gives),
            IsExact-move (λ f. f) (λ f. f) (append_assoc so_far (b ∷ bs) (stream rest)) fits,
          )
    ]
read_on-total size so_far (interrupted ∷ rest) within obeys enough =
    elim (dec_lt (length so_far) size) [
      | no same ↦
          IsExact-full size so_far (stream rest) (interrupted ∷ rest) _ (omega arith) (ground arith)
      | yes less ↦
          let (r, gives, fits) = read_on-total size so_far rest within obeys enough in
          (r, ground (arith, gives), IsExact-move (λ f. f) (λ f. f) refl fits)
    ]
read_on-total size so_far (failed ∷ rest) within obeys enough = elim (dec_lt (length so_far) size) [
  | no same ↦ IsExact-full size so_far [] (failed ∷ rest) _ (omega arith) (ground arith)
  | yes less ↦
      (error, ground arith, broken tt (subst (λ x. length x < size) (sym (append-nil so_far)) less))
]

-- `read_exact` ends: if no call of `read` gives more than it was asked for, then after at most `size` calls
-- that are not interrupted, among any number that are, it returns, however the bytes come in pieces. It has
-- then read the first `size` bytes of the stream; or fewer, only if the stream came to its end, and
-- then all that it gave; or it returns -1, only if a call failed before `size` bytes had come.
pub read_exact-total :
    (size : ℕ) (calls : List Read)
    → Obeys size calls
    → size ≤ answered calls
    → (r : Exact) × (read_exact size calls ≡ some r) × IsExact size (stream calls) calls r
unfolding read_exact
read_exact-total size calls obeys enough =
    read_on-total size [] calls (omega arith) (subst (λ k. Obeys k calls) (omega arith) obeys)
      (omega arith)
