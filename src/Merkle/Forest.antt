-- ===== src/Merkle/Forest.antt =====
-- What src/tree.c stands for: a forest of binary trees over the entries, in order.
use gate.Base.{
  ℕ, zero, suc, ◌+◌, ◌*◌, ◌/◌, ◌%◌, ◌<◌, ◌≡◌, refl, ap, sym, subst, List, [], ◌∷◌, ◌++◌, Option,
  none, some, Bytes, length, arith,
}
use mathlib.Core.List.{append-nil, append_assoc}
use gate.Merkle.{Hash}

pub data Tree : Type 0 where
  leaf : Bytes → Tree
  node : Tree → Tree → Tree

unfoldable pub digest : Hash → Tree → Bytes
digest hash (leaf d) = hash d
digest hash (node l r) = hash (digest hash l ++ digest hash r)

-- The entries under a tree, left to right.
unfoldable pub leaves : Tree → List Bytes
leaves (leaf d) = d ∷ []
leaves (node l r) = leaves l ++ leaves r

-- One place for each level, lowest first; higher levels hold older entries.
abbrev pub Forest : Type 0
Forest = List (Option Tree)

abbrev pub place_leaves : Option Tree → List Bytes
place_leaves none = []
place_leaves (some t) = leaves t

unfoldable pub forest_leaves : Forest → List Bytes
forest_leaves [] = []
forest_leaves (p ∷ rest) = forest_leaves rest ++ place_leaves p

-- Binary addition of one tree. What is carried out of the top level is lost.
unfoldable pub insert : Tree → Forest → Forest
insert t [] = []
insert t (none ∷ rest) = some t ∷ rest
insert t (some s ∷ rest) = none ∷ insert (node s t) rest

-- The trees of a forest joined into one, lowest level first.
unfoldable pub join : Option Tree → Forest → Option Tree
join acc [] = acc
join acc (none ∷ rest) = join acc rest
join none (some t ∷ rest) = join (some t) rest
join (some a) (some t ∷ rest) = join (some (node t a)) rest

-- The places taken are the binary digits of `n`.
abbrev pub HasCount : ℕ → Forest → Type 0
HasCount n [] = Unit {0}
HasCount n (none ∷ rest) = (n % 2 ≡ 0) × HasCount (n / 2) rest
HasCount n (some t ∷ rest) = (n % 2 ≡ 1) × HasCount (n / 2) rest

abbrev pub two_pow : ℕ → ℕ
two_pow zero = 1
two_pow (suc k) = 2 * two_pow k

pub insert-HasCount : (t : Tree) (n : ℕ) (f : Forest) → HasCount n f → HasCount (n + 1) (insert t f)
unfolding insert
insert-HasCount t n [] h = tt
insert-HasCount t n (none ∷ rest) h =
    let same : n / 2 ≡ (n + 1) / 2 = omega arith in
    (omega arith, subst (λ m. HasCount m rest) same h.1)
insert-HasCount t n (some s ∷ rest) h =
    let next : n / 2 + 1 ≡ (n + 1) / 2 = omega arith in
    (
      omega arith,
      subst (λ m. HasCount m (insert (node s t) rest)) next
          (insert-HasCount (node s t) (n / 2) rest h.1),
    )

pub length-insert : (t : Tree) (f : Forest) → length (insert t f) ≡ length f
unfolding insert
length-insert t [] = refl
length-insert t (none ∷ rest) = refl
length-insert t (some s ∷ rest) = ap suc (length-insert (node s t) rest)

-- Inserting keeps every entry and puts the new ones last, unless the forest is full.
pub insert-leaves :
    (t : Tree) (n : ℕ) (f : Forest)
    → HasCount n f
    → n + 1 < two_pow (length f)
    → forest_leaves (insert t f) ≡ forest_leaves f ++ leaves t
unfolding insert forest_leaves leaves
insert-leaves t n [] h lt = absurd (omega arith)
insert-leaves t n (none ∷ rest) h lt = rw (append-nil (forest_leaves rest))
insert-leaves t n (some s ∷ rest) h lt = rw (
  append-nil (forest_leaves (insert (node s t) rest)),
  insert-leaves (node s t) (n / 2) rest h.1 (omega arith),
  append_assoc (forest_leaves rest) (leaves s) (leaves t),
)

-- Joining keeps every entry, in order.
pub join-leaves :
    (acc : Option Tree) (f : Forest)
    → place_leaves (join acc f) ≡ forest_leaves f ++ place_leaves acc
unfolding join forest_leaves leaves
join-leaves acc [] = refl
join-leaves acc (none ∷ rest) = rw append-nil (join-leaves acc rest)
join-leaves none (some t ∷ rest) = rw append-nil (join-leaves (some t) rest)
join-leaves (some a) (some t ∷ rest) =
    rw (append_assoc (forest_leaves rest) (leaves t) (leaves a))
      (join-leaves (some (node t a)) rest)

unfoldable pub insert_all : Forest → List Bytes → Forest
insert_all f [] = f
insert_all f (d ∷ ds) = insert_all (insert (leaf d) f) ds

pub insert_all-leaves :
    (f : Forest) (ds : List Bytes) (n : ℕ)
    → HasCount n f
    → n + length ds < two_pow (length f)
    → forest_leaves (insert_all f ds) ≡ forest_leaves f ++ ds
unfolding insert_all leaves
insert_all-leaves f [] n h lt = sym (append-nil (forest_leaves f))
insert_all-leaves f (d ∷ ds) n h lt =
    let f' = insert (leaf d) f in
    rw (
      insert_all-leaves f' ds (n + 1) (insert-HasCount (leaf d) n f h)
          (rw (length-insert (leaf d) f) (omega arith)),
      insert-leaves (leaf d) n f h (omega arith),
      append_assoc (forest_leaves f) (d ∷ []) ds,
    )
