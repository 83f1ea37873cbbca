-- ===== src/Merkle/Root.antt =====
-- src/tree.c: `merkle_get_root` is the digest of one tree over all entries, in order.
use mathlib.Core.List.{append-nil, append_assoc}
use gate.Base.{
  ℕ, ◌+◌, ◌*◌, ◌/◌, ◌%◌, ◌^◌, ◌<◌, ◌≡◌, ◌≢◌, refl, ap, sym, subst, ◌∙◌, Bool, true, false, List, [],
  ◌∷◌, ◌++◌, Option, none, some, Bytes, length, arith,
}
use gate.Merkle.{
  Hash, MerkleTree, merkle_init, zero_hash, bit, fold_root, merkle_get_root, append_all,
}
use gate.Merkle.Forest.{
  Tree, node, digest, leaves, Forest, forest_leaves, place_leaves, join, join-leaves, insert_all,
  insert_all-leaves, HasCount, two_pow,
}
use gate.Merkle.Append.{
  Represents, Stands, empty_forest, div-pow-suc, get_or-middle, length-snoc, merkle_init-Stands,
  append_all-Stands,
}

abbrev is_active : Option Tree → Bool
is_active none = false
is_active (some t) = true

-- The root of a forest's joined tree; an empty one has the zero hash.
abbrev pub root_of : Hash → Option Tree → Bytes
root_of hash none = zero_hash
root_of hash (some t) = digest hash t

module _ (hash : Hash) where
  abbrev Folds : Forest → Option Tree → List Bytes → List Bytes → ℕ → Type 0
  Folds f acc pre suf count =
      fold_root hash (length suf) (length pre) count (pre ++ suf) (is_active acc) (root_of hash acc)
      ≡ root_of hash (join acc f)

  -- The rest of the fold, seen from one level lower.
  shift :
      (f : Forest) (acc : Option Tree) (pre suf : List Bytes) (h : Bytes) (count : ℕ)
      → HasCount (count / 2 ^ length pre / 2) f
      → (HasCount (count / 2 ^ length (pre ++ (h ∷ []))) f
          → Folds f acc (pre ++ (h ∷ [])) suf count)
      → fold_root hash
          (length suf)
          (length pre + 1)
          count
          (pre ++ (h ∷ suf))
          (is_active acc)
          (root_of hash acc)
        ≡ root_of hash (join acc f)
  shift f acc pre suf h count c rest =
      let one_more = length-snoc pre h in
      let halved : count / 2 ^ length pre / 2 ≡ count / 2 ^ length (pre ++ (h ∷ [])) =
        sym (ap (λ k. count / 2 ^ k) one_more ∙ div-pow-suc count (length pre)) in
      let e = rest (subst (λ m. HasCount m f) halved c) in
      rw (append_assoc pre (h ∷ []) suf, one_more) at e

  fold_root-join :
      (f : Forest) (acc : Option Tree) (pre suf : List Bytes) (count : ℕ)
      → Represents hash suf f
      → HasCount (count / 2 ^ length pre) f
      → fold_root hash
          (length suf)
          (length pre)
          count
          (pre ++ suf)
          (is_active acc)
          (root_of hash acc)
        ≡ root_of hash (join acc f)
  unfolding fold_root join digest
  fold_root-join [] acc pre [] count r c = refl
  fold_root-join [] acc pre (h ∷ suf) count r c = absurd r
  fold_root-join (p ∷ f) acc pre [] count r c = absurd r
  fold_root-join (none ∷ f) acc pre (h ∷ suf) count r c =
      let clear : bit count (length pre) ≡ false = ground arith in
      rw (clear, fold_root)
        (shift f acc pre suf h count c.1 (fold_root-join f acc (pre ++ (h ∷ [])) suf count r))
  fold_root-join (some t ∷ f) none pre (h ∷ suf) count r c =
      let is_set : bit count (length pre) ≡ true = ground arith in
      rw (is_set, get_or-middle pre h suf, fold_root)
        (subst
          (λ x.
            fold_root hash (length suf) (length pre + 1) count (pre ++ (h ∷ suf)) true x
            ≡ root_of hash (join (some t) f))
          (sym r.0)
          (shift f (some t) pre suf h count c.1
            (fold_root-join f (some t) (pre ++ (h ∷ [])) suf count r.1)))
  fold_root-join (some t ∷ f) (some a) pre (h ∷ suf) count r c =
      let is_set : bit count (length pre) ≡ true = ground arith in
      rw (is_set, get_or-middle pre h suf, fold_root)
        (subst
          (λ x.
            fold_root hash (length suf) (length pre + 1) count (pre ++ (h ∷ suf)) true
              (hash (x ++ digest hash a))
            ≡ root_of hash (join (some (node t a)) f))
          (sym r.0)
          (shift f (some (node t a)) pre suf h count c.1
            (fold_root-join f (some (node t a)) (pre ++ (h ∷ [])) suf count r.1)))

  pub get_root-join :
      (tree : MerkleTree) (f : Forest)
      → Stands hash tree f
      → merkle_get_root hash tree ≡ root_of hash (join none f)
  unfolding merkle_get_root
  get_root-join tree f v =
      let whole : tree.leaf_count ≡ tree.leaf_count / 2 ^ 0 = omega arith in
      let e =
        fold_root-join f none [] tree.frontier tree.leaf_count v.digests
          (subst (λ m. HasCount m f) whole v.counted) in
      rw v.levels at e

-- The tree that the root of a log is the digest of. Its shape depends on the number of entries alone.
abbrev pub log_tree : List Bytes → Option Tree
log_tree ds = join none (insert_all empty_forest ds)

pub log_tree-leaves : (ds : List Bytes) → length ds < 256 → place_leaves (log_tree ds) ≡ ds
unfolding forest_leaves
log_tree-leaves ds lt =
    join-leaves none (insert_all empty_forest ds)
    ∙ (append-nil (forest_leaves (insert_all empty_forest ds))
        ∙ insert_all-leaves empty_forest ds 0 (omega arith) (omega arith))

some_tree :
    (p : Option Tree) (ds : List Bytes)
    → place_leaves p ≡ ds
    → 0 < length ds
    → (t : Tree) × (p ≡ some t) × (leaves t ≡ ds)
some_tree none [] e h = absurd (omega arith)
some_tree none (d ∷ ds) e h = cc
some_tree (some t) ds e h = (t, refl, e)

-- A count that is a multiple of the capacity leaves no place taken.
join-clear :
    (f : Forest) (acc : Option Tree) (n q : ℕ)
    → n ≡ two_pow (length f) * q
    → HasCount n f
    → join acc f ≡ acc
unfolding join
join-clear [] acc n q e h = refl
join-clear (none ∷ f) acc n q e h =
    join-clear f acc (n / 2) q (half n (two_pow (length f) * q) (omega (arith, e))) h.1
  where
    half : (n m : ℕ) → n ≡ 2 * m → n / 2 ≡ m
    half n m e = omega arith
join-clear (some t ∷ f) acc n q e h =
    absurd (even n (two_pow (length f) * q) (omega (arith, e)) h.0)
  where
    even : (n m : ℕ) → n ≡ 2 * m → n % 2 ≢ 1
    even n m e = omega arith

module _ (hash : Hash) where
  pub root-log_tree :
      (ds : List Bytes)
      → length ds < 2 ^ 64
      → merkle_get_root hash (append_all hash merkle_init ds) ≡ root_of hash (log_tree ds)
  unfolding merkle_init
  root-log_tree ds lt =
      get_root-join hash (append_all hash merkle_init ds) (insert_all empty_forest ds)
        (append_all-Stands hash ds merkle_init empty_forest (merkle_init-Stands hash)
          (omega arith)).0

  -- The root of a log of 1 to 255 entries is the digest of one binary tree whose leaves are exactly
  -- the entries, in the order in which they were appended.
  pub get_root-leaves :
      (ds : List Bytes)
      → 0 < length ds
      → length ds < 256
      → (t : Tree) × (leaves t ≡ ds)
        × (merkle_get_root hash (append_all hash merkle_init ds) ≡ digest hash t)
  get_root-leaves ds pos lt =
      let (t, e, l) = some_tree (log_tree ds) ds (log_tree-leaves ds lt) pos in
      (t, l, root-log_tree ds (omega arith) ∙ ap (root_of hash) e)

  -- After every 256 entries, up to 2^64, the root is all zeros, whatever the entries are.
  pub get_root_blank :
      (ds : List Bytes)
      → length ds % 256 ≡ 0
      → length ds < 2 ^ 64
      → merkle_get_root hash (append_all hash merkle_init ds) ≡ zero_hash
  unfolding merkle_init
  get_root_blank ds z lt =
      let tree = append_all hash merkle_init ds in
      let f = insert_all empty_forest ds in
      let v =
        append_all-Stands hash ds merkle_init empty_forest (merkle_init-Stands hash)
          (omega arith) in
      let many : tree.leaf_count ≡ two_pow (length f) * (length ds / 256) =
        rw v.0.places (omega (arith, v.1)) in
      get_root-join hash tree f v.0
      ∙ ap (root_of hash) (join-clear f none tree.leaf_count (length ds / 256) many v.0.counted)
