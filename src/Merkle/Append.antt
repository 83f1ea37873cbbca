-- ===== src/Merkle/Append.antt =====
-- src/tree.c: `merkle_append` is binary addition on the forest that the frontier stands for.
use native.Mathlib.Nat.{div-div-eq-div-mul, pow-suc}
use native.Mathlib.Numerals.{add-one}
use gate.Base.{
  ℕ, suc, ◌+◌, ◌/◌, ◌^◌, ◌<◌, ◌≡◌, refl, ap, sym, subst, ◌∙◌, true, false, List, [], ◌∷◌, ◌++◌,
  none, some, Bytes, get_or, set, length, length-append, replicate, u64, arith,
}
use mathlib.Core.List.{append_assoc}
use gate.Merkle.{
  Hash, MerkleTree, merkle_init, merkle_max_depth, bit, carry, merkle_append, append_all,
}
use gate.Merkle.Forest.{
  Tree, leaf, node, digest, Forest, insert, insert_all, HasCount, insert-HasCount, length-insert,
}

-- Every tree of the forest has its digest at its level of the frontier.
abbrev pub Represents : Hash → List Bytes → Forest → Type 0
Represents hash [] [] = Unit {0}
Represents hash [] (p ∷ f) = ⊥
Represents hash (h ∷ fr) [] = ⊥
Represents hash (h ∷ fr) (none ∷ f) = Represents hash fr f
Represents hash (h ∷ fr) (some t ∷ f) = (h ≡ digest hash t) × Represents hash fr f

pub div-pow-suc : (n i : ℕ) → n / 2 ^ (i + 1) ≡ n / 2 ^ i / 2
div-pow-suc n i =
    ap (λ k. n / 2 ^ k) (add-one i)
    ∙ (ap (λ k. n / k) (pow-suc 2 i) ∙ sym (div-div-eq-div-mul n (2 ^ i) 2))

pub get_or-middle :
    (pre : List Bytes) (h : Bytes) (suf : List Bytes)
    → get_or (pre ++ (h ∷ suf)) (length pre) [] ≡ h
get_or-middle [] h suf = refl
get_or-middle (x ∷ pre) h suf = get_or-middle pre h suf

set-middle :
    (pre : List Bytes) (h v : Bytes) (suf : List Bytes)
    → set (pre ++ (h ∷ suf)) (length pre) v ≡ pre ++ (v ∷ suf)
set-middle [] h v suf = refl
set-middle (x ∷ pre) h v suf = ap (◌∷◌ x) (set-middle pre h v suf)

pub length-snoc : (pre : List Bytes) (h : Bytes) → length (pre ++ (h ∷ [])) ≡ length pre + 1
length-snoc pre h = length-append pre (h ∷ [])

abbrev pub empty_forest : Forest
empty_forest = replicate merkle_max_depth none

module _ (hash : Hash) where
  carry-insert :
      (t : Tree) (f : Forest) (pre suf : List Bytes) (idx : ℕ)
      → Represents hash suf f
      → HasCount (idx / 2 ^ length pre) f
      → (suf' : List Bytes) × (carry hash (length suf) (length pre) idx (pre ++ suf) (digest hash t)
          ≡ pre ++ suf')
        × Represents hash suf' (insert t f)
  unfolding carry insert digest
  carry-insert t [] pre [] idx r c = ([], refl, tt)
  carry-insert t [] pre (h ∷ suf) idx r c = absurd r
  carry-insert t (p ∷ f) pre [] idx r c = absurd r
  carry-insert t (none ∷ f) pre (h ∷ suf) idx r c =
      let clear : bit idx (length pre) ≡ false = ground arith in
      (digest hash t ∷ suf, rw clear (set-middle pre h (digest hash t) suf), (refl, r))
  carry-insert t (some s ∷ f) pre (h ∷ suf) idx r c =
      let is_set : bit idx (length pre) ≡ true = ground arith in
      let one_more = length-snoc pre h in
      let halved : idx / 2 ^ length pre / 2 ≡ idx / 2 ^ length (pre ++ (h ∷ [])) =
        sym (ap (λ k. idx / 2 ^ k) one_more ∙ div-pow-suc idx (length pre)) in
      let (suf', e, r') =
        carry-insert (node s t) f (pre ++ (h ∷ [])) suf idx r.1
          (subst (λ m. HasCount m f) halved c.1) in
      let level = length pre in
      let e1 = rw (append_assoc pre (h ∷ []) suf, append_assoc pre (h ∷ []) suf', one_more) at e in
      let e2 : carry hash (length suf) (level + 1) idx (pre ++ (h ∷ suf))
            (hash (h ++ digest hash t))
          ≡ pre ++ (h ∷ suf') =
        subst
          (λ x.
            carry hash (length suf) (level + 1) idx (pre ++ (h ∷ suf)) (hash (x ++ digest hash t))
            ≡ pre ++ (h ∷ suf'))
          (sym r.0) e1 in
      (h ∷ suf', rw (is_set, get_or-middle pre h suf) e2, r')

  -- A tree in memory that stands for a forest: eight levels, counted by the leaves.
  pub record Stands (tree : MerkleTree) (f : Forest) : Type 0 where
    pub levels : length tree.frontier ≡ merkle_max_depth
    pub places : length f ≡ merkle_max_depth
    pub digests : Represents hash tree.frontier f
    pub counted : HasCount tree.leaf_count f

  pub merkle_init-Stands : Stands merkle_init empty_forest
  unfolding merkle_init
  merkle_init-Stands = record { levels = refl; places = refl; digests = tt; counted = omega arith }

  Represents-length : (fr : List Bytes) (f : Forest) → Represents hash fr f → length fr ≡ length f
  Represents-length [] [] r = refl
  Represents-length [] (p ∷ f) r = absurd r
  Represents-length (h ∷ fr) [] r = absurd r
  Represents-length (h ∷ fr) (none ∷ f) r = ap suc (Represents-length fr f r)
  Represents-length (h ∷ fr) (some t ∷ f) r = ap suc (Represents-length fr f r.1)

  -- Appending an entry inserts its leaf in the forest.
  pub merkle_append-Stands :
      (tree : MerkleTree) (f : Forest) (d : Bytes)
      → Stands tree f
      → tree.leaf_count + 1 < 2 ^ 64
      → Stands (merkle_append hash tree d) (insert (leaf d) f)
  unfolding merkle_append digest
  merkle_append-Stands tree f d v lt =
      let whole : tree.leaf_count ≡ tree.leaf_count / 2 ^ 0 = omega arith in
      let (suf', e, r') =
        carry-insert (leaf d) f [] tree.frontier tree.leaf_count v.digests
          (subst (λ m. HasCount m f) whole v.counted) in
      let placed : carry hash merkle_max_depth 0 tree.leaf_count tree.frontier (hash d) ≡ suf' =
        rw v.levels at e in
      let next : tree.leaf_count + 1 ≡ u64 (tree.leaf_count + 1) = omega arith in
      let digests = subst (λ fr. Represents hash fr (insert (leaf d) f)) (sym placed) r' in
      let places : length (insert (leaf d) f) ≡ merkle_max_depth =
        length-insert (leaf d) f ∙ v.places in
      record {
        levels = Represents-length _ _ digests ∙ places;
        places = places;
        digests = digests;
        counted =
            subst (λ m. HasCount m (insert (leaf d) f)) next
              (insert-HasCount (leaf d) tree.leaf_count f v.counted);
      }

  pub append_all-Stands :
      (ds : List Bytes) (tree : MerkleTree) (f : Forest)
      → Stands tree f
      → tree.leaf_count + length ds < 2 ^ 64
      → Stands (append_all hash tree ds) (insert_all f ds)
        × ((append_all hash tree ds).leaf_count ≡ tree.leaf_count + length ds)
  unfolding append_all insert_all merkle_append
  append_all-Stands [] tree f v lt = (v, omega arith)
  append_all-Stands (d ∷ ds) tree f v lt =
      let t1 = merkle_append hash tree d in
      let count : t1.leaf_count ≡ tree.leaf_count + 1 = omega arith in
      let rest =
        append_all-Stands ds t1 (insert (leaf d) f) (merkle_append-Stands tree f d v (omega arith))
          (omega (arith, count)) in
      (rest.0, omega (arith, rest.1, count))
