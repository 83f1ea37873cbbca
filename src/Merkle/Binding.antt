-- ===== src/Merkle/Binding.antt =====
-- src/tree.c: two logs with the same root are the same log, or exhibit a collision of the hash.
use gate.Base.{
  ◌<◌, ◌≡◌, refl, ap, ap₂, sym, ◌∙◌, ◌⊎◌, inl, inr, List, [], ◌∷◌, ◌++◌, Option, none, some, Bytes,
  Collision, equal_or_collide, take, drop, length, take-append_of, drop-append_of, arith,
}
use gate.Merkle.{Hash, merkle_init, merkle_get_root, append_all, hash_bytes}
use gate.Merkle.Forest.{
  Tree, leaf, node, digest, leaves, Forest, insert, insert_all, join, place_leaves,
}
use gate.Merkle.Append.{empty_forest}
use gate.Merkle.Root.{root_of, log_tree, log_tree-leaves, root-log_tree}

abbrev pub SameShape : Tree → Tree → Type 0
SameShape (leaf a) (leaf b) = Unit {0}
SameShape (leaf a) (node l r) = ⊥
SameShape (node l r) (leaf a) = ⊥
SameShape (node l r) (node l' r') = SameShape l l' × SameShape r r'

abbrev SamePlace : Option Tree → Option Tree → Type 0
SamePlace none none = Unit {0}
SamePlace none (some t) = ⊥
SamePlace (some t) none = ⊥
SamePlace (some t) (some u) = SameShape t u

abbrev SameForest : Forest → Forest → Type 0
SameForest [] [] = Unit {0}
SameForest [] (p ∷ f) = ⊥
SameForest (p ∷ f) [] = ⊥
SameForest (p ∷ f) (q ∷ g) = SamePlace p q × SameForest f g

insert-Same :
    (f g : Forest) (t u : Tree)
    → SameForest f g
    → SameShape t u
    → SameForest (insert t f) (insert u g)
unfolding insert
insert-Same [] [] t u s e = tt
insert-Same [] (p ∷ g) t u s e = absurd s
insert-Same (p ∷ f) [] t u s e = absurd s
insert-Same (none ∷ f) (none ∷ g) t u s e = (e, s.1)
insert-Same (none ∷ f) (some y ∷ g) t u s e = absurd s.0
insert-Same (some x ∷ f) (none ∷ g) t u s e = absurd s.0
insert-Same (some x ∷ f) (some y ∷ g) t u s e =
    (tt, insert-Same f g (node x t) (node y u) s.1 (s.0, e))

insert_all-Same :
    (ds es : List Bytes) (f g : Forest)
    → length ds ≡ length es
    → SameForest f g
    → SameForest (insert_all f ds) (insert_all g es)
unfolding insert_all
insert_all-Same [] [] f g l s = s
insert_all-Same [] (e ∷ es) f g l s = absurd (omega arith)
insert_all-Same (d ∷ ds) [] f g l s = absurd (omega arith)
insert_all-Same (d ∷ ds) (e ∷ es) f g l s =
    insert_all-Same ds es (insert (leaf d) f) (insert (leaf e) g) (omega arith)
      (insert-Same f g (leaf d) (leaf e) s tt)

join-Same :
    (f g : Forest) (a b : Option Tree)
    → SameForest f g
    → SamePlace a b
    → SamePlace (join a f) (join b g)
unfolding join
join-Same [] [] a b s p = p
join-Same [] (q ∷ g) a b s p = absurd s
join-Same (q ∷ f) [] a b s p = absurd s
join-Same (none ∷ f) (none ∷ g) a b s p = join-Same f g a b s.1 p
join-Same (none ∷ f) (some y ∷ g) a b s p = absurd s.0
join-Same (some x ∷ f) (none ∷ g) a b s p = absurd s.0
join-Same (some x ∷ f) (some y ∷ g) none none s p = join-Same f g (some x) (some y) s.1 s.0
join-Same (some x ∷ f) (some y ∷ g) none (some b) s p = absurd p
join-Same (some x ∷ f) (some y ∷ g) (some a) none s p = absurd p
join-Same (some x ∷ f) (some y ∷ g) (some a) (some b) s p =
    join-Same f g (some (node x a)) (some (node y b)) s.1 (s.0, p)

module _ (hash : Hash) where
  module _ (hash_length : (b : Bytes) → length (hash b) ≡ hash_bytes) where
    length-digest : (t : Tree) → length (digest hash t) ≡ hash_bytes
    unfolding digest
    length-digest (leaf d) = hash_length d
    length-digest (node l r) = hash_length (digest hash l ++ digest hash r)

    digest-binds :
        (t u : Tree)
        → SameShape t u
        → digest hash t ≡ digest hash u
        → (leaves t ≡ leaves u) ⊎ Collision hash
    unfolding digest leaves
    digest-binds (leaf a) (leaf b) s h = elim (equal_or_collide hash a b h) [
      | inl e ↦ inl (ap (λ x. x ∷ []) e)
      | inr c ↦ inr c
    ]
    digest-binds (leaf a) (node l r) s h = absurd s
    digest-binds (node l r) (leaf a) s h = absurd s
    digest-binds (node l r) (node l' r') s h =
        elim (equal_or_collide hash (digest hash l ++ digest hash r)
          (digest hash l' ++ digest hash r') h) [
            | inr c ↦ inr c
            | inl e ↦
                both (digest-binds l l' s.0 (left_part e)) (digest-binds r r' s.1 (right_part e))
          ]
      where
        left_part :
            digest hash l ++ digest hash r ≡ digest hash l' ++ digest hash r'
            → digest hash l ≡ digest hash l'
        left_part e =
            sym (take-append_of (digest hash l) (digest hash r) (length-digest l))
            ∙ (ap (take hash_bytes) e
                ∙ take-append_of (digest hash l') (digest hash r') (length-digest l'))

        right_part :
            digest hash l ++ digest hash r ≡ digest hash l' ++ digest hash r'
            → digest hash r ≡ digest hash r'
        right_part e =
            sym (drop-append_of (digest hash l) (digest hash r) (length-digest l))
            ∙ (ap (drop hash_bytes) e
                ∙ drop-append_of (digest hash l') (digest hash r') (length-digest l'))

        both :
            (leaves l ≡ leaves l') ⊎ Collision hash
            → (leaves r ≡ leaves r') ⊎ Collision hash
            → (leaves l ++ leaves r ≡ leaves l' ++ leaves r') ⊎ Collision hash
        both (inl p) (inl q) = inl (ap₂ ◌++◌ p q)
        both (inl p) (inr c) = inr c
        both (inr c) q = inr c

    place-binds :
        (p q : Option Tree)
        → SamePlace p q
        → root_of hash p ≡ root_of hash q
        → (place_leaves p ≡ place_leaves q) ⊎ Collision hash
    place-binds none none s h = inl refl
    place-binds none (some u) s h = absurd s
    place-binds (some t) none s h = absurd s
    place-binds (some t) (some u) s h = digest-binds t u s h

    -- For a hash of 32 bytes: if two logs of the same number of entries, under 256, have the same root,
    -- then their entries are the same, in the same order, or two inputs of the hash are at hand
    -- that collide.
    pub get_root-binds :
        (ds es : List Bytes)
        → length ds ≡ length es
        → length ds < 256
        → merkle_get_root hash (append_all hash merkle_init ds)
          ≡ merkle_get_root hash (append_all hash merkle_init es)
        → (ds ≡ es) ⊎ Collision hash
    get_root-binds ds es l lt h = elim (place-binds (log_tree ds) (log_tree es) shapes roots) [
      | inl e ↦ inl (sym (log_tree-leaves ds lt) ∙ (e ∙ log_tree-leaves es (omega arith)))
      | inr c ↦ inr c
    ]
      where
        shapes : SamePlace (log_tree ds) (log_tree es)
        shapes =
            join-Same _ _ none none
              (insert_all-Same ds es empty_forest empty_forest l (omega arith)) tt

        roots : root_of hash (log_tree ds) ≡ root_of hash (log_tree es)
        roots =
            sym (root-log_tree hash ds (omega arith)) ∙ (h ∙ root-log_tree hash es (omega arith))
