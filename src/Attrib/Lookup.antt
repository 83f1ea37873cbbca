-- ===== src/Attrib/Lookup.antt =====
-- attrib.c: the table as a map from fingerprints to records.
use gate.Base.{
  ℕ, zero, suc, ◌≡◌, ◌<◌, refl, List, [], ◌∷◌, Option, none, some, Bytes, bytes_eq, bytes_eq→eq,
  bytes_eq_refl, get_or, set, length, if◌then◌else◌, arith,
}
use gate.Attrib.{ActorRecord, zeroed, search_actor}

-- The first of `n` records with this fingerprint.
unfoldable pub actor_of : Bytes → ℕ → List ActorRecord → Option ActorRecord
actor_of fp zero actors = none
actor_of fp (suc n) [] = none
actor_of fp (suc n) (a ∷ rest) = if bytes_eq a.fingerprint fp then some a else actor_of fp n rest

pub search_actor-some :
    (fp : Bytes) (n : ℕ) (actors : List ActorRecord) (i : ℕ)
    → search_actor fp n actors ≡ some i
    → ((get_or actors i zeroed).fingerprint ≡ fp)
      × (actor_of fp n actors ≡ some (get_or actors i zeroed))
      × (i < n)
      × (i < length actors)
unfolding search_actor actor_of
search_actor-some fp zero actors i h = cc
search_actor-some fp (suc n) [] i h = cc
search_actor-some fp (suc n) (a ∷ rest) zero h = ground (arith, bytes_eq→eq a.fingerprint fp)
search_actor-some fp (suc n) (a ∷ rest) (suc i) h = ground (arith, search_actor-some fp n rest i)

pub search_actor-none :
    (fp : Bytes) (n : ℕ) (actors : List ActorRecord)
    → search_actor fp n actors ≡ none
    → actor_of fp n actors ≡ none
unfolding search_actor actor_of
search_actor-none fp zero actors h = refl
search_actor-none fp (suc n) [] h = refl
search_actor-none fp (suc n) (a ∷ rest) h = ground (arith, search_actor-none fp n rest)

pub actor_of-set_found :
    (fp k : Bytes) (n : ℕ) (actors : List ActorRecord) (i : ℕ) (r : ActorRecord)
    → search_actor fp n actors ≡ some i
    → r.fingerprint ≡ fp
    → actor_of k n (set actors i r) ≡ (if bytes_eq fp k then some r else actor_of k n actors)
unfolding search_actor actor_of
actor_of-set_found fp k zero actors i r h e = cc
actor_of-set_found fp k (suc n) [] i r h e = cc
actor_of-set_found fp k (suc n) (a ∷ rest) zero r h e = ground (arith, bytes_eq→eq a.fingerprint fp)
actor_of-set_found fp k (suc n) (a ∷ rest) (suc i) r h e = ground (
  arith,
  bytes_eq→eq a.fingerprint k,
  bytes_eq→eq fp k,
  bytes_eq_refl fp,
  actor_of-set_found fp k n rest i r,
)

pub actor_of-set_new :
    (fp k : Bytes) (n : ℕ) (actors : List ActorRecord) (r : ActorRecord)
    → search_actor fp n actors ≡ none
    → r.fingerprint ≡ fp
    → n < length actors
    → actor_of k (suc n) (set actors n r) ≡ (if bytes_eq fp k then some r else actor_of k n actors)
unfolding search_actor actor_of
actor_of-set_new fp k zero [] r h e l = elim l [ ]
actor_of-set_new fp k zero (a ∷ rest) r h e l = ground arith
actor_of-set_new fp k (suc n) [] r h e l = elim l [ ]
actor_of-set_new fp k (suc n) (a ∷ rest) r h e l = ground (
  arith,
  bytes_eq→eq a.fingerprint k,
  bytes_eq→eq fp k,
  bytes_eq_refl fp,
  actor_of-set_new fp k n rest r,
)
