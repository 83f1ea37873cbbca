-- ===== src/Mtk/Rotation.antt =====
-- mtk.c: what a verification of a key does, and how often a key works.
use mathlib.Core.List.{append_cancel_left}
use gate.Base.{
  ℕ, zero, suc, ◌+◌, ◌<◌, ◌^◌, ◌≡◌, ◌↔◌, ◌⊎◌, inl, inr, refl, ap, sym, subst, ◌∙◌, Bool, true,
  false, List, [], ◌∷◌, ◌++◌, Option, none, some, Bytes, bytes_eq, bytes_eq→eq, bytes_eq_refl, set,
  length, if◌then◌else◌, u32, u64, le_bytes, of_le, of_le-le_bytes, Collision, equal_or_collide,
  arith,
}
use gate.Mtk.{
  KeyHash, MtkState, any_reader, mtk_derive, mtk_rotate, mtk_verify, credit, mtk_hazard_acquire,
}

module _ (hash : KeyHash) where
  -- What is shown of a verification.
  pub record Verified (m : MtkState) (key : Bytes) (now : ℕ) (valid : Bool) (m' : MtkState)
      : Type 0 where
    pub returns : mtk_verify hash m key now ≡ some (valid, m')
    pub judged : (valid ≡ true) ↔ (key ≡ mtk_derive hash m)
    pub rotated : m'.counter ≡ u64 (m.counter + 1)
    pub rekeyed : m'.current_key ≡ mtk_derive hash m'
    pub twice : m'.access_attempts ≡ u32 (u32 (m.access_attempts + 1) + 1)
    pub credited :
        m'.legitimate_accesses
        ≡ (if valid then u32 (m.legitimate_accesses + 1) else m.legitimate_accesses)
    pub same_seed : m'.seed ≡ m.seed
    pub free : any_reader m'.hazard ≡ false

  -- With no reader at hand a verification returns: it accepts exactly the key that the seed and the
  -- counter derive, and whether it accepts or not the counter moves on and a new key is derived from
  -- it. It counts as two attempts, and as one legitimate access if it accepts.
  pub mtk_verify-Verified :
      (m : MtkState) (key : Bytes) (now : ℕ)
      → any_reader m.hazard ≡ false
      → (valid : Bool) × (m' : MtkState) × Verified m key now valid m'
  unfolding mtk_verify mtk_rotate mtk_derive
  mtk_verify-Verified m key now free =
      let valid = bytes_eq key (mtk_derive hash m) in
      let rotated : MtkState = record m {
        counter = u64 (m.counter + 1);
        access_attempts = u32 (u32 (m.access_attempts + 1) + 1);
        last_rotation_ns = now;
      } in
      (
        valid,
        credit hash valid (record rotated { current_key = mtk_derive hash rotated }),
        record {
          returns = rw (free, mtk_verify, mtk_rotate) refl;
          judged =
              (bytes_eq→eq key (mtk_derive hash m), λ e. rw e (bytes_eq_refl (mtk_derive hash m)));
          rotated = refl;
          rekeyed = refl;
          twice = refl;
          credited = refl;
          same_seed = refl;
          free = free;
        },
      )

  -- The state after a series of verifications; `none` if one of them does not return.
  unfoldable pub verify_all : MtkState → List (Bytes × ℕ) → Option MtkState
  verify_all m [] = some m
  verify_all m ((key, now) ∷ rest) = elim (mtk_verify hash m key now) [
    | none ↦ none
    | some (valid, m') ↦ verify_all m' rest
  ]

  verify_all-counter :
      (m : MtkState) (calls : List (Bytes × ℕ))
      → any_reader m.hazard ≡ false
      → m.counter + length calls < 2 ^ 64
      → (m' : MtkState) × (verify_all m calls ≡ some m')
        × (m'.counter ≡ m.counter + length calls)
        × (m'.seed ≡ m.seed)
        × (any_reader m'.hazard ≡ false)
  unfolding verify_all
  verify_all-counter m [] free lt = (m, refl, omega arith, refl, free)
  verify_all-counter m ((key, now) ∷ rest) free lt =
      let (valid, m1, v) = mtk_verify-Verified m key now free in
      let (m2, e, c, s, f) = verify_all-counter m1 rest v.free (omega (arith, v.rotated)) in
      (m2, rw (v.returns, verify_all) e, omega (arith, v.rotated, c), s ∙ v.same_seed, f)

  -- What an accepted key leaves behind.
  abbrev Moved : MtkState → Bytes → MtkState → Type 0
  Moved m key m' =
      (key ≡ mtk_derive hash m)
      × (m'.counter ≡ u64 (m.counter + 1))
      × (m'.seed ≡ m.seed)
      × (any_reader m'.hazard ≡ false)

  accepted-Moved :
      (m m' : MtkState) (key : Bytes) (now : ℕ)
      → any_reader m.hazard ≡ false
      → mtk_verify hash m key now ≡ some (true, m')
      → Moved m key m'
  accepted-Moved m m' key now free h =
      let (valid, next, v) = mtk_verify-Verified m key now free in
      let good : valid ≡ true = cc in
      let there : next ≡ m' = cc in
      subst (Moved m key) there (v.judged.0 good, v.rotated, v.same_seed, v.free)

  derived-counter :
      (m n : MtkState)
      → n.seed ≡ m.seed
      → m.counter < 2 ^ 64
      → n.counter < 2 ^ 64
      → mtk_derive hash m ≡ mtk_derive hash n
      → (m.counter ≡ n.counter) ⊎ Collision hash
  unfolding mtk_derive
  derived-counter m n seeds lm ln h =
      elim (equal_or_collide hash (m.seed ++ le_bytes 8 m.counter) (n.seed ++ le_bytes 8 n.counter)
        h) [
          | inr c ↦ inr c
          | inl same ↦
              let words : le_bytes 8 m.counter ≡ le_bytes 8 n.counter =
                append_cancel_left m.seed (le_bytes 8 m.counter) (le_bytes 8 n.counter)
                  (same ∙ ap (λ s. s ++ le_bytes 8 n.counter) seeds) in
              inl (
                sym (of_le-le_bytes 8 m.counter lm)
                ∙ (ap of_le words ∙ of_le-le_bytes 8 n.counter ln))
        ]

  -- With no reader at hand, a key works once: if it is accepted, and again after any number of
  -- further verifications that cannot have taken the 64-bit counter round, a collision of the hash
  -- is at hand.
  pub mtk_verify-once :
      (m m1 m2 m3 : MtkState) (key : Bytes) (now later : ℕ) (calls : List (Bytes × ℕ))
      → any_reader m.hazard ≡ false
      → m.counter + length calls + 1 < 2 ^ 64
      → mtk_verify hash m key now ≡ some (true, m1)
      → verify_all m1 calls ≡ some m2
      → mtk_verify hash m2 key later ≡ some (true, m3)
      → Collision hash
  mtk_verify-once m m1 m2 m3 key now later calls free lt first between again =
      let (is_first, c1, s1, f1) = accepted-Moved m m1 key now free first in
      let (end, e, c2, s2, f2) = verify_all-counter m1 calls f1 (omega (arith, c1)) in
      let there : end ≡ m2 = cc in
      let counted : m2.counter ≡ m.counter + 1 + length calls =
        ap (λ s. s.counter) (sym there) ∙ omega (arith, c1, c2) in
      let seeded : m2.seed ≡ m.seed = ap (λ s. s.seed) (sym there) ∙ (s2 ∙ s1) in
      let free2 : any_reader m2.hazard ≡ false = ap (λ s. any_reader s.hazard) (sym there) ∙ f2 in
      let second = accepted-Moved m2 m3 key later free2 again in
      elim (derived-counter m m2 seeded (omega arith) (omega (arith, counted))
        (sym is_first ∙ second.0)) [ inl same ↦ absurd (omega (arith, counted, same)) | inr c ↦ c ]

  -- A thread that verifies a key while it holds a hazard slot itself waits for ever.
  pub mtk_verify-waits :
      (m : MtkState) (slot ptr now : ℕ) (key : Bytes)
      → slot < length m.hazard
      → 0 < ptr
      → mtk_verify hash (mtk_hazard_acquire m slot ptr) key now ≡ none
  unfolding mtk_verify mtk_rotate mtk_hazard_acquire
  mtk_verify-waits m slot ptr now key lt pos =
      rw (held m.hazard slot ptr lt pos, mtk_verify, mtk_rotate) refl
    where
      held : (hs : List ℕ) (i p : ℕ) → i < length hs → 0 < p → any_reader (set hs i p) ≡ true
      held [] i p lt pos = absurd (omega arith)
      held (h ∷ hs) zero p lt pos = ground arith
      held (h ∷ hs) (suc i) p lt pos = ground (arith, held hs i p)
