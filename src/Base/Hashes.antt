-- ===== src/Base/Hashes.antt =====
-- Hashes as parameters: what it means that one has collided.
use mathlib.Core.Path.{◌≡◌}
use mathlib.Core.Logic.{◌≢◌, ◌⊎◌, inl, inr}
use native.Mathlib.Omega.{arith}
use gate.Base.Tests.{Bytes, bytes_eq, bytes_eq→eq, bytes_eq_refl, Bool-cases}

module _ (hash : Bytes → Bytes) where
  -- Two different inputs with one hash.
  pub record Collision : Type 0 where
    pub left : Bytes
    pub right : Bytes
    pub distinct : left ≢ right
    pub same_hash : hash left ≡ hash right

  -- Equal hashes of two inputs: the inputs are equal, or collide.
  pub equal_or_collide : (a b : Bytes) → hash a ≡ hash b → (a ≡ b) ⊎ Collision
  equal_or_collide a b h = elim (Bool-cases (bytes_eq a b)) [
    | inl same ↦ inl (bytes_eq→eq a b same)
    | inr differs ↦ inr (record {
      left = a;
      right = b;
      distinct = λ e. ground (arith, bytes_eq_refl a);
      same_hash = h;
    })
  ]
