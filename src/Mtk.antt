-- ===== src/Mtk.antt =====
-- mtk.c and mtk.h: the rotating key. BLAKE2b, libsodium's `crypto_generichash`, is a parameter, and so is
-- the clock. The wait for the readers in `mtk_init` and `mtk_rotate` is the wait of a thread that no
-- other thread interrupts: it ends at once when no hazard slot is set, and never when one is, which
-- is `none`.
pub mod Rotation
pub mod Readers
mod Examples
use gate.Base.{
  ℕ, ◌+◌, ◌≡◌, Bool, true, false, List, [], ◌∷◌, ◌++◌, Option, none, some, Bytes, bytes_eq, set,
  replicate, truthy, if◌then◌else◌, u32, u64, le_bytes,
}

abbrev pub mtk_max_readers : ℕ
mtk_max_readers = 8

abbrev pub KeyHash : Type 0
KeyHash = Bytes → Bytes

pub record MtkState : Type 0 where
  pub seed : Bytes
  pub current_key : Bytes
  pub counter : ℕ
  pub last_rotation_ns : ℕ
  pub access_attempts : ℕ
  pub legitimate_accesses : ℕ
  pub hazard : List ℕ

unfoldable pub mtk_hazard_acquire : MtkState → ℕ → ℕ → MtkState
mtk_hazard_acquire m slot ptr = record m { hazard = set m.hazard slot ptr }

unfoldable pub mtk_hazard_release : MtkState → ℕ → MtkState
mtk_hazard_release m slot = record m { hazard = set m.hazard slot 0 }

-- A reader holds a slot.
abbrev pub any_reader : List ℕ → Bool
any_reader [] = false
any_reader (h ∷ rest) = if truthy h then true else any_reader rest

module _ (hash : KeyHash) where
  unfoldable pub mtk_derive : MtkState → Bytes
  mtk_derive m = hash (m.seed ++ le_bytes 8 m.counter)

  unfoldable pub mtk_init : Bytes → ℕ → MtkState
  unfolding mtk_derive
  mtk_init seed now =
      let m : MtkState = record {
        seed = seed;
        current_key = replicate 32 0;
        counter = 0;
        last_rotation_ns = now;
        access_attempts = 0;
        legitimate_accesses = 0;
        hazard = replicate mtk_max_readers 0;
      } in
      record m { current_key = mtk_derive m }

  unfoldable pub mtk_rotate : MtkState → ℕ → Option MtkState
  unfolding mtk_derive
  mtk_rotate m now =
      let counted : MtkState = record m {
        counter = u64 (m.counter + 1);
        access_attempts = u32 (m.access_attempts + 1);
        last_rotation_ns = now;
      } in
      if any_reader m.hazard
      then none
      else some (record counted { current_key = mtk_derive counted })

  -- `if (valid) m->legitimate_accesses++;`
  abbrev pub credit : Bool → MtkState → MtkState
  credit valid m = record m {
    legitimate_accesses = if valid then u32 (m.legitimate_accesses + 1) else m.legitimate_accesses;
  }

  unfoldable pub mtk_verify : MtkState → Bytes → ℕ → Option (Bool × MtkState)
  unfolding mtk_rotate mtk_derive
  mtk_verify m key now =
      let attempted : MtkState = record m { access_attempts = u32 (m.access_attempts + 1) } in
      let valid = bytes_eq key (mtk_derive attempted) in
      elim (mtk_rotate attempted now) [
        | none ↦ none
        | some rotated ↦ some (valid, credit valid rotated)
      ]
