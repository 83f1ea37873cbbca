-- ===== src/Mtk/Readers.antt =====
-- mtk.c and mtk.h with readers: one thread rotates the key while others set and clear their hazard slots. Each
-- atomic access is a step, and the steps come in any order, one that all threads see; the counters
-- that only the rotating thread writes are one step, and so is the write of the new key.
pub mod Protection
pub mod Rotating
use gate.Base.{ℕ, suc, ◌<◌, ◌≡◌, ◌≢◌, ◌+◌, List, get_or, u32, u64}
use gate.Mtk.{
  KeyHash, MtkState, mtk_max_readers, mtk_derive, mtk_hazard_acquire, mtk_hazard_release,
}

-- Where the rotating thread stands in `mtk_rotate`: the slot that it looks at.
pub data Rotator : Type 0 where
  idle : Rotator
  scanning : ℕ → Rotator

pub record Shared : Type 0 where
  pub state : MtkState
  pub rotator : Rotator

abbrev pub hazard_of : Shared → ℕ → ℕ
hazard_of s slot = get_or s.state.hazard slot 0

-- What `mtk_rotate` writes before it waits.
abbrev pub counted : MtkState → ℕ → MtkState
counted m now = record m {
  counter = u64 (m.counter + 1);
  access_attempts = u32 (m.access_attempts + 1);
  last_rotation_ns = now;
}

module _ (hash : KeyHash) where
  pub data Step (s : Shared) : Shared → Type 0 where
    count :
        (now : ℕ)
        → s.rotator ≡ idle
        → Step s (record { state = counted s.state now; rotator = scanning 0 })
    spin :
        (slot : ℕ)
        → s.rotator ≡ scanning slot
        → slot < mtk_max_readers
        → hazard_of s slot ≢ 0
        → Step s s
    pass :
        (slot : ℕ)
        → s.rotator ≡ scanning slot
        → slot < mtk_max_readers
        → hazard_of s slot ≡ 0
        → Step s (record s { rotator = scanning (suc slot) })
    rekey :
        s.rotator ≡ scanning mtk_max_readers
        → Step s (record {
          state = record s.state { current_key = mtk_derive hash s.state };
          rotator = idle;
        })
    acquire :
        (slot ptr : ℕ)
        → slot < mtk_max_readers
        → Step s (record s { state = mtk_hazard_acquire s.state slot ptr })
    release :
        (slot : ℕ)
        → slot < mtk_max_readers
        → Step s (record s { state = mtk_hazard_release s.state slot })

  -- Steps through states in which `P` holds, the first and the last of them included.
  pub data Run (P : Shared → Type 0) (s : Shared) : Shared → Type 0 where
    here : P s → Run P s s
    onward : {t u : Shared} → Run P s t → Step t u → P u → Run P s u
