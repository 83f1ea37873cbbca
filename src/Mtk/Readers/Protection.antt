-- ===== src/Mtk/Readers/Protection.antt =====
-- mtk.c and mtk.h: what a hazard slot protects its reader from, and what it does not.
use gate.Base.{ℕ, ◌≤◌, ◌<◌, ◌≡◌, ◌≢◌, refl, ap, sym, subst, ◌∙◌, arith}
use gate.Mtk.{KeyHash, mtk_max_readers, mtk_hazard_acquire, mtk_hazard_release}
use gate.Mtk.Readers.{
  Rotator, idle, scanning, Shared, hazard_of, Step, count, spin, pass, rekey, acquire, release, Run,
  here, onward,
}

-- The scan has not gone past this slot.
abbrev pub NotPast : ℕ → Rotator → Type 0
NotPast slot idle = Unit {0}
NotPast slot (scanning i) = i ≤ slot

abbrev pub Holding : ℕ → Shared → Type 0
Holding slot s = hazard_of s slot ≢ 0

module _ (hash : KeyHash) where
  -- What one step does while a slot is held that the scan has not passed.
  Step-Holding :
      {s t : Shared} (slot : ℕ)
      → slot < mtk_max_readers
      → Holding slot s
      → NotPast slot s.rotator
      → Step hash s t
      → (t.state.current_key ≡ s.state.current_key) × NotPast slot t.rotator
  unfolding mtk_hazard_acquire mtk_hazard_release
  Step-Holding {s} slot small held early (count now e) = (refl, omega arith)
  Step-Holding {s} slot small held early (spin i e lt busy) = (refl, early)
  Step-Holding {s} slot small held early (pass i e lt clear) =
      let before : i ≤ slot = subst (NotPast slot) e early in
      let other : i ≢ slot = λ same. held (ap (hazard_of s) (sym same) ∙ clear) in
      (refl, omega arith)
  Step-Holding {s} slot small held early (rekey e) =
      absurd (omega (arith, subst (NotPast slot) e early))
  Step-Holding {s} slot small held early (acquire i ptr lt) = (refl, early)
  Step-Holding {s} slot small held early (release i lt) = (refl, early)

  -- A reader whose slot is set before the scan of a rotation has passed it sees one key for as long
  -- as the slot stays set, whatever the rotating thread and the other readers do: no rotation
  -- passes the slot.
  pub held_key-stays :
      (slot : ℕ) (s t : Shared)
      → slot < mtk_max_readers
      → NotPast slot s.rotator
      → Run hash (Holding slot) s t
      → (t.state.current_key ≡ s.state.current_key) × NotPast slot t.rotator
  held_key-stays slot s _ small early (here held) = (refl, early)
  held_key-stays slot s _ small early (onward run step held) =
      let (same, still) = held_key-stays slot s _ small early run in
      let (one, on) = Step-Holding slot small (last_held run) still step in (one ∙ same, on)
    where
      last_held : {t : Shared} → Run hash (Holding slot) s t → Holding slot t
      last_held (here held) = held
      last_held (onward run step held) = held
