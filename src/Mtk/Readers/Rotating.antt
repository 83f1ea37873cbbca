-- ===== src/Mtk/Readers/Rotating.antt =====
-- mtk.c and mtk.h: the rotation of Mtk as a run of its steps, and a reader that comes too late.
use gate.Base.{
  ℕ, zero, suc, ◌+◌, ◌<◌, ◌≤◌, ◌≡◌, ◌≢◌, refl, subst, Bool-cases, inl, inr, get_or-set_self,
  get_or-set_ne, ◌∙◌, false, List, [], ◌∷◌, some, get_or, length, arith,
}
use gate.Mtk.{
  KeyHash, MtkState, mtk_max_readers, mtk_derive, mtk_rotate, any_reader, mtk_hazard_acquire,
}
use gate.Mtk.Readers.{
  Rotator, idle, scanning, Shared, counted, count, pass, rekey, acquire, Run, here, onward,
}
use gate.Mtk.Readers.Protection.{Holding}

abbrev with_rotator : MtkState → Rotator → Shared
with_rotator m r = record { state = m; rotator = r }

-- Nothing is asked of the states.
abbrev pub Any : Shared → Type 0
Any s = Unit {0}

no_reader : (hs : List ℕ) (i : ℕ) → any_reader hs ≡ false → get_or hs i 0 ≡ 0
no_reader [] i free = refl
no_reader (h ∷ hs) zero free = ground (arith, free)
no_reader (h ∷ hs) (suc i) free = no_reader hs i (ground (arith, free))

module _ (hash : KeyHash) (P : Shared → Type 0) where
  -- With no slot set from here on, the scan goes to its end.
  scan-on :
      {s : Shared} (m : MtkState) (n i : ℕ)
      → i + n ≡ mtk_max_readers
      → ((j : ℕ) → i ≤ j → get_or m.hazard j 0 ≡ 0)
      → ((j : ℕ) → P (with_rotator m (scanning j)))
      → Run hash P s (with_rotator m (scanning i))
      → Run hash P s (with_rotator m (scanning mtk_max_readers))
  scan-on {s} m zero i sum clear p run =
      let at : i ≡ mtk_max_readers = omega arith in
      subst (λ k. Run hash P s (with_rotator m (scanning k))) at run
  scan-on m (suc n) i sum clear p run =
      scan-on m n (suc i) (omega arith) (λ j lt. clear j (omega arith)) p
        (onward run (pass i refl (omega arith) (clear i (omega arith))) (p (suc i)))

module _ (hash : KeyHash) where
  -- With no reader at hand `mtk_rotate` returns the state that its steps lead to.
  pub mtk_rotate-Run :
      (m m' : MtkState) (now : ℕ)
      → mtk_rotate hash m now ≡ some m'
      → Run hash Any (with_rotator m idle) (with_rotator m' idle)
  unfolding mtk_rotate mtk_derive
  mtk_rotate-Run m m' now h = elim (Bool-cases (any_reader m.hazard)) [
    | inl held ↦ absurd (ground (arith, held, h))
    | inr free ↦
        let counting : Run hash Any (with_rotator m idle)
            (with_rotator (counted m now) (scanning 0)) =
          onward (here tt) (count now refl) tt in
        let scanned : Run hash Any (with_rotator m idle)
            (with_rotator (counted m now) (scanning 8)) =
          scan-on hash Any (counted m now) 8 0 refl (λ j lt. no_reader m.hazard j free) (λ j. tt)
            counting in
        let there : record (counted m now) { current_key = mtk_derive hash (counted m now) } ≡ m' =
          cc in
        subst (λ n. Run hash Any (with_rotator m idle) (with_rotator n idle)) there
          (onward scanned (rekey refl) tt)
  ]

  -- A reader that sets slot 0 when the scan has passed it sees the key change while it holds the slot.
  pub late_reader-Run :
      (m : MtkState) (now ptr : ℕ)
      → any_reader m.hazard ≡ false
      → 0 < length m.hazard
      → 0 < ptr
      → (s t : Shared) × Run hash Any (with_rotator m idle) s
        × Run hash (Holding 0) s t
        × (s.state.current_key ≡ m.current_key)
        × (t.state.current_key ≡ mtk_derive hash (counted m now))
  unfolding mtk_hazard_acquire mtk_derive
  late_reader-Run m now ptr free room pos =
      let past : 0 < mtk_max_readers = omega arith in
      let held : MtkState = mtk_hazard_acquire (counted m now) 0 ptr in
      let holding : get_or held.hazard 0 0 ≢ 0 =
        λ e. omega (arith, e, get_or-set_self m.hazard 0 ptr 0 room) in
      let clear : (j : ℕ) → 1 ≤ j → get_or held.hazard j 0 ≡ 0 =
        λ j lt. get_or-set_ne m.hazard 0 j ptr 0 (omega arith) ∙ no_reader m.hazard j free in
      let scanned = scan-on hash (Holding 0) held 7 1 refl clear (λ j. holding) (here holding) in
      (
        with_rotator held (scanning 1),
        record { state = record held { current_key = mtk_derive hash held }; rotator = idle },
        onward
            (onward (onward (here tt) (count now refl) tt)
              (pass 0 refl past (no_reader m.hazard 0 free)) tt)
            (acquire 0 ptr past) tt,
        onward scanned (rekey refl) holding,
        refl,
        refl,
      )
