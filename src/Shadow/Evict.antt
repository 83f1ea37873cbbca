-- ===== src/Shadow/Evict.antt =====
-- shadow.c: eviction removes the expired entries and no other, whatever order it leaves them in.
use mathlib.Core.Bool.{Bool-discrete}
use mathlib.Core.List.{filter, Perm}
use mathlib.Core.List.Perm
use native.Mathlib.Decide.{dec_lt}
use gate.Base.{
  ℕ, zero, suc, ◌+◌, ◌-◌, ◌≤◌, ◌<◌, ◌≡◌, refl, ap, ◌∙◌, subst, inl, inr, true, false, [], ◌∷◌,
  get_or, get_or-set_ne, set, length, length-set, Bool-cases, ltb, if◌then◌else◌, arith,
}
use gate.Shadow.{
  ShadowEntry, Table, blank, is_expired, last_entry, drop_last, swap_remove, evict_loop,
  shadow_evict_expired,
}

abbrev pub kept : ℕ → Table → Table
kept now = filter (λ e. Bool-discrete (is_expired now e) false)

last-perm : (e : ShadowEntry) (t : Table) → Perm (e ∷ t) (last_entry (e ∷ t) ∷ drop_last (e ∷ t))
last-perm e [] = Perm.refl (e ∷ [])
last-perm e (f ∷ rest) =
    Perm.trans (Perm.cons e (last-perm f rest)) (Perm.swap (last_entry (f ∷ rest)) e _)

set-cons :
    (e : ShadowEntry) (t : Table) (i : ℕ) (v : ShadowEntry)
    → i < length t
    → drop_last (e ∷ set t i v) ≡ e ∷ drop_last (set t i v)
set-cons e [] i v h = elim h [ ]
set-cons e (f ∷ t) zero v h = refl
set-cons e (f ∷ t) (suc i) v h = refl

pub swap_remove-perm :
    (t : Table) (i : ℕ) → i < length t → Perm t (get_or t i blank ∷ swap_remove t i)
unfolding swap_remove
swap_remove-perm [] i h = elim h [ ]
swap_remove-perm (e ∷ []) zero h = Perm.refl (e ∷ [])
swap_remove-perm (e ∷ f ∷ t) zero h = Perm.cons e (last-perm f t)
swap_remove-perm (e ∷ []) (suc i) h = absurd (omega arith)
swap_remove-perm (e ∷ f ∷ t) (suc i) h =
    rw (set-cons e (f ∷ t) i (last_entry (f ∷ t)) (omega arith)) (
      Perm.trans (Perm.cons e (swap_remove-perm (f ∷ t) i (omega arith)))
        (Perm.swap (get_or (f ∷ t) i blank) e _))

length-drop_last : (t : Table) → length (drop_last t) ≡ length t - 1
length-drop_last [] = omega arith
length-drop_last (e ∷ []) = omega arith
length-drop_last (e ∷ f ∷ rest) = omega (arith, length-drop_last (f ∷ rest))

get_or-drop_last :
    (t : Table) (j : ℕ) → j + 1 < length t → get_or (drop_last t) j blank ≡ get_or t j blank
get_or-drop_last [] j h = absurd (omega arith)
get_or-drop_last (e ∷ []) j h = absurd (omega arith)
get_or-drop_last (e ∷ f ∷ rest) zero h = refl
get_or-drop_last (e ∷ f ∷ rest) (suc j) h = get_or-drop_last (f ∷ rest) j (omega arith)

length-swap_remove : (t : Table) (i : ℕ) → length (swap_remove t i) ≡ length t - 1
unfolding swap_remove
length-swap_remove t i =
    omega (arith, length-drop_last (set t i (last_entry t)), length-set t i (last_entry t))

get_or-swap_remove :
    (t : Table) (i j : ℕ)
    → j < i
    → i < length t
    → get_or (swap_remove t i) j blank ≡ get_or t j blank
unfolding swap_remove
get_or-swap_remove t i j h k =
    get_or-drop_last (set t i (last_entry t)) j (omega (arith, length-set t i (last_entry t)))
    ∙ get_or-set_ne t i j (last_entry t) blank (omega arith)

-- Nothing before index `i` is expired.
abbrev KeptBelow : ℕ → ℕ → Table → Type 0
KeptBelow now i t = (j : ℕ) → j < i → is_expired now (get_or t j blank) ≡ false

kept-all : (now : ℕ) (t : Table) → KeptBelow now (length t) t → kept now t ≡ t
kept-all now [] h = refl
kept-all now (e ∷ rest) h =
    ground (arith, h 0 (omega arith), kept-all now rest (λ j lt. h (suc j) (omega arith)))

filter-drop :
    (now : ℕ) (e : ShadowEntry) (t : Table)
    → is_expired now e ≡ true
    → kept now (e ∷ t) ≡ kept now t
filter-drop now e t h = ground (arith, h)

KeptBelow-next :
    (now i : ℕ) (t : Table)
    → KeptBelow now i t
    → is_expired now (get_or t i blank) ≡ false
    → KeptBelow now (i + 1) t
KeptBelow-next now i t h fresh j lt = elim (dec_lt j i) [
  | yes below ↦ h j below
  | no at ↦
      let same : i ≡ j = omega arith in
      subst (λ k. is_expired now (get_or t k blank) ≡ false) same fresh
]

evict_loop-perm :
    (n now i : ℕ) (t : Table)
    → i + n ≡ length t
    → KeptBelow now i t
    → Perm (evict_loop n now i t) (kept now t)
unfolding evict_loop
evict_loop-perm zero now i t e h =
    let all = kept-all now t (λ j lt. h j (omega arith)) in rw all (Perm.refl t)
evict_loop-perm (suc n) now i t e h =
    let x = get_or t i blank in
    let inside : i < length t = omega arith in
    let test : ltb i (length t) ≡ true = ground arith in
    let t' = swap_remove t i in
    let split =
      Perm.filter (λ f. Bool-discrete (is_expired now f) false) (swap_remove-perm t i inside) in
    elim (Bool-cases (is_expired now x)) [
      | inl old ↦
          let shorter =
            evict_loop-perm n now i t' (omega (arith, length-swap_remove t i))
              (λ j lt. ap (is_expired now) (get_or-swap_remove t i j lt inside) ∙ h j lt) in
          rw (test, old)
            (Perm.trans shorter
              (Perm.symm (subst (Perm (kept now t)) (filter-drop now x t' old) split)))
      | inr fresh ↦
          rw (test, fresh)
            (evict_loop-perm n now (i + 1) t (omega arith) (KeptBelow-next now i t h fresh))
    ]

-- Eviction leaves exactly the entries that have not expired (last seen at most two seconds ago, or
-- referenced), each as often as it was there; their order may change.
pub shadow_evict_expired-perm :
    (t : Table) (now : ℕ) → Perm (shadow_evict_expired t now) (kept now t)
unfolding shadow_evict_expired
shadow_evict_expired-perm t now =
    evict_loop-perm (length t) now 0 t (omega arith) (λ j lt. absurd (omega arith))

evict_loop-length : (n now i : ℕ) (t : Table) → length (evict_loop n now i t) ≤ length t
unfolding evict_loop
evict_loop-length zero now i t = omega arith
evict_loop-length (suc n) now i t = ground (
  arith,
  evict_loop-length n now i (swap_remove t i),
  evict_loop-length n now (i + 1) t,
  length-swap_remove t i,
)

pub length-shadow_evict_expired :
    (t : Table) (now : ℕ) → length (shadow_evict_expired t now) ≤ length t
unfolding shadow_evict_expired
length-shadow_evict_expired t now = evict_loop-length (length t) now 0 t

pub shadow_evict_expired-one :
    (e : ShadowEntry) (now : ℕ)
    → shadow_evict_expired (e ∷ []) now ≡ (if is_expired now e then [] else e ∷ [])
unfolding shadow_evict_expired evict_loop swap_remove
shadow_evict_expired-one e now = refl
