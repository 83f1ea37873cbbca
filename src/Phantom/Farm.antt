-- ===== src/Phantom/Farm.antt =====
-- phantom.c: which controller a descriptor leads to.
use gate.Base.{
  ℕ, zero, suc, ◌+◌, ◌<◌, ◌≡◌, ◌≢◌, refl, ap, sym, ◌∙◌, true, false, none, some, Bytes, get_or, inl,
  inr, ◌⊎◌, arith,
}
use gate.Phantom.{
  PhantomController, Binding, no_socket, not_bound, bound, phantom_count, phantom_base_port,
  new_phantom, init_from, phantom_init, bind_one, bind_from, phantom_bind_all, phantom_get, same_fd,
}

-- The system gives no descriptor twice.
abbrev pub IsDistinct : (ℕ → Binding) → Type 0
IsDistinct binding = (i j fd : ℕ) → binding i ≡ bound fd → binding j ≡ bound fd → i ≡ j

Binding-cases : (b : Binding) → (b ≡ no_socket) ⊎ (b ≡ not_bound) ⊎ ((fd : ℕ) × (b ≡ bound fd))
Binding-cases no_socket = inl refl
Binding-cases not_bound = inr (inl refl)
Binding-cases (bound fd) = inr (inr (fd, refl))

-- The descriptor of a controller that the system bound is the one it gave.
same_fd-bound :
    (p : PhantomController) (b : Binding) (fd : ℕ)
    → b ≡ bound fd
    → same_fd (bind_one p b).fd (some fd) ≡ true
unfolding bind_one
same_fd-bound p b fd e = rw e (ground arith)

same_fd_other :
    (p : PhantomController) (b : Binding) (fd : ℕ)
    → b ≢ bound fd
    → p.fd ≡ none
    → same_fd (bind_one p b).fd (some fd) ≡ false
unfolding bind_one
same_fd_other p no_socket fd ne e = refl
same_fd_other p not_bound fd ne e = refl
same_fd_other p (bound m) fd ne e = let apart : m ≢ fd = λ same. ne (ap bound same) in ground arith

get-bind_from :
    (binding : ℕ → Binding) (serial : ℕ → Bytes) (n i k fd : ℕ)
    → IsDistinct binding
    → k < n
    → binding (i + k) ≡ bound fd
    → phantom_get (some fd) (bind_from binding i (init_from serial n i)).0 ≡ some k
unfolding bind_from init_from phantom_get
get-bind_from binding serial zero i k fd d lt b = absurd (omega arith)
get-bind_from binding serial (suc n) i zero fd d lt b =
    let whole : i + 0 ≡ i = omega arith in
    let mine : binding i ≡ bound fd = ap binding (sym whole) ∙ b in
    rw (same_fd-bound (new_phantom i (serial i)) (binding i) fd mine) refl
get-bind_from binding serial (suc n) i (suc k) fd d lt b =
    let shift : i + 1 + k ≡ i + suc k = omega arith in
    let other : binding i ≢ bound fd = λ e. absurd (omega (arith, d i (i + suc k) fd e b)) in
    let ih = get-bind_from binding serial n (i + 1) k fd d (omega arith) (ap binding shift ∙ b) in
    rw
      (
        same_fd_other (new_phantom i (serial i)) (binding i) fd other (unfold new_phantom in refl),
        ih,
      )
      refl

port-bind_from :
    (binding : ℕ → Binding) (serial : ℕ → Bytes) (n i k : ℕ) (p : PhantomController)
    → k < n
    → (get_or (bind_from binding i (init_from serial n i)).0 k p).port ≡ phantom_base_port + (i + k)
unfolding bind_from init_from bind_one new_phantom
port-bind_from binding serial zero i k p lt = absurd (omega arith)
port-bind_from binding serial (suc n) i zero p lt = elim (Binding-cases (binding i)) [
  | inl e ↦ rw e (omega arith)
  | inr (inl e) ↦ rw e (omega arith)
  | inr (inr (fd, e)) ↦ rw e (omega arith)
]
port-bind_from binding serial (suc n) i (suc k) p lt =
    port-bind_from binding serial n (i + 1) k p (omega arith) ∙ omega arith

-- When the system gives distinct descriptors, the descriptor of each controller that was bound leads back
-- to that controller, the one on port 5000 and its index.
pub phantom_get-phantom_bind_all :
    (binding : ℕ → Binding) (serial : ℕ → Bytes) (k fd : ℕ) (other : PhantomController)
    → IsDistinct binding
    → k < phantom_count
    → binding k ≡ bound fd
    → let farm = (phantom_bind_all binding (phantom_init serial)).0 in
      (phantom_get (some fd) farm ≡ some k) × ((get_or farm k other).port ≡ phantom_base_port + k)
unfolding phantom_bind_all phantom_init
phantom_get-phantom_bind_all binding serial k fd other d lt b =
    let whole : 0 + k ≡ k = omega arith in
    (
      get-bind_from binding serial phantom_count 0 k fd d lt (ap binding whole ∙ b),
      port-bind_from binding serial phantom_count 0 k other lt ∙ omega arith,
    )
