-- ===== src/Consequence/Limits.antt =====
-- consequence_state.c: what cs_evaluate_token_request answers.
use gate.Base.{
  c_string, ◌≡◌, ◌≢◌, ◌↔◌, ◌⊎◌, refl, false, List, [], ◌∷◌, some, Bytes, bytes_eq, bytes_eq→eq,
  bytes_eq_refl, Bool-cases, take, All, arith, inl, inr,
}
use gate.Consequence.{
  Doubles, ProcessVar, ConsequenceState, out_of_range, any_unsafe, cs_evaluate_token_request,
  cs_authorized, cs_denied_suspend, cs_denied_unsafe,
}

module _ (F : Doubles) where
  open F use {Double}

  -- A variable of this name has the value within its range.
  abbrev pub Respects : Bytes → Double → ProcessVar F → Type 0
  Respects var val v = c_string v.name ≡ var → out_of_range F v val ≡ false

  any_unsafe-none :
      (vs : List (ProcessVar F)) (var : Bytes) (val : Double)
      → any_unsafe F vs var val ≡ false
      → All (Respects var val) vs
  unfolding any_unsafe
  any_unsafe-none [] var val h = tt
  any_unsafe-none (v ∷ vs) var val h =
      (λ e. ground (arith, bytes_eq_refl var, e), any_unsafe-none vs var val (ground arith))

  any_unsafe-respected :
      (vs : List (ProcessVar F)) (var : Bytes) (val : Double)
      → All (Respects var val) vs
      → any_unsafe F vs var val ≡ false
  unfolding any_unsafe
  any_unsafe-respected [] var val h = refl
  any_unsafe-respected (v ∷ vs) var val h = elim (Bool-cases (bytes_eq (c_string v.name) var)) [
    | inl same ↦
        rw (same, h.0 (bytes_eq→eq (c_string v.name) var same))
          (any_unsafe-respected vs var val h.1)
    | inr other ↦ rw other (any_unsafe-respected vs var val h.1)
  ]

  -- A request is authorised exactly when the authority is not suspended and every variable in use
  -- that has the name asked for, also where several do, has the value within its range; it is
  -- denied as suspended exactly when the authority is suspended, whatever the variables; and it
  -- is denied as unsafe in all other cases.
  pub evaluate_token_iff :
      (cs : ConsequenceState F) (cap var : Bytes) (val : Double)
      → let code = cs_evaluate_token_request F (some cs) cap var val in
        ((code ≡ cs_authorized)
          ↔ ((cs.authority_suspended ≡ 0) × All (Respects var val) (take cs.var_count cs.vars)))
        × ((code ≡ cs_denied_suspend) ↔ (cs.authority_suspended ≢ 0))
        × ((code ≡ cs_authorized) ⊎ ((code ≡ cs_denied_suspend) ⊎ (code ≡ cs_denied_unsafe)))
  unfolding cs_evaluate_token_request
  evaluate_token_iff cs cap var val =
      let vs = take cs.var_count cs.vars in
      (
        (
          λ h. (ground arith, any_unsafe-none vs var val (ground arith)),
          λ h. ground (arith, any_unsafe-respected vs var val h.1, h.0),
        ),
        (λ h e. ground arith, λ h. ground arith),
        ground arith,
      )
