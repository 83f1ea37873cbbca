-- ===== src/Adversarial/Nonces.antt =====
-- gate0_adversarial.c: how long a nonce is remembered.
use mathlib.Core.List.{append_assoc}
use gate.Base.{
  ℕ, suc, ◌+◌, ◌≤◌, ◌<◌, ◌≡◌, ◌≢◌, refl, sym, subst, inl, inr, true, false, List, [], ◌∷◌, ◌++◌,
  Bytes, bytes_eq_refl, ltb, length, length-append, drop, Bool-cases, arith,
}
use gate.Adversarial.{
  accept, Gate, Attempt, max_nonces, nonce_seen, nonce_record, attempt, serve, accepted_count,
}
use gate.Adversarial.Refusal.{gate_evaluate-Accepted}

-- The nonce stands in the window with at most `k` nonces behind it, and the window is no longer than
-- the array.
pub record Remembers (nonce : Bytes) (k : ℕ) (nonces : List Bytes) : Type 0 where
  pub before : List Bytes
  pub behind : List Bytes
  pub window : nonces ≡ before ++ (nonce ∷ behind)
  pub recent : length behind ≤ k
  pub fits : length nonces ≤ max_nonces

seen-Remembers :
    (nonce : Bytes) (k : ℕ) (nonces : List Bytes)
    → Remembers nonce k nonces
    → nonce_seen nonces nonce ≡ true
unfolding nonce_seen
seen-Remembers nonce k nonces v = rw v.window (stands v.before v.behind)
  where
    stands : (xs ys : List Bytes) → nonce_seen (xs ++ (nonce ∷ ys)) nonce ≡ true
    stands [] ys = ground (arith, bytes_eq_refl nonce)
    stands (x ∷ xs) ys = ground (arith, stands xs ys)

length-nonce_record :
    (nonces : List Bytes) (n : Bytes)
    → length nonces ≤ max_nonces
    → length (nonce_record nonces n) ≤ max_nonces
unfolding nonce_record
length-nonce_record [] n le = omega arith
length-nonce_record (x ∷ xs) n le =
    ground (arith, length-append (x ∷ xs) (n ∷ []), length-append xs (n ∷ []))

-- A nonce that is just recorded is the last one.
nonce_record-Remembers :
    (nonces : List Bytes) (n : Bytes)
    → length nonces ≤ max_nonces
    → Remembers n 0 (nonce_record nonces n)
nonce_record-Remembers nonces n le = elim (Bool-cases (ltb (length nonces) max_nonces)) [
  | inl room ↦ record {
    before = nonces;
    behind = [];
    window = unfold nonce_record in rw room refl;
    recent = omega arith;
    fits = length-nonce_record nonces n le;
  }
  | inr full ↦ record {
    before = drop 1 nonces;
    behind = [];
    window = unfold nonce_record in rw full refl;
    recent = omega arith;
    fits = length-nonce_record nonces n le;
  }
]

moved :
    (nonce n : Bytes) (k : ℕ) (before behind : List Bytes)
    → k + 1 < max_nonces
    → length behind ≤ k
    → length (before ++ (nonce ∷ behind)) ≤ max_nonces
    → Remembers nonce (k + 1) (nonce_record (before ++ (nonce ∷ behind)) n)
moved nonce n k before behind lt recent fits =
    let nonces : List Bytes = before ++ (nonce ∷ behind) in
    let longer : length (behind ++ (n ∷ [])) ≤ k + 1 =
      omega (arith, length-append behind (n ∷ [])) in
    elim (Bool-cases (ltb (length nonces) max_nonces)) [
      | inl room ↦ record {
        before = before;
        behind = behind ++ (n ∷ []);
        window = unfold nonce_record in rw room (append_assoc before (nonce ∷ behind) (n ∷ []));
        recent = longer;
        fits = length-nonce_record nonces n fits;
      }
      | inr full ↦ record {
        before = drop 1 before;
        behind = behind ++ (n ∷ []);
        window = unfold nonce_record in rw full (shifted before full);
        recent = longer;
        fits = length-nonce_record nonces n fits;
      }
    ]
  where
    shifted :
        (xs : List Bytes)
        → ltb (length (xs ++ (nonce ∷ behind))) max_nonces ≡ false
        → drop 1 (xs ++ (nonce ∷ behind)) ++ (n ∷ []) ≡ drop 1 xs ++ (nonce ∷ (behind ++ (n ∷ [])))
    shifted [] full = absurd (ground arith)
    shifted (x ∷ xs) full = append_assoc xs (nonce ∷ behind) (n ∷ [])

-- Another one moves it back by one; it drops out only behind 255 others.
next-Remembers :
    (nonces : List Bytes) (nonce n : Bytes) (k : ℕ)
    → k + 1 < max_nonces
    → Remembers nonce k nonces
    → Remembers nonce (k + 1) (nonce_record nonces n)
next-Remembers nonces nonce n k lt v =
    subst (λ w. Remembers nonce (k + 1) (nonce_record w n)) (sym v.window)
      (moved nonce n k v.before v.behind lt v.recent
        (subst (λ w. length w ≤ max_nonces) v.window v.fits))

later-Remembers :
    (nonces : List Bytes) (nonce : Bytes) (k m : ℕ)
    → k ≤ m
    → Remembers nonce k nonces
    → Remembers nonce m nonces
later-Remembers nonces nonce k m le v = record {
  before = v.before;
  behind = v.behind;
  window = v.window;
  recent = omega (arith, v.recent);
  fits = v.fits;
}

accepted_count-accept :
    (gate : Gate) (a : Attempt) (rest : List Attempt)
    → (attempt gate a).0 ≡ accept
    → accepted_count gate (a ∷ rest) ≡ suc (accepted_count (attempt gate a).1 rest)
unfolding accepted_count
accepted_count-accept gate a rest ok = rw (ok, accepted_count) refl

accepted_count_refuse :
    (gate : Gate) (a : Attempt) (rest : List Attempt)
    → (attempt gate a).0 ≢ accept
    → accepted_count gate (a ∷ rest) ≡ accepted_count (attempt gate a).1 rest
unfolding accepted_count
accepted_count_refuse gate a rest refused = ground arith

serve-Remembers :
    (gate : Gate) (calls : List Attempt) (nonce : Bytes) (k : ℕ)
    → k + accepted_count gate calls < max_nonces
    → Remembers nonce k gate.nonces
    → Remembers nonce (k + accepted_count gate calls) (serve gate calls).nonces
unfolding serve
serve-Remembers gate [] nonce k lt v =
    later-Remembers gate.nonces nonce k (k + accepted_count gate []) (omega arith) v
serve-Remembers gate (a ∷ rest) nonce k lt v =
    let gate' = (attempt gate a).1 in
    elim (gate_evaluate-Accepted gate a.command a.now) [
      | inl (ok, held) ↦
          let count = accepted_count-accept gate a rest ok in
          let sum : k + 1 + accepted_count gate' rest ≡ k + accepted_count gate (a ∷ rest) =
            omega (arith, count) in
          subst (λ m. Remembers nonce m (serve gate' rest).nonces) sum
            (serve-Remembers gate' rest nonce (k + 1) (omega (arith, count)) (
              subst (Remembers nonce (k + 1)) (sym held.noted)
                (next-Remembers gate.nonces nonce a.command.nonce k (omega (arith, count)) v)))
      | inr (refused, same) ↦
          let count = accepted_count_refuse gate a rest refused in
          let sum : k + accepted_count gate' rest ≡ k + accepted_count gate (a ∷ rest) =
            omega (arith, count) in
          subst (λ m. Remembers nonce m (serve gate' rest).nonces) sum
            (serve-Remembers gate' rest nonce k (omega (arith, count))
              (subst (λ g. Remembers nonce k g.nonces) (sym same) v))
    ]

-- The window of a gate in use.
abbrev pub IsGate : Gate → Type 0
IsGate gate = length gate.nonces ≤ max_nonces

-- In a gate whose window is within its 256 places: after a command is accepted, another one with
-- the same nonce, of the same sender or any other, is refused as long as fewer than 256 commands
-- have been accepted since.
pub nonce_once :
    (gate : Gate) (a b : Attempt) (calls : List Attempt)
    → IsGate gate
    → (attempt gate a).0 ≡ accept
    → b.command.nonce ≡ a.command.nonce
    → accepted_count (attempt gate a).1 calls < max_nonces
    → (attempt (serve (attempt gate a).1 calls) b).0 ≢ accept
nonce_once gate a b calls fits ok same lt again =
    let after = (attempt gate a).1 in
    let later = serve after calls in
    elim (gate_evaluate-Accepted gate a.command a.now) [
      | inr (refused, kept) ↦ refused ok
      | inl (done, held) ↦
          let start : Remembers a.command.nonce 0 after.nonces =
            subst (Remembers a.command.nonce 0) (sym held.noted)
              (nonce_record-Remembers gate.nonces a.command.nonce fits) in
          let still = serve-Remembers after calls a.command.nonce 0 (omega arith) start in
          let seen : nonce_seen later.nonces b.command.nonce ≡ true =
            rw same (
              seen-Remembers a.command.nonce (0 + accepted_count after calls) later.nonces still) in
          elim (gate_evaluate-Accepted later b.command b.now) [
            | inr (refused, kept) ↦ refused again
            | inl (fine, unseen) ↦ absurd (ground (arith, unseen.new_nonce))
          ]
    ]
