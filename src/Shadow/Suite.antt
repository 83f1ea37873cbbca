-- ===== src/Shadow/Suite.antt =====
-- shadow_test.c: its tests against shadow.c.
use gate.Base.{
  ℕ, zero, suc, ◌≡◌, refl, Bool, true, false, [], ◌∷◌, none, some, ◌==◌, get_or, set, if◌then◌else◌,
  arith,
}
use gate.Shadow.{
  AttackPattern, sig_flood, replay, SockAddr, ShadowEntry, Table, blank, shadow_init, shadow_lookup,
  shadow_entry_get, new_entry, shadow_register, shadow_feed_decoy, shadow_evict_expired, evict_loop,
  swap_remove, is_expired,
}

-- What `make_addr` gives for 10.0.0.1 and 10.0.0.2, the address in memory order.
abbrev pub first_addr : SockAddr
first_addr = record { s_addr = 0x0100000A; sin_port = 0 }

abbrev pub second_addr : SockAddr
second_addr = record { s_addr = 0x0200000A; sin_port = 0 }

abbrev pub is_sig_flood : AttackPattern → Bool
is_sig_flood sig_flood = true
is_sig_flood _ = false

-- `n` decoys for the entry, the first at clock reading `at`.
abbrev pub feed_times : ℕ → (ℕ → ℕ) → ℕ → ShadowEntry → ShadowEntry
feed_times zero clock at e = e
feed_times (suc n) clock at e = feed_times n clock (suc at) (shadow_feed_decoy e (clock at))

abbrev pub feed_entry : ℕ → (ℕ → ℕ) → ℕ → Table → ℕ → Table
feed_entry n clock at t i = set t i (feed_times n clock at (get_or t i blank))

-- The look-up, the eviction and the last look-up, on the table that the tests before them have filled.
pub last_tests : Table → ℕ
last_tests t =
    let found = shadow_lookup t first_addr in
    elim found.0 [
      | none ↦ 1
      | some i ↦
          if is_sig_flood (get_or found.1 i blank).pattern
          then elim (shadow_lookup (shadow_evict_expired found.1 0xFFFFFFFFFFFFFFFF) first_addr).0 [
            | none ↦ 0
            | some j ↦ 1
          ]
          else 1
    ]

-- The exit code; `clock n` is what the clock gives when it is read for the `n`th time.
pub shadow_test_main : (ℕ → ℕ) → ℕ
unfolding last_tests
shadow_test_main clock =
    let first = shadow_register shadow_init first_addr sig_flood (clock 0) in
    elim first.0 [
      | none ↦ 1
      | some i ↦
          let fed = feed_entry 2 clock 1 first.1 i in
          if (get_or fed i blank).decoy_seq == 2
          then (let second = shadow_register fed second_addr replay (clock 3) in
              elim second.0 [
                | none ↦ 1
                | some j ↦
                    let all_fed = feed_entry 10 clock 4 second.1 j in
                    if (get_or all_fed j blank).decoy_seq == 10 then last_tests all_fed else 1
              ])
          else 1
    ]

-- An entry that is referenced is not evicted.
last_tests-fail :
    (e f : ShadowEntry)
    → e.pattern ≡ sig_flood
    → e.attacker_addr.s_addr ≡ 0x0100000A
    → e.refcount ≡ 0
    → last_tests (e ∷ f ∷ []) ≡ 1
unfolding last_tests shadow_lookup shadow_entry_get shadow_evict_expired evict_loop swap_remove
    is_expired
last_tests-fail e f p a r = ground (arith, p, a, r)

-- Whatever the clock gives, the program ends with 1: the look-up has taken a reference to the first entry, so that
-- it is not evicted and is found again.
pub shadow_test_main-fails : (clock : ℕ → ℕ) → shadow_test_main clock ≡ 1
unfolding shadow_test_main shadow_init shadow_register new_entry shadow_feed_decoy
shadow_test_main-fails clock = last_tests-fail _ _ refl refl refl
