-- ===== src/Shadow/Examples.antt =====
-- shadow.c: eviction at concrete values.
use mathlib.Core.List.{Perm}
use gate.Base.{ℕ, ◌≡◌, refl, [], ◌∷◌}
use gate.Shadow.{
  ShadowEntry, Table, malformed, new_entry, shadow_evict_expired, is_expired, evict_loop,
  swap_remove, blank,
}
use gate.Shadow.Evict.{kept, shadow_evict_expired-perm}

abbrev seen : ℕ → ℕ → ShadowEntry
seen addr now = new_entry (record { s_addr = addr; sin_port = 80 }) malformed now

abbrev two_old : Table
two_old = seen 1 1000 ∷ seen 2 5000000000 ∷ seen 3 2000 ∷ []

evicts_two : shadow_evict_expired two_old 5000000001 ≡ seen 2 5000000000 ∷ []
unfolding shadow_evict_expired evict_loop swap_remove is_expired new_entry blank
evicts_two = refl

shadow_evict_expired-perm_example :
    Perm (shadow_evict_expired two_old 5000000001) (kept 5000000001 two_old)
shadow_evict_expired-perm_example = shadow_evict_expired-perm two_old 5000000001
