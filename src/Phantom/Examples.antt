-- ===== src/Phantom/Examples.antt =====
-- phantom.c: the farm at concrete values.
use gate.Base.{ℕ, ◌≡◌, refl, some, Bytes, replicate, if◌then◌else◌, ◌==◌}
use gate.Phantom.{
  Binding, not_bound, bound, active, new_phantom, init_from, phantom_init, phantom_bind_all,
  bind_from, bind_one, phantom_get, phantom_trip, phantom_reset,
}

abbrev serial : ℕ → Bytes
serial i = replicate 16 i

-- Only the fourth port can be bound.
abbrev binding : ℕ → Binding
binding i = if i == 3 then bound 8 else not_bound

fourth_is_found : phantom_get (some 8) (phantom_bind_all binding (phantom_init serial)).0 ≡ some 3
unfolding phantom_get phantom_bind_all phantom_init bind_from init_from bind_one new_phantom
fourth_is_found = refl

trip_and_reset :
    (phantom_reset (phantom_trip (new_phantom 3 (serial 3)) 9) (serial 4)).state ≡ active
unfolding phantom_reset phantom_trip new_phantom
trip_and_reset = refl
