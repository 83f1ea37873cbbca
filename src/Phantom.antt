-- ===== src/Phantom.antt =====
-- phantom.c: a farm of decoy controllers, one for each port. What `socket` and `bind` give is an argument,
-- and so are the random serials and the clock. A descriptor is a number; `none` is -1.
pub mod Farm
mod Examples
use gate.Base.{
  ℕ, zero, suc, ◌+◌, ◌*◌, ◌/◌, ◌%◌, Bool, true, false, ◌||◌, List, [], ◌∷◌, Option, none, some,
  Bytes, ◌==◌, get_or, set, length, replicate, if◌then◌else◌, u8, u32,
}

abbrev pub phantom_count : ℕ
phantom_count = 100

abbrev pub phantom_base_port : ℕ
phantom_base_port = 5000

pub data PhantomState : Type 0 where
  idle active tripped caged : PhantomState

-- `captured_attrib` is only ever cleared; it is left out.
pub record PhantomController : Type 0 where
  pub device_id : Bytes
  pub port : ℕ
  pub fd : Option ℕ
  pub state : PhantomState
  pub trip_time_ns : ℕ
  pub hit_count : ℕ
  pub decoy_serial : Bytes

-- The controller of index `i`.
unfoldable pub new_phantom : ℕ → Bytes → PhantomController
new_phantom i serial = record {
  device_id = 0xDE ∷ 0xC0 ∷ u8 (i / 256) ∷ (i % 256) ∷ [];
  port = phantom_base_port + i;
  fd = none;
  state = idle;
  trip_time_ns = 0;
  hit_count = 0;
  decoy_serial = serial;
}

-- The loop of `phantom_init` from index `i`, `rounds` controllers to go; `serial` gives the random bytes.
unfoldable pub init_from : (ℕ → Bytes) → ℕ → ℕ → List PhantomController
init_from serial zero i = []
init_from serial (suc rounds) i = new_phantom i (serial i) ∷ init_from serial rounds (i + 1)

unfoldable pub phantom_init : (ℕ → Bytes) → List PhantomController
phantom_init serial = init_from serial phantom_count 0

-- What the system gives for one controller: no socket, a socket that cannot be bound, or a bound one.
pub data Binding : Type 0 where
  no_socket not_bound : Binding
  bound : ℕ → Binding

unfoldable pub bind_one : PhantomController → Binding → PhantomController
bind_one p no_socket = record p { fd = none }
bind_one p not_bound = record p { fd = none }
bind_one p (bound fd) = record p { fd = some fd; state = active }

-- The farm and how many were bound; `binding` says what the system gives for each index.
unfoldable pub bind_from : (ℕ → Binding) → ℕ → List PhantomController → List PhantomController × ℕ
unfolding bind_one
bind_from binding i [] = ([], 0)
bind_from binding i (p ∷ rest) =
    let others = bind_from binding (i + 1) rest in
    (bind_one p (binding i) ∷ others.0, elim (binding i) [ bound fd ↦ suc others.1 | _ ↦ others.1 ])

unfoldable pub phantom_bind_all :
    (ℕ → Binding) → List PhantomController → List PhantomController × ℕ
phantom_bind_all binding farm = bind_from binding 0 farm

abbrev pub next_index : Option ℕ → Option ℕ
next_index none = none
next_index (some i) = some (suc i)

-- `farm[i].fd == fd`
abbrev pub same_fd : Option ℕ → Option ℕ → Bool
same_fd none none = true
same_fd none (some n) = false
same_fd (some m) none = false
same_fd (some m) (some n) = m == n

unfoldable pub phantom_get : Option ℕ → List PhantomController → Option ℕ
phantom_get fd [] = none
phantom_get fd (p ∷ rest) =
    let later = next_index (phantom_get fd rest) in if same_fd p.fd fd then some 0 else later

unfoldable pub phantom_trip : PhantomController → ℕ → PhantomController
phantom_trip p now = record p {
  state = tripped;
  hit_count = u32 (p.hit_count + 1);
  trip_time_ns = now;
}

unfoldable pub phantom_reset : PhantomController → Bytes → PhantomController
phantom_reset p serial = record p { state = active; decoy_serial = serial }
