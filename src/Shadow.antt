-- ===== src/Shadow.antt =====
-- shadow.h and shadow.c: the table of attackers that are fed decoys. `entries` is the part of the
-- static array that is in use, `table[0 .. table_count)`; a pointer into it is an index.
pub mod Evict
pub mod Suite
mod Examples
use gate.Base.{
  ℕ, zero, suc, ◌+◌, ◌-◌, ◌%◌, ◌^◌, Bool, true, false, not, ◌&&◌, ◌||◌, List, [], ◌∷◌, ◌++◌, Option,
  none, some, Bytes, ltb, leb, ◌==◌, get_or, set, length, replicate, truthy, if◌then◌else◌, u32,
  sub64,
}

pub data AttackPattern : Type 0 where
  no_attack sig_flood seq_probe replay malformed resource_exhaust : AttackPattern

-- `struct sockaddr_in`, as far as the table looks at it.
pub record SockAddr : Type 0 where
  pub s_addr : ℕ
  pub sin_port : ℕ

-- `geo_ip` is cleared and never used; `tarpit_fd` is -1 and never used.
pub record ShadowEntry : Type 0 where
  pub attacker_addr : SockAddr
  pub attempt_count : ℕ
  pub first_seen_ns : ℕ
  pub last_seen_ns : ℕ
  pub pattern : AttackPattern
  pub shadow_active : ℕ
  pub shadow_envelope : Bytes
  pub decoy_seq : ℕ
  pub decoy_issued_ns : ℕ
  pub refcount : ℕ

abbrev pub shadow_table_max : ℕ
shadow_table_max = 256

abbrev pub tarpit_delay_ns : ℕ
tarpit_delay_ns = 2000000000

abbrev pub envelope_len : ℕ
envelope_len = 374

-- What a read out of range would give; every index below comes from a search.
unfoldable pub blank : ShadowEntry
blank = record {
  attacker_addr = record { s_addr = 0; sin_port = 0 };
  attempt_count = 0;
  first_seen_ns = 0;
  last_seen_ns = 0;
  pattern = no_attack;
  shadow_active = 0;
  shadow_envelope = replicate envelope_len 0;
  decoy_seq = 0;
  decoy_issued_ns = 0;
  refcount = 0;
}

abbrev pub Table : Type 0
Table = List ShadowEntry

unfoldable pub shadow_init : Table
shadow_init = []

pub shadow_entry_get : ShadowEntry → ShadowEntry
shadow_entry_get e = record e { refcount = u32 (e.refcount + 1) }

pub shadow_entry_put : ShadowEntry → ShadowEntry
shadow_entry_put e = record e { refcount = (e.refcount + 2 ^ 32 - 1) % 2 ^ 32 }

-- The `if` in the loop of `shadow_lookup` has no braces, so that it guards the `shadow_entry_get` alone
-- and the `return` below it ends the loop in its first round.
unfoldable pub shadow_lookup : Table → SockAddr → Option ℕ × Table
unfolding shadow_entry_get
shadow_lookup [] addr = (none, [])
shadow_lookup (e ∷ rest) addr =
    (some 0, (if e.attacker_addr.s_addr == addr.s_addr then shadow_entry_get e else e) ∷ rest)

unfoldable pub new_entry : SockAddr → AttackPattern → ℕ → ShadowEntry
unfolding blank
new_entry addr p now = record blank {
  attacker_addr = addr;
  pattern = p;
  shadow_active = 1;
  first_seen_ns = now;
  last_seen_ns = now;
  attempt_count = 1;
}

unfoldable pub shadow_register : Table → SockAddr → AttackPattern → ℕ → Option ℕ × Table
unfolding new_entry
shadow_register t addr p now =
    if leb shadow_table_max (length t)
    then (none, t)
    else (some (length t), t ++ (new_entry addr p now ∷ []))

-- `memset(e->shadow_envelope, 0xAA, sizeof(e->shadow_envelope))`
unfoldable pub decoy_bytes : Bytes
decoy_bytes = replicate envelope_len 0xAA

unfoldable pub shadow_feed_decoy : ShadowEntry → ℕ → ShadowEntry
shadow_feed_decoy e now =
    if truthy e.shadow_active
    then record e {
      last_seen_ns = now;
      decoy_issued_ns = now;
      decoy_seq = u32 (e.decoy_seq + 1);
      shadow_envelope = decoy_bytes;
    }
    else e

-- The test of `shadow_evict_expired`.
unfoldable pub is_expired : ℕ → ShadowEntry → Bool
is_expired now e = ltb tarpit_delay_ns (sub64 now e.last_seen_ns) && e.refcount == 0

abbrev pub last_entry : Table → ShadowEntry
last_entry [] = blank
last_entry (e ∷ []) = e
last_entry (e ∷ f ∷ rest) = last_entry (f ∷ rest)

abbrev pub drop_last : Table → Table
drop_last [] = []
drop_last (e ∷ []) = []
drop_last (e ∷ f ∷ rest) = e ∷ drop_last (f ∷ rest)

-- `table[i] = table[--table_count]`
pub swap_remove : Table → ℕ → Table
swap_remove t i = drop_last (set t i (last_entry t))

-- The loop from index `i`. Every round either moves on or shortens the table, so that the rounds are at
-- most the entries from `i` on.
pub evict_loop : ℕ → ℕ → ℕ → Table → Table
evict_loop zero now i t = t
evict_loop (suc rounds) now i t =
    let shorter = evict_loop rounds now i (swap_remove t i) in
    let next = evict_loop rounds now (i + 1) t in
    if ltb i (length t) then if is_expired now (get_or t i blank) then shorter else next else t

unfoldable pub shadow_evict_expired : Table → ℕ → Table
unfolding evict_loop swap_remove
shadow_evict_expired t now = evict_loop (length t) now 0 t
