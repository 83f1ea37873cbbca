-- ===== src/Attrib.antt =====
-- attrib.c: attackers by fingerprint, scored by what they do. The clock is an argument: `u` is what
-- the creation of a record reads, `t` what the log entry reads.
pub mod Lookup
pub mod Scoring
pub mod History
mod Examples
use gate.Base.{
  ℕ, zero, suc, ◌+◌, ◌*◌, ◌/◌, ◌%◌, Bool, true, false, List, [], ◌∷◌, ◌++◌, Option, none, some,
  Bytes, ltb, leb, bytes_eq, get_or, set, replicate, take, if◌then◌else◌, u8, u32,
}

abbrev pub attrib_max_actors : ℕ
attrib_max_actors = 256

abbrev pub attrib_event_log_size : ℕ
attrib_event_log_size = 16

pub data ThreatTier : Type 0 where
  unknown probing active persistent : ThreatTier

pub data AttribEvent : Type 0 where
  replay sig_flood timing_anomaly seq_violation auth_fail : AttribEvent

pub record EventRecord : Type 0 where
  pub event : AttribEvent
  pub timestamp_ns : ℕ

pub record ActorRecord : Type 0 where
  pub fingerprint : Bytes
  pub score : ℕ
  pub tier : ThreatTier
  pub first_seen_ns : ℕ
  pub last_seen_ns : ℕ
  pub event_count : ℕ
  pub log : List EventRecord
  pub active : ℕ

pub record AttribTable : Type 0 where
  pub actors : List ActorRecord
  pub count : ℕ

-- A record of zero bytes.
unfoldable pub zeroed : ActorRecord
zeroed = record {
  fingerprint = replicate 32 0;
  score = 0;
  tier = unknown;
  first_seen_ns = 0;
  last_seen_ns = 0;
  event_count = 0;
  log = replicate attrib_event_log_size (record { event = replay; timestamp_ns = 0 });
  active = 0;
}

pub attrib_init : AttribTable
attrib_init = record { actors = replicate attrib_max_actors zeroed; count = 0 }

abbrev pub next_index : Option ℕ → Option ℕ
next_index none = none
next_index (some i) = some (suc i)

-- The loop over the first `n` records.
pub search_actor : Bytes → ℕ → List ActorRecord → Option ℕ
search_actor fp zero actors = none
search_actor fp (suc n) [] = none
search_actor fp (suc n) (a ∷ rest) =
    if bytes_eq a.fingerprint fp then some 0 else next_index (search_actor fp n rest)

-- `none` is -1.
pub find_or_create : AttribTable → Bytes → ℕ → Option ℕ × AttribTable
find_or_create t fp u = elim (search_actor fp t.count t.actors) [
  | some i ↦ (some i, t)
  | none ↦
      if leb attrib_max_actors t.count
      then (none, t)
      else let a = get_or t.actors t.count zeroed in
        (
          some t.count,
          record {
            actors =
                set t.actors t.count
                  (record a { fingerprint = fp; first_seen_ns = u; tier = unknown; active = 1 });
            count = t.count + 1;
          },
        )
]

pub score_for : AttribEvent → ℕ
score_for replay = 10
score_for sig_flood = 25
score_for timing_anomaly = 5
score_for seq_violation = 15
score_for auth_fail = 5

-- The chain of `if`s that sets the tier.
abbrev pub raise_tier : ℕ → ThreatTier → ThreatTier
raise_tier score tier =
    if leb 60 score
    then persistent
    else if leb 35 score
    then active
    else if leb 15 score
    then probing
    else tier

-- What one event does to the record of its actor.
pub note_event : ActorRecord → AttribEvent → ℕ → ActorRecord
note_event a evt t =
    let score = u32 (a.score + score_for evt) in
    record a {
      score = score;
      tier = raise_tier score a.tier;
      log =
          set a.log (a.event_count % attrib_event_log_size)
            (record { event = evt; timestamp_ns = t });
      last_seen_ns = t;
      event_count = u32 (a.event_count + 1);
    }

pub attrib_record_event : AttribTable → Bytes → AttribEvent → ℕ → ℕ → Bool × AttribTable
unfolding find_or_create note_event
attrib_record_event t fp evt u now =
    let (idx, t') = find_or_create t fp u in
    elim idx [
      | none ↦ (false, t')
      | some i ↦ (
        true,
        record t' { actors = set t'.actors i (note_event (get_or t'.actors i zeroed) evt now) },
      )
    ]

pub attrib_score : AttribTable → Bytes → ThreatTier
attrib_score t fp = elim (search_actor fp t.count t.actors) [
  | some i ↦ (get_or t.actors i zeroed).tier
  | none ↦ unknown
]

unfoldable pub attrib_compute_fp : Bytes → ℕ → Bytes
attrib_compute_fp src_addr src_port =
    take 4 src_addr ++ (src_port % 256) ∷ ((src_port / 256) % 256) ∷ replicate 26 0

-- One report of an event, with the clock readings of the call.
pub record Report : Type 0 where
  pub fingerprint : Bytes
  pub event : AttribEvent
  pub created : ℕ
  pub now : ℕ

abbrev pub attrib_report : AttribTable → Report → Bool × AttribTable
attrib_report t r = attrib_record_event t r.fingerprint r.event r.created r.now

-- A series of reports; `none` if one of them is refused.
pub report_all : AttribTable → List Report → Option AttribTable
report_all t [] = some t
report_all t (r ∷ rest) =
    let (recorded, t') = attrib_report t r in
    let others = report_all t' rest in if recorded then others else none
