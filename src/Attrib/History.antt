-- ===== src/Attrib/History.antt =====
-- attrib.c: what a series of reports makes of each fingerprint.
use gate.Base.{
  ℕ, ◌+◌, ◌*◌, ◌^◌, ◌≤◌, ◌<◌, ◌≡◌, refl, ap, sym, subst, ◌∙◌, ◌⊎◌, inl, inr, Bool, true, false,
  List, [], ◌∷◌, none, some, Bytes, leb, ltb, bytes_eq, bytes_eq→eq, get_or, get_or-set_self, set,
  length, if◌then◌else◌, Option-cases, Bool-cases, arith,
}
use gate.Attrib.{
  ThreatTier, unknown, probing, active, persistent, AttribEvent, replay, sig_flood, timing_anomaly,
  seq_violation, auth_fail, ActorRecord, AttribTable, Report, zeroed, attrib_max_actors,
  attrib_init, search_actor, find_or_create, score_for, note_event, attrib_record_event,
  attrib_score, attrib_report, report_all,
}
use gate.Attrib.Lookup.{actor_of, search_actor-none}
use gate.Attrib.Scoring.{
  IsTable, Noted, noted, standing_of, found_Noted, new_Noted, attrib_score-standing,
  attrib_init-IsTable,
}

-- The outcome of a report: what is shown of the result and the new table.
abbrev pub Outcome : AttribTable → Report → Bool × AttribTable → Type 0
Outcome t r (recorded, t') =
    ((recorded ≡ true) × Noted t r.fingerprint r.event t')
    ⊎ ((recorded ≡ false)
        × (t' ≡ t)
        × (actor_of r.fingerprint t.count t.actors ≡ none)
        × (attrib_max_actors ≤ t.count))

-- The record that `find_or_create` makes.
created_record : AttribTable → Report → ActorRecord
created_record t r = record (get_or t.actors t.count zeroed) {
  fingerprint = r.fingerprint;
  first_seen_ns = r.created;
  tier = unknown;
  active = 1;
}

report-found :
    (t : AttribTable) (r : Report) (i : ℕ)
    → search_actor r.fingerprint t.count t.actors ≡ some i
    → attrib_report t r ≡ (
      true,
      record t { actors = set t.actors i (note_event (get_or t.actors i zeroed) r.event r.now) },
    )
unfolding attrib_record_event find_or_create
report-found t r i f = ground (arith, f)

report-full :
    (t : AttribTable) (r : Report)
    → search_actor r.fingerprint t.count t.actors ≡ none
    → leb attrib_max_actors t.count ≡ true
    → attrib_report t r ≡ (false, t)
unfolding attrib_record_event find_or_create
report-full t r f full = ground (arith, f)

report-new :
    (t : AttribTable) (r : Report)
    → search_actor r.fingerprint t.count t.actors ≡ none
    → t.count < length t.actors
    → leb attrib_max_actors t.count ≡ false
    → let a = created_record t r in
      attrib_report t r ≡ (
        true,
        record {
          actors = set (set t.actors t.count a) t.count (note_event a r.event r.now);
          count = t.count + 1;
        },
      )
unfolding attrib_record_event find_or_create created_record
report-new t r f lt room =
    ground (arith, f, get_or-set_self t.actors t.count (created_record t r) zeroed lt)

-- In a table whose unused records are zero: a recorded event changes the standing of its own
-- fingerprint alone, from zero if it was unknown; an event is refused only when its fingerprint is
-- unknown and all 256 records are in use, and then nothing changes.
pub report-Outcome : (t : AttribTable) (r : Report) → IsTable t → Outcome t r (attrib_report t r)
unfolding created_record zeroed
report-Outcome t r v =
    let fp = r.fingerprint in
    elim (Option-cases (search_actor fp t.count t.actors)) [
      | inr (i, f) ↦
          subst (Outcome t r) (sym (report-found t r i f))
            (inl (refl, found_Noted t fp r.event i r.now f v))
      | inl f ↦ elim (Bool-cases (leb attrib_max_actors t.count)) [
        | inl full ↦
            subst (Outcome t r) (sym (report-full t r f full))
              (inr (refl, refl, search_actor-none fp t.count t.actors f, ground arith))
        | inr room ↦ subst (Outcome t r) (sym (report-new t r f (ground (arith, v.size)) room)) (
            inl (
              refl,
              new_Noted t fp r.event (created_record t r) r.now f (ground arith) v refl
                  (ap (λ a. a.score) (v.rest_zero t.count (omega arith))) refl,
            ))
      ]
    ]

-- The score that a series of reports adds up to for one fingerprint.
pub total : Bytes → List Report → ℕ
total k [] = 0
total k (r ∷ rest) = (if bytes_eq r.fingerprint k then score_for r.event else 0) + total k rest

-- The tier that a score stands for.
abbrev pub tier_of : ℕ → ThreatTier
tier_of score =
    if ltb score 15
    then unknown
    else if ltb score 35
    then probing
    else if ltb score 60
    then active
    else persistent

noted-tier :
    (evt : AttribEvent) (n : ℕ)
    → n + 25 < 2 ^ 32
    → noted evt (n, tier_of n) ≡ (n + score_for evt, tier_of (n + score_for evt))
unfolding score_for
noted-tier replay n h = ground arith
noted-tier sig_flood n h = ground arith
noted-tier timing_anomaly n h = ground arith
noted-tier seq_violation n h = ground arith
noted-tier auth_fail n h = ground arith

score_for_bound : (evt : AttribEvent) → score_for evt ≤ 25
unfolding score_for
score_for_bound replay = omega arith
score_for_bound sig_flood = omega arith
score_for_bound timing_anomaly = omega arith
score_for_bound seq_violation = omega arith
score_for_bound auth_fail = omega arith

abbrev share : Bytes → Report → ℕ
share k r = if bytes_eq r.fingerprint k then score_for r.event else 0

report-standing :
    (k : Bytes) (r : Report) (n : ℕ) (t t' : AttribTable)
    → Noted t r.fingerprint r.event t'
    → standing_of t k ≡ (n, tier_of n)
    → n + 25 < 2 ^ 32
    → standing_of t' k ≡ (n + share k r, tier_of (n + share k r))
report-standing k r n t t' after s lt = elim (Bool-cases (bytes_eq r.fingerprint k)) [
  | inl same ↦
      let named : standing_of t r.fingerprint ≡ (n, tier_of n) =
        ap (standing_of t) (bytes_eq→eq r.fingerprint k same) ∙ s in
      after.1 k ∙ rw (same, named) (noted-tier r.event n lt)
  | inr differs ↦
      let whole : n ≡ n + 0 = omega arith in
      after.1 k ∙ rw differs (s ∙ ap (λ m. (m, tier_of m)) whole)
]

history-standing :
    (k : Bytes) (rs : List Report) (n : ℕ) (t t' : AttribTable)
    → IsTable t
    → standing_of t k ≡ (n, tier_of n)
    → report_all t rs ≡ some t'
    → n + 25 * length rs < 2 ^ 32
    → standing_of t' k ≡ (n + total k rs, tier_of (n + total k rs))
unfolding report_all total
history-standing k [] n t t' v s h lt = ground (arith)
history-standing k (r ∷ rest) n t t' v s h lt = elim (report-Outcome t r v) [
  | inr (refused, _, _, _) ↦ ground (arith, refused)
  | inl (recorded, after) ↦
      let t1 = (attrib_report t r).1 in
      let bound = score_for_bound r.event in
      let next = report-standing k r n t t1 after s (omega arith) in
      let small : n + share k r + 25 * length rest < 2 ^ 32 = ground arith in
      let rest_all : report_all t1 rest ≡ some t' = ground (arith, recorded) in
      let regroup : n + share k r + total k rest ≡ n + (share k r + total k rest) = omega arith in
      subst (λ m. standing_of t' k ≡ (m, tier_of m)) regroup
        (history-standing k rest (n + share k r) t1 t' after.0 next rest_all small)
]

-- Started empty, as long as every report is recorded and the 32-bit scores cannot have wrapped: the
-- tier of a fingerprint is UNKNOWN below 15, PROBING from 15, ACTIVE from 35 and PERSISTENT from 60,
-- of the sum of the scores of the events reported under that fingerprint, whatever the others did.
pub score_of_history :
    (k : Bytes) (rs : List Report) (t : AttribTable)
    → report_all attrib_init rs ≡ some t
    → 25 * length rs < 2 ^ 32
    → attrib_score t k ≡ tier_of (total k rs)
unfolding attrib_init actor_of
score_of_history k rs t h lt =
    let start : 0 + total k rs ≡ total k rs = omega arith in
    attrib_score-standing t k
    ∙ (ap (λ p. p.1)
          (history-standing k rs 0 attrib_init t attrib_init-IsTable refl h (omega arith))
        ∙ ap tier_of start)
