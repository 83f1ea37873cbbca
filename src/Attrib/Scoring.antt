-- ===== src/Attrib/Scoring.antt =====
-- attrib.c: the tier of every fingerprint is a function of the events recorded for it.
use gate.Base.{
  ℕ, zero, suc, ◌+◌, ◌≤◌, ◌<◌, ◌≡◌, refl, ap, ◌∙◌, inl, inr, Option, none, some, Bytes, bytes_eq,
  get_or, get_or-set_ne, set, set-set, length, length-set, length-replicate, replicate,
  if◌then◌else◌, Option-cases, u32, arith,
}
use gate.Attrib.{
  ThreatTier, unknown, AttribEvent, ActorRecord, AttribTable, zeroed, attrib_max_actors,
  attrib_init, search_actor, score_for, raise_tier, note_event, attrib_score,
}
use gate.Attrib.Lookup.{
  actor_of, search_actor-some, search_actor-none, actor_of-set_found, actor_of-set_new,
}

-- The score and tier of a fingerprint, those of an unknown one included.
abbrev pub standing : Option ActorRecord → ℕ × ThreatTier
standing none = (0, unknown)
standing (some a) = (a.score, a.tier)

abbrev pub standing_of : AttribTable → Bytes → ℕ × ThreatTier
standing_of t k = standing (actor_of k t.count t.actors)

pub attrib_score-standing : (t : AttribTable) (k : Bytes) → attrib_score t k ≡ (standing_of t k).1
unfolding attrib_score
attrib_score-standing t k = elim (Option-cases (search_actor k t.count t.actors)) [
  | inl e ↦ ground (arith, e, search_actor-none k t.count t.actors e)
  | inr (i, e) ↦ ground (arith, e, search_actor-some k t.count t.actors i e)
]

-- The records that are not in use are still zero, and the array has its length.
pub record IsTable (t : AttribTable) : Type 0 where
  pub size : length t.actors ≡ attrib_max_actors
  pub rest_zero : (i : ℕ) → t.count ≤ i → get_or t.actors i zeroed ≡ zeroed

get_or-replicate : (n i : ℕ) → get_or (replicate n zeroed) i zeroed ≡ zeroed
get_or-replicate zero i = refl
get_or-replicate (suc n) zero = refl
get_or-replicate (suc n) (suc i) = get_or-replicate n i

pub attrib_init-IsTable : IsTable attrib_init
unfolding attrib_init
attrib_init-IsTable = record {
  size = length-replicate attrib_max_actors zeroed;
  rest_zero = λ i _. get_or-replicate attrib_max_actors i;
}

-- An event's effect on the standing of every fingerprint.
abbrev pub noted : AttribEvent → ℕ × ThreatTier → ℕ × ThreatTier
noted evt (score, tier) =
    let score' = u32 (score + score_for evt) in (score', raise_tier score' tier)

-- What is shown of an event that is recorded.
abbrev pub Noted : AttribTable → Bytes → AttribEvent → AttribTable → Type 0
Noted t fp evt t' =
    IsTable t'
    × ((k : Bytes)
        → standing_of t' k
          ≡ (if bytes_eq fp k then noted evt (standing_of t fp) else standing_of t k))

pub found_Noted :
    (t : AttribTable) (fp : Bytes) (evt : AttribEvent) (i now : ℕ)
    → search_actor fp t.count t.actors ≡ some i
    → IsTable t
    → Noted t fp evt
        (record t { actors = set t.actors i (note_event (get_or t.actors i zeroed) evt now) })
unfolding note_event
found_Noted t fp evt i now f v =
    let old = get_or t.actors i zeroed in
    let new = note_event old evt now in
    let found = search_actor-some fp t.count t.actors i f in
    (
      record {
        size = omega (arith, v.size, length-set t.actors i new);
        rest_zero =
            λ j h. get_or-set_ne t.actors i j new zeroed (omega (arith, found)) ∙ v.rest_zero j h;
      },
      λ k. ground (arith, found, actor_of-set_found fp k t.count t.actors i new f found.0),
    )

pub new_Noted :
    (t : AttribTable) (fp : Bytes) (evt : AttribEvent) (a : ActorRecord) (now : ℕ)
    → search_actor fp t.count t.actors ≡ none
    → t.count < attrib_max_actors
    → IsTable t
    → a.fingerprint ≡ fp
    → a.score ≡ 0
    → a.tier ≡ unknown
    → Noted t fp evt (record {
      actors = set (set t.actors t.count a) t.count (note_event a evt now);
      count = t.count + 1;
    })
unfolding note_event
new_Noted t fp evt a now f lt v e z q =
    let new = note_event a evt now in
    let n = t.count in
    let as_one = set-set t.actors n a new in
    (
      record {
        size = omega (arith, v.size, ap length as_one, length-set t.actors n new);
        rest_zero = λ j h.
            rw as_one
              (get_or-set_ne t.actors n j new zeroed (omega arith) ∙ v.rest_zero j (omega arith));
      },
      λ k. ground (
        arith,
        as_one,
        search_actor-none fp n t.actors f,
        actor_of-set_new fp k n t.actors new f e (omega (arith, v.size)),
      ),
    )
