-- ===== src/Attrib/Examples.antt =====
-- attrib.c: reports at concrete values.
use gate.Base.{ℕ, ◌≡◌, refl, [], ◌∷◌, List, replicate, bytes_eq, arith}
use gate.Attrib.{
  AttribEvent, replay, sig_flood, auth_fail, AttribTable, Report, attrib_init, attrib_score,
  attrib_report, report_all, search_actor, find_or_create, attrib_record_event,
}
use gate.Attrib.Scoring.{attrib_init-IsTable}
use gate.Attrib.History.{Outcome, tier_of, total, report-Outcome, score_of_history}

abbrev by : ℕ → AttribEvent → Report
by byte evt = record { fingerprint = replicate 32 byte; event = evt; created = 5; now = 6 }

abbrev reports : List Report
reports = by 1 replay ∷ by 2 sig_flood ∷ by 1 auth_fail ∷ []

abbrev table_after : AttribTable
table_after =
    (attrib_report (attrib_report (attrib_report attrib_init (by 1 replay)).1 (by 2 sig_flood)).1
      (by 1 auth_fail)).1

report-Outcome_example : Outcome attrib_init (by 1 replay) (attrib_report attrib_init (by 1 replay))
report-Outcome_example = report-Outcome attrib_init (by 1 replay) attrib_init-IsTable

score_of_history_example :
    attrib_score table_after (replicate 32 1) ≡ tier_of (total (replicate 32 1) reports)
unfolding report_all attrib_record_event find_or_create search_actor attrib_init bytes_eq
score_of_history_example = score_of_history (replicate 32 1) reports table_after refl (omega arith)
