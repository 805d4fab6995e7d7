-- ===== src/Occurrence/Examples.antt =====
-- A monthly control, and a period that starts on the last day of January.
use minigrc.Occurrence.Stamp.{stamp}
use minigrc.Events.Stamped.{stamped}
use minigrc.Occurrence.Projection.{rebuild_control_occurrence_projection}
use minigrc.Prelude.Table
use minigrc.Events.{event_machinery, Context, find_by_idempotency_key}
use minigrc.Prelude.{
  ℕ, ◌+◌, ◌-◌, ◌≤◌, String, List, [], ◌∷◌, Option, none, some, true, ◌==◌, ◌≡◌, refl, if◌then◌else◌,
  length, is_ok, ok_of, Result, ok, err, integrity_error, arith,
}
use minigrc.Occurrence.Dates.{
  Date, is_leap, days_in_month, date_le, add_months, walk_dates, due_dates, due_at_for_date,
  same_date, same_moment, moment_le, digit_text, two_digits, isoformat, month_number,
}
use minigrc.Occurrence.Schedule.{due_dates-IsSchedule, IsSchedule}
use minigrc.Occurrence.{
  ControlOccurrence, OccurrenceSession, get_occurrence, same_due, collides, insert_occurrence,
  project_materialized, project_recorded_manually, write_occurrence, project_performed,
  is_evidence_linked, project_evidence_linked, is_artifact_linked, project_artifact_linked,
  control_occurrence_projectors, record_occurrence_manually, perform_occurrence, link_evidence,
  link_evidence_artifact_version,
}
use minigrc.Occurrence.Generate.{
  InternalControl, ControlPeriod, Fresh, last_due, compute_due_dates, idempotency_key_of,
  materialize, generate_for, generate_occurrences,
}
use minigrc.Occurrence.Generation.{
  is_due, generation_again, AreAgain, with_owner_and_version, manual_occurrence_raises,
}
use minigrc.Occurrence.Rebuild.{
  IsTicking, OccurrenceCommand, generate, record_manually, perform, link_snapshot, execute, request,
  run, empty_session, rebuild_occurrences_after_run,
}

abbrev day : ℕ → ℕ → Date
day month number = record { year = 2026; month = month; day = number }

-- a clamped day is not restored in the longer months that follow
drifting : due_dates 1 (day 1 31) (day 4 30) ≡ ok (day 1 31 ∷ day 2 28 ∷ day 3 28 ∷ day 4 28 ∷ [])
unfolding due_dates walk_dates date_le add_months days_in_month is_leap
drifting = refl

abbrev IsScheduled : Type 0
IsScheduled =
    (dates : List Date) × (due_dates 1 (day 1 31) (day 4 30) ≡ ok dates)
    × IsSchedule 1 (day 4 30) (day 1 31) dates
    × (length dates ≤ month_number (day 4 30) + 1 - month_number (day 1 31))

long_january : 31 ≤ days_in_month 2026 1
unfolding days_in_month is_leap
long_january = omega arith

long_april : 30 ≤ days_in_month 2026 4
unfolding days_in_month is_leap
long_april = omega arith

due_dates-IsSchedule_example : IsScheduled
due_dates-IsSchedule_example =
    due_dates-IsSchedule 1 (day 1 31) (day 4 30) (omega arith) (omega arith)
      (omega arith, omega arith, omega arith, long_january)
      (omega arith, omega arith, omega arith, long_april)

abbrev spelled : ℕ → String
spelled id = if id == 4 then "4" else "8"

abbrev at_time : ℕ → Context
at_time t = record { now = t; event_id = t; actor_type = "user"; actor_id = some "ada" }

abbrev fresh_from : ℕ → ℕ → Fresh
fresh_from t n = record { context = at_time (t + n); id = 100 + t + n }

abbrev control : InternalControl
control = record {
  id = 4;
  cadence_type = some "calendar";
  cadence_interval_months = some 1;
  owner_person_id = none;
  effective_version_id = some 9;
}

abbrev period : ControlPeriod
period = record { id = 8; starts_on = day 1 31; ends_on = day 3 1; status = "active" }

occurrence_machinery : Unit {0}
unfolding event_machinery Table.get Table.modify Table.insert is_leap days_in_month date_le
    add_months walk_dates due_dates same_date same_moment moment_le digit_text two_digits isoformat
    get_occurrence same_due collides insert_occurrence project_materialized
    project_recorded_manually write_occurrence project_performed is_evidence_linked
    project_evidence_linked is_artifact_linked project_artifact_linked control_occurrence_projectors
    record_occurrence_manually perform_occurrence link_evidence link_evidence_artifact_version
    last_due compute_due_dates idempotency_key_of materialize generate_for generate_occurrences
    execute request run
occurrence_machinery = tt

abbrev first_generation : Result (OccurrenceSession × List (Option ControlOccurrence))
first_generation =
    generate_occurrences spelled (fresh_from 10) (day 1 1) control (some period) 12 empty_session

generation_returns : is_ok first_generation ≡ true
unfolding occurrence_machinery
generation_returns = refl

abbrev generated :
    (left : OccurrenceSession × List (Option ControlOccurrence)) × (first_generation ≡ ok left)
generated = ok_of first_generation generation_returns

abbrev IsGeneratedAgain : OccurrenceSession × List (Option ControlOccurrence) → Type 0
IsGeneratedAgain (s', os) =
    (os' : List (Option ControlOccurrence)) × (generate_occurrences spelled (fresh_from 50)
        (day 2 2) (with_owner_and_version (some 3) none control) (some period) 12 s'
      ≡ ok (s', os'))
    × AreAgain os os'

generation_again_example : IsGeneratedAgain generated.0
generation_again_example =
    generation_again spelled (fresh_from 10) (fresh_from 50) (day 1 1) (day 2 2) control (some 3)
      none period 12 12 empty_session generated.0.0 generated.0.1 generated.1

abbrev by_hand : OccurrenceCommand
by_hand =
    record_manually (at_time 5) 70 4 (some 8) (some (due_at_for_date (day 1 31))) "ad hoc" none

abbrev after_hand : OccurrenceSession
after_hand = run spelled empty_session (by_hand ∷ [])

no_key_yet :
    find_by_idempotency_key
      (some (idempotency_key_of spelled 4 (some 8) (day 1 31)))
      after_hand.events
    ≡ none
unfolding occurrence_machinery
no_key_yet = refl

short_period_dates : due_dates 1 (day 1 31) (day 3 1) ≡ ok (day 1 31 ∷ day 2 28 ∷ [])
unfolding occurrence_machinery
short_period_dates = refl

hand_is_due : is_due 4 8 (day 1 31) after_hand.tables.occurrences ≡ true
unfolding occurrence_machinery
hand_is_due = refl

manual_occurrence_raises_example :
    generate_occurrences spelled (fresh_from 10) (day 1 1) control (some period) 12 after_hand
    ≡ err integrity_error
manual_occurrence_raises_example =
    manual_occurrence_raises spelled (fresh_from 10) (day 1 1) control 1 period 12 (day 1 31)
      (day 2 28 ∷ []) after_hand refl refl refl refl short_period_dates no_key_yet hand_is_due

abbrev story : List OccurrenceCommand
story =
    generate (fresh_from 10) (day 1 1) control (some period) 12
    ∷ generate (fresh_from 20) (day 1 1) control (some period) 12
    ∷ perform (at_time 30) 110 29 (some 2) "all" "done"
    ∷ perform (at_time 31) 110 30 (some 2) "all" "corrected"
    ∷ link_snapshot (at_time 32) 110 6
    ∷ link_snapshot (at_time 33) 110 6
    ∷ []

story-IsTicking : IsTicking spelled empty_session story
unfolding occurrence_machinery
story-IsTicking = (
  (tt, λ n. omega arith),
  (
    ((omega arith, (omega arith, tt)), λ n. omega arith),
    (
      (omega arith, (omega arith, tt)),
      (
        (omega arith, (omega arith, (omega arith, tt))),
        (
          (omega arith, (omega arith, (omega arith, (omega arith, tt)))),
          ((omega arith, (omega arith, (omega arith, (omega arith, (omega arith, tt))))), tt),
        ),
      ),
    ),
  ),
)

rebuild_occurrences_after_run_example :
    rebuild_control_occurrence_projection 99 (run spelled empty_session story)
    ≡ ok (stamped (stamp 99) (run spelled empty_session story))
rebuild_occurrences_after_run_example =
    rebuild_occurrences_after_run 99 spelled story story-IsTicking
