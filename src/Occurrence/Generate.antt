-- ===== src/Occurrence/Generate.antt =====
-- app/control_occurrences.py: `_compute_due_dates` and `generate_occurrences`.
--
-- `spell` writes an id as its 32 digits. `fresh` gives each new occurrence its id, and the clock and
-- the event's id of its append.
use Prim.Native.String.{◌++◌ as string_append}
use minigrc.Events.{append_and_project, draft_event, Context, DomainEvent}
use minigrc.Prelude.{
  ℕ, ◌+◌, String, List, [], ◌∷◌, Option, none, some, Bool, false, not, ◌||◌, ◌==◌, if◌then◌else◌,
  str_eq, Result, ok, require, inactive_period, ◌>>=◌, ◌>>◌,
}
use minigrc.Occurrence.Dates.{
  Date, Moment, add_months, due_dates, due_at_for_date, moment_le, isoformat,
}
use minigrc.Occurrence.{
  ControlOccurrence, OccurrenceEvent, materialized, OccurrenceSession, get_occurrence,
  control_occurrence_projectors,
}

-- an `InternalControl` row, as far as generation reads it
pub record InternalControl : Type 0 where
  pub id : ℕ
  pub cadence_type : Option String
  pub cadence_interval_months : Option ℕ
  pub owner_person_id : Option ℕ
  pub effective_version_id : Option ℕ

pub record ControlPeriod : Type 0 where
  pub id : ℕ
  pub starts_on : Date
  pub ends_on : Date
  pub status : String

abbrev pub later_moment : Moment → Option Moment → Moment
later_moment a none = a
later_moment a (some b) = if moment_le a b then b else a

-- whether an occurrence counts for the last due date of a control without a period
abbrev pub is_rolling : ℕ → ControlOccurrence → Bool
is_rolling control o = elim o.control_period_id [ none ↦ o.control_id == control | some p ↦ false ]

-- `func.max(ControlOccurrence.due_at)` of them, which skips NULL
unfoldable pub last_due : ℕ → List ControlOccurrence → Option Moment
last_due control [] = none
last_due control (o ∷ rows) =
    let rest = last_due control rows in
    if is_rolling control o
    then elim o.due_at [ none ↦ rest | some at ↦ some (later_moment at rest) ]
    else rest

-- `_compute_due_dates`
unfoldable pub compute_due_dates :
    Date → ℕ → ℕ → Option ControlPeriod → ℕ → List ControlOccurrence → Result (List Date)
compute_due_dates today control interval (some period) horizon_months rows =
    due_dates interval period.starts_on period.ends_on
compute_due_dates today control interval none horizon_months rows =
    add_months today horizon_months >>= λ horizon_end. elim (last_due control rows) [
      | none ↦ due_dates interval today horizon_end
      | some at ↦ add_months at.date interval >>= λ current. due_dates interval current horizon_end
    ]

abbrev pub period_text : (ℕ → String) → Option ℕ → String
period_text spell none = "none"
period_text spell (some id) = spell id

unfoldable pub idempotency_key_of : (ℕ → String) → ℕ → Option ℕ → Date → String
idempotency_key_of spell control period date = string_append "control_occurrence:materialize:" (
    string_append (spell control) (
      string_append ":"
        (string_append (period_text spell period) (string_append ":" (isoformat date)))))

abbrev pub period_id_of : Option ControlPeriod → Option ℕ
period_id_of none = none
period_id_of (some period) = some period.id

-- the environment of one new occurrence
pub record Fresh : Type 0 where
  pub context : Context
  pub id : ℕ

-- the event that one turn of the loop appends
abbrev pub materialization_draft :
    (ℕ → String) → InternalControl → ℕ → Option ℕ → Fresh → Date → DomainEvent OccurrenceEvent
materialization_draft spell control interval period_id f date =
    record (draft_event f.context "control_occurrence" f.id none (
      materialized (record {
        control_id = control.id;
        control_period_id = period_id;
        due_at = some (due_at_for_date date);
        responsible_person_id = control.owner_person_id;
        cadence_interval_months = interval;
        control_definition_version_id = control.effective_version_id;
      }))) { idempotency_key = some (idempotency_key_of spell control.id period_id date) }

-- the loop over the due dates, `n` of them done: what it leaves, and the occurrences that
-- `session.get` gives
unfoldable pub materialize :
    (ℕ → String)
    → (ℕ → Fresh)
    → InternalControl
    → ℕ
    → Option ℕ
    → ℕ
    → List Date
    → OccurrenceSession
    → Result (OccurrenceSession × List (Option ControlOccurrence))
materialize spell fresh control interval period_id n [] s = ok (s, [])
materialize spell fresh control interval period_id n (date ∷ dates) s = do
  (s', event) ←
      append_and_project (control_occurrence_projectors (fresh n).context.now)
        (materialization_draft spell control interval period_id (fresh n) date) [] s
  (s'', rest) ← materialize spell fresh control interval period_id (n + 1) dates s'
  ok (s'', get_occurrence event.aggregate_id s'.tables ∷ rest)

-- `control.cadence_type != "calendar"`
abbrev pub is_calendar : Option String → Bool
is_calendar none = false
is_calendar (some cadence) = str_eq cadence "calendar"

-- `period is not None and period.status != "active"`
abbrev pub is_inactive : Option ControlPeriod → Bool
is_inactive none = false
is_inactive (some period) = not (str_eq period.status "active")

-- the rest of `generate_occurrences` for a positive interval
unfoldable pub generate_for :
    (ℕ → String)
    → (ℕ → Fresh)
    → Date
    → InternalControl
    → ℕ
    → Option ControlPeriod
    → ℕ
    → OccurrenceSession
    → Result (OccurrenceSession × List (Option ControlOccurrence))
generate_for spell fresh today control interval period horizon_months s = do
  require (not (is_inactive period)) inactive_period
  dates ← compute_due_dates today control.id interval period horizon_months s.tables.occurrences
  materialize spell fresh control interval (period_id_of period) 0 dates s

-- `generate_occurrences`; no interval is negative here
unfoldable pub generate_occurrences :
    (ℕ → String)
    → (ℕ → Fresh)
    → Date
    → InternalControl
    → Option ControlPeriod
    → ℕ
    → OccurrenceSession
    → Result (OccurrenceSession × List (Option ControlOccurrence))
generate_occurrences spell fresh today control period horizon_months s =
    elim control.cadence_interval_months [
      | none ↦ ok (s, [])
      | some interval ↦
          if not (is_calendar control.cadence_type) || interval == 0
          then ok (s, [])
          else generate_for spell fresh today control interval period horizon_months s
    ]
