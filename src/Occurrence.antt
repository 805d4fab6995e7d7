-- ===== src/Occurrence.antt =====
-- app/control_occurrences.py: the occurrences of controls, planned ahead or recorded by hand.
--
-- Link rows of evidence go without their own ids, which nothing reads. `payload.get` with a default is a field of the
-- payload, since each event is written with all of them. `session.refresh(control)` makes
-- `control.effective_version` the current one, whose id is an argument.
pub mod Dates
pub mod Schedule
mod Projection
pub mod Generate
pub mod Generation
pub mod Stamp
pub mod Rebuild
mod Examples
use minigrc.Occurrence.Projection.{
  rebuild_control_occurrence_projection, OccurrenceSession, reset_control_occurrences,
  control_occurrence_projectors, project_artifact_linked, is_artifact_linked, is_evidence_linked,
  project_performed, write_occurrence, project_recorded_manually, project_materialized,
  insert_occurrence, collides, same_due, get_occurrence, artifact_linked, snapshot_linked,
  performed, recorded_manually, ControlOccurrence, project_evidence_linked,
}
pub use Projection.*
unfoldable pub use Projection.{
  get_occurrence, same_due, collides, insert_occurrence, project_materialized,
  project_recorded_manually, write_occurrence, project_performed, is_evidence_linked,
  project_evidence_linked, is_artifact_linked, project_artifact_linked,
  control_occurrence_projectors, reset_control_occurrences, rebuild_control_occurrence_projection,
}
use minigrc.Events.{record_event, Context}
use minigrc.Prelude.{◌>>=◌, ℕ, String, Bool, true, false, Option, none, some, Result, ok}
use minigrc.Occurrence.Dates.{Moment}

-- `record_occurrence_manually`; `id` is the value of `new_id()`
unfoldable pub record_occurrence_manually :
    Context
    → ℕ
    → ℕ
    → Option ℕ
    → Option Moment
    → String
    → Option ℕ
    → OccurrenceSession
    → Result OccurrenceSession
record_occurrence_manually c id control_id control_period_id due_at scope_note version s =
    record_event (control_occurrence_projectors c.now) "control_occurrence" c id none
      (recorded_manually (record {
        control_id = control_id;
        control_period_id = control_period_id;
        due_at = due_at;
        scope_note = scope_note;
        control_definition_version_id = version;
      }))
      s

-- `perform_occurrence`
unfoldable pub perform_occurrence :
    Context
    → ControlOccurrence
    → ℕ
    → Option ℕ
    → String
    → String
    → OccurrenceSession
    → Result OccurrenceSession
perform_occurrence c o occurred_at performed_by_person_id scope_note evidence_note s =
    record_event (control_occurrence_projectors c.now) "control_occurrence" c o.id
      (some occurred_at)
      (performed (record {
        performed_by_person_id = performed_by_person_id;
        scope_note = scope_note;
        evidence_note = evidence_note;
      }))
      s

-- `link_evidence`, with the flush of its caller
unfoldable pub link_evidence :
    Context → ControlOccurrence → ℕ → OccurrenceSession → Result OccurrenceSession
link_evidence c o evidence_snapshot_id s =
    record_event (control_occurrence_projectors c.now) "control_occurrence" c o.id none
      (snapshot_linked evidence_snapshot_id) s

-- `link_evidence_artifact_version`, with the flush of its caller
unfoldable pub link_evidence_artifact_version :
    Context → ControlOccurrence → ℕ → OccurrenceSession → Result OccurrenceSession
link_evidence_artifact_version c o evidence_artifact_version_id s =
    record_event (control_occurrence_projectors c.now) "control_occurrence" c o.id none
      (artifact_linked evidence_artifact_version_id) s
