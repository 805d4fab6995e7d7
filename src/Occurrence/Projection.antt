-- ===== src/Occurrence/Projection.antt =====
-- app/control_occurrences.py: the events of occurrences, their tables and projectors.
use minigrc.Prelude.Table
use minigrc.Events.{DomainEvent, ProjectorFn, Projectors, Session, rebuild_projection}
use minigrc.Prelude.{
  ℕ, String, List, [], ◌∷◌, ◌++◌, Option, none, some, Bool, true, false, ◌&&◌, ◌==◌, if◌then◌else◌,
  any, Result, ok, err, integrity_error, attribute_error, ◌>>=◌,
}
use minigrc.Occurrence.Dates.{Moment, same_moment}

pub record ControlOccurrence : Type 0 where
  pub id : ℕ
  pub control_id : ℕ
  pub control_period_id : Option ℕ
  pub origin : String
  pub due_at : Option Moment
  pub performed_at : Option ℕ
  pub responsible_person_id : Option ℕ
  pub performed_by_person_id : Option ℕ
  pub scope_note : String
  pub evidence_note : String
  pub control_definition_version_id : Option ℕ
  pub created_at : ℕ
  pub updated_at : ℕ

-- the payload of "ControlOccurrenceMaterialized"
pub record Materialization : Type 0 where
  pub control_id : ℕ
  pub control_period_id : Option ℕ
  pub due_at : Option Moment
  pub responsible_person_id : Option ℕ
  pub cadence_interval_months : ℕ
  pub control_definition_version_id : Option ℕ

-- the payload of "ControlOccurrenceRecordedManually"
pub record ManualRecord : Type 0 where
  pub control_id : ℕ
  pub control_period_id : Option ℕ
  pub due_at : Option Moment
  pub scope_note : String
  pub control_definition_version_id : Option ℕ

-- the payload of "ControlOccurrencePerformed"
pub record Performance : Type 0 where
  pub performed_by_person_id : Option ℕ
  pub scope_note : String
  pub evidence_note : String

-- the event types, each with its payload
pub data OccurrenceEvent : Type 0 where
  materialized : Materialization → OccurrenceEvent
  recorded_manually : ManualRecord → OccurrenceEvent
  performed : Performance → OccurrenceEvent
  snapshot_linked : ℕ → OccurrenceEvent
  artifact_linked : ℕ → OccurrenceEvent

-- `ControlOccurrenceEvidence`
pub record OccurrenceEvidence : Type 0 where
  pub occurrence_id : ℕ
  pub evidence_snapshot_id : ℕ
  pub created_at : ℕ

-- `ControlOccurrenceEvidenceArtifact`
pub record OccurrenceArtifact : Type 0 where
  pub occurrence_id : ℕ
  pub evidence_artifact_version_id : ℕ
  pub created_at : ℕ

-- the projection's tables
pub record Occurrences : Type 0 where
  pub occurrences : List ControlOccurrence
  pub evidence : List OccurrenceEvidence
  pub artifacts : List OccurrenceArtifact

abbrev pub occurrence_id : ControlOccurrence → ℕ
occurrence_id o = o.id

unfoldable pub get_occurrence : ℕ → Occurrences → Option ControlOccurrence
get_occurrence i t = Table.get occurrence_id i t.occurrences

abbrev pub same_period : Option ℕ → Option ℕ → Bool
same_period none none = true
same_period (some p) (some q) = p == q
same_period _ _ = false

-- SQL finds no two NULLs equal
abbrev pub both_due : Option Moment → Option Moment → Bool
both_due (some a) (some b) = same_moment a b
both_due _ _ = false

-- `uq_occurrence_control_period_due`, and for occurrences without a period
-- `uq_occurrence_control_due_no_period`
unfoldable pub same_due : ControlOccurrence → ControlOccurrence → Bool
same_due o p =
    o.control_id == p.control_id
    && (same_period o.control_period_id p.control_period_id && both_due o.due_at p.due_at)

unfoldable pub collides : ControlOccurrence → List ControlOccurrence → Bool
collides o rows = any (same_due o) rows

-- `session.add` and the flush after it
unfoldable pub insert_occurrence : ControlOccurrence → Occurrences → Result Occurrences
insert_occurrence o t =
    if collides o t.occurrences
    then err integrity_error
    else (Table.insert occurrence_id o t.occurrences >>= λ rows.
        ok (record t { occurrences = rows }))

abbrev pub materialized_row : Materialization → DomainEvent OccurrenceEvent → ControlOccurrence
materialized_row m e = record {
  id = e.aggregate_id;
  control_id = m.control_id;
  control_period_id = m.control_period_id;
  origin = "generated";
  due_at = m.due_at;
  performed_at = none;
  responsible_person_id = m.responsible_person_id;
  performed_by_person_id = none;
  scope_note = "";
  evidence_note = "";
  control_definition_version_id = m.control_definition_version_id;
  created_at = e.recorded_at;
  updated_at = e.recorded_at;
}

-- `_project_materialized`
unfoldable pub project_materialized : Materialization → ProjectorFn OccurrenceEvent Occurrences
project_materialized m t e = insert_occurrence (materialized_row m e) t

abbrev pub manual_row : ManualRecord → DomainEvent OccurrenceEvent → ControlOccurrence
manual_row m e = record {
  id = e.aggregate_id;
  control_id = m.control_id;
  control_period_id = m.control_period_id;
  origin = "manual";
  due_at = m.due_at;
  performed_at = none;
  responsible_person_id = none;
  performed_by_person_id = none;
  scope_note = m.scope_note;
  evidence_note = "";
  control_definition_version_id = m.control_definition_version_id;
  created_at = e.recorded_at;
  updated_at = e.recorded_at;
}

-- `_project_recorded_manually`
unfoldable pub project_recorded_manually : ManualRecord → ProjectorFn OccurrenceEvent Occurrences
project_recorded_manually m t e = insert_occurrence (manual_row m e) t

-- attributes of the row that `session.get` finds are written; without a row the code raises
unfoldable pub write_occurrence :
    ℕ → (ControlOccurrence → ControlOccurrence) → Occurrences → Result Occurrences
write_occurrence id f t = elim (get_occurrence id t) [
  | none ↦ err attribute_error
  | some o ↦ ok (record t { occurrences = Table.modify occurrence_id id f t.occurrences })
]

-- `_project_performed`
unfoldable pub project_performed : Performance → ProjectorFn OccurrenceEvent Occurrences
project_performed p t e =
    write_occurrence e.aggregate_id
      (λ o. record o {
        performed_at = some e.occurred_at;
        performed_by_person_id = p.performed_by_person_id;
        scope_note = p.scope_note;
        evidence_note = p.evidence_note;
        updated_at = e.recorded_at;
      })
      t

-- `uq_occurrence_evidence`
unfoldable pub is_evidence_linked : ℕ → ℕ → List OccurrenceEvidence → Bool
is_evidence_linked id snapshot rows =
    any (λ (x : OccurrenceEvidence). x.occurrence_id == id && x.evidence_snapshot_id == snapshot)
      rows

abbrev pub evidence_row : ℕ → ℕ → DomainEvent OccurrenceEvent → OccurrenceEvidence
evidence_row now snapshot e = record {
  occurrence_id = e.aggregate_id;
  evidence_snapshot_id = snapshot;
  created_at = now;
}

-- `_project_evidence_linked`; `now` is the clock of the INSERT, which fills `created_at`
unfoldable pub project_evidence_linked : ℕ → ℕ → ProjectorFn OccurrenceEvent Occurrences
project_evidence_linked now snapshot t e =
    if is_evidence_linked e.aggregate_id snapshot t.evidence
    then err integrity_error
    else ok (record t { evidence = t.evidence ++ evidence_row now snapshot e ∷ [] })

-- `uq_occurrence_evidence_artifact`
unfoldable pub is_artifact_linked : ℕ → ℕ → List OccurrenceArtifact → Bool
is_artifact_linked id version rows =
    any
      (λ (x : OccurrenceArtifact).
        x.occurrence_id == id && x.evidence_artifact_version_id == version)
      rows

abbrev pub artifact_row : ℕ → ℕ → DomainEvent OccurrenceEvent → OccurrenceArtifact
artifact_row now version e = record {
  occurrence_id = e.aggregate_id;
  evidence_artifact_version_id = version;
  created_at = now;
}

-- `_project_evidence_artifact_linked`, with the same clock
unfoldable pub project_artifact_linked : ℕ → ℕ → ProjectorFn OccurrenceEvent Occurrences
project_artifact_linked now version t e =
    if is_artifact_linked e.aggregate_id version t.artifacts
    then err integrity_error
    else ok (record t { artifacts = t.artifacts ++ artifact_row now version e ∷ [] })

-- `CONTROL_OCCURRENCE_PROJECTORS`, at the time `now`
unfoldable pub control_occurrence_projectors : ℕ → Projectors OccurrenceEvent Occurrences
control_occurrence_projectors now (materialized m) = some (project_materialized m)
control_occurrence_projectors now (recorded_manually m) = some (project_recorded_manually m)
control_occurrence_projectors now (performed p) = some (project_performed p)
control_occurrence_projectors now (snapshot_linked id) = some (project_evidence_linked now id)
control_occurrence_projectors now (artifact_linked id) = some (project_artifact_linked now id)

-- `_reset_control_occurrences`
unfoldable pub reset_control_occurrences : Occurrences → Occurrences
reset_control_occurrences t = record { occurrences = []; evidence = []; artifacts = [] }

abbrev pub OccurrenceSession : Type 0
OccurrenceSession = Session OccurrenceEvent Occurrences

-- `rebuild_control_occurrence_projection` at the time `now`
unfoldable pub rebuild_control_occurrence_projection :
    ℕ → OccurrenceSession → Result OccurrenceSession
rebuild_control_occurrence_projection now =
    rebuild_projection (control_occurrence_projectors now) "control_occurrence"
      reset_control_occurrences
