-- ===== src/ControlDefinition/Projection.antt =====
-- app/control_definition_lifecycle.py: the versions of a control's definition, their events and
-- projectors.
use minigrc.Prelude.Table
use minigrc.Events.{
  record_event, Context, rebuild_projection, Projectors, ProjectorFn, Session, DomainEvent,
}
use minigrc.Prelude.{
  ℕ, String, List, [], ◌∷◌, Option, none, some, Bool, false, ◌&&◌, ◌||◌, ◌==◌, if◌then◌else◌,
  str_eq, any, Result, ok, err, integrity_error, attribute_error, ◌>>=◌,
}
use minigrc.Policy.{
  VersionStatus, draft, in_review, approved, effective, superseded, withdrawn, is_effective,
}

pub record InternalControlVersion : Type 0 where
  pub id : ℕ
  pub control_id : ℕ
  pub version_number : ℕ
  pub name : String
  pub description : String
  pub status_snapshot : String
  pub review_frequency_snapshot : String
  pub mapped_requirement_ids : List ℕ
  pub lifecycle_status : VersionStatus
  pub drafted_at : ℕ
  pub drafted_by : Option String
  pub submitted_by : Option String
  pub submitted_at : Option ℕ
  pub reviewed_by : Option String
  pub reviewed_at : Option ℕ
  pub review_decision : Option String
  pub review_comment : String
  pub effective_at : Option ℕ
  pub superseded_at : Option ℕ
  pub superseded_by_version_id : Option ℕ
  pub withdrawn_at : Option ℕ
  pub withdrawn_reason : String

-- the payload of "InternalControlVersionDrafted"
pub record Definition : Type 0 where
  pub control_id : ℕ
  pub version_number : ℕ
  pub name : String
  pub description : String
  pub status_snapshot : String
  pub review_frequency_snapshot : String
  pub mapped_requirement_ids : List ℕ

-- the event types, each with its payload
pub data ControlVersionEvent : Type 0 where
  definition_drafted : Definition → ControlVersionEvent
  definition_submitted : ControlVersionEvent
  definition_reviewed : String → String → ControlVersionEvent
  definition_made_effective : ControlVersionEvent
  definition_superseded : ℕ → ControlVersionEvent
  definition_withdrawn : String → ControlVersionEvent

abbrev pub Versions : Type 0
Versions = List InternalControlVersion

abbrev pub control_version_id : InternalControlVersion → ℕ
control_version_id v = v.id

-- `session.get(InternalControlVersion, id)`
unfoldable pub get_control_version : ℕ → Versions → Option InternalControlVersion
get_control_version id rows = Table.get control_version_id id rows

abbrev pub both_effective : InternalControlVersion → InternalControlVersion → Bool
both_effective v w =
    is_effective v.lifecycle_status
    && (is_effective w.lifecycle_status && v.control_id == w.control_id)

-- `uq_internal_control_version_one_effective_per_control` is violated
unfoldable pub has_two_effective : Versions → Bool
has_two_effective [] = false
has_two_effective (v ∷ rows) = any (both_effective v) rows || has_two_effective rows

-- `session.flush()` with that index
unfoldable pub flush_versions : Versions → Result Versions
flush_versions rows = if has_two_effective rows then err integrity_error else ok rows

-- `uq_internal_control_version_number`
abbrev pub same_number : Definition → InternalControlVersion → Bool
same_number d v = d.control_id == v.control_id && d.version_number == v.version_number

abbrev pub drafted_row : Definition → DomainEvent ControlVersionEvent → InternalControlVersion
drafted_row d e = record {
  id = e.aggregate_id;
  control_id = d.control_id;
  version_number = d.version_number;
  name = d.name;
  description = d.description;
  status_snapshot = d.status_snapshot;
  review_frequency_snapshot = d.review_frequency_snapshot;
  mapped_requirement_ids = d.mapped_requirement_ids;
  lifecycle_status = draft;
  drafted_at = e.recorded_at;
  drafted_by = e.actor_id;
  submitted_by = none;
  submitted_at = none;
  reviewed_by = none;
  reviewed_at = none;
  review_decision = none;
  review_comment = "";
  effective_at = none;
  superseded_at = none;
  superseded_by_version_id = none;
  withdrawn_at = none;
  withdrawn_reason = "";
}

-- `_project_drafted`, its flush included
unfoldable pub project_drafted : Definition → ProjectorFn ControlVersionEvent Versions
project_drafted d rows e =
    if any (same_number d) rows
    then err integrity_error
    else Table.insert control_version_id (drafted_row d e) rows >>= flush_versions

-- `version = session.get(...)` and then attributes of `version`: `AttributeError` on `None`
unfoldable pub write_control_version :
    (InternalControlVersion → InternalControlVersion) → ProjectorFn ControlVersionEvent Versions
write_control_version change rows e = elim (get_control_version e.aggregate_id rows) [
  | none ↦ err attribute_error
  | some v ↦ ok (Table.modify control_version_id e.aggregate_id change rows)
]

-- `_project_submitted_for_review`
unfoldable pub submitted_row :
    DomainEvent ControlVersionEvent → InternalControlVersion → InternalControlVersion
submitted_row e v = record v {
  lifecycle_status = in_review;
  submitted_by = e.actor_id;
  submitted_at = some e.occurred_at;
}

-- `_project_reviewed`
unfoldable pub reviewed_row :
    String
    → String
    → DomainEvent ControlVersionEvent
    → InternalControlVersion
    → InternalControlVersion
reviewed_row decision comment e v = record v {
  reviewed_by = e.actor_id;
  reviewed_at = some e.occurred_at;
  review_decision = some decision;
  review_comment = comment;
  lifecycle_status = if str_eq decision "approved" then approved else draft;
}

-- `_project_made_effective`, without its flush
unfoldable pub effective_row :
    DomainEvent ControlVersionEvent → InternalControlVersion → InternalControlVersion
effective_row e v = record v { lifecycle_status = effective; effective_at = some e.occurred_at }

-- `_project_superseded`, without its flush
unfoldable pub superseded_row :
    ℕ → DomainEvent ControlVersionEvent → InternalControlVersion → InternalControlVersion
superseded_row by e v = record v {
  lifecycle_status = superseded;
  superseded_at = some e.occurred_at;
  superseded_by_version_id = some by;
}

-- `_project_withdrawn`
unfoldable pub withdrawn_row :
    String → DomainEvent ControlVersionEvent → InternalControlVersion → InternalControlVersion
withdrawn_row reason e v = record v {
  lifecycle_status = withdrawn;
  withdrawn_at = some e.occurred_at;
  withdrawn_reason = reason;
}

-- `INTERNAL_CONTROL_VERSION_PROJECTORS`, in a transaction of its own for each command, where what
-- `_project_withdrawn` leaves pending is flushed by the commit. In a rebuild, one transaction for all
-- events, its UPDATE stays pending until the next flush, together with that of a version that is then
-- made effective, in the order of their keys.
unfoldable pub control_version_projectors : Projectors ControlVersionEvent Versions
control_version_projectors (definition_drafted d) = some (project_drafted d)
control_version_projectors definition_submitted =
    some (λ rows e. write_control_version (submitted_row e) rows e)
control_version_projectors (definition_reviewed decision comment) =
    some (λ rows e. write_control_version (reviewed_row decision comment e) rows e)
control_version_projectors definition_made_effective =
    some (λ rows e. write_control_version (effective_row e) rows e >>= flush_versions)
control_version_projectors (definition_superseded by) =
    some (λ rows e. write_control_version (superseded_row by e) rows e >>= flush_versions)
control_version_projectors (definition_withdrawn reason) =
    some (λ rows e. write_control_version (withdrawn_row reason e) rows e)

-- `_reset_internal_control_versions`, as far as this table goes
unfoldable pub reset_control_versions : Versions → Versions
reset_control_versions rows = []

abbrev pub VersionSession : Type 0
VersionSession = Session ControlVersionEvent Versions

-- `rebuild_projection` of the versions
unfoldable pub rebuild_control_versions : VersionSession → Result VersionSession
rebuild_control_versions =
    rebuild_projection control_version_projectors "internal_control_version" reset_control_versions

-- one event of a version
unfoldable pub record_definition_event :
    Context → ℕ → Option ℕ → ControlVersionEvent → VersionSession → Result VersionSession
record_definition_event c id occurred_at payload s =
    record_event control_version_projectors "internal_control_version" c id occurred_at payload s
