-- ===== src/Policy/Projection.antt =====
-- The rows of policy versions and the projectors of app/policy_lifecycle.py.
use minigrc.Prelude.{
  ◌∷◌, if◌then◌else◌, str_eq, attribute_error, Result, ok, err, ℕ, String, Option, none, some, List,
  [],
}
use minigrc.Prelude.Table
use minigrc.Events.{
  record_event, Context, rebuild_projection, Projectors, ProjectorFn, Session, DomainEvent,
}

-- `POLICY_VERSION_LIFECYCLE_STATUSES`
pub data VersionStatus : Type 0 where
  draft in_review approved effective superseded withdrawn : VersionStatus

-- the file-capture columns, which the lifecycle never writes
pub record PolicyFile : Type 0 where
  pub original_filename : String
  pub stored_filename : String
  pub media_type : String
  pub byte_size : ℕ
  pub sha256 : String
  pub uploader : String

pub record PolicyVersion : Type 0 where
  pub id : ℕ
  pub policy_id : ℕ
  pub version_number : ℕ
  pub file : PolicyFile
  pub lifecycle_status : VersionStatus
  pub submitted_by : Option String
  pub submitted_at : Option ℕ
  pub reviewed_by : Option String
  pub reviewed_at : Option ℕ
  pub review_decision : Option String
  pub review_comment : String
  pub effective_at : Option ℕ
  pub superseded_at : Option ℕ
  pub superseded_by_version_id : Option ℕ
  pub withdrawn_at : Option ℕ
  pub withdrawn_reason : String

-- The event types, each with its payload.
pub data PolicyVersionEvent : Type 0 where
  submitted_for_review : PolicyVersionEvent
  reviewed : String → String → PolicyVersionEvent
  made_effective : PolicyVersionEvent
  superseded_by : ℕ → PolicyVersionEvent
  version_withdrawn : String → PolicyVersionEvent

abbrev pub version_id : PolicyVersion → ℕ
version_id v = v.id

-- `session.get(PolicyVersion, id)`
unfoldable pub get_version : ℕ → List PolicyVersion → Option PolicyVersion
get_version id t = Table.get version_id id t

-- `version = session.get(...)` and then attributes of `version`: `AttributeError` on `None`
unfoldable pub write_version :
    (PolicyVersion → PolicyVersion) → ProjectorFn PolicyVersionEvent (List PolicyVersion)
write_version change t e = elim (get_version e.aggregate_id t) [
  | none ↦ err attribute_error
  | some _ ↦ ok (Table.modify version_id e.aggregate_id change t)
]

-- `_project_submitted_for_review`
unfoldable pub project_submitted_for_review :
    DomainEvent PolicyVersionEvent → PolicyVersion → PolicyVersion
project_submitted_for_review e v = record v {
  lifecycle_status = in_review;
  submitted_by = e.actor_id;
  submitted_at = some e.occurred_at;
}

-- `_project_reviewed`
unfoldable pub project_reviewed :
    String → String → DomainEvent PolicyVersionEvent → PolicyVersion → PolicyVersion
project_reviewed decision comment e v = record v {
  reviewed_by = e.actor_id;
  reviewed_at = some e.occurred_at;
  review_decision = some decision;
  review_comment = comment;
  lifecycle_status = if str_eq decision "approved" then approved else draft;
}

-- `_project_made_effective`
unfoldable pub project_made_effective :
    DomainEvent PolicyVersionEvent → PolicyVersion → PolicyVersion
project_made_effective e v = record v {
  lifecycle_status = effective;
  effective_at = some e.occurred_at;
}

-- `_project_superseded`
unfoldable pub project_superseded :
    ℕ → DomainEvent PolicyVersionEvent → PolicyVersion → PolicyVersion
project_superseded by e v = record v {
  lifecycle_status = superseded;
  superseded_at = some e.occurred_at;
  superseded_by_version_id = some by;
}

-- `_project_withdrawn`
unfoldable pub project_withdrawn :
    String → DomainEvent PolicyVersionEvent → PolicyVersion → PolicyVersion
project_withdrawn reason e v = record v {
  lifecycle_status = withdrawn;
  withdrawn_at = some e.occurred_at;
  withdrawn_reason = reason;
}

-- what an event writes on its own version's row
abbrev pub row_after :
    PolicyVersionEvent → DomainEvent PolicyVersionEvent → PolicyVersion → PolicyVersion
row_after submitted_for_review e v = project_submitted_for_review e v
row_after (reviewed decision comment) e v = project_reviewed decision comment e v
row_after made_effective e v = project_made_effective e v
row_after (superseded_by by) e v = project_superseded by e v
row_after (version_withdrawn reason) e v = project_withdrawn reason e v

-- `POLICY_VERSION_PROJECTORS`
unfoldable pub policy_version_projectors : Projectors PolicyVersionEvent (List PolicyVersion)
unfolding write_version
policy_version_projectors p = some (λ t e. write_version (row_after p e) t e)

-- `_LIFECYCLE_DEFAULTS`
unfoldable pub lifecycle_defaults : PolicyVersion → PolicyVersion
lifecycle_defaults v = record v {
  lifecycle_status = draft;
  submitted_by = none;
  submitted_at = none;
  reviewed_by = none;
  reviewed_at = none;
  review_decision = none;
  review_comment = "";
  effective_at = none;
  superseded_at = none;
  superseded_by_version_id = none;
  withdrawn_at = none;
  withdrawn_reason = "";
}

-- `_reset_policy_version_lifecycle`: only the lifecycle columns are reset, rows stay
unfoldable pub reset_policy_version_lifecycle : List PolicyVersion → List PolicyVersion
reset_policy_version_lifecycle [] = []
reset_policy_version_lifecycle (v ∷ rows) =
    lifecycle_defaults v ∷ reset_policy_version_lifecycle rows

abbrev pub PolicySession : Type 0
PolicySession = Session PolicyVersionEvent (List PolicyVersion)

-- `rebuild_policy_version_lifecycle_projection`
unfoldable pub rebuild_policy_version_lifecycle_projection : PolicySession → Result PolicySession
rebuild_policy_version_lifecycle_projection =
    rebuild_projection policy_version_projectors "policy_version" reset_policy_version_lifecycle

unfoldable pub record_version_event :
    Context → ℕ → Option ℕ → PolicyVersionEvent → PolicySession → Result PolicySession
record_version_event c id at payload s =
    record_event policy_version_projectors "policy_version" c id at payload s
