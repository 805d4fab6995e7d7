-- ===== src/ControlDefinition.antt =====
-- app/control_definition_lifecycle.py: the lifecycle of the versions of a control's definition.
--
-- A command gets the clock and fresh ids of each event that it appends. The requirement ids of a
-- definition are a list, as they are before their JSON text.
mod Projection
pub mod Single
pub mod Log
pub mod Requests
pub mod Recovery
mod Examples
use minigrc.ControlDefinition.Projection.{
  rebuild_control_versions, VersionSession, reset_control_versions, control_version_projectors,
  withdrawn_row, superseded_row, effective_row, reviewed_row, submitted_row, write_control_version,
  project_drafted, get_control_version, Versions, definition_withdrawn, definition_superseded,
  definition_made_effective, definition_reviewed, definition_submitted, definition_drafted,
  Definition, flush_versions, has_two_effective,
}
pub use Projection.*
unfoldable pub use Projection.{
  get_control_version, has_two_effective, flush_versions, project_drafted, write_control_version,
  submitted_row, reviewed_row, effective_row, superseded_row, withdrawn_row,
  control_version_projectors, reset_control_versions, rebuild_control_versions,
  record_definition_event,
}
use minigrc.Events.{Context}
use minigrc.Prelude.{
  ℕ, ◌+◌, max, String, List, [], ◌∷◌, Option, none, some, Bool, true, false, not, ◌&&◌, ◌==◌, ltb,
  if◌then◌else◌, str_eq, one_of, is_blank, Result, ok, err, require, not_draft, not_in_review,
  not_approved, bad_review_decision, comment_required, withdraw_terminal, not_found, ◌>>=◌, ◌>>◌,
}
use minigrc.Policy.{
  is_draft, is_in_review, is_approved, is_effective, is_terminal, review_decisions,
}

-- an `InternalControl` row, as far as a definition is a snapshot of it
pub record ControlRow : Type 0 where
  pub id : ℕ
  pub name : String
  pub description : String
  pub status : String
  pub review_frequency : String
  pub requirement_ids : List ℕ

-- the optional arguments of `draft_control_definition_version`
pub record Overrides : Type 0 where
  pub name : Option String
  pub description : Option String
  pub status_snapshot : Option String
  pub review_frequency_snapshot : Option String
  pub mapped_requirement_ids : Option (List ℕ)

abbrev pub default {ℓ} : {A : Type ℓ} → A → Option A → A
default current none = current
default current (some given) = given

-- `max((v.version_number for v in control.versions), default=0)`
unfoldable pub last_number : ℕ → Versions → ℕ
last_number control [] = 0
last_number control (v ∷ rows) =
    let rest = last_number control rows in
    if v.control_id == control then max v.version_number rest else rest

abbrev pub definition_of : ControlRow → Overrides → Versions → Definition
definition_of control given rows = record {
  control_id = control.id;
  version_number = last_number control.id rows + 1;
  name = default control.name given.name;
  description = default control.description given.description;
  status_snapshot = default control.status given.status_snapshot;
  review_frequency_snapshot = default control.review_frequency given.review_frequency_snapshot;
  mapped_requirement_ids = default control.requirement_ids given.mapped_requirement_ids;
}

-- `draft_control_definition_version`; `id` is the value of `new_id()`
unfoldable pub draft_control_definition_version :
    Context → ℕ → ControlRow → Overrides → VersionSession → Result VersionSession
draft_control_definition_version c id control given s =
    record_definition_event c id none (definition_drafted (definition_of control given s.tables)) s

-- `submit_for_review`
unfoldable pub submit_definition :
    Context → InternalControlVersion → VersionSession → Result VersionSession
submit_definition c v s = do
  require (is_draft v.lifecycle_status) not_draft
  record_definition_event c v.id none definition_submitted s

-- `review_version`
unfoldable pub review_definition :
    Context → InternalControlVersion → String → String → VersionSession → Result VersionSession
review_definition c v decision comment s = do
  require (is_in_review v.lifecycle_status) not_in_review
  require (one_of review_decisions decision) bad_review_decision
  require (not (str_eq decision "rejected" && is_blank comment)) comment_required
  record_definition_event c v.id none (definition_reviewed decision comment) s

-- the later of two candidates in the order of `control.versions`, from the highest number down
abbrev pub newer : InternalControlVersion → Option InternalControlVersion → InternalControlVersion
newer v none = v
newer v (some w) = if ltb v.version_number w.version_number then w else v

-- `previous_effective` of `make_version_effective`
unfoldable pub previous_definition :
    InternalControlVersion → Versions → Option InternalControlVersion
previous_definition v [] = none
previous_definition v (w ∷ rows) =
    let rest = previous_definition v rows in
    if w.control_id == v.control_id && (is_effective w.lifecycle_status && not (w.id == v.id))
    then some (newer w rest)
    else rest

unfoldable pub supersede_definition :
    Context → ℕ → Option InternalControlVersion → VersionSession → Result VersionSession
supersede_definition c by none s = ok s
supersede_definition c by (some previous) s =
    record_definition_event c previous.id none (definition_superseded by) s

-- `make_version_effective`
unfoldable pub make_definition_effective :
    Context → Context → InternalControlVersion → VersionSession → Result VersionSession
make_definition_effective c c' v s = do
  require (is_approved v.lifecycle_status) not_approved
  s' ← supersede_definition c v.id (previous_definition v s.tables) s
  record_definition_event c' v.id none definition_made_effective s'

-- `withdraw_version`
unfoldable pub withdraw_definition :
    Context → InternalControlVersion → String → Option ℕ → VersionSession → Result VersionSession
withdraw_definition c v reason occurred_at s = do
  require (not (is_terminal v.lifecycle_status)) withdraw_terminal
  record_definition_event c v.id occurred_at (definition_withdrawn reason) s

-- a command on the version that is loaded by its id
abbrev pub with_version :
    ℕ
    → (InternalControlVersion → VersionSession → Result VersionSession)
    → VersionSession
    → Result VersionSession
with_version id f s = elim (get_control_version id s.tables) [
  | none ↦ err not_found
  | some v ↦ f v s
]

abbrev pub as_it_is : Overrides
as_it_is = record {
  name = none;
  description = none;
  status_snapshot = none;
  review_frequency_snapshot = none;
  mapped_requirement_ids = none;
}

-- the contexts of the five events that a bootstrap may append
pub record Contexts : Type 0 where
  pub drafting : Context
  pub submitting : Context
  pub reviewing : Context
  pub superseding : Context
  pub activating : Context

-- `bootstrap_initial_effective_version`: the version is the one row that its commands write
unfoldable pub bootstrap_initial_effective_version :
    Contexts → ℕ → ControlRow → VersionSession → Result VersionSession
bootstrap_initial_effective_version cs id control s = do
  s1 ← draft_control_definition_version cs.drafting id control as_it_is s
  s2 ← with_version id (submit_definition cs.submitting) s1
  s3 ← with_version id (λ v. review_definition cs.reviewing v "approved" "") s2
  with_version id (make_definition_effective cs.superseding cs.activating) s3
