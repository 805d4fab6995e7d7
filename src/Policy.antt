-- ===== src/Policy.antt =====
-- app/policy_lifecycle.py: the approval lifecycle of a policy's versions.
--
-- The flush at the end of `make_version_effective` checks the partial unique index of
-- app/models.py on the state that the two events leave. The states that earlier flushes of the same
-- command see have no more effective versions than the one before the command.
mod Projection
pub mod Rows
pub mod Lifecycle
pub mod Steps
pub mod Effective
pub mod Runs
pub mod Diagram
pub mod Rebuild
mod Examples
pub use Projection.*
unfoldable pub use Projection.{
  get_version, write_version, project_submitted_for_review, project_reviewed,
  project_made_effective, project_superseded, project_withdrawn, policy_version_projectors,
  lifecycle_defaults, reset_policy_version_lifecycle, rebuild_policy_version_lifecycle_projection,
  record_version_event,
}
use minigrc.Prelude.{
  ◌>>=◌, ◌>>◌, ◌==◌, ◌||◌, ◌&&◌, ◌∷◌, ltb, if◌then◌else◌, str_eq, one_of, is_blank, any, not_draft,
  not_in_review, not_approved, bad_review_decision, comment_required, withdraw_terminal,
  integrity_error, attribute_error, not_found, Result, ok, err, require, ℕ, String, Bool, true,
  false, not, Option, none, some, List, [],
}
use minigrc.Prelude.Table
use minigrc.Events.{
  record_event, Context, rebuild_projection, event_machinery, Projectors, ProjectorFn, Session,
  DomainEvent,
}

abbrev pub is_draft : VersionStatus → Bool
is_draft draft = true
is_draft _ = false

abbrev pub is_in_review : VersionStatus → Bool
is_in_review in_review = true
is_in_review _ = false

abbrev pub is_approved : VersionStatus → Bool
is_approved approved = true
is_approved _ = false

abbrev pub is_effective : VersionStatus → Bool
is_effective effective = true
is_effective _ = false

-- not one of ("draft", "in_review", "approved", "effective")
abbrev pub is_terminal : VersionStatus → Bool
is_terminal superseded = true
is_terminal withdrawn = true
is_terminal _ = false

-- `submit_for_review`
pub submit_for_review : Context → PolicyVersion → PolicySession → Result PolicySession
submit_for_review c v s = do
  require (is_draft v.lifecycle_status) not_draft
  record_version_event c v.id none submitted_for_review s

abbrev pub review_decisions : List String
review_decisions = "approved" ∷ "rejected" ∷ []

-- `review_version`
pub review_version :
    Context → PolicyVersion → String → String → PolicySession → Result PolicySession
review_version c v decision comment s = do
  require (is_in_review v.lifecycle_status) not_in_review
  require (one_of review_decisions decision) bad_review_decision
  require (not (str_eq decision "rejected" && is_blank comment)) comment_required
  record_version_event c v.id none (reviewed decision comment) s

insert_version : PolicyVersion → List PolicyVersion → List PolicyVersion
insert_version v [] = v ∷ []
insert_version v (x ∷ xs) =
    if ltb x.version_number v.version_number then v ∷ x ∷ xs else x ∷ insert_version v xs

-- `policy.versions`, ordered by `version_number` from the highest
pub versions_of : ℕ → List PolicyVersion → List PolicyVersion
unfolding insert_version
versions_of policy [] = []
versions_of policy (v ∷ rows) =
    let rest = versions_of policy rows in
    if v.policy_id == policy then insert_version v rest else rest

first_effective_but : ℕ → List PolicyVersion → Option PolicyVersion
first_effective_but id [] = none
first_effective_but id (v ∷ rows) =
    if is_effective v.lifecycle_status && not (v.id == id)
    then some v
    else first_effective_but id rows

-- `previous_effective` of `make_version_effective`
pub previous_effective : PolicyVersion → List PolicyVersion → Option PolicyVersion
unfolding versions_of first_effective_but
previous_effective v rows = first_effective_but v.id (versions_of v.policy_id rows)

abbrev pub both_effective : PolicyVersion → PolicyVersion → Bool
both_effective v w =
    is_effective v.lifecycle_status && is_effective w.lifecycle_status && v.policy_id == w.policy_id

-- `uq_policy_version_one_effective_per_policy` is violated
pub has_two_effective : List PolicyVersion → Bool
has_two_effective [] = false
has_two_effective (v ∷ rows) = any (both_effective v) rows || has_two_effective rows

-- the flush of a session
pub flush_versions : PolicySession → Result PolicySession
unfolding has_two_effective
flush_versions s = if has_two_effective s.tables then err integrity_error else ok s

pub supersede_previous : Context → ℕ → Option PolicyVersion → PolicySession → Result PolicySession
supersede_previous c by none s = ok s
supersede_previous c by (some previous) s =
    record_version_event c previous.id none (superseded_by by) s

-- `make_version_effective`; each of its two events has its own context
pub make_version_effective :
    Context → Context → PolicyVersion → PolicySession → Result PolicySession
make_version_effective c c' v s = do
  require (is_approved v.lifecycle_status) not_approved
  s' ← supersede_previous c v.id (previous_effective v s.tables) s
  s'' ← record_version_event c' v.id none made_effective s'
  flush_versions s''

-- `withdraw_version`
pub withdraw_version :
    Context → PolicyVersion → String → Option ℕ → PolicySession → Result PolicySession
withdraw_version c v reason at s = do
  require (not (is_terminal v.lifecycle_status)) withdraw_terminal
  record_version_event c v.id at (version_withdrawn reason) s

-- A request of app/routers/policies.py: the policy and the version are the path's,
-- the version is loaded by its id (404 if it is not of that policy), and a command called on it.
pub data PolicyCommand : Type 0 where
  submit_it : ℕ → ℕ → PolicyCommand
  review_it : ℕ → ℕ → String → String → PolicyCommand
  make_it_effective : ℕ → ℕ → PolicyCommand
  withdraw_it : ℕ → ℕ → String → Option ℕ → PolicyCommand

-- `version is None or version.policy_id != policy_id`
pub with_loaded :
    ℕ → ℕ → PolicySession → (PolicyVersion → Result PolicySession) → Result PolicySession
with_loaded policy id s k = elim (get_version id s.tables) [
  | none ↦ err not_found
  | some v ↦ if v.policy_id == policy then k v else err not_found
]

pub execute : Context → Context → PolicyCommand → PolicySession → Result PolicySession
execute c c' (submit_it policy id) s = with_loaded policy id s λ v. submit_for_review c v s
execute c c' (review_it policy id decision comment) s =
    with_loaded policy id s λ v. review_version c v decision comment s
execute c c' (make_it_effective policy id) s =
    with_loaded policy id s λ v. make_version_effective c c' v s
execute c c' (withdraw_it policy id reason at) s =
    with_loaded policy id s λ v. withdraw_version c v reason at s

-- All that a request on a policy version calls, for tests.
policy_machinery : Unit {0}
unfolding event_machinery Table.get Table.modify is_blank get_version write_version
    project_submitted_for_review project_reviewed project_made_effective project_superseded
    project_withdrawn policy_version_projectors lifecycle_defaults reset_policy_version_lifecycle
    record_version_event submit_for_review review_version insert_version versions_of
    first_effective_but previous_effective has_two_effective flush_versions supersede_previous
    make_version_effective withdraw_version with_loaded execute
policy_machinery = tt
