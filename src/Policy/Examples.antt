-- ===== src/Policy/Examples.antt =====
-- A policy with an effective version, the next version of which is approved and made effective.
use minigrc.Policy.Rebuild.{rebuild_versions_after_run}
use minigrc.Policy.Diagram.{version_moves}
use minigrc.Prelude.Table
use minigrc.Events.{Context}
use minigrc.Prelude.{◌≡◌, ◌∷◌, ok, ℕ, refl, none, some, List, [], arith}
use minigrc.Policy.Effective.{IsSingle}
use minigrc.Policy.Lifecycle.{RowStep}
use minigrc.Policy.Runs.{one_effective, run, request}
use minigrc.Policy.{
  rebuild_policy_version_lifecycle_projection, policy_machinery, make_it_effective, review_it,
  submit_it, PolicyCommand, has_two_effective, PolicySession, reset_policy_version_lifecycle,
  lifecycle_defaults, get_version, version_id, PolicyVersion, PolicyFile, superseded, effective,
  draft,
}
use mathlib.Core.Option

abbrev at_time : ℕ → Context
at_time t = record { now = t; event_id = t; actor_type = "user"; actor_id = some "ada" }

abbrev upload : PolicyFile
upload = record {
  original_filename = "access.pdf";
  stored_filename = "access.pdf";
  media_type = "application/pdf";
  byte_size = 12;
  sha256 = "00";
  uploader = "ada";
}

abbrev fresh : ℕ → ℕ → PolicyVersion
fresh id number = record {
  id = id;
  policy_id = 1;
  version_number = number;
  file = upload;
  lifecycle_status = draft;
  submitted_by = none;
  submitted_at = none;
  reviewed_by = none;
  reviewed_at = none;
  review_decision = none;
  review_comment = "";
  effective_at = none;
  superseded_at = none;
  superseded_by_version_id = none;
  withdrawn_at = none;
  withdrawn_reason = "";
}

abbrev uploads : List PolicyVersion
uploads = fresh 5 1 ∷ fresh 6 2 ∷ []

abbrev start : PolicySession
start = record { events = []; tables = uploads }

abbrev story : List (Context × Context × PolicyCommand)
story =
    (at_time 10, at_time 11, submit_it 1 5)
    ∷ (at_time 12, at_time 13, review_it 1 5 "approved" "")
    ∷ (at_time 14, at_time 15, make_it_effective 1 5)
    ∷ (at_time 16, at_time 17, submit_it 1 6)
    ∷ (at_time 18, at_time 19, review_it 1 6 "approved" "")
    ∷ []

abbrev two_versions : PolicySession
two_versions = run start story

abbrev switched : PolicySession
switched = request two_versions (at_time 20, at_time 21, make_it_effective 1 6)

statuses :
    (Option.map (λ (v : PolicyVersion). v.lifecycle_status) (get_version 5 switched.tables)
      ≡ some superseded)
    × (Option.map (λ (v : PolicyVersion). v.lifecycle_status) (get_version 6 switched.tables)
        ≡ some effective)
unfolding run request policy_machinery
statuses = (refl, refl)

abbrev approved_version : PolicyVersion
approved_version = elim (get_version 6 two_versions.tables) [ none ↦ fresh 6 2 | some v ↦ v ]

keyed : Table.IsKeyed version_id two_versions.tables
unfolding run request policy_machinery
keyed = ((refl, tt), (tt, tt))

version_moves_example :
    (v' : PolicyVersion) × (get_version 6 switched.tables ≡ some v') × RowStep approved_version v'
unfolding run request policy_machinery
version_moves_example =
    version_moves (at_time 20) (at_time 21) (make_it_effective 1 6) two_versions switched 6
      approved_version keyed refl refl

one_effective_example : IsSingle (run start story).tables
unfolding has_two_effective
one_effective_example = one_effective start story refl

rebuild_versions_after_run_example :
    rebuild_policy_version_lifecycle_projection (run start story) ≡ ok (run start story)
unfolding reset_policy_version_lifecycle lifecycle_defaults
rebuild_versions_after_run_example = rebuild_versions_after_run 0 uploads story (omega arith) refl
