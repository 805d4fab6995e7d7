-- ===== src/ControlDefinition/Examples.antt =====
-- A control with a bootstrapped definition, and a second version that takes its place.
use minigrc.Policy.{superseded, effective}
use minigrc.ControlDefinition.Single.{count_effective}
use minigrc.ControlDefinition.{
  bootstrap_initial_effective_version, supersede_definition, draft_control_definition_version,
  Contexts, as_it_is, withdraw_definition, make_definition_effective, previous_definition,
  review_definition, submit_definition, last_number, Overrides, ControlRow,
}
use minigrc.ControlDefinition.Requests.{
  bootstrap_it, one_effective_definition, make_effective_it, draft_it, DefinitionCommand, IsTicking,
  run, request, empty_session, execute, withdraw_it, review_it, submit_it,
}
use minigrc.ControlDefinition.Projection.{
  superseded_row, flush_versions, record_definition_event, control_version_projectors,
  withdrawn_row, effective_row, reviewed_row, submitted_row, write_control_version, project_drafted,
  get_control_version, has_two_effective,
}
use minigrc.Prelude.{◌∷◌, ◌≡◌, ◌≤◌, length, refl, none, some, List, [], map, arith, ℕ, is_blank}
use minigrc.Prelude.Table
use minigrc.Events.{event_machinery, Context}

abbrev at_time : ℕ → Context
at_time t = record { now = t; event_id = t; actor_type = "user"; actor_id = some "ada" }

abbrev control : ControlRow
control = record {
  id = 4;
  name = "Access review";
  description = "Who may enter";
  status = "implemented";
  review_frequency = "quarterly";
  requirement_ids = 11 ∷ 12 ∷ [];
}

abbrev five_times : Contexts
five_times = record {
  drafting = at_time 1;
  submitting = at_time 2;
  reviewing = at_time 3;
  superseding = at_time 4;
  activating = at_time 5;
}

abbrev monthly : Overrides
monthly = record as_it_is { review_frequency_snapshot = some "monthly" }

abbrev story : List DefinitionCommand
story =
    bootstrap_it five_times 70 control
    ∷ draft_it (at_time 6) 71 control monthly
    ∷ submit_it (at_time 7) 71
    ∷ review_it (at_time 8) 71 "rejected" " "
    ∷ review_it (at_time 9) 71 "approved" ""
    ∷ make_effective_it (at_time 10) (at_time 11) 71
    ∷ withdraw_it (at_time 12) 70 "too late" none
    ∷ []

definition_machinery : Unit {0}
unfolding event_machinery Table.get Table.modify Table.insert get_control_version has_two_effective
    flush_versions project_drafted write_control_version submitted_row reviewed_row effective_row
    superseded_row withdrawn_row control_version_projectors record_definition_event last_number
    draft_control_definition_version submit_definition review_definition previous_definition
    supersede_definition make_definition_effective withdraw_definition
    bootstrap_initial_effective_version execute request run is_blank
definition_machinery = tt

-- the second version superseded the first; what raised left no event
second_is_effective :
    map (λ v. v.lifecycle_status) (run empty_session story).tables ≡ superseded ∷ effective ∷ []
unfolding definition_machinery
second_is_effective = refl

nine_events : length (run empty_session story).events ≡ 9
unfolding definition_machinery
nine_events = refl

story-IsTicking : IsTicking 0 story
story-IsTicking = (
  (omega arith, omega arith, omega arith, omega arith, omega arith),
  (
    omega arith,
    (omega arith, (omega arith, (omega arith, ((omega arith, omega arith), (omega arith, tt))))),
  ),
)

one_effective_definition_example : count_effective 4 (run empty_session story).tables ≤ 1
one_effective_definition_example = one_effective_definition 0 story 4 story-IsTicking
