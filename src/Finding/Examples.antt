-- ===== src/Finding/Examples.antt =====
-- A finding that is opened, worked on, retested and closed.
use minigrc.Events.Stamped.{stamped}
use minigrc.Finding.Validity.{AllValid, run_is_valid}
use minigrc.Finding.Diagram.{execute-RowStep, RowStep}
use minigrc.Finding.Lifecycle.{execute_exact, IsAllowed}
use minigrc.ControlTest.{ControlTest}
use minigrc.Events.Runs.{run, request}
use minigrc.Finding.Rebuild.{stamp, rebuild_after_run}
use minigrc.Events.{Context}
use minigrc.Finding.Rows.{new_event, opened_row}
use minigrc.Prelude.{◌==◌, false, ◌∷◌, ◌↔◌, ◌≡◌, ok, ℕ, refl, none, some, List, [], arith}
use minigrc.Finding.{
  References, finding_machinery, rebuild_finding_projection, empty_session, execute, close_it,
  retest_it, request_it, update_it, open_it, FindingCommand, FindingSession, get_finding,
  finding_opened, Opening, Finding, closed, opened,
}
use mathlib.Core.Option

abbrev at_time : ℕ → Context
at_time t = record { now = t; event_id = t; actor_type = "user"; actor_id = some "ada" }

abbrev mfa_gap : Opening
mfa_gap = record {
  title = "MFA gap";
  description = "";
  severity = "high";
  control_id = some 4;
  source_test_id = none;
  owner_person_id = none;
  due_date = none;
}

-- the rows that there are: a control and a person
abbrev references : References
references = record {
  has_control = λ i. i == 4;
  has_test = λ i. false;
  has_person = λ i. i == 2;
  has_artifact_version = λ i. false;
}

abbrev retest : ControlTest
retest = record {
  id = 9;
  control_id = 4;
  control_period_id = none;
  sample_id = none;
  procedure_description = "";
  tester_person_id = 2;
  performed_at = 30;
  result = "no_exceptions";
  notes = "";
  retest_of_test_id = none;
  created_at = 30;
  updated_at = 30;
}

abbrev story : List (Context × FindingCommand)
story =
    (at_time 10, open_it references 7 mfa_gap)
    ∷ (at_time 11, update_it references 7 "enrolled everyone" none)
    ∷ (at_time 12, close_it 7 "wontfix" "")
    ∷ (at_time 13, request_it 7)
    ∷ (at_time 14, retest_it 7 retest)
    ∷ (at_time 15, close_it 7 "remediated_and_retested" "")
    ∷ []

abbrev opened_only : FindingSession
opened_only = run execute empty_session ((at_time 10, open_it references 7 mfa_gap) ∷ [])

story_statuses :
    (Option.map (λ (f : Finding). f.status) (get_finding 7 opened_only.tables) ≡ some opened)
    × (Option.map
          (λ (f : Finding). f.status)
          (get_finding 7 (run execute empty_session story).tables)
        ≡ some closed)
unfolding run request finding_machinery
story_statuses = (refl, refl)

execute_exact_example :
    ((s' : FindingSession) × (execute (at_time 10) (open_it references 7 mfa_gap) empty_session
        ≡ ok s'))
    ↔ IsAllowed (open_it references 7 mfa_gap) empty_session
execute_exact_example = execute_exact (at_time 10) (open_it references 7 mfa_gap) empty_session

rebuild_after_run_example :
    rebuild_finding_projection 99 (run execute empty_session story)
    ≡ ok (stamped (stamp 99) (run execute empty_session story))
rebuild_after_run_example = rebuild_after_run 0 99 story (omega arith)

abbrev first_finding : Finding
first_finding = opened_row mfa_gap (new_event (at_time 10) 7 (finding_opened mfa_gap) empty_session)

execute-RowStep_example :
    (f' : Finding) × (get_finding 7
        (request execute opened_only
          (at_time 11, update_it references 7 "enrolled everyone" none)).tables
      ≡ some f')
    × RowStep 7 (update_it references 7 "enrolled everyone" none) first_finding f'
unfolding run request finding_machinery
execute-RowStep_example =
    execute-RowStep (at_time 11) (update_it references 7 "enrolled everyone" none) opened_only
      (request execute opened_only (at_time 11, update_it references 7 "enrolled everyone" none)) 7
      first_finding refl refl

run_is_valid_example : AllValid (run execute empty_session story)
run_is_valid_example = run_is_valid story
