-- ===== src/ControlTest/Examples.antt =====
-- A population of two occurrences, a sample of one of them, a test with an exception, and a retest.
use minigrc.ControlTest.Sampling.{has_repeated_id}
use minigrc.Events.Stamped.{stamped}
use minigrc.Prelude.Table
use minigrc.Events.{event_machinery, Context}
use minigrc.Prelude.{
  ◌==◌, ◌↔◌, ◌≡◌, ◌+◌, ◌∷◌, length, All, ok, ℕ, refl, false, none, some, List, [], map, arith,
}
use minigrc.ControlTest.Accepted.{record_test_exact, IsAcceptable}
use minigrc.ControlTest.Samples.{drawn_sample, IsSampled}
use minigrc.ControlTest.{
  StoredRows, rebuild_control_test_projection, freeze_population, link_test_evidence, record_test,
  TestArguments, check_sample, TestSession, control_test_projectors, project_evidence_linked,
  is_linked, project_recorded, get_test, draw_sample, is_nil, sample_items, population_items,
  is_selected, Sample, SampleItem, Population, Occurrence,
}
use minigrc.Events.Runs.{run, request}
use minigrc.ControlTest.Rebuild.{
  stamp, rebuild_tests_after_run, link_it, record_it, TestCommand, empty_session, execute,
}

abbrev at_time : ℕ → Context
at_time t = record { now = t; event_id = t; actor_type = "user"; actor_id = some "ada" }

abbrev occurrences : List Occurrence
occurrences =
    record { id = 31; control_id = 4; control_period_id = none }
    ∷ record { id = 32; control_id = 5; control_period_id = none }
    ∷ record { id = 33; control_id = 4; control_period_id = some 8 }
    ∷ []

abbrev from_hundred : ℕ → ℕ
from_hundred n = 100 + n

abbrev from_two_hundred : ℕ → ℕ
from_two_hundred n = 200 + n

abbrev frozen : Population
frozen = freeze_population 60 from_hundred 4 none "Q1" "" "ada" occurrences

abbrev drawn : Sample
drawn = record {
  id = 70;
  population_id = 60;
  selection_method = "judgmental";
  selection_rationale = "";
  created_by = "ada";
  items = record { id = 200; population_item_id = 101 } ∷ [];
}

drawn_sample_example :
    (is_nil drawn.items ≡ false)
    × (map (λ (x : SampleItem). x.population_item_id) drawn.items ≡ 101 ∷ [])
    × All (IsSampled from_hundred from_two_hundred 4 none occurrences) drawn.items
unfolding draw_sample has_repeated_id freeze_population population_items sample_items is_selected
drawn_sample_example =
    drawn_sample 60 70 4 from_hundred from_two_hundred none occurrences "Q1" "" "judgmental" ""
      "ada" (101 ∷ []) drawn refl

abbrev failed_test : TestArguments
failed_test = record {
  control_id = 4;
  sample = some drawn;
  control_period_id = none;
  procedure_description = "inspect";
  tester_person_id = 2;
  performed_at = 9;
  result = "exceptions_noted";
  notes = "";
  exceptions = record { sample_item_id = some 200; description = "no approval" } ∷ [];
  retest_of = none;
}

abbrev stored : StoredRows
stored = record {
  populations = frozen ∷ [];
  has_person = λ i. i == 2;
  has_sample_item = λ i. i == 200;
}

record_test_exact_example :
    ((s' : TestSession) × (record_test (at_time 10) 40 stored failed_test empty_session ≡ ok s'))
    ↔ IsAcceptable 40 stored failed_test empty_session
record_test_exact_example = record_test_exact (at_time 10) 40 stored failed_test empty_session

abbrev story : List (Context × TestCommand)
story =
    (at_time 10, record_it 40 stored failed_test)
    ∷ (at_time 11, link_it 40 90)
    ∷ (at_time 12, link_it 40 90)
    ∷ (at_time 13, link_it 41 90)
    ∷ []

story_rows :
    (length (run execute empty_session story).tables.tests ≡ 1)
    × (length (run execute empty_session story).tables.exceptions ≡ 1)
    × (length (run execute empty_session story).tables.evidence ≡ 1)
unfolding event_machinery run request execute record_test link_test_evidence check_sample get_test
    Table.get Table.insert control_test_projectors project_recorded project_evidence_linked
    is_linked freeze_population
story_rows = (refl, refl, refl)

rebuild_tests_after_run_example :
    rebuild_control_test_projection 99 (run execute empty_session story)
    ≡ ok (stamped (stamp 99) (run execute empty_session story))
rebuild_tests_after_run_example = rebuild_tests_after_run 0 99 story (omega arith)
