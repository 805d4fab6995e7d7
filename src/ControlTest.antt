-- ===== src/ControlTest.antt =====
-- app/control_tests.py: populations, samples, and the tests of controls.
--
-- Rows of exceptions and evidence go without their own ids, which nothing reads and which a rebuild
-- draws anew.
mod Sampling
pub mod Accepted
pub mod Rebuild
pub mod Samples
mod Examples
use minigrc.ControlTest.Sampling.{
  has_repeated_id, draw_sample, is_nil, sample_items, freeze_population, population_items,
  is_selected, Sample, SampleItem, Population,
}
pub use Sampling.*
unfoldable pub use Sampling.{
  is_selected, population_items, freeze_population, sample_items, has_repeated_id, draw_sample,
}
use minigrc.Events.{
  record_event, Projectors, DomainEvent, Context, rebuild_projection, Session, ProjectorFn,
}
use minigrc.Prelude.Table
use minigrc.Prelude.{
  ◌+◌, ◌++◌, ◌||◌, ◌>>=◌, ◌&&◌, ◌>>◌, ◌==◌, ◌∷◌, if◌then◌else◌, str_eq, one_of, any, all,
  bad_result, unexpected_exceptions, sample_of_other_control, unknown_sample_item,
  other_control_retested, empty_sample, unknown_population_item, integrity_error, attribute_error,
  Result, ok, err, require, ℕ, String, Bool, true, false, not, Option, none, some, List, [], map,
}

-- `TEST_RESULTS`
abbrev pub test_results : List String
test_results = "no_exceptions" ∷ "exceptions_noted" ∷ []

-- The projection row of a "control_test" aggregate.
pub record ControlTest : Type 0 where
  pub id : ℕ
  pub control_id : ℕ
  pub control_period_id : Option ℕ
  pub sample_id : Option ℕ
  pub procedure_description : String
  pub tester_person_id : ℕ
  pub performed_at : ℕ
  pub result : String
  pub notes : String
  pub retest_of_test_id : Option ℕ
  pub created_at : ℕ
  pub updated_at : ℕ

-- an entry of `exceptions`
pub record TestException : Type 0 where
  pub sample_item_id : Option ℕ
  pub description : String

-- the payload of "ControlTestRecorded"
pub record Recording : Type 0 where
  pub control_id : ℕ
  pub control_period_id : Option ℕ
  pub sample_id : Option ℕ
  pub procedure_description : String
  pub tester_person_id : ℕ
  pub performed_at : ℕ
  pub result : String
  pub notes : String
  pub exceptions : List TestException
  pub retest_of_test_id : Option ℕ

-- the event types, each with its payload
pub data ControlTestEvent : Type 0 where
  test_recorded : Recording → ControlTestEvent
  evidence_linked : ℕ → ControlTestEvent

-- `ControlTestException`
pub record ControlTestException : Type 0 where
  pub test_id : ℕ
  pub sample_item_id : Option ℕ
  pub description : String

-- `ControlTestEvidenceArtifact`
pub record ControlTestEvidence : Type 0 where
  pub test_id : ℕ
  pub evidence_artifact_version_id : ℕ
  pub created_at : ℕ

-- the projection's tables
pub record Tests : Type 0 where
  pub tests : List ControlTest
  pub exceptions : List ControlTestException
  pub evidence : List ControlTestEvidence

abbrev pub test_id : ControlTest → ℕ
test_id t = t.id

unfoldable pub get_test : ℕ → Tests → Option ControlTest
get_test i t = Table.get test_id i t.tests

abbrev pub exception_row : ℕ → TestException → ControlTestException
exception_row id x = record {
  test_id = id;
  sample_item_id = x.sample_item_id;
  description = x.description;
}

abbrev pub test_row : Recording → DomainEvent ControlTestEvent → ControlTest
test_row r e = record {
  id = e.aggregate_id;
  control_id = r.control_id;
  control_period_id = r.control_period_id;
  sample_id = r.sample_id;
  procedure_description = r.procedure_description;
  tester_person_id = r.tester_person_id;
  performed_at = r.performed_at;
  result = r.result;
  notes = r.notes;
  retest_of_test_id = r.retest_of_test_id;
  created_at = e.recorded_at;
  updated_at = e.recorded_at;
}

-- `_project_recorded`
unfoldable pub project_recorded : Recording → ProjectorFn ControlTestEvent Tests
project_recorded r t e = do
  rows ← Table.insert test_id (test_row r e) t.tests
  ok (record t {
    tests = rows;
    exceptions = t.exceptions ++ map (exception_row e.aggregate_id) r.exceptions;
  })

-- `uq_test_evidence_artifact`
unfoldable pub is_linked : ℕ → ℕ → List ControlTestEvidence → Bool
is_linked id version evidence =
    any (λ (x : ControlTestEvidence). x.test_id == id && x.evidence_artifact_version_id == version)
      evidence

abbrev pub link_row : ℕ → ℕ → DomainEvent ControlTestEvent → ControlTestEvidence
link_row now version e = record {
  test_id = e.aggregate_id;
  evidence_artifact_version_id = version;
  created_at = now;
}

-- `_project_evidence_linked`, with the flush that follows; `now` is the clock of the INSERT, which
-- fills `created_at`
unfoldable pub project_evidence_linked : ℕ → ℕ → ProjectorFn ControlTestEvent Tests
project_evidence_linked now version t e =
    if is_linked e.aggregate_id version t.evidence
    then err integrity_error
    else ok (record t { evidence = t.evidence ++ link_row now version e ∷ [] })

-- `CONTROL_TEST_PROJECTORS`, at the time `now`
unfoldable pub control_test_projectors : ℕ → Projectors ControlTestEvent Tests
control_test_projectors now (test_recorded r) = some (project_recorded r)
control_test_projectors now (evidence_linked version) = some (project_evidence_linked now version)

-- `_reset_control_tests`
unfoldable pub reset_control_tests : Tests → Tests
reset_control_tests t = record { tests = []; exceptions = []; evidence = [] }

abbrev pub TestSession : Type 0
TestSession = Session ControlTestEvent Tests

-- `rebuild_control_test_projection` at the time `now`
unfoldable pub rebuild_control_test_projection : ℕ → TestSession → Result TestSession
rebuild_control_test_projection now =
    rebuild_projection (control_test_projectors now) "control_test" reset_control_tests

abbrev pub population_id : Population → ℕ
population_id p = p.id

abbrev pub has_sample_item : List SampleItem → ℕ → Bool
has_sample_item items i = any (λ (x : SampleItem). x.id == i) items

-- whether an exception names an item that is not the sample's
abbrev pub is_known_item : List SampleItem → TestException → Bool
is_known_item items x = elim x.sample_item_id [ none ↦ true | some i ↦ has_sample_item items i ]

-- the tests of a given sample; `session.get(ControlTestPopulation, ...)` finds its population
unfoldable pub check_sample :
    List Population → ℕ → Option Sample → List TestException → Result (Unit {0})
check_sample populations control none exceptions = ok tt
check_sample populations control (some sample) exceptions =
    elim (Table.get population_id sample.population_id populations) [
      | none ↦ err attribute_error
      | some population ↦ do
        require (population.control_id == control) sample_of_other_control
        require (all (is_known_item sample.items) exceptions) unknown_sample_item
    ]

abbrev pub is_other_control : ℕ → Option ControlTest → Bool
is_other_control control none = false
is_other_control control (some t) = not (t.control_id == control)

-- the arguments of `record_test`
pub record TestArguments : Type 0 where
  pub control_id : ℕ
  pub sample : Option Sample
  pub control_period_id : Option ℕ
  pub procedure_description : String
  pub tester_person_id : ℕ
  pub performed_at : ℕ
  pub result : String
  pub notes : String
  pub exceptions : List TestException
  pub retest_of : Option ControlTest

abbrev pub recording_of : TestArguments → Recording
recording_of a = record {
  control_id = a.control_id;
  control_period_id = a.control_period_id;
  sample_id = elim a.sample [ none ↦ none | some s ↦ some s.id ];
  procedure_description = a.procedure_description;
  tester_person_id = a.tester_person_id;
  performed_at = a.performed_at;
  result = a.result;
  notes = a.notes;
  exceptions = a.exceptions;
  retest_of_test_id = elim a.retest_of [ none ↦ none | some t ↦ some t.id ];
}

-- the rows of other tables, as far as a test refers to them
pub record StoredRows : Type 0 where
  pub populations : List Population
  pub has_person : ℕ → Bool
  pub has_sample_item : ℕ → Bool

-- the foreign key `ControlTestException.sample_item_id`
abbrev pub is_stored_item : (ℕ → Bool) → TestException → Bool
is_stored_item has_sample_item x = elim x.sample_item_id [
  | none ↦ true
  | some i ↦ has_sample_item i
]

-- the foreign keys that the arguments of `record_test` leave open: its other references are rows that
-- the caller has loaded
abbrev pub has_references : StoredRows → TestArguments → Bool
has_references stored a =
    stored.has_person a.tester_person_id && all (is_stored_item stored.has_sample_item) a.exceptions

-- `record_test`, with the foreign keys that the projector's flush checks; `id` is the value of
-- `new_id()`
unfoldable pub record_test :
    Context → ℕ → StoredRows → TestArguments → TestSession → Result TestSession
record_test c id stored a s = do
  require (one_of test_results a.result) bad_result
  require (is_nil a.exceptions || str_eq a.result "exceptions_noted") unexpected_exceptions
  check_sample stored.populations a.control_id a.sample a.exceptions
  require (not (is_other_control a.control_id a.retest_of)) other_control_retested
  require (has_references stored a) integrity_error
  record_event (control_test_projectors c.now) "control_test" c id none
      (test_recorded (recording_of a)) s

-- `link_test_evidence`; the route has loaded the version
unfoldable pub link_test_evidence : Context → ControlTest → ℕ → TestSession → Result TestSession
link_test_evidence c t version s =
    record_event (control_test_projectors c.now) "control_test" c t.id none
      (evidence_linked version) s
