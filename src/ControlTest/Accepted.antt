-- ===== src/ControlTest/Accepted.antt =====
-- Exactly which tests `record_test` accepts.
use minigrc.Events.Record.{record_event-total, recorded_event, record_event-ok}
use minigrc.Events.{draft_event, record_event, Context}
use minigrc.Prelude.Table
use minigrc.Prelude.{
  integrity_error, ◌++◌, ◌∷◌, ◌||◌, str_eq, bad_result, unexpected_exceptions,
  other_control_retested, Result, >>=-eq-ok, require-eq-ok, String, [], map, eq_iff, ◌↔◌, ◌==◌, ◌⊎◌,
  ◌≡◌, ==_iff, Bool-cases, Option-cases, one_of, all, ok, ℕ, refl, inl, inr, true, not, Option,
  none, some, List, arith,
}
use minigrc.ControlTest.{
  has_references, is_stored_item, StoredRows, record_test, recording_of, control_test_projectors,
  project_recorded, test_row, exception_row, test_id, test_recorded, TestArguments,
  is_other_control, check_sample, is_known_item, population_id, TestSession, get_test,
  TestException, is_nil, Sample, Population, ControlTest, test_results,
}

abbrev pub IsSampleOf : List Population → ℕ → Option Sample → List TestException → Type 0
IsSampleOf populations control none exceptions = Unit
IsSampleOf populations control (some sample) exceptions =
    (p : Population) × (Table.get population_id sample.population_id populations ≡ some p)
    × (p.control_id ≡ control)
    × (all (is_known_item sample.items) exceptions ≡ true)

abbrev pub IsRetestOf : ℕ → Option ControlTest → Type 0
IsRetestOf control none = Unit
IsRetestOf control (some t) = t.control_id ≡ control

-- the conditions of the code, with the id fresh
pub record IsAcceptable (id : ℕ) (stored : StoredRows) (a : TestArguments) (s : TestSession)
    : Type 0 where
  pub known_result : one_of test_results a.result ≡ true
  pub exceptions_fit : (is_nil a.exceptions ≡ true) ⊎ (a.result ≡ "exceptions_noted")
  pub sampled : IsSampleOf stored.populations a.control_id a.sample a.exceptions
  pub retested : IsRetestOf a.control_id a.retest_of
  pub tester : stored.has_person a.tester_person_id ≡ true
  pub items : all (is_stored_item stored.has_sample_item) a.exceptions ≡ true
  pub fresh : get_test id s.tables ≡ none

check_sample-ok :
    (populations : List Population) (control : ℕ) (sample : Option Sample)
    (exceptions : List TestException)
    → check_sample populations control sample exceptions ≡ ok tt
    → IsSampleOf populations control sample exceptions
unfolding check_sample
check_sample-ok populations control none exceptions h = tt
check_sample-ok populations control (some sample) exceptions h =
    elim (Option-cases (Table.get population_id sample.population_id populations)) [
      | inl n ↦ absurd (ground (arith, n))
      | inr (p, n) ↦ elim (Bool-cases (p.control_id == control)) [
        | inr q ↦ absurd (ground (arith, n, q))
        | inl q ↦ (p, n, (==_iff p.control_id control).0 q, ground (arith, n, q))
      ]
    ]

check_sample-total :
    (populations : List Population) (control : ℕ) (sample : Option Sample)
    (exceptions : List TestException)
    → IsSampleOf populations control sample exceptions
    → check_sample populations control sample exceptions ≡ ok tt
unfolding check_sample
check_sample-total populations control none exceptions h = refl
check_sample-total populations control (some sample) exceptions (p, n, e, k) =
    ground (arith, n, e, k)

retest_test :
    (control : ℕ) (t : Option ControlTest)
    → (not (is_other_control control t) ≡ true) ↔ IsRetestOf control t
retest_test control none = ((λ h. tt), λ h. refl)
retest_test control (some t) = ground arith

exceptions_test :
    (exceptions : List TestException) (result : String)
    → ((is_nil exceptions || str_eq result "exceptions_noted") ≡ true)
      ↔ ((is_nil exceptions ≡ true) ⊎ (result ≡ "exceptions_noted"))
exceptions_test [] result = ((λ h. inl refl), λ h. refl)
exceptions_test (x ∷ xs) result = (
  (λ h. inr ((eq_iff result "exceptions_noted").0 h)),
  (λ h. elim h [
    | inl n ↦ absurd (ground (arith, n))
    | inr e ↦ (eq_iff result "exceptions_noted").1 e
  ]),
)

-- the event's part of `record_test`
abbrev recorded : Context → ℕ → TestArguments → TestSession → Result TestSession
recorded c id a s =
    record_event (control_test_projectors c.now) "control_test" c id none
      (test_recorded (recording_of a)) s

recorded-fresh :
    (c : Context) (id : ℕ) (a : TestArguments) (s s' : TestSession)
    → recorded c id a s ≡ ok s'
    → get_test id s.tables ≡ none
unfolding control_test_projectors project_recorded get_test draft_event
recorded-fresh c id a s s' h =
    let r =
      record_event-ok (control_test_projectors c.now) "control_test" c id none
        (test_recorded (recording_of a)) s h in
    let e = recorded_event "control_test" c id none (test_recorded (recording_of a)) s in
    let (rows, i, q) =
      >>=-eq-ok (Table.insert test_id (test_row (recording_of a) e) s.tables.tests) _ r.tables in
    (Table.insert-ok test_id (test_row (recording_of a) e) s.tables.tests i).0

recorded-total :
    (c : Context) (id : ℕ) (a : TestArguments) (s : TestSession)
    → get_test id s.tables ≡ none
    → (s' : TestSession) × (recorded c id a s ≡ ok s')
unfolding control_test_projectors project_recorded get_test Table.insert draft_event
recorded-total c id a s n =
    let e = recorded_event "control_test" c id none (test_recorded (recording_of a)) s in
    (
      _,
      record_event-total (control_test_projectors c.now) "control_test" c id none
          (test_recorded (recording_of a)) s
          (record {
            tests = s.tables.tests ++ test_row (recording_of a) e ∷ [];
            exceptions = s.tables.exceptions ++ map (exception_row id) a.exceptions;
            evidence = s.tables.evidence;
          })
          (ground (arith, n)),
    )

-- A test is recorded exactly if its result is a known word, exceptions come only with the result
-- "exceptions_noted", a given sample is of a population of the same control and holds every item that
-- an exception names, a given earlier test is of the same control, the tester and every sample item
-- that an exception names are stored, and the id is fresh.
pub record_test_exact :
    (c : Context) (id : ℕ) (stored : StoredRows) (a : TestArguments) (s : TestSession)
    → ((s' : TestSession) × (record_test c id stored a s ≡ ok s')) ↔ IsAcceptable id stored a s
unfolding record_test
record_test_exact c id stored a s = (
  (λ (s', h).
      let (k, h) = require-eq-ok (one_of test_results a.result) bad_result _ h in
      let (x, h) =
        require-eq-ok (is_nil a.exceptions || str_eq a.result "exceptions_noted")
          unexpected_exceptions _ h in
      let (u, m, h) =
        >>=-eq-ok (check_sample stored.populations a.control_id a.sample a.exceptions) _ h in
      let (r, h) =
        require-eq-ok (not (is_other_control a.control_id a.retest_of)) other_control_retested _
          h in
      let (f, h) = require-eq-ok (has_references stored a) integrity_error _ h in
      record {
        known_result = k;
        exceptions_fit = (exceptions_test a.exceptions a.result).0 x;
        sampled = check_sample-ok stored.populations a.control_id a.sample a.exceptions m;
        retested = (retest_test a.control_id a.retest_of).0 r;
        tester = ground (arith, f);
        items = ground (arith, f);
        fresh = recorded-fresh c id a s s' h;
      }),
  (λ p.
      let (s', h) = recorded-total c id a s p.fresh in
      let x = (exceptions_test a.exceptions a.result).1 p.exceptions_fit in
      let m = check_sample-total stored.populations a.control_id a.sample a.exceptions p.sampled in
      let r = (retest_test a.control_id a.retest_of).1 p.retested in
      let f : has_references stored a ≡ true = rw (p.tester) p.items in
      let k = p.known_result in (s', rw (k, x, m, r, f) h)),
)
