-- ===== src/ControlTest/Rebuild.antt =====
-- Runs of requests on control tests, and `rebuild_control_test_projection` after them.
use minigrc.Prelude.Table
use minigrc.Events.Record.{project_payload}
use minigrc.Events.Stamped.{rebuild-run-stamped, stamped}
use minigrc.Events.Runs.{Effect, one_event, run, IsTicking}
use minigrc.Events.{DomainEvent, Context}
use minigrc.Prelude.{
  map-append_last, ◌∷◌, Bool-cases, integrity_error, map, ◌||◌, ◌≡◌, Option-cases, str_eq, one_of,
  bad_result, unexpected_exceptions, other_control_retested, not_found, Result, ok, err, >>=-eq-ok,
  require-eq-ok, ℕ, refl, inl, inr, not, none, some, List, [], arith,
}
use minigrc.ControlTest.{
  link_row, test_id, has_references, StoredRows, project_evidence_linked, is_linked,
  project_recorded, test_row, ControlTestEvidence, ControlTestEvent, link_test_evidence,
  record_test, recording_of, TestArguments, is_other_control, check_sample,
  rebuild_control_test_projection, TestSession, reset_control_tests, control_test_projectors,
  get_test, Tests, evidence_linked, test_recorded, is_nil, test_results,
}

-- the requests that write test events; a test is loaded before evidence is linked to it
pub data TestCommand : Type 0 where
  record_it : ℕ → StoredRows → TestArguments → TestCommand
  link_it : ℕ → ℕ → TestCommand

unfoldable pub execute : Context → TestCommand → TestSession → Result TestSession
execute c (record_it id stored a) s = record_test c id stored a s
execute c (link_it id version) s = elim (get_test id s.tables) [
  | none ↦ err not_found
  | some t ↦ link_test_evidence c t version s
]

abbrev pub no_tests : Tests
no_tests = record { tests = []; exceptions = []; evidence = [] }

abbrev pub empty_session : TestSession
empty_session = record { events = []; tables = no_tests }

-- every accepted command is one event
execute-Effect :
    (c : Context) (cmd : TestCommand) (s s' : TestSession)
    → execute c cmd s ≡ ok s'
    → Effect (control_test_projectors c.now) "control_test" c s s'
unfolding execute record_test link_test_evidence
execute-Effect c (record_it id stored a) s s' h =
    let (k, h) = require-eq-ok (one_of test_results a.result) bad_result _ h in
    let (x, h) =
      require-eq-ok (is_nil a.exceptions || str_eq a.result "exceptions_noted")
        unexpected_exceptions _ h in
    let (u, m, h) =
      >>=-eq-ok (check_sample stored.populations a.control_id a.sample a.exceptions) _ h in
    let (r, h) =
      require-eq-ok (not (is_other_control a.control_id a.retest_of)) other_control_retested _ h in
    let (f, h) = require-eq-ok (has_references stored a) integrity_error _ h in
    one_event id none (test_recorded (recording_of a)) h
execute-Effect c (link_it id version) s s' h = elim (Option-cases (get_test id s.tables)) [
  | inl n ↦ absurd (ground (arith, n))
  | inr (t, n) ↦ one_event t.id none (evidence_linked version) (ground (arith, n))
]

-- `created_at` of the links of evidence, set to one time
abbrev pub stamp : ℕ → Tests → Tests
stamp r t = record t {
  evidence = map (λ (x : ControlTestEvidence). record x { created_at = r }) t.evidence;
}

is_linked-stamp :
    (r id version : ℕ) (rows : List ControlTestEvidence)
    → is_linked id version (map (λ (x : ControlTestEvidence). record x { created_at = r }) rows)
      ≡ is_linked id version rows
unfolding is_linked
is_linked-stamp r id version [] = refl
is_linked-stamp r id version (x ∷ rows) = ground (arith, is_linked-stamp r id version rows)

stamp-projectors :
    (r n : ℕ) (p : ControlTestEvent) (t t' : Tests) (e : DomainEvent ControlTestEvent)
    → project_payload (control_test_projectors n) p t e ≡ ok t'
    → project_payload (control_test_projectors r) p (stamp r t) e ≡ ok (stamp r t')
unfolding control_test_projectors project_recorded project_evidence_linked
stamp-projectors r n (test_recorded x) t t' e h =
    let (rows, p, q) = >>=-eq-ok (Table.insert test_id (test_row x e) t.tests) _ h in
    ground (arith, p, q)
stamp-projectors r n (evidence_linked version) t t' e h =
    elim (Bool-cases (is_linked e.aggregate_id version t.evidence)) [
      | inl p ↦ absurd (ground (arith, h, p))
      | inr p ↦
          let free = is_linked-stamp r e.aggregate_id version t.evidence in
          let last =
            map-append_last (λ (x : ControlTestEvidence). record x { created_at = r }) t.evidence
              (link_row n version e) in
          ground (arith, p, free, last, h)
    ]

-- Rebuilding the tables of control tests, their exceptions and their evidence restores them: after
-- any requests from an empty database, accepted or refused, with a clock that moves on between
-- requests, wiping the tables and replaying the stored events at time `r` gives what the requests
-- left, but for `created_at` of the links of evidence, which is `r` on each of them. (The ids of
-- exceptions and of links, which the database draws anew, are not modelled.)
pub rebuild_tests_after_run :
    (t r : ℕ) (requests : List (Context × TestCommand))
    → IsTicking t requests
    → rebuild_control_test_projection r (run execute empty_session requests)
      ≡ ok (stamped (stamp r) (run execute empty_session requests))
unfolding rebuild_control_test_projection
rebuild_tests_after_run t r requests k =
    rebuild-run-stamped control_test_projectors (stamp r) r (stamp-projectors r) "control_test"
      no_tests reset_control_tests execute execute-Effect (λ x. unfold reset_control_tests in refl)
      refl t requests k
