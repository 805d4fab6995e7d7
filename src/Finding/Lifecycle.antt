-- ===== src/Finding/Lifecycle.antt =====
-- Exactly when a command on a finding is accepted.
use minigrc.Events.Record.{record_event-total}
use minigrc.Prelude.Table
use minigrc.Finding.Rows.{
  recorded-opening, project_opening-total, new_event, project-total, is_opening,
}
use minigrc.Events.{draft_event, Context}
use minigrc.ControlTest.{ControlTest}
use minigrc.Prelude.{
  integrity_error, not_found, ◌∙◌, ◌↔◌, ◌>>◌, Error, require, Bool, bad_severity, title_required,
  note_required, finding_closed, not_remediating, not_retesting, retest_of_other_test,
  retest_of_other_control, bad_closure_decision, require-eq-ok, not, Option-cases, Result, inl, inr,
  ok, ◌≢◌, ◌≡◌, one_of, is_blank, ℕ, refl, true, false, Option, none, some, arith,
}
use minigrc.Finding.{
  create_finding, update_loaded, opening_refers, refers, record_finding_event, is_retesting,
  is_remediating, is_closed, open_finding, finding_id, Findings, FindingStatus, with_loaded,
  execute, close_finding, record_retest, request_retest, record_remediation_update,
  finding_projectors, Opening, close_it, retest_it, request_it, update_it, open_it, FindingCommand,
  wrong_control, wrong_source, FindingSession, get_finding, finding_closed_event, retest_recorded,
  retest_requested, remediation_update_recorded, finding_opened, FindingEvent, Finding,
  finding_closure_decisions, finding_severities, closed, retesting, remediating,
}

abbrev pub target : FindingCommand → ℕ
target (open_it refs id o) = id
target (update_it refs id note linked) = id
target (request_it id) = id
target (retest_it id t) = id
target (close_it id decision note) = id

abbrev pub payload_of : FindingCommand → FindingEvent
payload_of (open_it refs id o) = finding_opened o
payload_of (update_it refs id note linked) = remediation_update_recorded note linked
payload_of (request_it id) = retest_requested
payload_of (retest_it id t) = retest_recorded t.id t.result
payload_of (close_it id decision note) = finding_closed_event decision note

-- the test retests what the finding came from: its source test, or else its control
pub record IsRetestOf (f : Finding) (t : ControlTest) : Type 0 where
  pub source : (i : ℕ) → f.source_test_id ≡ some i → t.retest_of_test_id ≡ some i
  pub control : (k : ℕ) → f.source_test_id ≡ none → f.control_id ≡ some k → t.control_id ≡ k

-- what a command requires of the finding that it is called on
abbrev pub IsAllowedOn : FindingCommand → Finding → Type 0
IsAllowedOn (open_it refs id o) f = ⊥
IsAllowedOn (update_it refs id note linked) f =
    (f.status ≢ closed) × (is_blank note ≡ false) × (refers refs.has_artifact_version linked ≡ true)
IsAllowedOn (request_it id) f = f.status ≡ remediating
IsAllowedOn (retest_it id t) f = (f.status ≡ retesting) × IsRetestOf f t
IsAllowedOn (close_it id decision note) f =
    (f.status ≢ closed) × (one_of finding_closure_decisions decision ≡ true)

abbrev pub IsAllowed : FindingCommand → FindingSession → Type 0
IsAllowed (open_it refs id o) s =
    (one_of finding_severities o.severity ≡ true)
    × (is_blank o.title ≡ false)
    × (opening_refers refs o ≡ true)
    × (get_finding id s.tables ≡ none)
IsAllowed cmd s = (f : Finding) × (get_finding (target cmd) s.tables ≡ some f) × IsAllowedOn cmd f

IsRetestOf-of_tests :
    (f : Finding) (t : ControlTest)
    → wrong_source f t ≡ false
    → wrong_control f t ≡ false
    → IsRetestOf f t
IsRetestOf-of_tests f t h k = record {
  source = λ i p. ground arith;
  control = λ i p q. ground arith;
}

tests_of_IsRetestOf :
    (f : Finding) (t : ControlTest)
    → IsRetestOf f t
    → (wrong_source f t ≡ false) × (wrong_control f t ≡ false)
tests_of_IsRetestOf f t r = go f.source_test_id refl f.control_id refl
  where
    go :
        (a : Option ℕ)
        → f.source_test_id ≡ a
        → (b : Option ℕ) → f.control_id ≡ b
        → (wrong_source f t ≡ false) × (wrong_control f t ≡ false)
    go (some i) p b q = ground (arith, r.source i)
    go none p (some k) q = ground (arith, r.control k)
    go none p none q = ground arith

-- an event on a finding that is there is always recorded
record_finding_event-total :
    (c : Context) (id : ℕ) (payload : FindingEvent) (s : FindingSession) (f : Finding)
    → is_opening payload ≡ false
    → get_finding id s.tables ≡ some f
    → (s' : FindingSession) × (record_finding_event c id payload s ≡ ok s')
unfolding record_finding_event draft_event
record_finding_event-total c id payload s f k h =
    let (t, p) = project-total c.now payload s.tables (new_event c id payload s) f k h in
    (_, record_event-total (finding_projectors c.now) "finding" c id none payload s t p)

record_opening-total :
    (c : Context) (id : ℕ) (o : Opening) (s : FindingSession)
    → get_finding id s.tables ≡ none
    → (s' : FindingSession) × (record_finding_event c id (finding_opened o) s ≡ ok s')
unfolding record_finding_event draft_event
record_opening-total c id o s h =
    let (t, p) = project_opening-total c.now o s.tables (new_event c id (finding_opened o) s) h in
    (_, record_event-total (finding_projectors c.now) "finding" c id none (finding_opened o) s t p)

on_loaded :
    (id : ℕ) (s : FindingSession) (k : Finding → Result FindingSession) {s' : FindingSession}
    → with_loaded id s k ≡ ok s'
    → (f : Finding) × (get_finding id s.tables ≡ some f) × (k f ≡ ok s')
unfolding with_loaded
on_loaded id s k h = elim (Option-cases (get_finding id s.tables)) [
  | inl p ↦ absurd (ground (arith, p))
  | inr (f, p) ↦ (f, p, ground (arith, p))
]

id_of_loaded : (id : ℕ) (t : Findings) (f : Finding) → get_finding id t ≡ some f → f.id ≡ id
unfolding get_finding
id_of_loaded id t f h = Table.key-get finding_id id t.findings f h

not_closed : (x : FindingStatus) → not (is_closed x) ≡ true → x ≢ closed
not_closed x h e = ground arith

-- an accepted command was allowed, and has recorded its event
pub execute-ok :
    (c : Context) (cmd : FindingCommand) (s : FindingSession) {s' : FindingSession}
    → execute c cmd s ≡ ok s'
    → IsAllowed cmd s × (record_finding_event c (target cmd) (payload_of cmd) s ≡ ok s')
unfolding execute
execute-ok c (open_it refs id o) s {s'} h =
    unfold create_finding open_finding in
    let (r, h) = require-eq-ok (opening_refers refs o) not_found _ h in
    let (a, p) = require-eq-ok (one_of finding_severities o.severity) bad_severity _ h in
    let (b, q) = require-eq-ok (not (is_blank o.title)) title_required _ p in
    let (_, q) = require-eq-ok (opening_refers refs o) integrity_error _ q in
    ((a, ground arith, r, (recorded-opening c id o s s' id q).0), q)
execute-ok c (update_it refs id note linked) s {s'} h =
    let (f, p, q) = on_loaded id s (update_loaded c refs note linked s) h in
    unfold update_loaded record_remediation_update in
    let (r, q) = require-eq-ok (refers refs.has_artifact_version linked) not_found _ q in
    let (a, q) = require-eq-ok (not (is_closed f.status)) finding_closed _ q in
    let (b, q) = require-eq-ok (not (is_blank note)) note_required _ q in
    ((f, p, (not_closed f.status a, ground arith, r)), rw (id_of_loaded id s.tables f p) at q)
execute-ok c (request_it id) s {s'} h =
    let (f, p, q) = on_loaded id s (λ f. request_retest c f s) h in
    unfold request_retest in
    let (a, q) = require-eq-ok (is_remediating f.status) not_remediating _ q in
    ((f, p, ground arith), rw (id_of_loaded id s.tables f p) at q)
execute-ok c (retest_it id t) s {s'} h =
    let (f, p, q) = on_loaded id s (λ f. record_retest c f t s) h in
    unfold record_retest in
    let (a, q) = require-eq-ok (is_retesting f.status) not_retesting _ q in
    let (b, q) = require-eq-ok (not (wrong_source f t)) retest_of_other_test _ q in
    let (d, q) = require-eq-ok (not (wrong_control f t)) retest_of_other_control _ q in
    (
      (f, p, (ground arith, IsRetestOf-of_tests f t (ground arith) (ground arith))),
      rw (id_of_loaded id s.tables f p) at q,
    )
execute-ok c (close_it id decision note) s {s'} h =
    let (f, p, q) = on_loaded id s (λ f. close_finding c f decision note s) h in
    unfold close_finding in
    let (a, q) = require-eq-ok (not (is_closed f.status)) finding_closed _ q in
    let (b, q) =
      require-eq-ok (one_of finding_closure_decisions decision) bad_closure_decision _ q in
    ((f, p, (not_closed f.status a, b)), rw (id_of_loaded id s.tables f p) at q)

guarded {ℓ} : {B : Type ℓ} (b : Bool) (e : Error) (k : Result B) → b ≡ true → (require b e >> k) ≡ k
guarded true e k h = refl
guarded false e k h = cc

loaded :
    (id : ℕ) (s : FindingSession) (f : Finding) (k : Finding → Result FindingSession)
    → get_finding id s.tables ≡ some f
    → with_loaded id s k ≡ k f
unfolding with_loaded
loaded id s f k h = ground (arith, h)

pub allowed-execute :
    (c : Context) (cmd : FindingCommand) (s : FindingSession)
    → IsAllowed cmd s
    → execute c cmd s ≡ record_finding_event c (target cmd) (payload_of cmd) s
unfolding execute
allowed-execute c (open_it refs id o) s (a, b, r, d) =
    unfold create_finding open_finding in ground (arith, a, b, r)
allowed-execute c (update_it refs id note linked) s (f, p, (a, b, r)) =
    loaded id s f (update_loaded c refs note linked s) p
    ∙ (unfold update_loaded record_remediation_update in
        ground (arith, a, b, r, id_of_loaded id s.tables f p))
allowed-execute c (request_it id) s (f, p, a) =
    loaded id s f (λ f. request_retest c f s) p
    ∙ (unfold request_retest in ground (arith, a, id_of_loaded id s.tables f p))
allowed-execute c (retest_it id t) s (f, p, (a, b)) =
    let (source, control) = tests_of_IsRetestOf f t b in
    loaded id s f (λ f. record_retest c f t s) p
    ∙ (unfold record_retest in ground (arith, a, source, control, id_of_loaded id s.tables f p))
allowed-execute c (close_it id decision note) s (f, p, (a, b)) =
    loaded id s f (λ f. close_finding c f decision note s) p
    ∙ (unfold close_finding in ground (arith, a, b, id_of_loaded id s.tables f p))

recorded-total :
    (c : Context) (cmd : FindingCommand) (s : FindingSession)
    → IsAllowed cmd s
    → (s' : FindingSession) × (record_finding_event c (target cmd) (payload_of cmd) s ≡ ok s')
recorded-total c (open_it refs id o) s (a, b, r, d) = record_opening-total c id o s d
recorded-total c (update_it refs id note linked) s (f, p, a) =
    record_finding_event-total c id _ s f refl p
recorded-total c (request_it id) s (f, p, a) = record_finding_event-total c id _ s f refl p
recorded-total c (retest_it id t) s (f, p, a) = record_finding_event-total c id _ s f refl p
recorded-total c (close_it id decision note) s (f, p, a) =
    record_finding_event-total c id _ s f refl p

-- A request on a finding is accepted exactly when it is allowed: opening needs a known severity, a
-- title that is not blank, a control, a source test and an owner that are there where they are named,
-- and a fresh id; an update a finding that is there and not closed, a note that is not blank, and a
-- linked evidence version that is there if one is named; a retest request a remediating finding; a
-- recorded retest a retesting one and a test that retests its source test, or its control where it
-- has no source test; closing a finding that is not closed and a known decision.
pub execute_exact :
    (c : Context) (cmd : FindingCommand) (s : FindingSession)
    → ((s' : FindingSession) × (execute c cmd s ≡ ok s')) ↔ IsAllowed cmd s
execute_exact c cmd s = (
  λ r. (execute-ok c cmd s r.1).0,
  λ a. let (s', h) = recorded-total c cmd s a in (s', allowed-execute c cmd s a ∙ h),
)
