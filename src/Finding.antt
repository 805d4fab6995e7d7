-- ===== src/Finding.antt =====
-- app/finding_lifecycle.py: the lifecycle of a finding, its events and their projectors.
--
-- The ids of the rows that a projector adds beside the finding are drawn when the database inserts
-- the row; nothing reads them, and they are left out.
mod Projection
pub mod Rows
pub mod Lifecycle
pub mod Diagram
pub mod Rebuild
pub mod Validity
mod Examples
use minigrc.Finding.Projection.{
  rebuild_finding_projection, FindingSession, reset_findings, finding_projectors, with_finding,
  get_finding, finding_closed_event, retest_recorded, retest_requested, remediation_update_recorded,
  finding_opened, Opening, Finding, finding_closure_decisions, finding_severities, closed,
  retesting, remediating, FindingStatus,
}
pub use Projection.*
unfoldable pub use Projection.{
  get_finding, with_finding, set_finding, finding_projectors, reset_findings,
  rebuild_finding_projection, record_finding_event,
}
use minigrc.Prelude.{
  ◌&&◌, integrity_error, not_found, ◌>>◌, ◌>>=◌, ◌==◌, ◌++◌, ◌∷◌, if◌then◌else◌, str_eq, one_of,
  is_blank, bad_severity, title_required, note_required, finding_closed, not_remediating,
  not_retesting, retest_of_other_test, retest_of_other_control, bad_closure_decision,
  attribute_error, Result, ok, err, require, ℕ, String, Bool, true, false, not, Option, none, some,
  List, [],
}
use minigrc.Events.{
  event_machinery, record_event, DomainEvent, Session, ProjectorFn, Projectors, Context,
  draft_event, append_and_project, rebuild_projection,
}
use minigrc.ControlTest.{ControlTest}
use minigrc.Prelude.Table

-- The rows of other tables, as far as a finding refers to them. A row that is referred to is not
-- deleted: the foreign keys are enforced (app/db.py).
pub record References : Type 0 where
  pub has_control : ℕ → Bool
  pub has_test : ℕ → Bool
  pub has_person : ℕ → Bool
  pub has_artifact_version : ℕ → Bool

-- a reference is empty or leads to a row
abbrev pub refers : (ℕ → Bool) → Option ℕ → Bool
refers has none = true
refers has (some i) = has i

abbrev pub opening_refers : References → Opening → Bool
opening_refers refs o =
    refers refs.has_control o.control_id
    && (refers refs.has_test o.source_test_id && refers refs.has_person o.owner_person_id)

-- `open_finding`, with the foreign keys that the flush of `_project_opened` checks; `id` is the value
-- of `new_id()`
pub open_finding : Context → References → ℕ → Opening → FindingSession → Result FindingSession
open_finding c refs id o s = do
  require (one_of finding_severities o.severity) bad_severity
  require (not (is_blank o.title)) title_required
  require (opening_refers refs o) integrity_error
  record_finding_event c id (finding_opened o) s

abbrev pub is_closed : FindingStatus → Bool
is_closed closed = true
is_closed _ = false

abbrev pub is_remediating : FindingStatus → Bool
is_remediating remediating = true
is_remediating _ = false

abbrev pub is_retesting : FindingStatus → Bool
is_retesting retesting = true
is_retesting _ = false

-- `record_remediation_update`
pub record_remediation_update :
    Context → Finding → String → Option ℕ → FindingSession → Result FindingSession
record_remediation_update c f note linked s = do
  require (not (is_closed f.status)) finding_closed
  require (not (is_blank note)) note_required
  record_finding_event c f.id (remediation_update_recorded note linked) s

-- `request_retest`
pub request_retest : Context → Finding → FindingSession → Result FindingSession
request_retest c f s = do
  require (is_remediating f.status) not_remediating
  record_finding_event c f.id retest_requested s

-- `a != b` on optional ids
abbrev pub differs : Option ℕ → ℕ → Bool
differs none b = true
differs (some a) b = not (a == b)

-- the lineage tests of `record_retest`
abbrev pub wrong_source : Finding → ControlTest → Bool
wrong_source f t = elim f.source_test_id [ none ↦ false | some i ↦ differs t.retest_of_test_id i ]

abbrev pub wrong_control : Finding → ControlTest → Bool
wrong_control f t = elim f.source_test_id [
  | none ↦ elim f.control_id [ none ↦ false | some i ↦ not (t.control_id == i) ]
  | some _ ↦ false
]

-- `record_retest`
pub record_retest : Context → Finding → ControlTest → FindingSession → Result FindingSession
record_retest c f t s = do
  require (is_retesting f.status) not_retesting
  require (not (wrong_source f t)) retest_of_other_test
  require (not (wrong_control f t)) retest_of_other_control
  record_finding_event c f.id (retest_recorded t.id t.result) s

-- `close_finding`
pub close_finding : Context → Finding → String → String → FindingSession → Result FindingSession
close_finding c f decision note s = do
  require (not (is_closed f.status)) finding_closed
  require (one_of finding_closure_decisions decision) bad_closure_decision
  record_finding_event c f.id (finding_closed_event decision note) s

-- A request of app/routers/findings.py, with its texts stripped and its date parsed as the route does,
-- and with the rows of other tables that it meets: the rows that it names are loaded (an error if there
-- is none), and the command of this module is called.
pub data FindingCommand : Type 0 where
  open_it : References → ℕ → Opening → FindingCommand
  update_it : References → ℕ → String → Option ℕ → FindingCommand
  request_it : ℕ → FindingCommand
  retest_it : ℕ → ControlTest → FindingCommand
  close_it : ℕ → String → String → FindingCommand

pub with_loaded : ℕ → FindingSession → (Finding → Result FindingSession) → Result FindingSession
with_loaded id s k = elim (get_finding id s.tables) [ none ↦ err not_found | some f ↦ k f ]

-- `create_finding`, which redirects with an error where a row is not found
pub create_finding : Context → References → ℕ → Opening → FindingSession → Result FindingSession
create_finding c refs id o s = do
  require (opening_refers refs o) not_found
  open_finding c refs id o s

-- the body of `create_remediation_update` on the finding that it has loaded
pub update_loaded :
    Context → References → String → Option ℕ → FindingSession → Finding → Result FindingSession
update_loaded c refs note linked s f = do
  require (refers refs.has_artifact_version linked) not_found
  record_remediation_update c f note linked s

pub execute : Context → FindingCommand → FindingSession → Result FindingSession
execute c (open_it refs id o) s = create_finding c refs id o s
execute c (update_it refs id note linked) s = with_loaded id s (update_loaded c refs note linked s)
execute c (request_it id) s = with_loaded id s λ f. request_retest c f s
execute c (retest_it id t) s = with_loaded id s λ f. record_retest c f t s
execute c (close_it id decision note) s = with_loaded id s λ f. close_finding c f decision note s

pub empty_session : FindingSession
empty_session = record {
  events = [];
  tables = record { findings = []; updates = []; retests = [] };
}

-- All that a request on a finding calls, for tests.
finding_machinery : Unit {0}
unfolding event_machinery Table.get Table.modify Table.insert is_blank get_finding with_finding
    set_finding finding_projectors record_finding_event open_finding record_remediation_update
    request_retest record_retest close_finding with_loaded create_finding update_loaded execute
    empty_session
finding_machinery = tt
