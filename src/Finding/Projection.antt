-- ===== src/Finding/Projection.antt =====
-- The tables of findings and the projectors of app/finding_lifecycle.py.
use minigrc.Prelude.{
  ◌>>=◌, ◌++◌, ◌∷◌, if◌then◌else◌, str_eq, attribute_error, Result, ok, err, ℕ, String, Option,
  none, some, List, [],
}
use minigrc.Events.{
  record_event, DomainEvent, Session, ProjectorFn, Projectors, Context, rebuild_projection,
}
use minigrc.Prelude.Table

-- `FINDING_STATUSES`
pub data FindingStatus : Type 0 where
  opened remediating retesting closed : FindingStatus

-- `FINDING_SEVERITIES`
abbrev pub finding_severities : List String
finding_severities = "low" ∷ "medium" ∷ "high" ∷ "critical" ∷ []

-- `FINDING_CLOSURE_DECISIONS`
abbrev pub finding_closure_decisions : List String
finding_closure_decisions =
    "remediated_and_retested" ∷ "risk_accepted" ∷ "false_positive" ∷ "other" ∷ []

pub record Finding : Type 0 where
  pub id : ℕ
  pub title : String
  pub description : String
  pub severity : String
  pub status : FindingStatus
  pub control_id : Option ℕ
  pub source_test_id : Option ℕ
  pub owner_person_id : Option ℕ
  pub due_date : Option ℕ
  pub closure_decision : Option String
  pub closure_note : String
  pub created_at : ℕ
  pub updated_at : ℕ

pub record FindingRemediationUpdate : Type 0 where
  pub finding_id : ℕ
  pub note : String
  pub actor : String
  pub linked_evidence_artifact_version_id : Option ℕ
  pub created_at : ℕ

pub record FindingRetest : Type 0 where
  pub finding_id : ℕ
  pub test_id : ℕ
  pub created_at : ℕ

-- the three tables of the projection
pub record Findings : Type 0 where
  pub findings : List Finding
  pub updates : List FindingRemediationUpdate
  pub retests : List FindingRetest

-- The payload of `FindingOpened`.
pub record Opening : Type 0 where
  pub title : String
  pub description : String
  pub severity : String
  pub control_id : Option ℕ
  pub source_test_id : Option ℕ
  pub owner_person_id : Option ℕ
  pub due_date : Option ℕ

-- The event types, each with its payload.
pub data FindingEvent : Type 0 where
  finding_opened : Opening → FindingEvent
  remediation_update_recorded : String → Option ℕ → FindingEvent
  retest_requested : FindingEvent
  retest_recorded : ℕ → String → FindingEvent
  finding_closed_event : String → String → FindingEvent

abbrev pub finding_id : Finding → ℕ
finding_id f = f.id

-- `session.get(Finding, id)`
unfoldable pub get_finding : ℕ → Findings → Option Finding
get_finding id t = Table.get finding_id id t.findings

-- `finding = session.get(...)` and then attributes of `finding`: `AttributeError` on `None`
unfoldable pub with_finding : ℕ → Findings → (Finding → Findings) → Result Findings
unfolding get_finding
with_finding id t write = elim (get_finding id t) [
  | none ↦ err attribute_error
  | some f ↦ ok (write f)
]

unfoldable pub set_finding : ℕ → (Finding → Finding) → Findings → Findings
set_finding id change t = record t { findings = Table.modify finding_id id change t.findings }

-- `_project_opened`
project_opened : Opening → ProjectorFn FindingEvent Findings
project_opened o t e = do
  rows ←
      Table.insert finding_id
        (record {
          id = e.aggregate_id;
          title = o.title;
          description = o.description;
          severity = o.severity;
          status = opened;
          control_id = o.control_id;
          source_test_id = o.source_test_id;
          owner_person_id = o.owner_person_id;
          due_date = o.due_date;
          closure_decision = none;
          closure_note = "";
          created_at = e.recorded_at;
          updated_at = e.recorded_at;
        })
        t.findings
  ok (record t { findings = rows })

-- `event.actor_id or event.actor_type`
abbrev pub actor_or_type : DomainEvent FindingEvent → String
actor_or_type e = elim e.actor_id [
  | none ↦ e.actor_type
  | some a ↦ if str_eq a "" then e.actor_type else a
]

abbrev pub after_update : FindingStatus → FindingStatus
after_update opened = remediating
after_update s = s

-- `_project_remediation_update_recorded`
project_remediation_update_recorded : String → Option ℕ → ProjectorFn FindingEvent Findings
unfolding with_finding set_finding
project_remediation_update_recorded note linked t e = with_finding e.aggregate_id t λ f.
    record (set_finding e.aggregate_id
      (λ g. record g { status = after_update g.status; updated_at = e.recorded_at }) t) {
        updates =
            t.updates
            ++ record {
              finding_id = f.id;
              note = note;
              actor = actor_or_type e;
              linked_evidence_artifact_version_id = linked;
              created_at = e.recorded_at;
            }
              ∷ [];
      }

-- `_project_retest_requested`
project_retest_requested : ProjectorFn FindingEvent Findings
unfolding with_finding set_finding
project_retest_requested t e = with_finding e.aggregate_id t λ _.
    set_finding e.aggregate_id (λ g. record g { status = retesting; updated_at = e.recorded_at }) t

abbrev pub after_retest : String → FindingStatus
after_retest result = if str_eq result "exceptions_noted" then remediating else retesting

abbrev pub retest_row : ℕ → ℕ → DomainEvent FindingEvent → FindingRetest
retest_row now test_id e = record {
  finding_id = e.aggregate_id;
  test_id = test_id;
  created_at = now;
}

-- `_project_retest_recorded`; `now` is the clock of the INSERT, which fills `created_at`
project_retest_recorded : ℕ → ℕ → String → ProjectorFn FindingEvent Findings
unfolding with_finding set_finding
project_retest_recorded now test_id result t e = with_finding e.aggregate_id t λ _.
    record (set_finding e.aggregate_id
      (λ g. record g { status = after_retest result; updated_at = e.recorded_at }) t) {
        retests = t.retests ++ retest_row now test_id e ∷ [];
      }

-- `_project_closed`
project_closed : String → String → ProjectorFn FindingEvent Findings
unfolding with_finding set_finding
project_closed decision note t e = with_finding e.aggregate_id t λ _.
    set_finding e.aggregate_id
      (λ g. record g {
        status = closed;
        closure_decision = some decision;
        closure_note = note;
        updated_at = e.recorded_at;
      })
      t

-- `FINDING_PROJECTORS`, at the time `now`
unfoldable pub finding_projectors : ℕ → Projectors FindingEvent Findings
unfolding project_opened project_remediation_update_recorded project_retest_requested
    project_retest_recorded project_closed
finding_projectors now (finding_opened o) = some (project_opened o)
finding_projectors now (remediation_update_recorded note linked) =
    some (project_remediation_update_recorded note linked)
finding_projectors now retest_requested = some project_retest_requested
finding_projectors now (retest_recorded test_id result) =
    some (project_retest_recorded now test_id result)
finding_projectors now (finding_closed_event decision note) = some (project_closed decision note)

-- `_reset_findings`
unfoldable pub reset_findings : Findings → Findings
reset_findings t = record { findings = []; updates = []; retests = [] }

abbrev pub FindingSession : Type 0
FindingSession = Session FindingEvent Findings

-- `rebuild_finding_projection` at the time `now`
unfoldable pub rebuild_finding_projection : ℕ → FindingSession → Result FindingSession
rebuild_finding_projection now =
    rebuild_projection (finding_projectors now) "finding" reset_findings

unfoldable pub record_finding_event :
    Context → ℕ → FindingEvent → FindingSession → Result FindingSession
record_finding_event c id payload s =
    record_event (finding_projectors c.now) "finding" c id none payload s
