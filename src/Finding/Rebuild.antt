-- ===== src/Finding/Rebuild.antt =====
-- Runs of requests, and `rebuild_finding_projection` after them.
use minigrc.Prelude.Table
use minigrc.Events.Stamped.{rebuild-run-stamped, stamped}
use minigrc.Events.Record.{project_payload}
use minigrc.Finding.Rows.{opened_row}
use minigrc.Finding.Projection.{
  retest_row, get_finding, finding_id, finding_closed_event, retest_recorded, retest_requested,
  remediation_update_recorded, finding_opened, FindingEvent, Findings, FindingRetest,
}
use minigrc.Finding.Lifecycle.{execute-ok, payload_of, target}
use minigrc.Events.Runs.{Effect, one_event, run, IsTicking}
use minigrc.Events.{DomainEvent, Context}
use minigrc.Prelude.{map-append_last, >>=-eq-ok, map, arith, ◌≡◌, ok, ℕ, refl, none, List, []}
use minigrc.Finding.{
  record_finding_event, empty_session, rebuild_finding_projection, reset_findings, execute,
  FindingCommand, FindingSession, finding_projectors,
}

-- every accepted command is one event
execute-Effect :
    (c : Context) (cmd : FindingCommand) (s s' : FindingSession)
    → execute c cmd s ≡ ok s'
    → Effect (finding_projectors c.now) "finding" c s s'
unfolding record_finding_event
execute-Effect c cmd s s' h = one_event (target cmd) none (payload_of cmd) (execute-ok c cmd s h).1

-- `created_at` of the links of retests, set to one time
abbrev pub stamp : ℕ → Findings → Findings
stamp r t = record t {
  retests = map (λ (x : FindingRetest). record x { created_at = r }) t.retests;
}

stamp-projectors :
    (r n : ℕ) (p : FindingEvent) (t t' : Findings) (e : DomainEvent FindingEvent)
    → project_payload (finding_projectors n) p t e ≡ ok t'
    → project_payload (finding_projectors r) p (stamp r t) e ≡ ok (stamp r t')
unfolding finding_projectors get_finding
stamp-projectors r n (finding_opened o) t t' e h =
    let (rows, p, q) = >>=-eq-ok (Table.insert finding_id (opened_row o e) t.findings) _ h in
    ground (arith, p, q)
stamp-projectors r n (remediation_update_recorded note linked) t t' e h = ground (arith, h)
stamp-projectors r n retest_requested t t' e h = ground (arith, h)
stamp-projectors r n (retest_recorded test_id result) t t' e h =
    let last =
      map-append_last (λ (x : FindingRetest). record x { created_at = r }) t.retests
        (retest_row n test_id e) in
    ground (arith, h, last)
stamp-projectors r n (finding_closed_event decision note) t t' e h = ground (arith, h)

-- Rebuilding the finding tables from the event history restores them: after any requests from an
-- empty database, accepted or refused, with a clock that moves on between requests, wiping the tables
-- and replaying the stored events at time `r` gives the tables that the requests left, but for
-- `created_at` of the links of retests, which is `r` on each of them. (The ids of updates and of links,
-- which the database draws anew, are not modelled.)
pub rebuild_after_run :
    (t r : ℕ) (requests : List (Context × FindingCommand))
    → IsTicking t requests
    → rebuild_finding_projection r (run execute empty_session requests)
      ≡ ok (stamped (stamp r) (run execute empty_session requests))
unfolding rebuild_finding_projection empty_session
rebuild_after_run t r requests k =
    rebuild-run-stamped finding_projectors (stamp r) r (stamp-projectors r) "finding"
      (record { findings = []; updates = []; retests = [] }) reset_findings execute execute-Effect
      (λ x. unfold reset_findings in refl) refl t requests k
