-- ===== src/Backup/History.antt =====
-- A database that requests have written from an empty one, and `verify_restore` on it.
use minigrc.Backup.Turns.{guarded, database_left, IsReplayed}
use minigrc.Backup.Restored.{occurrences-restored, rebuild_all-raised, raised}
use minigrc.Events.Stamped.{stamped}
use minigrc.Backup.Rebuilds.{RebuildTimes}
use minigrc.Backup.{verify_restore, Secrets, rebuild_occurrences, has_population_items, Database}
use minigrc.Prelude.{All, true, false, ◌≡◌, Bool, String, List, [], ℕ}
use minigrc.Events.Runs as EventRuns
use minigrc.Policy.Runs as PolicyRuns
use minigrc.Policy.Rebuild as PolicyRebuild
use minigrc.Occurrence.Rebuild as OccurrenceRuns
use minigrc.ControlDefinition.Requests as DefinitionRuns
use minigrc.Evidence.Rebuild as EvidenceRuns
use minigrc.ControlTest.Rebuild as TestRuns
use minigrc.Evidence.Bucket.{BucketClient}
use minigrc.Finding as FindingCommands
use minigrc.Occurrence.Stamp as OccurrenceTimes
use minigrc.Adoption as AdoptionCommands
use minigrc.Events.{Context}
use minigrc.Policy.{PolicyVersion, PolicyCommand}
use minigrc.ControlTest.{Population}
use minigrc.Finding.{Finding, FindingCommand}
use minigrc.Scope.{ScopeArguments, define_or_revise_scope}
use minigrc.Scope.Declared.{no_scope, rebuild_scope_after_run}
use minigrc.Adoption.{execute, AdoptionCommand}
use minigrc.Adoption.Upgrades.{no_adoptions, rebuild_adoptions_after_run}
use minigrc.Policy.Rebuild.{IsFresh, rebuild_versions_after_run}
use minigrc.Occurrence.Rebuild.{OccurrenceCommand, rebuild_occurrences_after_run}
use minigrc.ControlDefinition.Requests.{DefinitionCommand}
use minigrc.ControlDefinition.Recovery.{rebuild_definitions_after_run}
use minigrc.Evidence.Rebuild.{CaptureCommand, no_artifacts, rebuild_artifacts_after_run}
use minigrc.ControlTest.Rebuild.{TestCommand, rebuild_tests_after_run}
use minigrc.Finding.Rebuild.{rebuild_after_run}

-- the uploaded policy versions, the requests on each aggregate, and the frozen populations
pub record History (Bucket : Type 0) : Type 0 where
  pub uploads : List PolicyVersion
  pub policy_requests : List (Context × Context × PolicyCommand)
  pub occurrence_requests : List OccurrenceCommand
  pub definition_requests : List DefinitionCommand
  pub captures : List (Context × CaptureCommand Bucket)
  pub test_requests : List (Context × TestCommand)
  pub declarations : List (Context × (ℕ × ScopeArguments))
  pub finding_requests : List (Context × FindingCommand)
  pub adoption_requests : List (Context × AdoptionCommand)
  pub populations : List Population

abbrev pub is_withdrawal : DefinitionCommand → Bool
is_withdrawal (DefinitionRuns.withdraw_it c id reason at) = true
is_withdrawal _ = false

module _ {Bucket : Type 0} (client : BucketClient Bucket) (spell : ℕ → String) where
  abbrev pub written_by : History Bucket → Database
  written_by h = record {
    policies = PolicyRuns.run (record { events = []; tables = h.uploads }) h.policy_requests;
    occurrences = OccurrenceRuns.run spell OccurrenceRuns.empty_session h.occurrence_requests;
    versions = DefinitionRuns.run DefinitionRuns.empty_session h.definition_requests;
    artifacts = EventRuns.run (EvidenceRuns.execute client spell) no_artifacts h.captures;
    tests = EventRuns.run TestRuns.execute TestRuns.empty_session h.test_requests;
    scope = EventRuns.run define_or_revise_scope no_scope h.declarations;
    findings =
        EventRuns.run FindingCommands.execute FindingCommands.empty_session h.finding_requests;
    adoptions = EventRuns.run AdoptionCommands.execute no_adoptions h.adoption_requests;
    populations = h.populations;
  }

  -- Uploads without a lifecycle, no withdrawn definition (`_project_withdrawn` does not flush, so in a
  -- rebuild its UPDATE may come after that of a later version that is made effective), and for each
  -- aggregate a clock that moves on between events.
  pub record IsOrderly (h : History Bucket) : Type 0 where
    pub fresh : IsFresh h.uploads
    pub policies_tick : PolicyRebuild.IsTicking 0 h.policy_requests
    pub occurrences_tick :
        OccurrenceRuns.IsTicking spell OccurrenceRuns.empty_session h.occurrence_requests
    pub versions_tick : DefinitionRuns.IsTicking 0 h.definition_requests
    pub not_withdrawn : All (λ cmd. is_withdrawal cmd ≡ false) h.definition_requests
    pub artifacts_tick : EventRuns.IsTicking 0 h.captures
    pub tests_tick : EventRuns.IsTicking 0 h.test_requests
    pub scope_tick : EventRuns.IsTicking 0 h.declarations
    pub findings_tick : EventRuns.IsTicking 0 h.finding_requests
    pub adoptions_tick : EventRuns.IsTicking 0 h.adoption_requests

  written-IsReplayed : (h : History Bucket) → IsOrderly h → IsReplayed (written_by h)
  written-IsReplayed h o = record {
    policies_back =
        rebuild_versions_after_run 0 h.uploads h.policy_requests o.policies_tick o.fresh;
    occurrences_back =
        λ r. rebuild_occurrences_after_run r spell h.occurrence_requests o.occurrences_tick;
    versions_back = rebuild_definitions_after_run 0 h.definition_requests o.versions_tick;
    artifacts_back = rebuild_artifacts_after_run client spell 0 h.captures o.artifacts_tick;
    tests_back = λ r. rebuild_tests_after_run 0 r h.test_requests o.tests_tick;
    scope_back = rebuild_scope_after_run 0 h.declarations o.scope_tick;
    findings_back = λ r. rebuild_after_run 0 r h.finding_requests o.findings_tick;
    adoptions_back = rebuild_adoptions_after_run 0 h.adoption_requests o.adoptions_tick;
  }

-- On a database that requests have written from an empty one, with clocks that move on and without a
-- withdrawn definition, `verify_restore` leaves the tables with these differences only: the version of
-- every occurrence is cleared, unless a test or a finding refers to an artifact the occurrences' links
-- to artifacts are deleted, and `created_at` of every link that a rebuild has replaced is the time of
-- that rebuild. It reports exactly three possible errors: of the occurrences if a population is
-- frozen, of the artifacts if a test or a finding refers to one, and of the tests if a finding refers
-- to one. Rebuilding the occurrences once more, if no population is frozen, restores the versions and
-- the links of the occurrences, with the time of that rebuild on the links. (Ids that the database
-- draws anew for the rows beside an aggregate's own are not modelled.)
pub verify_restore_exact :
    {Bucket : Type 0} (client : BucketClient Bucket) (spell : ℕ → String) (sha256 : List ℕ → String)
    (decrypts : String → Bool) (configured : Bool) (bucket : Bucket) (secrets : Secrets)
    (times : RebuildTimes) (later : ℕ) (h : History Bucket)
    → IsOrderly client spell h
    → ((verify_restore client sha256 decrypts configured bucket secrets times
          (written_by client spell h)).0
        ≡ database_left times (written_by client spell h))
      × ((verify_restore client sha256 decrypts configured bucket secrets times
            (written_by client spell h)).1.projection_errors
          ≡ raised (written_by client spell h))
      × (rebuild_occurrences later
            (verify_restore client sha256 decrypts configured bucket secrets times
              (written_by client spell h)).0
          ≡ guarded
              (has_population_items (written_by client spell h))
              (record (database_left times (written_by client spell h)) {
                occurrences =
                    stamped (OccurrenceTimes.stamp later) (written_by client spell h).occurrences;
              }))
unfolding verify_restore
verify_restore_exact client spell sha256 decrypts configured bucket secrets times later h orderly =
    let db = written_by client spell h in
    let replayed = written-IsReplayed client spell h orderly in
    let (left, errors) = rebuild_all-raised times db replayed in
    (left, errors, rw left (occurrences-restored times later db replayed))
