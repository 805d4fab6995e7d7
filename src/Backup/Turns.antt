-- ===== src/Backup/Turns.antt =====
-- The single rebuilds on a database whose projections are what their events replay to.
use minigrc.Events.Stamped.{stamped}
use minigrc.Backup.Rebuilds.{RebuildTimes}
use minigrc.Adoption.{rebuild_framework_adoption_projection}
use minigrc.Finding.{FindingSession, rebuild_finding_projection}
use minigrc.Scope.{rebuild_compliance_scope_projection}
use minigrc.ControlTest.{TestSession, rebuild_control_test_projection}
use minigrc.Evidence.{rebuild_artifact_versions}
use minigrc.ControlDefinition.{rebuild_control_versions}
use minigrc.ControlDefinition.Recovery.{rebuild_internal_control_version_projection, unlinked}
use minigrc.Occurrence.{rebuild_control_occurrence_projection, OccurrenceSession}
use minigrc.Policy.{rebuild_policy_version_lifecycle_projection}
use minigrc.Backup.{
  rebuild_artifacts, rebuild_definitions, rebuild_adoptions, rebuild_findings, rebuild_scope,
  rebuild_tests, rebuild_occurrences, rebuild_policies, without_artifacts, has_test_references,
  has_artifact_references, has_population_items, Database,
}
use minigrc.Prelude.{ℕ, ◌≡◌, if◌then◌else◌, integrity_error, Result, ok, err, refl, Bool, arith}
use minigrc.Finding.Rebuild as FindingTimes
use minigrc.ControlTest.Rebuild as TestTimes
use minigrc.Occurrence.Stamp as OccurrenceTimes

-- every projection is what its own events replay to, but for the times of its links
pub record IsReplayed (db : Database) : Type 0 where
  pub policies_back : rebuild_policy_version_lifecycle_projection db.policies ≡ ok db.policies
  pub occurrences_back :
      (r : ℕ)
      → rebuild_control_occurrence_projection r db.occurrences
        ≡ ok (stamped (OccurrenceTimes.stamp r) db.occurrences)
  pub versions_back : rebuild_control_versions db.versions ≡ ok db.versions
  pub artifacts_back : rebuild_artifact_versions db.artifacts ≡ ok db.artifacts
  pub tests_back :
      (r : ℕ)
      → rebuild_control_test_projection r db.tests ≡ ok (stamped (TestTimes.stamp r) db.tests)
  pub scope_back : rebuild_compliance_scope_projection db.scope ≡ ok db.scope
  pub findings_back :
      (r : ℕ)
      → rebuild_finding_projection r db.findings ≡ ok (stamped (FindingTimes.stamp r) db.findings)
  pub adoptions_back : rebuild_framework_adoption_projection db.adoptions ≡ ok db.adoptions

-- the occurrences after their own turn of the loop
abbrev pub occurrences_first : RebuildTimes → Database → OccurrenceSession
occurrences_first times db =
    if has_population_items db
    then db.occurrences
    else stamped (OccurrenceTimes.stamp times.of_occurrences) db.occurrences

-- ... and after the turn of the artifacts
abbrev pub without_links : Database → OccurrenceSession → OccurrenceSession
without_links db o = if has_artifact_references db then o else without_artifacts o

abbrev pub tests_left : RebuildTimes → Database → TestSession
tests_left times db =
    if has_test_references db then db.tests else stamped (TestTimes.stamp times.of_tests) db.tests

-- the database after the loop
abbrev pub database_left : RebuildTimes → Database → Database
database_left times db = record db {
  occurrences = without_links db (unlinked (occurrences_first times db));
  tests = tests_left times db;
  findings = stamped (FindingTimes.stamp times.of_findings) db.findings;
}

-- a reset that raises where rows refer to what it deletes
abbrev pub guarded : Bool → Database → Result Database
guarded referenced db = if referenced then err integrity_error else ok db

module _ (db : Database) (r : IsReplayed db) (o : OccurrenceSession) where
  -- the database with other occurrences
  abbrev with_occurrences : Database
  with_occurrences = record db { occurrences = o }

  pub policies-step : rebuild_policies with_occurrences ≡ ok with_occurrences
  unfolding rebuild_policies
  policies-step = rw (r.policies_back) refl

  pub definitions-step :
      rebuild_definitions with_occurrences ≡ ok (record db { occurrences = unlinked o })
  unfolding rebuild_definitions rebuild_internal_control_version_projection
  definitions-step = rw (r.versions_back) refl

  pub artifacts-step :
      rebuild_artifacts with_occurrences
      ≡ guarded (has_artifact_references db) (record db { occurrences = without_artifacts o })
  unfolding rebuild_artifacts
  artifacts-step = ground (arith, r.artifacts_back)

  pub tests-step :
      (now : ℕ)
      → rebuild_tests now with_occurrences
        ≡ guarded
            (has_test_references db)
            (record with_occurrences { tests = stamped (TestTimes.stamp now) db.tests })
  unfolding rebuild_tests
  tests-step now = ground (arith, r.tests_back now)

  module _ (t : TestSession) where
    abbrev with_tests : Database
    with_tests = record with_occurrences { tests = t }

    pub scope-step : rebuild_scope with_tests ≡ ok with_tests
    unfolding rebuild_scope
    scope-step = rw (r.scope_back) refl

    pub findings-step :
        (now : ℕ)
        → rebuild_findings now with_tests
          ≡ ok (record with_tests { findings = stamped (FindingTimes.stamp now) db.findings })
    unfolding rebuild_findings
    findings-step now = rw (r.findings_back now) refl

    pub adoptions-step :
        (f : FindingSession)
        → rebuild_adoptions (record with_tests { findings = f })
          ≡ ok (record with_tests { findings = f })
    unfolding rebuild_adoptions
    adoptions-step f = rw (r.adoptions_back) refl

pub occurrences-step :
    (db : Database) (r : IsReplayed db) (now : ℕ)
    → rebuild_occurrences now db
      ≡ guarded
          (has_population_items db)
          (record db { occurrences = stamped (OccurrenceTimes.stamp now) db.occurrences })
unfolding rebuild_occurrences
occurrences-step db r now = ground (arith, r.occurrences_back now)
