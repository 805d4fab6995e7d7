-- ===== src/Backup/Rebuilds.antt =====
-- app/backup.py, `_rebuild_all_projections`: the eight projections and the order of their rebuilds.
use minigrc.ControlDefinition.Recovery.{rebuild_internal_control_version_projection}
use minigrc.Finding.{FindingSession, rebuild_finding_projection}
use minigrc.Scope.{ScopeSession, rebuild_compliance_scope_projection}
use minigrc.Adoption.{AdoptionSession, rebuild_framework_adoption_projection}
use minigrc.ControlDefinition.{VersionSession}
use minigrc.Evidence.{rebuild_artifact_versions, ArtifactSession}
use minigrc.Policy.{rebuild_policy_version_lifecycle_projection, PolicySession}
use minigrc.Occurrence.{rebuild_control_occurrence_projection, OccurrenceSession}
use minigrc.ControlTest.{Population, rebuild_control_test_projection, TestSession, is_nil}
use minigrc.Prelude.{
  ℕ, ◌++◌, ◌>>◌, ◌||◌, ◌>>=◌, ◌∷◌, is_some, any, Error, integrity_error, Result, ok, err, require,
  String, Bool, not, List, [],
}

-- the projections of one database, and the frozen populations of control tests
pub record Database : Type 0 where
  pub policies : PolicySession
  pub occurrences : OccurrenceSession
  pub versions : VersionSession
  pub artifacts : ArtifactSession
  pub tests : TestSession
  pub scope : ScopeSession
  pub findings : FindingSession
  pub adoptions : AdoptionSession
  pub populations : List Population

-- rows of `control_test_population_items`, which refer to occurrences
abbrev pub has_population_items : Database → Bool
has_population_items db = any (λ p. not (is_nil p.items)) db.populations

-- rows that refer to versions of evidence artifacts, those of occurrences apart
abbrev pub has_artifact_references : Database → Bool
has_artifact_references db =
    not (is_nil db.tests.tables.evidence)
    || any (λ u. is_some u.linked_evidence_artifact_version_id) db.findings.tables.updates

-- rows that refer to control tests, those of the tests' own projection apart
abbrev pub has_test_references : Database → Bool
has_test_references db =
    any (λ f. is_some f.source_test_id) db.findings.tables.findings
    || not (is_nil db.findings.tables.retests)

-- `delete(ControlOccurrenceEvidenceArtifact)`
abbrev pub without_artifacts : OccurrenceSession → OccurrenceSession
without_artifacts s = record s { tables = record s.tables { artifacts = [] } }

abbrev pub Rebuilder : Type 0
Rebuilder = Database → Result Database

unfoldable pub rebuild_policies : Rebuilder
rebuild_policies db = do
  s ← rebuild_policy_version_lifecycle_projection db.policies
  ok (record db { policies = s })

unfoldable pub rebuild_occurrences : ℕ → Rebuilder
rebuild_occurrences now db = do
  require (not (has_population_items db)) integrity_error
  s ← rebuild_control_occurrence_projection now db.occurrences
  ok (record db { occurrences = s })

unfoldable pub rebuild_definitions : Rebuilder
rebuild_definitions db = do
  both ←
      rebuild_internal_control_version_projection
        (record { versions = db.versions; occurrences = db.occurrences })
  ok (record db { versions = both.versions; occurrences = both.occurrences })

-- `rebuild_evidence_artifact_version_projection`: its reset also deletes the occurrences' links
unfoldable pub rebuild_artifacts : Rebuilder
rebuild_artifacts db = do
  require (not (has_artifact_references db)) integrity_error
  s ← rebuild_artifact_versions db.artifacts
  ok (record db { artifacts = s; occurrences = without_artifacts db.occurrences })

unfoldable pub rebuild_tests : ℕ → Rebuilder
rebuild_tests now db = do
  require (not (has_test_references db)) integrity_error
  s ← rebuild_control_test_projection now db.tests
  ok (record db { tests = s })

unfoldable pub rebuild_scope : Rebuilder
rebuild_scope db = do s ← rebuild_compliance_scope_projection db.scope; ok (record db { scope = s })

unfoldable pub rebuild_findings : ℕ → Rebuilder
rebuild_findings now db = do
  s ← rebuild_finding_projection now db.findings
  ok (record db { findings = s })

unfoldable pub rebuild_adoptions : Rebuilder
rebuild_adoptions db = do
  s ← rebuild_framework_adoption_projection db.adoptions
  ok (record db { adoptions = s })

-- the clock of each rebuild whose rows have a time that the database fills; it is taken to stand still
-- while that rebuild runs
pub record RebuildTimes : Type 0 where
  pub of_occurrences : ℕ
  pub of_tests : ℕ
  pub of_findings : ℕ

-- `_PROJECTION_REBUILDERS`
abbrev pub projection_rebuilders : RebuildTimes → List (String × Rebuilder)
projection_rebuilders times =
    ("policy_version_lifecycle", rebuild_policies)
    ∷ ("control_occurrence", rebuild_occurrences times.of_occurrences)
    ∷ ("internal_control_version", rebuild_definitions)
    ∷ ("evidence_artifact_version", rebuild_artifacts)
    ∷ ("control_test", rebuild_tests times.of_tests)
    ∷ ("compliance_scope", rebuild_scope)
    ∷ ("finding", rebuild_findings times.of_findings)
    ∷ ("framework_adoption", rebuild_adoptions)
    ∷ []

-- what the loop leaves: the database, the names rebuilt, and the names that raised
pub record Rebuilds : Type 0 where
  pub database : Database
  pub rebuilt : List String
  pub errors : List (String × Error)

-- one turn of the loop: committed, or rolled back and noted
abbrev pub noted : String → Rebuilds → Result Database → Rebuilds
noted name so_far (ok db) = record so_far { database = db; rebuilt = so_far.rebuilt ++ name ∷ [] }
noted name so_far (err reason) = record so_far { errors = so_far.errors ++ (name, reason) ∷ [] }

unfoldable pub rebuild_each : List (String × Rebuilder) → Rebuilds → Rebuilds
rebuild_each [] so_far = so_far
rebuild_each ((name, rebuild) ∷ more) so_far =
    rebuild_each more (noted name so_far (rebuild so_far.database))

-- `_rebuild_all_projections`
unfoldable pub rebuild_all_projections : RebuildTimes → Database → Rebuilds
rebuild_all_projections times db =
    rebuild_each (projection_rebuilders times) (record { database = db; rebuilt = []; errors = [] })
