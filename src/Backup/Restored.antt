-- ===== src/Backup/Restored.antt =====
-- What `verify_restore` leaves of a database that requests have written.
use minigrc.ControlDefinition.Recovery.{unlinked}
use minigrc.Events.Stamped.{stamped}
use minigrc.Events.{rebuild_projection}
use minigrc.Occurrence.{
  Occurrences, reset_control_occurrences, OccurrenceSession, rebuild_control_occurrence_projection,
}
use minigrc.Prelude.{
  ◌∙◌, ◌∷◌, ◌≡◌, ◌++◌, Error, integrity_error, ℕ, String, refl, Bool, true, false, List, [],
  append-nil, append_assoc, arith,
}
use minigrc.Backup.Turns.{
  adoptions-step, findings-step, artifacts-step, scope-step, tests-step, definitions-step,
  occurrences-step, policies-step, guarded, database_left, tests_left, without_links,
  occurrences_first, IsReplayed,
}
use minigrc.Backup.Rebuilds.{
  rebuild_all_projections, rebuild_each, Rebuilds, RebuildTimes, rebuild_adoptions,
  rebuild_findings, rebuild_scope, rebuild_tests, rebuild_artifacts, rebuild_definitions,
  rebuild_occurrences, rebuild_policies, has_test_references, has_artifact_references,
  has_population_items, Database,
}
use minigrc.Finding.Rebuild as FindingTimes
use minigrc.ControlTest.Rebuild as TestTimes
use minigrc.Occurrence.Stamp as OccurrenceTimes

abbrev pub if_so {ℓ} : {A : Type ℓ} → Bool → A → List A
if_so true a = a ∷ []
if_so false a = []

-- the projections whose reset raises
abbrev pub raised : Database → List (String × Error)
raised db =
    if_so (has_population_items db) ("control_occurrence", integrity_error)
    ++ (if_so (has_artifact_references db) ("evidence_artifact_version", integrity_error)
        ++ if_so (has_test_references db) ("control_test", integrity_error))

module _ (times : RebuildTimes) (db : Database) (r : IsReplayed db) where
  abbrev now : ℕ
  now = times.of_findings

  abbrev Ends : Database → List (String × Error) → Rebuilds → Type 0
  Ends left errors rebuilds = (rebuilds.database ≡ left) × (rebuilds.errors ≡ errors)

  -- the last four turns of the loop
  last_turns :
      (o : OccurrenceSession) (so_far : Rebuilds)
      → so_far.database ≡ record db { occurrences = o }
      → Ends
          (record db {
            occurrences = o;
            tests = tests_left times db;
            findings = stamped (FindingTimes.stamp now) db.findings;
          })
          (so_far.errors ++ if_so (has_test_references db) ("control_test", integrity_error))
          (rebuild_each
            (("control_test", rebuild_tests times.of_tests)
              ∷ ("compliance_scope", rebuild_scope)
              ∷ ("finding", rebuild_findings now)
              ∷ ("framework_adoption", rebuild_adoptions)
              ∷ [])
            so_far)
  unfolding rebuild_each
  last_turns o so_far at =
      let t = stamped (TestTimes.stamp times.of_tests) db.tests in
      let f = stamped (FindingTimes.stamp now) db.findings in
      ground (
        arith,
        at,
        append-nil so_far.errors,
        tests-step db r o times.of_tests,
        scope-step db r o db.tests,
        scope-step db r o t,
        findings-step db r o db.tests now,
        findings-step db r o t now,
        adoptions-step db r o db.tests f,
        adoptions-step db r o t f,
      )

  abbrev first_two : Rebuilds → Rebuilds
  first_two = rebuild_each (
      ("policy_version_lifecycle", rebuild_policies)
      ∷ ("control_occurrence", rebuild_occurrences times.of_occurrences)
      ∷ [])

  abbrev next_two : Rebuilds → Rebuilds
  next_two = rebuild_each (
      ("internal_control_version", rebuild_definitions)
      ∷ ("evidence_artifact_version", rebuild_artifacts)
      ∷ [])

  first_turns :
      (so_far : Rebuilds)
      → so_far.database ≡ db
      → Ends
          (record db { occurrences = occurrences_first times db })
          (so_far.errors ++ if_so (has_population_items db) ("control_occurrence", integrity_error))
          (first_two so_far)
  unfolding rebuild_each
  first_turns so_far at = ground (
    arith,
    at,
    append-nil so_far.errors,
    policies-step db r db.occurrences,
    occurrences-step db r times.of_occurrences,
  )

  next_turns :
      (o : OccurrenceSession) (so_far : Rebuilds)
      → so_far.database ≡ record db { occurrences = o }
      → Ends
          (record db { occurrences = without_links db (unlinked o) })
          (so_far.errors
            ++ if_so (has_artifact_references db) ("evidence_artifact_version", integrity_error))
          (next_two so_far)
  unfolding rebuild_each
  next_turns o so_far at = ground (
    arith,
    at,
    append-nil so_far.errors,
    definitions-step db r o,
    artifacts-step db r (unlinked o),
  )

  pub rebuild_all-raised :
      ((rebuild_all_projections times db).database ≡ database_left times db)
      × ((rebuild_all_projections times db).errors ≡ raised db)
  unfolding rebuild_all_projections rebuild_each
  rebuild_all-raised =
      let start : Rebuilds = record { database = db; rebuilt = []; errors = [] } in
      let o = occurrences_first times db in
      let (d, e) = first_turns start refl in
      let (d', e') = next_turns o (first_two start) d in
      let (d'', e'') = last_turns (without_links db (unlinked o)) (next_two (first_two start)) d' in
      (
        d'',
        e''
            ∙ rw (e', e)
                (append_assoc
                  (if_so (has_population_items db) ("control_occurrence", integrity_error))
                  (if_so (has_artifact_references db)
                    ("evidence_artifact_version", integrity_error))
                  (if_so (has_test_references db) ("control_test", integrity_error))),
      )

-- the replay of the occurrences does not read the tables that it replaces
rebuild-tables :
    (r : ℕ) (s : OccurrenceSession) (tables : Occurrences)
    → rebuild_control_occurrence_projection r (record s { tables = tables })
      ≡ rebuild_control_occurrence_projection r s
unfolding rebuild_control_occurrence_projection rebuild_projection reset_control_occurrences
rebuild-tables r s tables = refl

pub occurrences-restored :
    (times : RebuildTimes) (later : ℕ) (db : Database)
    → IsReplayed db
    → rebuild_occurrences later (database_left times db)
      ≡ guarded (has_population_items db) (record (database_left times db) {
        occurrences = stamped (OccurrenceTimes.stamp later) db.occurrences;
      })
unfolding rebuild_occurrences
occurrences-restored times later db r =
    let o = db.occurrences in
    let o' = stamped (OccurrenceTimes.stamp times.of_occurrences) db.occurrences in
    ground (
      arith,
      r.occurrences_back later,
      rebuild-tables later o (without_links db (unlinked (occurrences_first times db))).tables,
    )
