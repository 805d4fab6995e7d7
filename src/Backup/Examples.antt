-- ===== src/Backup/Examples.antt =====
-- A restored instance with one definition, one occurrence of it, and no frozen population.
use minigrc.Backup.Turns.{guarded, database_left}
use minigrc.Backup.Restored.{raised}
use minigrc.Events.Stamped.{stamped}
use minigrc.Backup.Rebuilds.{RebuildTimes}
use minigrc.ControlDefinition.Requests.{draft_it}
use minigrc.Occurrence.Rebuild.{record_manually}
use minigrc.Policy.{reset_policy_version_lifecycle}
use minigrc.ControlDefinition.{as_it_is, ControlRow}
use minigrc.Backup.History.{verify_restore_exact, IsOrderly, written_by, History}
use minigrc.Backup.{
  verify_restore, VerificationReport, Secrets, rebuild_occurrences, has_population_items, Database,
}
use minigrc.Prelude.Table
use minigrc.Occurrence.Rebuild
use minigrc.Occurrence.Stamp as OccurrenceTimes
use minigrc.Occurrence.{
  record_occurrence_manually, control_occurrence_projectors, project_recorded_manually,
  insert_occurrence, collides,
}
use minigrc.ControlDefinition.Recovery.{clear_version_ids, unlinked}
use minigrc.Prelude.{
  Option, List, ◌∷◌, ◌≡◌, String, refl, true, false, none, some, [], map, arith, ℕ,
}
use minigrc.Events.{event_machinery, Context}
use minigrc.Evidence.Bucket.{BucketClient}

never :
    (bytes : List ℕ) (b : Unit {0})
    → ◌≡◌ {A = Option (Unit {0})} none (some b)
    → ◌≡◌ {A = Option (List ℕ)} none (some bytes)
never bytes b h = absurd cc

-- a bucket that refuses every upload
abbrev no_bucket : BucketClient (Unit {0})
no_bucket = record {
  object_at = λ key b. none;
  upload_file = λ key bytes b. none;
  delete_file = λ key b. none;
  upload-found = λ key bytes b b' h. never bytes b' h;
  upload-other = λ key other bytes b b' n h. refl;
  delete-found = λ key b b' h. refl;
  delete-other = λ key other b b' n h. refl;
}

abbrev spelled : ℕ → String
spelled id = "4"

abbrev at_time : ℕ → Context
at_time t = record { now = t; event_id = t; actor_type = "user"; actor_id = some "ada" }

abbrev control : ControlRow
control = record {
  id = 4;
  name = "Access review";
  description = "";
  status = "implemented";
  review_frequency = "quarterly";
  requirement_ids = [];
}

abbrev history : History (Unit {0})
history = record {
  uploads = [];
  policy_requests = [];
  occurrence_requests = record_manually (at_time 8) 90 4 none none "ad hoc" (some 71) ∷ [];
  definition_requests = draft_it (at_time 1) 71 control as_it_is ∷ [];
  captures = [];
  test_requests = [];
  declarations = [];
  finding_requests = [];
  adoption_requests = [];
  populations = [];
}

history-IsOrderly : IsOrderly no_bucket spelled history
history-IsOrderly = record {
  fresh = unfold reset_policy_version_lifecycle in refl;
  policies_tick = tt;
  occurrences_tick = (tt, tt);
  versions_tick = (omega arith, tt);
  not_withdrawn = (refl, tt);
  artifacts_tick = tt;
  tests_tick = tt;
  scope_tick = tt;
  findings_tick = tt;
  adoptions_tick = tt;
}

abbrev restored : Database
restored = written_by no_bucket spelled history

abbrev no_secrets : Secrets
no_secrets = record { secrets = []; connections = [] }

abbrev times : RebuildTimes
times = record { of_occurrences = 90; of_tests = 91; of_findings = 92 }

abbrev report : Database × VerificationReport
report = verify_restore no_bucket (λ bytes. "") (λ text. true) false tt no_secrets times restored

abbrev IsForgetful : Type 0
IsForgetful =
    (report.0 ≡ database_left times restored)
    × (report.1.projection_errors ≡ raised restored)
    × (rebuild_occurrences 99 report.0
        ≡ guarded (has_population_items restored) (record (database_left times restored) {
          occurrences = stamped (OccurrenceTimes.stamp 99) restored.occurrences;
        }))

verify_restore_exact_example : IsForgetful
verify_restore_exact_example =
    verify_restore_exact no_bucket spelled (λ bytes. "") (λ text. true) false tt no_secrets times 99
      history history-IsOrderly

-- the version of the only occurrence, before and after the versions are rebuilt
version_forgotten :
    (map (λ o. o.control_definition_version_id) restored.occurrences.tables.occurrences
      ≡ some 71 ∷ [])
    × (map (λ o. o.control_definition_version_id) (unlinked restored.occurrences).tables.occurrences
        ≡ none ∷ [])
unfolding event_machinery Rebuild.run Rebuild.request Rebuild.execute record_occurrence_manually
    control_occurrence_projectors project_recorded_manually insert_occurrence collides Table.insert
    Table.get clear_version_ids
version_forgotten = (refl, refl)
