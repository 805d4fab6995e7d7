-- ===== src/ControlDefinition/Recovery.antt =====
-- `rebuild_internal_control_version_projection`, which clears the occurrences' references.
use minigrc.Events.Replay.{IsProjected-empty, rebuild_projection-IsProjected}
use minigrc.Occurrence.{ControlOccurrence, OccurrenceSession}
use minigrc.ControlDefinition.Projection.{
  reset_control_versions, rebuild_control_versions, VersionSession, control_version_projectors,
}
use minigrc.ControlDefinition.Log.{Logged-IsProjected}
use minigrc.ControlDefinition.Requests.{
  run-Logged, DefinitionCommand, IsTicking, run, empty_session,
}
use minigrc.Prelude.{◌∷◌, ◌≡◌, ◌>>=◌, Result, ok, refl, none, List, [], ℕ}

-- the two projections of one database
pub record ControlDatabase : Type 0 where
  pub versions : VersionSession
  pub occurrences : OccurrenceSession

-- `update(ControlOccurrence).values(control_definition_version_id=None)`
unfoldable pub clear_version_ids : List ControlOccurrence → List ControlOccurrence
clear_version_ids [] = []
clear_version_ids (o ∷ rows) =
    record o { control_definition_version_id = none } ∷ clear_version_ids rows

abbrev pub unlinked : OccurrenceSession → OccurrenceSession
unlinked s = record s {
  tables = record s.tables { occurrences = clear_version_ids s.tables.occurrences };
}

-- `rebuild_internal_control_version_projection`: its reset also clears the references
unfoldable pub rebuild_internal_control_version_projection :
    ControlDatabase → Result ControlDatabase
rebuild_internal_control_version_projection db = do
  rebuilt ← rebuild_control_versions db.versions
  ok (record { versions = rebuilt; occurrences = unlinked db.occurrences })

-- Rebuilding the versions after any requests changes nothing, each projector's write taken to be done
-- at once.
pub rebuild_definitions_after_run :
    (t : ℕ) (commands : List DefinitionCommand)
    → IsTicking t commands
    → rebuild_control_versions (run empty_session commands) ≡ ok (run empty_session commands)
unfolding rebuild_control_versions
rebuild_definitions_after_run t commands ticking =
    rebuild_projection-IsProjected control_version_projectors "internal_control_version" []
      reset_control_versions (run empty_session commands)
      (Logged-IsProjected (run-Logged t empty_session commands ticking) tt
        (IsProjected-empty control_version_projectors "internal_control_version" [])).0
      (unfold reset_control_versions in refl)
