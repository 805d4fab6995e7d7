-- ===== src/Evidence/Rebuild.antt =====
-- Runs of captures, and `rebuild_evidence_artifact_version_projection` after them.
use minigrc.Events.{Context}
use minigrc.Evidence.Storing.{
  capture_evidence_version, append_or_delete, record_capture, capture_of, object_key_for,
  upload_temporary_file, CaptureArguments,
}
use minigrc.Evidence.{
  version_with_content, rebuild_artifact_versions, ArtifactSession, reset_artifact_versions,
  artifact_version_projectors, captured,
}
use minigrc.Prelude.{
  ◌∙◌, ◌≡◌, ◌>>=◌, Option-cases, Result, ok, Result-cases, String, refl, ap, inl, inr, Option, List,
  [], arith, ℕ,
}
use minigrc.Events.Runs.{Effect, no_event, one_event, run, rebuild-run, IsTicking}
use minigrc.Evidence.Bucket.{BucketClient}

-- one capture: the id that it makes, its arguments, and the bucket and the file that it meets
pub record CaptureCommand (Bucket : Type 0) : Type 0 where
  pub id : ℕ
  pub arguments : CaptureArguments
  pub bucket : Bucket
  pub temporary_file : Option (List ℕ)

abbrev pub no_artifacts : ArtifactSession
no_artifacts = record { events = []; tables = [] }

module _ {Bucket : Type 0} (client : BucketClient Bucket) (spell : ℕ → String) where
  -- what the capture leaves of the session
  unfoldable pub execute :
      Context → CaptureCommand Bucket → ArtifactSession → Result ArtifactSession
  execute c cmd s = do
    left ←
        (capture_evidence_version client spell c cmd.id cmd.arguments (record {
          session = s;
          bucket = cmd.bucket;
          temporary_file = cmd.temporary_file;
        })).outcome
    ok left.0

  -- an accepted capture is one event, or nothing for a duplicate
  pub execute-Effect :
      (c : Context) (cmd : CaptureCommand Bucket) (s s' : ArtifactSession)
      → execute c cmd s ≡ ok s'
      → Effect artifact_version_projectors "evidence_artifact_version" c s s'
  unfolding execute capture_evidence_version append_or_delete
  execute-Effect c cmd s s' h =
      let a = cmd.arguments in
      elim (Option-cases (version_with_content a.artifact_id a.sha256 s.tables)) [
        | inr (v, p) ↦ no_event (ground (arith, h, p))
        | inl p ↦
            elim (Result-cases (
              upload_temporary_file client
                (object_key_for client spell a.artifact_id cmd.id a.extension) cmd.temporary_file
                cmd.bucket)) [
                  | inl (reason, q) ↦ absurd (ground (arith, h, p, q))
                  | inr (bucket, q) ↦
                      elim (Result-cases (record_capture client spell c cmd.id a s)) [
                        | inl (reason, r) ↦ absurd (ground (arith, h, p, q, r))
                        | inr (s'', r) ↦
                            let same : s'' ≡ s' = ground (arith, h, p, q, r) in
                            one_event cmd.id a.occurred_at
                              (captured (capture_of client spell cmd.id a s.tables))
                              (r ∙ ap ok same)
                      ]
                ]
      ]

  -- Rebuilding the versions after any captures changes nothing.
  pub rebuild_artifacts_after_run :
      (t : ℕ) (requests : List (Context × CaptureCommand Bucket))
      → IsTicking t requests
      → rebuild_artifact_versions (run execute no_artifacts requests)
        ≡ ok (run execute no_artifacts requests)
  unfolding rebuild_artifact_versions reset_artifact_versions
  rebuild_artifacts_after_run t requests ticking =
      rebuild-run artifact_version_projectors "evidence_artifact_version" [] execute execute-Effect
        reset_artifact_versions t requests ticking refl
