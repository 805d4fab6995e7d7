-- ===== src/Evidence/Storing.antt =====
-- app/evidence_repository.py, `capture_evidence_version`, and what it calls of app/object_storage.py.
use minigrc.Evidence.{
  next_version_number, version_with_content, latest_version, ArtifactSession,
  artifact_version_projectors, artifact_version_id, ArtifactVersions, captured, Capture,
  EvidenceArtifactVersion, or_bin, alphanumerics,
}
use Prim.Native.String.{◌++◌ as string_append}
use minigrc.Prelude.{
  object_storage_error, no_temporary_file, Result, ok, err, String, Bool, true, false, Option, none,
  some, List, ℕ,
}
use minigrc.Prelude.Table
use minigrc.Events.{record_event, Context}
use minigrc.Evidence.Bucket.{BucketClient}

-- the keyword arguments of a capture, the bucket's apart
pub record CaptureArguments : Type 0 where
  pub artifact_id : ℕ
  pub sha256 : String
  pub byte_size : ℕ
  pub media_type : String
  pub original_filename : String
  pub extension : String
  pub source_type : String
  pub source_connection_id : Option String
  pub source_object_id : Option String
  pub source_revision_id : Option String
  pub source_modified_at : Option ℕ
  pub linked_evidence_snapshot_id : Option ℕ
  pub occurred_at : Option ℕ

-- what a capture meets: the session, the bucket and the file at `tmp_path`
pub record World (Bucket : Type 0) : Type 0 where
  pub session : ArtifactSession
  pub bucket : Bucket
  pub temporary_file : Option (List ℕ)

-- what a capture leaves, also when it raises; it returns a version, and whether it is new
pub record Attempt (Bucket : Type 0) : Type 0 where
  pub bucket : Bucket
  pub temporary_file : Option (List ℕ)
  pub outcome : Result (ArtifactSession × (Option EvidenceArtifactVersion × Bool))

module _ {Bucket : Type 0} (client : BucketClient Bucket) where
  -- `upload_object`
  unfoldable pub upload_object : String → List ℕ → Bucket → Result Bucket
  upload_object key bytes bucket = elim (client.upload_file key bytes bucket) [
    | none ↦ err object_storage_error
    | some bucket' ↦ ok bucket'
  ]

  -- `delete_object`
  unfoldable pub delete_object : String → Bucket → Bucket
  delete_object key bucket = elim (client.delete_file key bucket) [
    | none ↦ bucket
    | some bucket' ↦ bucket'
  ]

  -- the upload of a file that may be missing
  abbrev pub upload_temporary_file : String → Option (List ℕ) → Bucket → Result Bucket
  upload_temporary_file key none bucket = err no_temporary_file
  upload_temporary_file key (some bytes) bucket = upload_object key bytes bucket

  module _ (spell : ℕ → String) where
    -- `object_key_for`
    unfoldable pub object_key_for : ℕ → ℕ → String → String
    object_key_for artifact version extension = string_append "evidence/" (
        string_append (spell artifact) (
          string_append "/" (
            string_append (spell version)
              (string_append "/content." (or_bin (alphanumerics 16 extension))))))

    abbrev pub capture_of : ℕ → CaptureArguments → ArtifactVersions → Capture
    capture_of id a rows = record {
      artifact_id = a.artifact_id;
      version_number = next_version_number (latest_version a.artifact_id rows);
      object_key = object_key_for a.artifact_id id a.extension;
      original_filename = a.original_filename;
      media_type = a.media_type;
      byte_size = a.byte_size;
      sha256 = a.sha256;
      source_type = a.source_type;
      source_connection_id = a.source_connection_id;
      source_object_id = a.source_object_id;
      source_revision_id = a.source_revision_id;
      source_modified_at = a.source_modified_at;
      linked_evidence_snapshot_id = a.linked_evidence_snapshot_id;
    }

    -- the event of a capture
    abbrev pub record_capture :
        Context → ℕ → CaptureArguments → ArtifactSession → Result ArtifactSession
    record_capture c id a s =
        record_event artifact_version_projectors "evidence_artifact_version" c id a.occurred_at
          (captured (capture_of id a s.tables)) s

    -- the second `try`: what the event's failure leaves is deleted again
    unfoldable pub append_or_delete :
        Context → ℕ → CaptureArguments → ArtifactSession → Bucket → Attempt Bucket
    append_or_delete c id a s bucket = elim (record_capture c id a s) [
      | err reason ↦ record {
        bucket = delete_object (object_key_for a.artifact_id id a.extension) bucket;
        temporary_file = none;
        outcome = err reason;
      }
      | ok s' ↦ record {
        bucket = bucket;
        temporary_file = none;
        outcome = ok (s', (Table.get artifact_version_id id s'.tables, true));
      }
    ]

    -- `capture_evidence_version`; `id` is the value of `new_id()`
    unfoldable pub capture_evidence_version :
        Context → ℕ → CaptureArguments → World Bucket → Attempt Bucket
    capture_evidence_version c id a w =
        elim (version_with_content a.artifact_id a.sha256 w.session.tables) [
          | some existing ↦ record {
            bucket = w.bucket;
            temporary_file = none;
            outcome = ok (w.session, (some existing, false));
          }
          | none ↦
              elim (upload_temporary_file (object_key_for a.artifact_id id a.extension)
                w.temporary_file w.bucket) [
                  | err reason ↦ record {
                    bucket = w.bucket;
                    temporary_file = none;
                    outcome = err reason;
                  }
                  | ok bucket ↦ append_or_delete c id a w.session bucket
                ]
        ]
