-- ===== src/Backup.antt =====
-- app/backup.py: the verification of a restored instance, which rebuilds every projection.
--
-- A bucket is the interface of `Evidence.Bucket`; the parameters `sha256` and `decrypts` stand for
-- `hashlib.sha256` and for a decryption that does not raise. Foreign keys are enforced (app/db.py), so
-- that a reset raises where rows of another projection refer to the rows that it deletes.
mod Rebuilds
pub mod Turns
pub mod Restored
pub mod History
mod Examples
pub use Rebuilds.*
unfoldable pub use Rebuilds.{
  rebuild_policies, rebuild_occurrences, rebuild_definitions, rebuild_artifacts, rebuild_tests,
  rebuild_scope, rebuild_findings, rebuild_adoptions, rebuild_each, rebuild_all_projections,
}
use minigrc.Backup.Rebuilds.{Database, RebuildTimes, rebuild_all_projections}
use minigrc.Evidence.Bucket.{BucketClient}
use minigrc.Evidence.{EvidenceArtifactVersion}
use minigrc.ControlTest.{is_nil}
use minigrc.Prelude.{
  ℕ, ◌+◌, String, List, [], ◌∷◌, Option, none, some, Bool, true, false, not, ◌&&◌, if◌then◌else◌,
  str_eq, Error,
}

-- the three results of `_verify_evidence_hashes`
pub record HashChecks : Type 0 where
  pub verified : ℕ
  pub mismatched : List String
  pub missing : List String

module _ {Bucket : Type 0} (client : BucketClient Bucket) (sha256 : List ℕ → String) where
  -- the loop of `_verify_evidence_hashes`
  unfoldable pub check_hashes : Bucket → List EvidenceArtifactVersion → HashChecks
  check_hashes bucket [] = record { verified = 0; mismatched = []; missing = [] }
  check_hashes bucket (v ∷ rows) =
      let rest = check_hashes bucket rows in
      elim (client.object_at v.object_key bucket) [
        | none ↦ record rest { missing = v.object_key ∷ rest.missing }
        | some content ↦
            if str_eq (sha256 content) v.sha256
            then record rest { verified = rest.verified + 1 }
            else record rest { mismatched = v.object_key ∷ rest.mismatched }
      ]

  -- `_verify_evidence_hashes`; the first argument is `settings.evidence_repository_configured`
  unfoldable pub verify_evidence_hashes : Bool → Bucket → Database → HashChecks
  verify_evidence_hashes configured bucket db =
      if configured
      then check_hashes bucket db.artifacts.tables
      else record { verified = 0; mismatched = []; missing = [] }

-- the two tables that hold encrypted texts
pub record Secrets : Type 0 where
  -- `Secret.kind` and `Secret.ciphertext`
  pub secrets : List (String × Option String)
  -- `GoogleDriveConnection.revoked_at` and its `encrypted_refresh_token`
  pub connections : List (Option ℕ × String)

-- the ciphertext of the first secret of the kind "encrypted"
unfoldable pub first_ciphertext : List (String × Option String) → Option String
first_ciphertext [] = none
first_ciphertext ((kind, ciphertext) ∷ rows) =
    let rest = first_ciphertext rows in if str_eq kind "encrypted" then ciphertext else rest

-- the token of the first connection that is not revoked, unless it is empty
unfoldable pub first_token : List (Option ℕ × String) → Option String
first_token [] = none
first_token ((none, token) ∷ rows) = if str_eq token "" then none else some token
first_token ((some revoked_at, token) ∷ rows) = first_token rows

-- the rest of `_check_decryption` on the text that it found
abbrev pub decryption_of : (String → Bool) → Option String → String
decryption_of decrypts none = "no_encrypted_data_found"
decryption_of decrypts (some ciphertext) = if decrypts ciphertext then "ok" else "failed"

-- `_check_decryption`
unfoldable pub check_decryption : (String → Bool) → Secrets → String
check_decryption decrypts tables = elim (first_ciphertext tables.secrets) [
  | some ciphertext ↦ decryption_of decrypts (some ciphertext)
  | none ↦ decryption_of decrypts (first_token tables.connections)
]

pub record VerificationReport : Type 0 where
  pub evidence_verified_count : ℕ
  pub evidence_mismatched_keys : List String
  pub evidence_missing_keys : List String
  pub projections_rebuilt : List String
  pub projection_errors : List (String × Error)
  pub decryption_check : String

-- `VerificationReport.passed`
unfoldable pub passed : VerificationReport → Bool
passed r =
    is_nil r.evidence_mismatched_keys
    && (is_nil r.evidence_missing_keys
        && (is_nil r.projection_errors && not (str_eq r.decryption_check "failed")))

-- `verify_restore`, which returns its report and leaves the rebuilt database
unfoldable pub verify_restore :
    {Bucket : Type 0}
    → BucketClient Bucket
    → (List ℕ → String)
    → (String → Bool)
    → Bool
    → Bucket
    → Secrets
    → RebuildTimes
    → Database
    → Database × VerificationReport
verify_restore client sha256 decrypts configured bucket secrets times db =
    let hashes = verify_evidence_hashes client sha256 configured bucket db in
    let rebuilds = rebuild_all_projections times db in
    (
      rebuilds.database,
      record {
        evidence_verified_count = hashes.verified;
        evidence_mismatched_keys = hashes.mismatched;
        evidence_missing_keys = hashes.missing;
        projections_rebuilt = rebuilds.rebuilt;
        projection_errors = rebuilds.errors;
        decryption_check = check_decryption decrypts secrets;
      },
    )
