-- ===== src/Evidence/Examples.antt =====
-- A bucket as a function of keys, and two captures into it.
use minigrc.Evidence.Captures.{IsAdded, IsRaised, IsDuplicate, capture_outcome}
use minigrc.Evidence.Storing.{
  append_or_delete, upload_object, capture_evidence_version, object_key_for, World,
  CaptureArguments,
}
use minigrc.Evidence.{
  version_with_content, latest_version, artifact_version_projectors, project_captured,
  alphanumerics,
}
use minigrc.Prelude.{
  ◌⊎◌, is_ok, subst, true, ◌==◌, ◌≡◌, ◌∷◌, if◌then◌else◌, str_eq, String, refl, false, Option, none,
  some, List, [], eq_refl, ℕ,
}
use minigrc.Prelude.Table
use minigrc.Events.{event_machinery, Context}
use minigrc.Evidence.Bucket.{BucketClient}

abbrev Files : Type 0
Files = String → Option (List ℕ)

abbrev written : String → Option (List ℕ) → Files → Files
written key bytes files k = if str_eq key k then bytes else files k

at_key :
    (key : String) (bytes : Option (List ℕ)) (files : Files) → written key bytes files key ≡ bytes
at_key key bytes files = rw (eq_refl key) refl

at_other :
    (key other : String) (bytes : Option (List ℕ)) (files : Files)
    → str_eq key other ≡ false
    → written key bytes files other ≡ files other
at_other key other bytes files h = rw h refl

abbrev uploaded : String → List ℕ → Files → Option Files
uploaded key bytes files = some (written key (some bytes) files)

abbrev deleted : String → Files → Option Files
deleted key files = some (written key none files)

-- the files, where there are some
abbrev files_of : Option Files → Files
files_of none = λ key. none
files_of (some files) = files

abbrev client : BucketClient Files
client = record {
  object_at = λ key files. files key;
  upload_file = uploaded;
  delete_file = deleted;
  upload-found =
      λ key bytes b b' h. subst (λ o. files_of o key ≡ some bytes) h (at_key key (some bytes) b);
  upload-other = λ key other bytes b b' n h.
      subst (λ o. files_of o other ≡ b other) h (at_other key other (some bytes) b n);
  delete-found = λ key b b' h. subst (λ o. files_of o key ≡ none) h (at_key key none b);
  delete-other =
      λ key other b b' n h. subst (λ o. files_of o other ≡ b other) h (at_other key other none b n);
}

abbrev at_time : ℕ → Context
at_time t = record { now = t; event_id = t; actor_type = "user"; actor_id = some "ada" }

abbrev spelled : ℕ → String
spelled id = if id == 4 then "4" else "9"

abbrev a_report : String → CaptureArguments
a_report sha256 = record {
  artifact_id = 4;
  sha256 = sha256;
  byte_size = 2;
  media_type = "application/pdf";
  original_filename = "report.pdf";
  extension = "p/d.f";
  source_type = "manual";
  source_connection_id = none;
  source_object_id = none;
  source_revision_id = none;
  source_modified_at = none;
  linked_evidence_snapshot_id = none;
  occurred_at = none;
}

abbrev empty_world : World Files
empty_world = record {
  session = record { events = []; tables = [] };
  bucket = λ key. none;
  temporary_file = some (37 ∷ 80 ∷ []);
}

-- the key keeps the letters of the extension
key_of_report : object_key_for client spelled 4 9 "p/d.f" ≡ "evidence/4/9/content.pdf"
unfolding object_key_for alphanumerics
key_of_report = refl

abbrev HasOutcome : World Files → Type 0
HasOutcome w =
    ((capture_evidence_version client spelled (at_time 1) 9 (a_report "ab") w).temporary_file
      ≡ none)
    × (IsDuplicate client spelled (at_time 1) 9 (a_report "ab") w
          (capture_evidence_version client spelled (at_time 1) 9 (a_report "ab") w)
        ⊎ (IsRaised client spelled (at_time 1) 9 (a_report "ab") w
              (capture_evidence_version client spelled (at_time 1) 9 (a_report "ab") w)
            ⊎ IsAdded client spelled (at_time 1) 9 (a_report "ab") w
                (capture_evidence_version client spelled (at_time 1) 9 (a_report "ab") w)))

capture_outcome_example : HasOutcome empty_world
capture_outcome_example =
    capture_outcome client spelled (at_time 1) 9 (a_report "ab") empty_world refl
      (λ bucket key. refl)

-- the first capture is new
is_new :
    is_ok
      (capture_evidence_version client spelled (at_time 1) 9 (a_report "ab") empty_world).outcome
    ≡ true
unfolding event_machinery capture_evidence_version append_or_delete upload_object
    version_with_content latest_version artifact_version_projectors project_captured Table.insert
    Table.get
is_new = refl
