-- ===== src/Evidence/Captures.antt =====
-- What a capture of evidence leaves in the session, the bucket and the temporary file.
use minigrc.Events.{draft_event, Context}
use minigrc.Evidence.Storing.{
  capture_evidence_version, upload_object, append_or_delete, object_key_for, World, Attempt,
  record_capture, capture_of, delete_object, CaptureArguments,
}
use minigrc.Evidence.{
  version_with_content, captured_row, ArtifactSession, artifact_version_projectors,
  project_captured, same_version, artifact_version_id, captured, EvidenceArtifactVersion,
}
use minigrc.Prelude.{
  object_storage_error, no_temporary_file, ◌⊎◌, Error, err, Result-cases, refl, false, ◌∷◌, ◌++◌,
  ◌∙◌, ◌≡◌, Bool-cases, Option-cases, is_some, str_eq, any, ok, String, sym, subst, inl, inr, true,
  none, some, List, [], arith, eq_iff, ℕ,
}
use minigrc.Prelude.Table
use minigrc.Events.Record.{record_event-ok, recorded_event}
use minigrc.Evidence.Bucket.{BucketClient}

-- the row that a capture adds
abbrev pub new_row :
    {Bucket : Type 0}
    → BucketClient Bucket
    → (ℕ → String)
    → Context
    → ℕ
    → CaptureArguments
    → ArtifactSession
    → EvidenceArtifactVersion
new_row client spell c id a s = captured_row (capture_of client spell id a s.tables) (
    recorded_event "evidence_artifact_version" c id a.occurred_at
      (captured (capture_of client spell id a s.tables)) s)

module _ {Bucket : Type 0} (client : BucketClient Bucket) (spell : ℕ → String) where
  -- a new version at the end of the table
  record_capture-row :
      (c : Context) (id : ℕ) (a : CaptureArguments) (s s' : ArtifactSession)
      → record_capture client spell c id a s ≡ ok s'
      → (s'.tables ≡ s.tables ++ new_row client spell c id a s ∷ [])
        × (Table.get artifact_version_id id s'.tables ≡ some (new_row client spell c id a s))
  unfolding artifact_version_projectors project_captured draft_event
  record_capture-row c id a s s' h =
      let p = capture_of client spell id a s.tables in
      let row = new_row client spell c id a s in
      let r =
        record_event-ok artifact_version_projectors "evidence_artifact_version" c id a.occurred_at
          (captured p) s h in
      let inserted : Table.insert artifact_version_id row s.tables ≡ ok s'.tables =
        elim (Bool-cases (any (same_version p) s.tables)) [
          | inl q ↦ absurd (ground (arith, r.tables, q))
          | inr q ↦ ground (arith, r.tables, q)
        ] in
      let (unused, added) = Table.insert-ok artifact_version_id row s.tables inserted in
      (
        added,
        rw added (ground (arith, Table.get-append artifact_version_id id s.tables row, unused)),
      )

  -- an upload that is deleted again leaves every key as it was
  deleted-again :
      (key : String) (bytes : List ℕ) (b b' : Bucket)
      → client.object_at key b ≡ none
      → ((bucket : Bucket) → is_some (client.delete_file key bucket) ≡ true)
      → client.upload_file key bytes b ≡ some b'
      → (k : String) → client.object_at k (delete_object client key b') ≡ client.object_at k b
  unfolding delete_object
  deleted-again key bytes b b' fresh deletes uploaded k =
      elim (Option-cases (client.delete_file key b')) [
        | inl p ↦ absurd (ground (arith, p, deletes b'))
        | inr (b'', p) ↦ elim (Bool-cases (str_eq key k)) [
          | inl q ↦
              let same : key ≡ k = (eq_iff key k).0 q in
              rw (p, delete_object)
                (subst (λ x. client.object_at x b'' ≡ client.object_at x b) same
                  (client.delete-found key b' b'' p ∙ sym fresh))
          | inr q ↦
              rw (p, delete_object)
                (client.delete-other key k b' b'' q p
                  ∙ client.upload-other key k bytes b b' q uploaded)
        ]
      ]

module _ {Bucket : Type 0} (client : BucketClient Bucket) (spell : ℕ → String) (c : Context)
    (id : ℕ) (a : CaptureArguments) (w : World Bucket) where
  -- content that the artifact already has: its version is returned
  abbrev pub IsDuplicate : Attempt Bucket → Type 0
  IsDuplicate left =
      (v : EvidenceArtifactVersion) × (version_with_content a.artifact_id a.sha256 w.session.tables
        ≡ some v)
      × (left.bucket ≡ w.bucket)
      × (left.outcome ≡ ok (w.session, (some v, false)))

  -- an exception: no key of the bucket has changed
  abbrev pub IsRaised : Attempt Bucket → Type 0
  IsRaised left =
      (reason : Error) × (left.outcome ≡ err reason)
      × ((k : String) → client.object_at k left.bucket ≡ client.object_at k w.bucket)

  -- a new version at the end of the table, with the file's bytes at its key
  abbrev pub IsAdded : Attempt Bucket → Type 0
  IsAdded left =
      (s' : ArtifactSession) × (bytes : List ℕ) × (w.temporary_file ≡ some bytes)
      × (left.outcome ≡ ok (s', (some (new_row client spell c id a w.session), true)))
      × (s'.tables ≡ w.session.tables ++ new_row client spell c id a w.session ∷ [])
      × (client.object_at (object_key_for client spell a.artifact_id id a.extension) left.bucket
          ≡ some bytes)

  temporary_file-removed : (capture_evidence_version client spell c id a w).temporary_file ≡ none
  unfolding capture_evidence_version append_or_delete
  temporary_file-removed = ground arith

  IsDuplicate-outcome :
      (v : EvidenceArtifactVersion)
      → version_with_content a.artifact_id a.sha256 w.session.tables ≡ some v
      → IsDuplicate (capture_evidence_version client spell c id a w)
  unfolding capture_evidence_version
  IsDuplicate-outcome v p =
      (v, p, rw (p, capture_evidence_version) refl, rw (p, capture_evidence_version) refl)

  module _
      (fresh : client.object_at (object_key_for client spell a.artifact_id id a.extension) w.bucket
        ≡ none)
      (deletes : (bucket : Bucket) (key : String)
        → is_some (client.delete_file key bucket) ≡ true) where
    uploaded-outcome :
        (bytes : List ℕ) (bucket : Bucket)
        → w.temporary_file ≡ some bytes
        → client.upload_file
            (object_key_for client spell a.artifact_id id a.extension)
            bytes
            w.bucket
          ≡ some bucket
        → IsRaised (append_or_delete client spell c id a w.session bucket)
          ⊎ IsAdded (append_or_delete client spell c id a w.session bucket)
    unfolding append_or_delete
    uploaded-outcome bytes bucket file uploaded =
        let key = object_key_for client spell a.artifact_id id a.extension in
        elim (Result-cases (record_capture client spell c id a w.session)) [
          | inl (reason, p) ↦ inl (
            reason,
            rw (p, append_or_delete) refl,
            λ k.
                rw (p, append_or_delete)
                  (deleted-again client spell key bytes w.bucket bucket fresh (λ b. deletes b key)
                    uploaded k),
          )
          | inr (s', p) ↦
              let (added, found) = record_capture-row client spell c id a w.session s' p in
              inr (
                s',
                bytes,
                file,
                rw (p, append_or_delete, found) refl,
                added,
                rw (p, append_or_delete) (client.upload-found key bytes w.bucket bucket uploaded),
              )
        ]

    upload-outcome :
        version_with_content a.artifact_id a.sha256 w.session.tables ≡ none
        → IsRaised (capture_evidence_version client spell c id a w)
          ⊎ IsAdded (capture_evidence_version client spell c id a w)
    unfolding capture_evidence_version upload_object
    upload-outcome unknown = elim (Option-cases w.temporary_file) [
      | inl p ↦ inl (
        no_temporary_file,
        rw (unknown, p, capture_evidence_version) refl,
        λ k. rw (unknown, p, capture_evidence_version) refl,
      )
      | inr (bytes, p) ↦
          elim (Option-cases (
            client.upload_file (object_key_for client spell a.artifact_id id a.extension) bytes
              w.bucket)) [
                | inl q ↦ inl (
                  object_storage_error,
                  rw (unknown, p, q, capture_evidence_version) refl,
                  λ k. rw (unknown, p, q, capture_evidence_version) refl,
                )
                | inr (bucket, q) ↦
                    let same : append_or_delete client spell c id a w.session bucket
                        ≡ capture_evidence_version client spell c id a w =
                      ground (arith, unknown, p, q) in
                    subst (λ left. IsRaised left ⊎ IsAdded left) same
                      (uploaded-outcome bytes bucket p q)
              ]
    ]

-- A capture of evidence, under a key that the bucket does not hold and with a bucket that deletes
-- when asked, always removes the temporary file and has one of three outcomes. Content that the
-- artifact already has returns its version and changes neither the session nor the bucket; an
-- exception, of the upload or of the event after it, leaves every key of the bucket as it was; and
-- otherwise the file's bytes are at the key of the one row that is added, which is returned.
pub capture_outcome :
    {Bucket : Type 0} (client : BucketClient Bucket) (spell : ℕ → String) (c : Context) (id : ℕ)
    (a : CaptureArguments) (w : World Bucket)
    → client.object_at (object_key_for client spell a.artifact_id id a.extension) w.bucket ≡ none
    → ((bucket : Bucket) (key : String) → is_some (client.delete_file key bucket) ≡ true)
    → ((capture_evidence_version client spell c id a w).temporary_file ≡ none)
      × (IsDuplicate client spell c id a w (capture_evidence_version client spell c id a w)
          ⊎ (IsRaised client spell c id a w (capture_evidence_version client spell c id a w)
              ⊎ IsAdded client spell c id a w (capture_evidence_version client spell c id a w)))
capture_outcome client spell c id a w fresh deletes = (
  temporary_file-removed client spell c id a w,
  elim (Option-cases (version_with_content a.artifact_id a.sha256 w.session.tables)) [
    | inl p ↦ inr (upload-outcome client spell c id a w fresh deletes p)
    | inr (v, p) ↦ inl (IsDuplicate-outcome client spell c id a w v p)
  ],
)
