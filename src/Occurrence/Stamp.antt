-- ===== src/Occurrence/Stamp.antt =====
-- The links of evidence of occurrences (app/models.py), whose `created_at` the database fills.
-- `created_at` of the links of evidence, set to one time
use minigrc.Events.Record.{project_payload}
use minigrc.Events.{DomainEvent}
use minigrc.Prelude.Table
use minigrc.Prelude.{
  ◌∷◌, ◌≡◌, Bool-cases, map-append_last, ok, >>=-eq-ok, ℕ, refl, inl, inr, List, [], map, arith,
}
use minigrc.Occurrence.Projection.{
  project_artifact_linked, project_performed, control_occurrence_projectors, artifact_row,
  is_artifact_linked, evidence_row, is_evidence_linked, write_occurrence, project_recorded_manually,
  manual_row, project_materialized, materialized_row, insert_occurrence, collides, get_occurrence,
  occurrence_id, Occurrences, OccurrenceArtifact, OccurrenceEvidence, artifact_linked,
  snapshot_linked, performed, recorded_manually, materialized, OccurrenceEvent, ControlOccurrence,
  project_evidence_linked,
}

abbrev pub stamp : ℕ → Occurrences → Occurrences
stamp r t = record t {
  evidence = map (λ (x : OccurrenceEvidence). record x { created_at = r }) t.evidence;
  artifacts = map (λ (x : OccurrenceArtifact). record x { created_at = r }) t.artifacts;
}

is_evidence_linked-stamp :
    (r id snapshot : ℕ) (rows : List OccurrenceEvidence)
    → is_evidence_linked id snapshot
        (map (λ (x : OccurrenceEvidence). record x { created_at = r }) rows)
      ≡ is_evidence_linked id snapshot rows
unfolding is_evidence_linked
is_evidence_linked-stamp r id snapshot [] = refl
is_evidence_linked-stamp r id snapshot (x ∷ rows) =
    ground (arith, is_evidence_linked-stamp r id snapshot rows)

is_artifact_linked-stamp :
    (r id version : ℕ) (rows : List OccurrenceArtifact)
    → is_artifact_linked id version
        (map (λ (x : OccurrenceArtifact). record x { created_at = r }) rows)
      ≡ is_artifact_linked id version rows
unfolding is_artifact_linked
is_artifact_linked-stamp r id version [] = refl
is_artifact_linked-stamp r id version (x ∷ rows) =
    ground (arith, is_artifact_linked-stamp r id version rows)

inserted-stamp :
    (r : ℕ) (o : ControlOccurrence) (t t' : Occurrences)
    → insert_occurrence o t ≡ ok t'
    → insert_occurrence o (stamp r t) ≡ ok (stamp r t')
unfolding insert_occurrence
inserted-stamp r o t t' h = elim (Bool-cases (collides o t.occurrences)) [
  | inl c ↦ absurd (ground (arith, h, c))
  | inr c ↦
      let (rows, p, q) =
        >>=-eq-ok (Table.insert occurrence_id o t.occurrences) _ (rw (c, insert_occurrence) at h) in
      ground (arith, c, p, q)
]

pub stamp-projectors :
    (r n : ℕ) (p : OccurrenceEvent) (t t' : Occurrences) (e : DomainEvent OccurrenceEvent)
    → project_payload (control_occurrence_projectors n) p t e ≡ ok t'
    → project_payload (control_occurrence_projectors r) p (stamp r t) e ≡ ok (stamp r t')
unfolding control_occurrence_projectors project_materialized project_recorded_manually
    project_performed write_occurrence get_occurrence project_evidence_linked
    project_artifact_linked
stamp-projectors r n (materialized m) t t' e h = inserted-stamp r (materialized_row m e) t t' h
stamp-projectors r n (recorded_manually m) t t' e h = inserted-stamp r (manual_row m e) t t' h
stamp-projectors r n (performed p) t t' e h = ground (arith, h)
stamp-projectors r n (snapshot_linked snapshot) t t' e h =
    let free = is_evidence_linked-stamp r e.aggregate_id snapshot t.evidence in
    let last =
      map-append_last (λ (x : OccurrenceEvidence). record x { created_at = r }) t.evidence
        (evidence_row n snapshot e) in
    ground (arith, h, free, last)
stamp-projectors r n (artifact_linked version) t t' e h =
    let free = is_artifact_linked-stamp r e.aggregate_id version t.artifacts in
    let last =
      map-append_last (λ (x : OccurrenceArtifact). record x { created_at = r }) t.artifacts
        (artifact_row n version e) in
    ground (arith, h, free, last)
