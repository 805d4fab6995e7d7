-- ===== src/ControlDefinition/Single.antt =====
-- No event leaves a control with two effective versions of its definition.
use minigrc.Events.Record.{project_payload}
use minigrc.ControlDefinition.Projection.{same_number, superseded_row, effective_row}
use minigrc.Prelude.Table
use minigrc.Prelude.{
  String, ℕ, ◌+◌, ◌≤◌, [], ◌∷◌, true, false, ◌&&◌, ◌==◌, ◌≡◌, refl, inl, inr, subst, if◌then◌else◌,
  any, Bool-cases, Option-cases, ok, >>=-eq-ok, arith,
}
use minigrc.Events.{DomainEvent}
use minigrc.Policy.{is_effective}
use minigrc.ControlDefinition.{
  InternalControlVersion, ControlVersionEvent, Versions, control_version_id, both_effective,
  has_two_effective, flush_versions, project_drafted, drafted_row, write_control_version,
  get_control_version, submitted_row, reviewed_row, withdrawn_row, control_version_projectors,
  definition_drafted, definition_submitted, definition_reviewed, definition_made_effective,
  definition_superseded, definition_withdrawn,
}

flushed-single :
    (rows rows' : Versions) → flush_versions rows ≡ ok rows' → has_two_effective rows' ≡ false
unfolding flush_versions
flushed-single rows rows' h = elim (Bool-cases (has_two_effective rows)) [
  | inl p ↦ absurd (ground (arith, h, p))
  | inr p ↦
      let same : rows ≡ rows' = ground (arith, h, p) in
      subst (λ x. has_two_effective x ≡ false) same p
]

module _ (f : InternalControlVersion → InternalControlVersion)
    (ends : (v : InternalControlVersion) → is_effective (f v).lifecycle_status ≡ false) where
  any-modify :
      (x : InternalControlVersion) (id : ℕ) (rows : Versions)
      → any (both_effective x) rows ≡ false
      → any (both_effective x) (Table.modify control_version_id id f rows) ≡ false
  unfolding Table.modify
  any-modify x id [] h = refl
  any-modify x id (v ∷ rows) h = ground (arith, h, ends v, any-modify x id rows)

  ended-alone :
      (v : InternalControlVersion) (rows : Versions) → any (both_effective (f v)) rows ≡ false
  ended-alone v [] = refl
  ended-alone v (w ∷ rows) = ground (arith, ends v, ended-alone v rows)

  modify-single :
      (id : ℕ) (rows : Versions)
      → has_two_effective rows ≡ false
      → has_two_effective (Table.modify control_version_id id f rows) ≡ false
  unfolding Table.modify has_two_effective
  modify-single id [] h = refl
  modify-single id (v ∷ rows) h = elim (Bool-cases (v.id == id)) [
    | inl p ↦ ground (arith, h, p, ended-alone v rows)
    | inr p ↦ ground (arith, h, p, any-modify v id rows, modify-single id rows)
  ]

  written-single :
      (rows rows' : Versions) (e : DomainEvent ControlVersionEvent)
      → has_two_effective rows ≡ false
      → write_control_version f rows e ≡ ok rows'
      → has_two_effective rows' ≡ false
  unfolding write_control_version
  written-single rows rows' e h w = elim (Option-cases (get_control_version e.aggregate_id rows)) [
    | inl p ↦ absurd (ground (arith, w, p))
    | inr (v, p) ↦
        let same : Table.modify control_version_id e.aggregate_id f rows ≡ rows' =
          ground (arith, w, p) in
        subst (λ x. has_two_effective x ≡ false) same (modify-single e.aggregate_id rows h)
  ]

reviewed-ends :
    (decision comment : String) (e : DomainEvent ControlVersionEvent) (v : InternalControlVersion)
    → is_effective (reviewed_row decision comment e v).lifecycle_status ≡ false
unfolding reviewed_row
reviewed-ends decision comment e v = ground arith

-- an event's projector keeps at most one version of each control effective
pub projected-single :
    (payload : ControlVersionEvent) (rows rows' : Versions) (e : DomainEvent ControlVersionEvent)
    → project_payload control_version_projectors payload rows e ≡ ok rows'
    → has_two_effective rows ≡ false
    → has_two_effective rows' ≡ false
unfolding control_version_projectors project_drafted submitted_row withdrawn_row
projected-single (definition_drafted d) rows rows' e h s =
    elim (Bool-cases (any (same_number d) rows)) [
      | inl p ↦ absurd (ground (arith, h, p))
      | inr p ↦
          let (rows1, added, flushed) =
            >>=-eq-ok (Table.insert control_version_id (drafted_row d e) rows) _
              (rw (p, control_version_projectors) at h) in
          flushed-single rows1 rows' flushed
    ]
projected-single definition_submitted rows rows' e h s =
    written-single (submitted_row e) (λ v. refl) rows rows' e s h
projected-single (definition_reviewed decision comment) rows rows' e h s =
    written-single (reviewed_row decision comment e) (reviewed-ends decision comment e) rows rows' e
      s h
projected-single definition_made_effective rows rows' e h s =
    let (rows1, written, flushed) =
      >>=-eq-ok (write_control_version (effective_row e) rows e) _ h in
    flushed-single rows1 rows' flushed
projected-single (definition_superseded by) rows rows' e h s =
    let (rows1, written, flushed) =
      >>=-eq-ok (write_control_version (superseded_row by e) rows e) _ h in
    flushed-single rows1 rows' flushed
projected-single (definition_withdrawn reason) rows rows' e h s =
    written-single (withdrawn_row reason e) (λ v. refl) rows rows' e s h

-- the effective versions of a control
unfoldable pub count_effective : ℕ → Versions → ℕ
count_effective control [] = 0
count_effective control (v ∷ rows) =
    (if is_effective v.lifecycle_status && v.control_id == control then 1 else 0)
    + count_effective control rows

alone-count :
    (v : InternalControlVersion) (rows : Versions)
    → is_effective v.lifecycle_status ≡ true
    → any (both_effective v) rows ≡ false
    → count_effective v.control_id rows ≡ 0
unfolding count_effective
alone-count v [] k h = refl
alone-count v (w ∷ rows) k h = ground (arith, k, h, alone-count v rows k)

pub single-count :
    (control : ℕ) (rows : Versions)
    → has_two_effective rows ≡ false
    → count_effective control rows ≤ 1
unfolding count_effective has_two_effective
single-count control [] h = omega arith
single-count control (v ∷ rows) h =
    let rest = single-count control rows (ground (arith, h)) in
    elim (Bool-cases (is_effective v.lifecycle_status && v.control_id == control)) [
      | inr p ↦ ground (arith, p, rest)
      | inl p ↦
          let same : v.control_id ≡ control = ground (arith, p) in
          let none_else : count_effective v.control_id rows ≡ 0 =
            alone-count v rows (ground (arith, p)) (ground (arith, h)) in
          ground (arith, p, rw same at none_else)
    ]
