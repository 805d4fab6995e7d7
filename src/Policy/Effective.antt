-- ===== src/Policy/Effective.antt =====
-- Making a version effective: exactly two rows change, and at most one version stays effective.
use minigrc.Policy.Projection.{superseded}
use minigrc.Policy.Steps.{IsMadeEffective}
use minigrc.Policy.Lifecycle.{previous_effective-some, id_of_loaded}
use minigrc.Prelude.Table
use minigrc.Events.{DomainEvent, Context}
use minigrc.Prelude.{
  ◌∙◌, ◌≢◌, ◌∷◌, any, sym, List, [], ◌==◌, ◌≡◌, if◌then◌else◌, ok, ℕ, refl, false, Option, none,
  some, arith,
}
use minigrc.Policy.Rows.{recorded-get, new_event}
use minigrc.Policy.{
  has_two_effective, both_effective, previous_effective, effective, approved, supersede_previous,
  record_version_event, PolicySession, row_after, get_version, version_id, superseded_by,
  made_effective, PolicyVersionEvent, PolicyVersion,
}

-- the row `i` after a version has been made effective
abbrev pub row_of_made_effective :
    ℕ
    → ℕ
    → DomainEvent PolicyVersionEvent
    → DomainEvent PolicyVersionEvent
    → Option PolicyVersion
    → PolicySession
    → Option PolicyVersion
row_of_made_effective i id e e' none s =
    if id == i
    then Table.applied version_id (row_after made_effective e') (get_version id s.tables)
    else get_version i s.tables
row_of_made_effective i id e e' (some p) s =
    if id == i
    then Table.applied version_id (row_after made_effective e') (get_version id s.tables)
    else if p.id == i
    then Table.applied version_id (row_after (superseded_by id) e) (get_version p.id s.tables)
    else get_version i s.tables

superseded-get :
    (c : Context) (id : ℕ) (previous : Option PolicyVersion) (s between s' : PolicySession)
    (c' : Context) (i : ℕ)
    → ((p : PolicyVersion) → previous ≡ some p → (p.id == id) ≡ false)
    → supersede_previous c id previous s ≡ ok between
    → record_version_event c' id none made_effective between ≡ ok s'
    → get_version i s'.tables
      ≡ row_of_made_effective i id
          (elim previous [
            | none ↦ new_event c id none (superseded_by id) s
            | some p ↦ new_event c p.id none (superseded_by id) s
          ])
          (new_event c' id none made_effective between)
          previous
          s
unfolding supersede_previous
superseded-get c id none s between s' c' i ne h r =
    let same : s ≡ between = cc in
    ground (arith, recorded-get c' id none made_effective between s' i r)
superseded-get c id (some p) s between s' c' i ne h r = ground (
  arith,
  ne p refl,
  recorded-get c' id none made_effective between s' i r,
  recorded-get c p.id none (superseded_by id) s between i h,
  recorded-get c p.id none (superseded_by id) s between id h,
)

-- the version that `make_version_effective` supersedes, as the session holds it
abbrev pub previous_of : ℕ → PolicySession → Option PolicyVersion
previous_of id s = elim (get_version id s.tables) [
  | none ↦ none
  | some v ↦ previous_effective v s.tables
]

module _ (c c' : Context) (id : ℕ) (s s' : PolicySession) (k : Table.IsKeyed version_id s.tables)
    (x : IsMadeEffective c c' id s s') where
  pub previous-eq : previous_of id s ≡ previous_effective x.version s.tables
  previous-eq = rw (x.loaded, previous_of) refl

  previous-fits :
      (p : PolicyVersion)
      → previous_effective x.version s.tables ≡ some p
      → (p.lifecycle_status ≡ effective) × (p.id ≢ id)
  previous-fits p q =
      let (_, eff, ne) = previous_effective-some x.version p s.tables k q in
      (eff, λ r. ne (r ∙ sym (id_of_loaded id s.tables x.version x.loaded)))

  ne_test : (i j : ℕ) → i ≢ j → (i == j) ≡ false
  ne_test i j h = ground arith

  -- the events of the command
  superseding_event : DomainEvent PolicyVersionEvent
  superseding_event = elim (previous_effective x.version s.tables) [
    | none ↦ new_event c id none (superseded_by id) s
    | some p ↦ new_event c p.id none (superseded_by id) s
  ]

  effective_event : DomainEvent PolicyVersionEvent
  effective_event = new_event c' id none made_effective x.between

  pub made_effective-rows :
      (e e' : DomainEvent PolicyVersionEvent) × ((i : ℕ)
        → get_version i s'.tables ≡ row_of_made_effective i id e e' (previous_of id s) s)
      × ((v : PolicyVersion) × (get_version id s.tables ≡ some v) × (v.lifecycle_status ≡ approved))
      × ((p : PolicyVersion)
          → previous_of id s ≡ some p
          → (p.lifecycle_status ≡ effective) × (p.id ≢ id))
  unfolding superseding_event effective_event
  made_effective-rows = (
    superseding_event,
    effective_event,
    λ i. rw previous-eq (
        superseded-get c id (previous_effective x.version s.tables) s x.between s' c' i
          (λ p q. ne_test p.id id (previous-fits p q).1) x.superseding x.recorded),
    (x.version, x.loaded, ground (arith, x.fits)),
    λ p q. previous-fits p (sym previous-eq ∙ q),
  )

-- the row `i` once version `id` is effective from time `now'`, `previous` superseded at time `now`
abbrev pub row_when_effective :
    ℕ → ℕ → ℕ → ℕ → Option PolicyVersion → PolicySession → Option PolicyVersion
row_when_effective now now' i id none s =
    if id == i
    then Table.applied version_id
        (λ (v : PolicyVersion). record v { lifecycle_status = effective; effective_at = some now' })
        (get_version id s.tables)
    else get_version i s.tables
row_when_effective now now' i id (some p) s =
    if id == i
    then Table.applied version_id
        (λ (v : PolicyVersion). record v { lifecycle_status = effective; effective_at = some now' })
        (get_version id s.tables)
    else if p.id == i
    then Table.applied version_id
        (λ (v : PolicyVersion). record v {
          lifecycle_status = superseded;
          superseded_at = some now;
          superseded_by_version_id = some id;
        })
        (get_version p.id s.tables)
    else get_version i s.tables

-- no two effective versions of one policy, by their ids
abbrev pub IsSingle : List PolicyVersion → Type 0
IsSingle rows =
    (i j : ℕ) (v w : PolicyVersion)
    → get_version i rows ≡ some v
    → get_version j rows ≡ some w
    → v.lifecycle_status ≡ effective
    → w.lifecycle_status ≡ effective
    → v.policy_id ≡ w.policy_id
    → i ≡ j

alone :
    (x : PolicyVersion) (rows : List PolicyVersion) (i : ℕ) (v : PolicyVersion)
    → any (both_effective x) rows ≡ false
    → get_version i rows ≡ some v
    → both_effective x v ≡ false
unfolding get_version Table.get
alone x [] i v h p = absurd (ground arith)
alone x (y ∷ rows) i v h p = ground (arith, alone x rows i v)

-- the index finds every pair
single_pair :
    (rows : List PolicyVersion) (i j : ℕ) (v w : PolicyVersion)
    → has_two_effective rows ≡ false
    → get_version i rows ≡ some v
    → get_version j rows ≡ some w
    → v.lifecycle_status ≡ effective
    → w.lifecycle_status ≡ effective
    → v.policy_id ≡ w.policy_id
    → i ≡ j
unfolding has_two_effective get_version Table.get
single_pair [] i j v w h p q _ _ _ = absurd (ground arith)
single_pair (x ∷ rows) i j v w h p q a b d =
    ground (arith, alone x rows i v, alone x rows j w, single_pair rows i j v w)

pub IsSingle-of_index : (rows : List PolicyVersion) → has_two_effective rows ≡ false → IsSingle rows
IsSingle-of_index rows h i j v w = single_pair rows i j v w h
