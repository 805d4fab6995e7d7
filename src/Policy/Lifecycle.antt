-- ===== src/Policy/Lifecycle.antt =====
-- How the status of a policy version moves.
use minigrc.Events.{DomainEvent, Context}
use minigrc.Policy.Rows.{recorded-get, new_event}
use minigrc.Prelude.Table
use minigrc.Prelude.{
  ◌&&◌, ltb, All, subst, not, ◌∷◌, ◌≢◌, Option-cases, Result, List, [], arith, ◌==◌, ◌≡◌,
  if◌then◌else◌, ==_iff, Bool-cases, str_eq, ok, ℕ, String, refl, inl, inr, false, Option, some,
}
use minigrc.Policy.{
  insert_version, is_effective, first_effective_but, with_loaded, previous_effective, versions_of,
  get_version, is_terminal, record_version_event, PolicySession, row_after, version_id,
  PolicyVersionEvent, PolicyVersion, withdrawn, superseded, effective, approved, in_review, draft,
  VersionStatus,
}

-- the arrows of the diagram
pub data Moves : VersionStatus → VersionStatus → Type 0 where
  submit : Moves draft in_review
  approve : Moves in_review approved
  send_back : Moves in_review draft
  make_effective : Moves approved effective
  supersede : Moves effective superseded
  withdraw : {x : VersionStatus} → is_terminal x ≡ false → Moves x withdrawn

-- What one accepted command does to the row with id `i`: nothing, or one arrow.
pub data RowStep (v v' : PolicyVersion) : Type 0 where
  untouched : v' ≡ v → RowStep v v'
  moved :
      v'.id ≡ v.id
      → v'.policy_id ≡ v.policy_id
      → v'.file ≡ v.file
      → Moves v.lifecycle_status v'.lifecycle_status
      → RowStep v v'

pub review-Moves :
    (decision : String) → Moves in_review (if str_eq decision "approved" then approved else draft)
review-Moves decision = elim (Bool-cases (str_eq decision "approved")) [
  | inl p ↦ rw p approve
  | inr p ↦ rw p send_back
]

-- an event on a version whose status it fits is one arrow
pub recorded-RowStep :
    (c : Context) (id : ℕ) (at : Option ℕ) (payload : PolicyVersionEvent) (s s' : PolicySession)
    (i : ℕ) (v : PolicyVersion)
    → ((e : DomainEvent PolicyVersionEvent) (w : PolicyVersion)
        → get_version id s.tables ≡ some w
        → RowStep w (row_after payload e w))
    → record_version_event c id at payload s ≡ ok s'
    → get_version i s.tables ≡ some v
    → (v' : PolicyVersion) × (get_version i s'.tables ≡ some v') × RowStep v v'
recorded-RowStep c id at payload s s' i v fits r p = elim (Bool-cases (id == i)) [
  | inl m ↦
      let same : id ≡ i = (==_iff id i).0 m in
      let q : get_version id s.tables ≡ some v = rw same p in
      (row_after payload e v, rw (now, m, q) refl, fits e v q)
  | inr m ↦ (v, rw (now, m) p, untouched refl)
]
  where
    e : DomainEvent PolicyVersionEvent
    e = new_event c id at payload s

    now : get_version i s'.tables ≡ (
        if id == i
        then Table.applied version_id (row_after payload e) (get_version id s.tables)
        else get_version i s.tables)
    now = recorded-get c id at payload s s' i r

pub on_loaded :
    (policy id : ℕ) (s : PolicySession) (k : PolicyVersion → Result PolicySession)
    {s' : PolicySession}
    → with_loaded policy id s k ≡ ok s'
    → (v : PolicyVersion) × (get_version id s.tables ≡ some v) × (k v ≡ ok s')
unfolding with_loaded
on_loaded policy id s k h = elim (Option-cases (get_version id s.tables)) [
  | inl p ↦ absurd (ground (arith, p))
  | inr (v, p) ↦ elim (Bool-cases (v.policy_id == policy)) [
    | inl q ↦ (v, p, ground (arith, p, q))
    | inr q ↦ absurd (ground (arith, p, q))
  ]
]

pub id_of_loaded :
    (id : ℕ) (t : List PolicyVersion) (v : PolicyVersion) → get_version id t ≡ some v → v.id ≡ id
unfolding get_version
id_of_loaded id t v h = Table.key-get version_id id t v h

module _ (P : PolicyVersion → Type 0) where
  All-insert_version :
      (v : PolicyVersion) (rows : List PolicyVersion)
      → P v
      → All P rows
      → All P (insert_version v rows)
  unfolding insert_version
  All-insert_version v [] p h = (p, tt)
  All-insert_version v (x ∷ rows) p h = elim (Bool-cases (ltb x.version_number v.version_number)) [
    | inl q ↦ rw q (p, h)
    | inr q ↦ rw q (h.0, All-insert_version v rows p h.1)
  ]

  All-versions_of :
      (policy : ℕ) (rows : List PolicyVersion) → All P rows → All P (versions_of policy rows)
  unfolding versions_of
  All-versions_of policy [] h = tt
  All-versions_of policy (v ∷ rows) h = elim (Bool-cases (v.policy_id == policy)) [
    | inl q ↦ rw q (All-insert_version v _ h.0 (All-versions_of policy rows h.1))
    | inr q ↦ rw q (All-versions_of policy rows h.1)
  ]

  All-first_effective_but :
      (id : ℕ) (rows : List PolicyVersion) (p : PolicyVersion)
      → All P rows
      → first_effective_but id rows ≡ some p
      → P p
  unfolding first_effective_but
  All-first_effective_but id [] p h e = absurd (ground arith)
  All-first_effective_but id (x ∷ rows) p h e =
      elim (Bool-cases (is_effective x.lifecycle_status && not (x.id == id))) [
        | inl q ↦ subst P (ground (arith, q)) h.0
        | inr q ↦ All-first_effective_but id rows p h.1 (ground (arith, q))
      ]

first_effective_but-some :
    (id : ℕ) (rows : List PolicyVersion) (p : PolicyVersion)
    → first_effective_but id rows ≡ some p
    → (p.lifecycle_status ≡ effective) × (p.id ≢ id)
unfolding first_effective_but
first_effective_but-some id [] p e = absurd (ground arith)
first_effective_but-some id (x ∷ rows) p e =
    elim (Bool-cases (is_effective x.lifecycle_status && not (x.id == id))) [
      | inl q ↦ (ground (arith, q), λ r. ground (arith, q, r))
      | inr q ↦ first_effective_but-some id rows p (ground (arith, q))
    ]

-- the previous effective version stands in the table, under its own id
pub previous_effective-some :
    (v p : PolicyVersion) (rows : List PolicyVersion)
    → Table.IsKeyed version_id rows
    → previous_effective v rows ≡ some p
    → (get_version p.id rows ≡ some p) × (p.lifecycle_status ≡ effective) × (p.id ≢ v.id)
unfolding previous_effective get_version
previous_effective-some v p rows k h =
    let (e, d) = first_effective_but-some v.id (versions_of v.policy_id rows) p h in
    (
      All-first_effective_but (λ x. Table.get version_id x.id rows ≡ some x) v.id
          (versions_of v.policy_id rows) p
          (All-versions_of (λ x. Table.get version_id x.id rows ≡ some x) v.policy_id rows
            (Table.IsKeyed-get version_id rows k))
          h,
      e,
      d,
    )
