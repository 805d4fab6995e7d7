-- ===== src/Policy/Rows.antt =====
-- What one recorded event does to the rows of the policy versions.
use minigrc.Prelude.Table
use minigrc.Events.Record.{record_event-ok, record_event-total, project_payload, recorded_event}
use minigrc.Events.{draft_event, Context, DomainEvent}
use minigrc.Prelude.{
  ◌==◌, ◌≡◌, if◌then◌else◌, Option-cases, ok, ℕ, refl, inl, inr, Option, some, List, arith,
}
use minigrc.Policy.{
  record_version_event, PolicySession, policy_version_projectors, row_after, project_withdrawn,
  project_superseded, project_made_effective, project_reviewed, project_submitted_for_review,
  get_version, version_id, submitted_for_review, PolicyVersionEvent, PolicyVersion,
}

-- the event that a command records
abbrev pub new_event :
    Context → ℕ → Option ℕ → PolicyVersionEvent → PolicySession → DomainEvent PolicyVersionEvent
new_event c id at payload s = recorded_event "policy_version" c id at payload s

pub row_after-keeps_id :
    (p : PolicyVersionEvent) (e : DomainEvent PolicyVersionEvent) (v : PolicyVersion)
    → version_id (row_after p e v) ≡ version_id v
unfolding project_submitted_for_review project_reviewed project_made_effective project_superseded
    project_withdrawn
row_after-keeps_id submitted_for_review e v = refl
row_after-keeps_id _ e v = refl

project_payload-rows :
    (p : PolicyVersionEvent) (t t' : List PolicyVersion) (e : DomainEvent PolicyVersionEvent)
    → project_payload policy_version_projectors p t e ≡ ok t'
    → (t' ≡ Table.modify version_id e.aggregate_id (row_after p e) t)
      × ((v : PolicyVersion) × (get_version e.aggregate_id t ≡ some v))
unfolding policy_version_projectors
project_payload-rows p t t' e h = elim (Option-cases (get_version e.aggregate_id t)) [
  | inl q ↦ absurd (ground (arith, q))
  | inr (v, q) ↦ (ground (arith, q), (v, q))
]

-- A recorded event rewrites its own version's row, which is there, and no other.
pub recorded-rows :
    (c : Context) (id : ℕ) (at : Option ℕ) (payload : PolicyVersionEvent) (s s' : PolicySession)
    → record_version_event c id at payload s ≡ ok s'
    → (s'.tables
        ≡ Table.modify version_id id (row_after payload (new_event c id at payload s)) s.tables)
      × ((v : PolicyVersion) × (get_version id s.tables ≡ some v))
unfolding record_version_event draft_event
recorded-rows c id at payload s s' h =
    project_payload-rows payload s.tables s'.tables (new_event c id at payload s)
      (record_event-ok policy_version_projectors "policy_version" c id at payload s h).tables

pub recorded-get :
    (c : Context) (id : ℕ) (at : Option ℕ) (payload : PolicyVersionEvent) (s s' : PolicySession)
    (i : ℕ)
    → record_version_event c id at payload s ≡ ok s'
    → get_version i s'.tables ≡ (
        if id == i
        then Table.applied version_id
            (row_after payload (new_event c id at payload s))
            (get_version id s.tables)
        else get_version i s.tables)
unfolding get_version
recorded-get c id at payload s s' i h = rw (recorded-rows c id at payload s s' h).0 (
    Table.get-modify version_id (row_after payload (new_event c id at payload s))
      (row_after-keeps_id payload (new_event c id at payload s)) i id s.tables)

pub recorded-total :
    (c : Context) (id : ℕ) (at : Option ℕ) (payload : PolicyVersionEvent) (s : PolicySession)
    (v : PolicyVersion)
    → get_version id s.tables ≡ some v
    → (s' : PolicySession) × (record_version_event c id at payload s ≡ ok s')
unfolding record_version_event draft_event policy_version_projectors
recorded-total c id at payload s v h = (
  _,
  record_event-total policy_version_projectors "policy_version" c id at payload s
      (Table.modify version_id id (row_after payload (new_event c id at payload s)) s.tables)
      (ground (arith, h)),
)
