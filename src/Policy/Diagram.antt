-- ===== src/Policy/Diagram.antt =====
-- Every accepted command takes each version along at most one arrow of the diagram.
use minigrc.Prelude.Table
use minigrc.Events.{DomainEvent, Context}
use minigrc.Prelude.{
  ok, not, ◌==◌, ◌≡◌, ==_iff, Bool-cases, ℕ, refl, subst, inl, inr, Bool, true, Option, none, some,
  arith,
}
use minigrc.Policy.Effective.{made_effective-rows, previous-eq, row_of_made_effective}
use minigrc.Policy.Steps.{execute-IsExecuted, IsExecuted, IsOneEvent}
use minigrc.Policy.Lifecycle.{
  previous_effective-some, review-Moves, withdraw, submit, Moves, recorded-RowStep, moved,
  supersede, make_effective, untouched, RowStep,
}
use minigrc.Policy.{
  execute, withdraw_it, make_it_effective, review_it, submit_it, PolicyCommand, previous_effective,
  is_terminal, project_withdrawn, project_reviewed, project_submitted_for_review, version_id,
  version_withdrawn, reviewed, submitted_for_review, withdrawn, row_after, is_in_review, is_draft,
  PolicySession, project_superseded, project_made_effective, get_version, superseded_by,
  made_effective, PolicyVersionEvent, PolicyVersion, effective, approved, in_review, draft,
  VersionStatus,
}

fits_draft : (x : VersionStatus) → is_draft x ≡ true → x ≡ draft
fits_draft x h = ground arith

fits_in_review : (x : VersionStatus) → is_in_review x ≡ true → x ≡ in_review
fits_in_review x h = ground arith

one_event-RowStep :
    (c : Context) (id : ℕ) (at : Option ℕ) (payload : PolicyVersionEvent)
    (test : VersionStatus → Bool) (s s' : PolicySession) (i : ℕ) (v : PolicyVersion)
    → ((e : DomainEvent PolicyVersionEvent) (w : PolicyVersion)
        → test w.lifecycle_status ≡ true
        → RowStep w (row_after payload e w))
    → IsOneEvent c id at payload test s s'
    → get_version i s.tables ≡ some v
    → (v' : PolicyVersion) × (get_version i s'.tables ≡ some v') × RowStep v v'
one_event-RowStep c id at payload test s s' i v step x p =
    recorded-RowStep c id at payload s s' i v
      (λ e w q.
        let same : x.version ≡ w = same_version q in
        step e w (subst (λ u. test u.lifecycle_status ≡ true) {x = x.version} {y = w} same x.fits))
      x.recorded p
  where
    same_version : {w : PolicyVersion} → get_version id s.tables ≡ some w → x.version ≡ w
    same_version {w} q = let l : get_version id s.tables ≡ some x.version = x.loaded in cc

made_effective-RowStep :
    (e e' : DomainEvent PolicyVersionEvent) (id i : ℕ) (previous : Option PolicyVersion)
    (s s' : PolicySession) (v x : PolicyVersion)
    → get_version i s'.tables ≡ row_of_made_effective i id e e' previous s
    → get_version id s.tables ≡ some x
    → x.lifecycle_status ≡ approved
    → ((p : PolicyVersion)
        → previous ≡ some p
        → (get_version p.id s.tables ≡ some p) × (p.lifecycle_status ≡ effective))
    → get_version i s.tables ≡ some v
    → (v' : PolicyVersion) × (get_version i s'.tables ≡ some v') × RowStep v v'
unfolding project_made_effective project_superseded
made_effective-RowStep e e' id i none s s' v x now l a found p = elim (Bool-cases (id == i)) [
  | inl m ↦
      let same : id ≡ i = (==_iff id i).0 m in
      let x_is_v : x ≡ v = cc in
      (
        row_after made_effective e' v,
        ground (arith, now, m, l, x_is_v),
        moved refl refl refl (rw (← x_is_v, a) make_effective),
      )
  | inr m ↦ (v, ground (arith, now, m), untouched refl)
]
made_effective-RowStep e e' id i (some q) s s' v x now l a found p = elim (Bool-cases (id == i)) [
  | inl m ↦
      let same : id ≡ i = (==_iff id i).0 m in
      let x_is_v : x ≡ v = cc in
      (
        row_after made_effective e' v,
        ground (arith, now, m, l, x_is_v),
        moved refl refl refl (rw (← x_is_v, a) make_effective),
      )
  | inr m ↦ elim (Bool-cases (q.id == i)) [
    | inl n ↦
        let same : q.id ≡ i = (==_iff q.id i).0 n in
        let (there, eff) = found q refl in
        let q_is_v : q ≡ v = cc in
        (
          row_after (superseded_by id) e v,
          ground (arith, now, m, n, there, q_is_v),
          moved refl refl refl (rw (← q_is_v, eff) supersede),
        )
    | inr n ↦ (v, ground (arith, now, m, n), untouched refl)
  ]
]

arrow :
    (v v' : PolicyVersion) (x y : VersionStatus)
    → v'.id ≡ v.id
    → v'.policy_id ≡ v.policy_id
    → v'.file ≡ v.file
    → v.lifecycle_status ≡ x
    → v'.lifecycle_status ≡ y
    → Moves x y
    → RowStep v v'
arrow v v' x y a b d p q m = moved a b d (rw (p, q) m)

executed-RowStep :
    (c c' : Context) (cmd : PolicyCommand) (s s' : PolicySession) (i : ℕ) (v : PolicyVersion)
    → Table.IsKeyed version_id s.tables
    → IsExecuted c c' cmd s s'
    → get_version i s.tables ≡ some v
    → (v' : PolicyVersion) × (get_version i s'.tables ≡ some v') × RowStep v v'
unfolding project_submitted_for_review project_reviewed project_withdrawn
executed-RowStep c c' (submit_it policy id) s s' i v k x p =
    one_event-RowStep c id none submitted_for_review is_draft s s' i v
      (λ e w q.
        arrow w _ draft in_review refl refl refl (fits_draft w.lifecycle_status q) refl submit)
      x p
executed-RowStep c c' (review_it policy id decision comment) s s' i v k x p =
    one_event-RowStep c id none (reviewed decision comment) is_in_review s s' i v
      (λ e w q.
        arrow w _ in_review _ refl refl refl (fits_in_review w.lifecycle_status q) refl
          (review-Moves decision))
      x p
executed-RowStep c c' (make_it_effective policy id) s s' i v k x p =
    let (e, e', rows, (u, l, a), prev) = made_effective-rows c c' id s s' k x in
    made_effective-RowStep e e' id i (previous_effective x.version s.tables) s s' v x.version
      (rw (previous-eq c c' id s s' k x) at rows i) x.loaded (ground (arith, x.fits))
      (λ q r.
        let (there, eff, ne) = previous_effective-some x.version q s.tables k r in (there, eff))
      p
executed-RowStep c c' (withdraw_it policy id reason at) s s' i v k x p =
    one_event-RowStep c id at (version_withdrawn reason) (λ u. not (is_terminal u)) s s' i v
      (λ e w q.
        arrow w _ w.lifecycle_status withdrawn refl refl refl refl refl
          (withdraw (ground (arith, q))))
      x p

-- In a table with unique ids, an accepted command leaves each version as it is or takes it along
-- one arrow of the diagram (draft, in_review, approved, effective, superseded; withdrawn from any
-- status that is not terminal); a review may send a version back. Ids, policy and file stay.
pub version_moves :
    (c c' : Context) (cmd : PolicyCommand) (s s' : PolicySession) (i : ℕ) (v : PolicyVersion)
    → Table.IsKeyed version_id s.tables
    → execute c c' cmd s ≡ ok s'
    → get_version i s.tables ≡ some v
    → (v' : PolicyVersion) × (get_version i s'.tables ≡ some v') × RowStep v v'
version_moves c c' cmd s s' i v k h p =
    executed-RowStep c c' cmd s s' i v k (execute-IsExecuted c c' cmd s s' h) p
