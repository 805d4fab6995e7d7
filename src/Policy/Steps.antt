-- ===== src/Policy/Steps.antt =====
-- What each accepted command does to the rows of the policy versions.
use minigrc.Events.{Context}
use minigrc.Prelude.{
  ◌>>=◌, ◌&&◌, ◌≡◌, Bool-cases, str_eq, one_of, is_blank, not_draft, not_in_review, not_approved,
  bad_review_decision, comment_required, withdraw_terminal, ok, >>=-eq-ok, require-eq-ok, ℕ, inl,
  inr, Bool, true, false, not, Option, none, some, arith,
}
use minigrc.Policy.Lifecycle.{id_of_loaded, on_loaded}
use minigrc.Policy.{
  supersede_previous, execute, withdraw_it, make_it_effective, review_it, submit_it, PolicyCommand,
  withdraw_version, make_version_effective, flush_versions, has_two_effective, previous_effective,
  review_version, review_decisions, submit_for_review, is_terminal, is_approved, is_in_review,
  is_draft, record_version_event, PolicySession, get_version, version_withdrawn, made_effective,
  reviewed, submitted_for_review, PolicyVersionEvent, PolicyVersion, VersionStatus,
}

-- A command that records one event on the version that it loads, and the status that it requires.
pub record IsOneEvent (c : Context) (id : ℕ) (at : Option ℕ) (payload : PolicyVersionEvent)
    (test : VersionStatus → Bool) (s s' : PolicySession) : Type 0 where
  pub version : PolicyVersion
  pub loaded : get_version id s.tables ≡ some version
  pub fits : test version.lifecycle_status ≡ true
  pub recorded : record_version_event c id at payload s ≡ ok s'

-- `make_version_effective` on the version that it loads
pub record IsMadeEffective (c c' : Context) (id : ℕ) (s s' : PolicySession) : Type 0 where
  pub version : PolicyVersion
  pub loaded : get_version id s.tables ≡ some version
  pub fits : is_approved version.lifecycle_status ≡ true
  pub between : PolicySession
  pub superseding : supersede_previous c id (previous_effective version s.tables) s ≡ ok between
  pub recorded : record_version_event c' id none made_effective between ≡ ok s'
  pub single : has_two_effective s'.tables ≡ false

abbrev pub IsExecuted : Context → Context → PolicyCommand → PolicySession → PolicySession → Type 0
IsExecuted c c' (submit_it policy id) s s' = IsOneEvent c id none submitted_for_review is_draft s s'
IsExecuted c c' (review_it policy id decision comment) s s' =
    IsOneEvent c id none (reviewed decision comment) is_in_review s s'
IsExecuted c c' (make_it_effective policy id) s s' = IsMadeEffective c c' id s s'
IsExecuted c c' (withdraw_it policy id reason at) s s' =
    IsOneEvent c id at (version_withdrawn reason) (λ x. not (is_terminal x)) s s'

flush-ok :
    (s : PolicySession) {s' : PolicySession}
    → flush_versions s ≡ ok s'
    → (s ≡ s') × (has_two_effective s.tables ≡ false)
unfolding flush_versions
flush-ok s h = elim (Bool-cases (has_two_effective s.tables)) [
  | inl p ↦ absurd (ground (arith, p))
  | inr p ↦ (ground (arith, p), p)
]

pub execute-IsExecuted :
    (c c' : Context) (cmd : PolicyCommand) (s s' : PolicySession)
    → execute c c' cmd s ≡ ok s'
    → IsExecuted c c' cmd s s'
unfolding execute
execute-IsExecuted c c' (submit_it policy id) s s' h =
    let (v, p, q) = on_loaded policy id s (λ v. submit_for_review c v s) h in
    unfold submit_for_review in
    let (a, q) = require-eq-ok (is_draft v.lifecycle_status) not_draft _ q in
    record { version = v; loaded = p; fits = a; recorded = rw (id_of_loaded id s.tables v p) at q }
execute-IsExecuted c c' (review_it policy id decision comment) s s' h =
    let (v, p, q) = on_loaded policy id s (λ v. review_version c v decision comment s) h in
    unfold review_version in
    let (a, q) = require-eq-ok (is_in_review v.lifecycle_status) not_in_review _ q in
    let (_, q) = require-eq-ok (one_of review_decisions decision) bad_review_decision _ q in
    let (_, q) =
      require-eq-ok (not (str_eq decision "rejected" && is_blank comment)) comment_required _ q in
    record { version = v; loaded = p; fits = a; recorded = rw (id_of_loaded id s.tables v p) at q }
execute-IsExecuted c c' (make_it_effective policy id) s s' h =
    let (v, p, q) = on_loaded policy id s (λ v. make_version_effective c c' v s) h in
    unfold make_version_effective in
    let (a, q) = require-eq-ok (is_approved v.lifecycle_status) not_approved _ q in
    let (b, r, q) =
      >>=-eq-ok (supersede_previous c v.id (previous_effective v s.tables) s)
        (λ s'. record_version_event c' v.id none made_effective s' >>= flush_versions) q in
    let (d, t, q) =
      >>=-eq-ok (record_version_event c' v.id none made_effective b) flush_versions q in
    let (same, single) = flush-ok d q in
    let e = id_of_loaded id s.tables v p in
    record {
      version = v;
      loaded = p;
      fits = a;
      between = b;
      superseding = rw e at r;
      recorded = rw (e, same) at t;
      single = rw same at single;
    }
execute-IsExecuted c c' (withdraw_it policy id reason at) s s' h =
    let (v, p, q) = on_loaded policy id s (λ v. withdraw_version c v reason at s) h in
    unfold withdraw_version in
    let (a, q) = require-eq-ok (not (is_terminal v.lifecycle_status)) withdraw_terminal _ q in
    record { version = v; loaded = p; fits = a; recorded = rw (id_of_loaded id s.tables v p) at q }
