-- ===== src/ControlDefinition/Log.antt =====
-- Every accepted command appends events one after another, with a clock that moves on.
use minigrc.ControlDefinition.Projection.{
  definition_withdrawn, definition_superseded, definition_made_effective, definition_reviewed,
  definition_submitted,
}
use minigrc.Prelude.{
  ℕ, ◌+◌, ◌≤◌, String, [], Option, none, some, false, not, ◌&&◌, ◌≡◌, inl, inr, subst, str_eq,
  one_of, is_blank, Option-cases, Result, ok, >>=-eq-ok, require-eq-ok, not_draft, not_in_review,
  not_approved, bad_review_decision, comment_required, withdraw_terminal, arith,
}
use minigrc.Events.{record_event, Context}
use minigrc.Events.Record.{record_event-ok, record_event-IsProjected}
use minigrc.Events.Replay.{IsProjected, IsPast, IsPast-mono}
use minigrc.Policy.{is_draft, is_in_review, is_approved, is_terminal, review_decisions}
use minigrc.ControlDefinition.Single.{projected-single}
use minigrc.ControlDefinition.{
  InternalControlVersion, ControlVersionEvent, VersionSession, has_two_effective,
  get_control_version, control_version_projectors, record_definition_event,
  draft_control_definition_version, submit_definition, review_definition, previous_definition,
  supersede_definition, make_definition_effective, withdraw_definition, with_version,
  bootstrap_initial_effective_version, ControlRow, Overrides, Contexts, as_it_is,
}

-- events recorded from the first time on, all of them before the second
pub data Logged : ℕ → VersionSession → ℕ → VersionSession → Type 0 where
  nothing : {t t' : ℕ} {s : VersionSession} → t ≤ t' → Logged t s t' s
  logged :
      {t t' : ℕ} {s s' s'' : VersionSession} (c : Context) (id : ℕ) (at : Option ℕ)
      (payload : ControlVersionEvent)
      → t ≤ c.now
      → record_event control_version_projectors "internal_control_version" c id at payload s ≡ ok s'
      → Logged (c.now + 1) s' t' s''
      → Logged t s t' s''

earlier : {t t' t'' : ℕ} {s s' : VersionSession} → t ≤ t' → Logged t' s t'' s' → Logged t s t'' s'
earlier before (nothing later) = nothing (omega (arith, before, later))
earlier before (logged c id at payload later e more) =
    logged c id at payload (omega (arith, before, later)) e more

pub Logged-trans :
    {t t' t'' : ℕ} {s s' s'' : VersionSession}
    → Logged t s t' s'
    → Logged t' s' t'' s''
    → Logged t s t'' s''
Logged-trans (nothing later) rest = earlier later rest
Logged-trans (logged c id at payload before e more) rest =
    logged c id at payload before e (Logged-trans more rest)

pub Logged-single :
    {t t' : ℕ} {s s' : VersionSession}
    → Logged t s t' s'
    → has_two_effective s.tables ≡ false
    → has_two_effective s'.tables ≡ false
Logged-single (nothing later) h = h
Logged-single (logged {s = s} {s' = s1} c id at payload before e more) h =
    let recorded =
      record_event-ok control_version_projectors "internal_control_version" c id at payload s e in
    Logged-single more (projected-single payload s.tables s1.tables _ recorded.tables h)

abbrev pub VersionsProjected : VersionSession → Type 0
VersionsProjected = IsProjected control_version_projectors "internal_control_version" []

pub Logged-IsProjected :
    {t t' : ℕ} {s s' : VersionSession}
    → Logged t s t' s'
    → IsPast t s.events
    → VersionsProjected s
    → VersionsProjected s' × IsPast t' s'.events
Logged-IsProjected {t} {t'} {s} (nothing later) past v = (v, IsPast-mono t t' s.events later past)
Logged-IsProjected {t} (logged {s = s} c id at payload before e more) past v =
    let (v', past') =
      record_event-IsProjected control_version_projectors "internal_control_version" c id at payload
        s [] (IsPast-mono t c.now s.events before past) v e in
    Logged-IsProjected more past' v'

-- one event
one :
    (t : ℕ) (c : Context) (id : ℕ) (at : Option ℕ) (payload : ControlVersionEvent)
    (s s' : VersionSession)
    → t ≤ c.now
    → record_definition_event c id at payload s ≡ ok s'
    → Logged t s (c.now + 1) s'
unfolding record_definition_event
one t c id at payload s s' before e = logged c id at payload before e (nothing (omega arith))

module _ (t : ℕ) (c : Context) (before : t ≤ c.now) (s s' : VersionSession) where
  pub draft-Logged :
      (id : ℕ) (control : ControlRow) (given : Overrides)
      → draft_control_definition_version c id control given s ≡ ok s'
      → Logged t s (c.now + 1) s'
  unfolding draft_control_definition_version
  draft-Logged id control given h = one t c id none _ s s' before h

  pub submit-Logged :
      (v : InternalControlVersion) → submit_definition c v s ≡ ok s' → Logged t s (c.now + 1) s'
  unfolding submit_definition
  submit-Logged v h =
      let (k, h) = require-eq-ok (is_draft v.lifecycle_status) not_draft _ h in
      one t c v.id none definition_submitted s s' before h

  pub review-Logged :
      (v : InternalControlVersion) (decision comment : String)
      → review_definition c v decision comment s ≡ ok s'
      → Logged t s (c.now + 1) s'
  unfolding review_definition
  review-Logged v decision comment h =
      let (k, h) = require-eq-ok (is_in_review v.lifecycle_status) not_in_review _ h in
      let (k', h) = require-eq-ok (one_of review_decisions decision) bad_review_decision _ h in
      let (k'', h) =
        require-eq-ok (not (str_eq decision "rejected" && is_blank comment)) comment_required _ h in
      one t c v.id none (definition_reviewed decision comment) s s' before h

  pub withdraw-Logged :
      (v : InternalControlVersion) (reason : String) (at : Option ℕ)
      → withdraw_definition c v reason at s ≡ ok s'
      → Logged t s (c.now + 1) s'
  unfolding withdraw_definition
  withdraw-Logged v reason at h =
      let (k, h) = require-eq-ok (not (is_terminal v.lifecycle_status)) withdraw_terminal _ h in
      one t c v.id at (definition_withdrawn reason) s s' before h

  supersede-Logged :
      (by : ℕ) (previous : Option InternalControlVersion)
      → supersede_definition c by previous s ≡ ok s'
      → Logged t s (c.now + 1) s'
  unfolding supersede_definition
  supersede-Logged by none h =
      let same : s ≡ s' = ground (arith, h) in
      subst (λ x. Logged t s (c.now + 1) x) same (nothing (omega (arith, before)))
  supersede-Logged by (some previous) h =
      one t c previous.id none (definition_superseded by) s s' before h

pub make_effective-Logged :
    (t : ℕ) (c c' : Context) (v : InternalControlVersion) (s s' : VersionSession)
    → t ≤ c.now
    → c.now + 1 ≤ c'.now
    → make_definition_effective c c' v s ≡ ok s'
    → Logged t s (c'.now + 1) s'
unfolding make_definition_effective
make_effective-Logged t c c' v s s' before next h =
    let (k, h) = require-eq-ok (is_approved v.lifecycle_status) not_approved _ h in
    let (s1, e, h) =
      >>=-eq-ok (supersede_definition c v.id (previous_definition v s.tables) s) _ h in
    Logged-trans (supersede-Logged t c before s s1 v.id (previous_definition v s.tables) e)
      (one (c.now + 1) c' v.id none definition_made_effective s1 s' next h)

pub loaded :
    (id : ℕ) (f : InternalControlVersion → VersionSession → Result VersionSession)
    (s s' : VersionSession)
    → with_version id f s ≡ ok s'
    → (v : InternalControlVersion) × (f v s ≡ ok s')
loaded id f s s' h = elim (Option-cases (get_control_version id s.tables)) [
  | inl p ↦ absurd (ground (arith, h, p))
  | inr (v, p) ↦ (v, ground (arith, h, p))
]

-- the five clocks of a bootstrap move on
abbrev pub AreOrdered : ℕ → Contexts → Type 0
AreOrdered t cs =
    (t ≤ cs.drafting.now)
    × (cs.drafting.now + 1 ≤ cs.submitting.now)
    × (cs.submitting.now + 1 ≤ cs.reviewing.now)
    × (cs.reviewing.now + 1 ≤ cs.superseding.now)
    × (cs.superseding.now + 1 ≤ cs.activating.now)

pub bootstrap-Logged :
    (t : ℕ) (cs : Contexts) (id : ℕ) (control : ControlRow) (s s' : VersionSession)
    → AreOrdered t cs
    → bootstrap_initial_effective_version cs id control s ≡ ok s'
    → Logged t s (cs.activating.now + 1) s'
unfolding bootstrap_initial_effective_version
bootstrap-Logged t cs id control s s' (a, b, c, d, e) h =
    let (s1, drafted, h) =
      >>=-eq-ok (draft_control_definition_version cs.drafting id control as_it_is s) _ h in
    let (s2, submitted, h) = >>=-eq-ok (with_version id (submit_definition cs.submitting) s1) _ h in
    let (s3, was_reviewed, activated) =
      >>=-eq-ok (with_version id (λ v. review_definition cs.reviewing v "approved" "") s2) _ h in
    let (v, submitted') = loaded id (submit_definition cs.submitting) s1 s2 submitted in
    let (w, reviewed') =
      loaded id (λ v. review_definition cs.reviewing v "approved" "") s2 s3 was_reviewed in
    let (x, activated') =
      loaded id (make_definition_effective cs.superseding cs.activating) s3 s' activated in
    Logged-trans (draft-Logged t cs.drafting a s s1 id control as_it_is drafted) (
      Logged-trans (submit-Logged (cs.drafting.now + 1) cs.submitting b s1 s2 v submitted') (
        Logged-trans
          (review-Logged (cs.submitting.now + 1) cs.reviewing c s2 s3 w "approved" "" reviewed')
          (make_effective-Logged (cs.reviewing.now + 1) cs.superseding cs.activating x s3 s' d e
            activated')))
