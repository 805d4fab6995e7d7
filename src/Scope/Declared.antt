-- ===== src/Scope/Declared.antt =====
-- There is at most one scope, valid, and its revision counts the accepted declarations.
use minigrc.Events.{record_event, Context}
use minigrc.Scope.{
  define_or_revise_scope, fields_of, get_compliance_scope, rebuild_compliance_scope_projection,
  ScopeSession, reset_compliance_scopes, compliance_scope_projectors, project_revised,
  project_defined, revised_row, defined_row, scope_revised, scope_defined, ScopeArguments,
  ScopeFields, ComplianceScope, is_reversed, normalize_categories, in_vocabulary_order,
  comma_joined, trust_service_categories,
}
use minigrc.Prelude.{
  ◌+◌, ◌∷◌, ◌⊎◌, ◌≡◌, Option-cases, one_of, length, all, length-append, unknown_category,
  bad_period, ok, >>=-eq-ok, require-eq-ok, String, refl, sym, inl, inr, false, not, none, List, [],
  arith, ℕ,
}
use minigrc.Prelude.Table
use minigrc.Events.Record.{record_event-ok, recorded_event}
use minigrc.Events.Runs.{Effect, one_event, run, run-keeps, rebuild-run, IsTicking}

-- an accepted declaration is one event on the only scope, or on a new one
pub define-Effect :
    (c : Context) (r : ℕ × ScopeArguments) (s s' : ScopeSession)
    → define_or_revise_scope c r s ≡ ok s'
    → Effect compliance_scope_projectors "compliance_scope" c s s'
unfolding define_or_revise_scope
define-Effect c (id, a) s s' h =
    let (k, h) =
      require-eq-ok (not (is_reversed a.audit_period_starts_on a.audit_period_ends_on)) bad_period _
        h in
    let (text, normal, h) = >>=-eq-ok (normalize_categories a.trust_service_categories) _ h in
    elim (Option-cases (get_compliance_scope s.tables)) [
      | inl p ↦ one_event id none (scope_defined (fields_of a text)) (rw p at h)
      | inr (scope, p) ↦ one_event scope.id none (scope_revised (fields_of a text)) (rw p at h)
    ]

-- what is always true of a declared scope: the period is in order, and security is the first of the
-- categories
abbrev pub IsValidScope : ComplianceScope → Type 0
IsValidScope scope =
    (is_reversed scope.audit_period_starts_on scope.audit_period_ends_on ≡ false)
    × (more : List String) × (scope.trust_service_categories ≡ comma_joined ("security" ∷ more))

-- no scope and no event, or one valid scope whose revision counts the events
abbrev pub HasOneScope : ScopeSession → Type 0
HasOneScope s =
    ((s.tables ≡ []) × (s.events ≡ []))
    ⊎ ((scope : ComplianceScope) × (s.tables ≡ scope ∷ [])
        × (scope.revision ≡ length s.events)
        × IsValidScope scope)

normalize-security :
    (categories : List String) (text : String)
    → normalize_categories categories ≡ ok text
    → (more : List String) × (text ≡ comma_joined ("security" ∷ more))
unfolding normalize_categories in_vocabulary_order
normalize-security categories text h =
    let (k, h) =
      require-eq-ok (all (one_of trust_service_categories) categories) unknown_category _ h in
    (
      in_vocabulary_order ("security" ∷ categories)
          ("availability" ∷ "confidentiality" ∷ "processing_integrity" ∷ "privacy" ∷ []),
      ground (arith, h),
    )

first_scope :
    (s s' : ScopeSession) (c : Context) (id : ℕ) (f : ScopeFields)
    → s.tables ≡ []
    → s.events ≡ []
    → record_event compliance_scope_projectors "compliance_scope" c id none (scope_defined f) s
      ≡ ok s'
    → (s'.tables
        ≡ defined_row f (recorded_event "compliance_scope" c id none (scope_defined f) s) ∷ [])
      × (length s'.events ≡ 1)
unfolding compliance_scope_projectors project_defined Table.insert Table.get
first_scope s s' c id f t e h =
    let r =
      record_event-ok compliance_scope_projectors "compliance_scope" c id none (scope_defined f) s
        h in
    (ground (arith, r.tables, t), rw (r.events, e) refl)

next_scope :
    (s s' : ScopeSession) (c : Context) (scope : ComplianceScope) (f : ScopeFields)
    → s.tables ≡ scope ∷ []
    → record_event compliance_scope_projectors "compliance_scope" c scope.id none
        (scope_revised f)
        s
      ≡ ok s'
    → (s'.tables
        ≡ revised_row f
            (recorded_event "compliance_scope" c scope.id none (scope_revised f) s)
            scope
          ∷ [])
      × (length s'.events ≡ length s.events + 1)
unfolding compliance_scope_projectors project_revised Table.get Table.modify
next_scope s s' c scope f t h =
    let r =
      record_event-ok compliance_scope_projectors "compliance_scope" c scope.id none
        (scope_revised f) s h in
    (ground (arith, r.tables, t), rw (r.events, length-append s.events) refl)

define-HasOneScope :
    (c : Context) (r : ℕ × ScopeArguments) (s s' : ScopeSession)
    → HasOneScope s
    → define_or_revise_scope c r s ≡ ok s'
    → HasOneScope s'
unfolding define_or_revise_scope get_compliance_scope
define-HasOneScope c (id, a) s s' one h =
    let (k, h) =
      require-eq-ok (not (is_reversed a.audit_period_starts_on a.audit_period_ends_on)) bad_period _
        h in
    let (text, normal, h) = >>=-eq-ok (normalize_categories a.trust_service_categories) _ h in
    let ordered : is_reversed a.audit_period_starts_on a.audit_period_ends_on ≡ false =
      ground (arith, k) in
    let secure = normalize-security a.trust_service_categories text normal in
    elim one [
      | inl (t, e) ↦
          let (t', n) = first_scope s s' c id (fields_of a text) t e (rw t at h) in
          inr (_, t', sym n, (ordered, secure.0, secure.1))
      | inr (scope, t, n, valid) ↦
          let (t', n') = next_scope s s' c scope (fields_of a text) t (rw t at h) in
          inr (_, t', ground (arith, n, n'), (ordered, secure.0, secure.1))
    ]

abbrev pub no_scope : ScopeSession
no_scope = record { events = []; tables = [] }

-- After any declarations from an empty database, accepted or refused, there is no scope and no event,
-- or exactly one scope; its revision is the number of stored events, its audit period does not end
-- before it starts, and its categories begin with security.
pub one_scope :
    (requests : List (Context × (ℕ × ScopeArguments)))
    → HasOneScope (run define_or_revise_scope no_scope requests)
one_scope requests =
    run-keeps define_or_revise_scope HasOneScope
      (λ c r s s' one h. define-HasOneScope c r s s' one h) no_scope requests (inl (refl, refl))

-- Rebuilding the scope after any declarations changes nothing.
pub rebuild_scope_after_run :
    (t : ℕ) (requests : List (Context × (ℕ × ScopeArguments)))
    → IsTicking t requests
    → rebuild_compliance_scope_projection (run define_or_revise_scope no_scope requests)
      ≡ ok (run define_or_revise_scope no_scope requests)
unfolding rebuild_compliance_scope_projection reset_compliance_scopes
rebuild_scope_after_run t requests ticking =
    rebuild-run compliance_scope_projectors "compliance_scope" [] define_or_revise_scope
      define-Effect reset_compliance_scopes t requests ticking refl
