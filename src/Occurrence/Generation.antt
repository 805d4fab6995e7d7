-- ===== src/Occurrence/Generation.antt =====
-- Generating the occurrences of a period again changes nothing.
use minigrc.Occurrence.Projection.{same_due, both_due, same_period}
use minigrc.Prelude.Table
use minigrc.Events.{
  DomainEvent, append_and_project, project_event, find_by_idempotency_key, draft_event,
}
use minigrc.Events.Keyed.{
  find-append, find-append_last, keyed_again, append-created, append-IsKeyed,
}
use minigrc.Prelude.{
  any, ℕ, ◌+◌, String, List, [], ◌∷◌, ◌++◌, Option, none, some, Bool, true, false, not, ◌||◌, ◌&&◌,
  ◌==◌, ◌≡◌, ◌⊎◌, inl, inr, refl, sym, subst, ◌∙◌, eq_refl, Bool-cases, Option-cases, ok, err,
  >>=-eq-ok, require-eq-ok, inactive_period, integrity_error, arith,
}
use minigrc.Occurrence.Dates.{Date, due_dates, due_at_for_date}
use minigrc.Occurrence.{
  ControlOccurrence, OccurrenceEvent, OccurrenceSession, Occurrences, get_occurrence, occurrence_id,
  collides, insert_occurrence, project_materialized, control_occurrence_projectors,
}
use minigrc.Occurrence.Generate.{
  InternalControl, ControlPeriod, Fresh, compute_due_dates, idempotency_key_of,
  materialization_draft, materialize, is_calendar, is_inactive, generate_for, generate_occurrences,
}

-- keys stay used by their events, and rows stay as they are
abbrev Extends : OccurrenceSession → OccurrenceSession → Type 0
Extends s s' =
    ((k : String) (e : DomainEvent OccurrenceEvent)
      → find_by_idempotency_key (some k) s.events ≡ some e
      → find_by_idempotency_key (some k) s'.events ≡ some e)
    × ((i : ℕ) (o : ControlOccurrence)
        → get_occurrence i s.tables ≡ some o
        → get_occurrence i s'.tables ≡ some o)

inserted-keeps :
    (o : ControlOccurrence) (t t' : Occurrences)
    → insert_occurrence o t ≡ ok t'
    → (i : ℕ) (p : ControlOccurrence) → get_occurrence i t ≡ some p
    → get_occurrence i t' ≡ some p
unfolding insert_occurrence get_occurrence
inserted-keeps o t t' h i p found = elim (Bool-cases (collides o t.occurrences)) [
  | inl c ↦ absurd (ground (arith, h, c))
  | inr c ↦
      let (rows, added, left) =
        >>=-eq-ok (Table.insert occurrence_id o t.occurrences) _ (rw (c, insert_occurrence) at h) in
      let (unused, appended) = Table.insert-ok occurrence_id o t.occurrences added in
      let rows_of : t'.occurrences ≡ t.occurrences ++ o ∷ [] = ground (arith, left, appended) in
      rw (rows_of, Table.get-append occurrence_id i t.occurrences o, found) refl
]

module _ (spell : ℕ → String) (control_id : ℕ) (period_id : Option ℕ) where
  abbrev key : Date → String
  key date = idempotency_key_of spell control_id period_id date

  -- every date's key is used by an event, whose occurrence is the one that was returned, if one was
  abbrev IsKnown : OccurrenceSession → List Date → List (Option ControlOccurrence) → Type 0
  IsKnown s [] [] = Unit
  IsKnown s (date ∷ dates) (o ∷ os) =
      ((e : DomainEvent OccurrenceEvent) × (find_by_idempotency_key (some (key date)) s.events
          ≡ some e)
        × ((o ≡ none) ⊎ (get_occurrence e.aggregate_id s.tables ≡ o)))
      × IsKnown s dates os
  IsKnown s _ _ = ⊥

module _ (spell : ℕ → String) (fresh : ℕ → Fresh) (control : InternalControl) (interval : ℕ)
    (period_id : Option ℕ) where
  step-Extends :
      (f : Fresh) (date : Date) (s s' : OccurrenceSession) (e : DomainEvent OccurrenceEvent)
      → append_and_project
          (control_occurrence_projectors f.context.now)
          (materialization_draft spell control interval period_id f date)
          []
          s
        ≡ ok (s', e)
      → Extends s s'
        × (find_by_idempotency_key (some (key spell control.id period_id date)) s'.events ≡ some e)
  unfolding project_event control_occurrence_projectors project_materialized draft_event
  step-Extends f date s s' e h =
      let draft = materialization_draft spell control interval period_id f date in
      elim (append-IsKeyed (control_occurrence_projectors f.context.now) draft
        (key spell control.id period_id date) s s' e refl h) [
          | inl (found, same) ↦ rw same (((λ k x p. p), (λ i o p. p)), found)
          | inr (new, is_numbered, events, tables) ↦
              let own : e.idempotency_key ≡ some (key spell control.id period_id date) =
                rw is_numbered refl in
              let inserted = rw is_numbered at tables in
              (
                (
                  (λ k x p. rw events (find-append k s.events (e ∷ []) x p)),
                  inserted-keeps _ s.tables s'.tables inserted,
                ),
                rw events
                    (find-append_last (key spell control.id period_id date) s.events e new own),
              )
        ]

  still :
      (i : ℕ) (s s' : OccurrenceSession)
      → ((o : ControlOccurrence)
          → get_occurrence i s.tables ≡ some o
          → get_occurrence i s'.tables ≡ some o)
      → (get_occurrence i s.tables ≡ none)
        ⊎ (get_occurrence i s'.tables ≡ get_occurrence i s.tables)
  still i s s' stays = elim (Option-cases (get_occurrence i s.tables)) [
    | inl p ↦ inl p
    | inr (o, p) ↦ inr (stays o p ∙ sym p)
  ]

  materialized-IsKnown :
      (n : ℕ) (dates : List Date) (s s' : OccurrenceSession) (os : List (Option ControlOccurrence))
      → materialize spell fresh control interval period_id n dates s ≡ ok (s', os)
      → Extends s s' × IsKnown spell control.id period_id s' dates os
  unfolding materialize
  materialized-IsKnown n [] s s' os h =
      let same : ◌≡◌ {A = OccurrenceSession × List (Option ControlOccurrence)} (s, []) (s', os) =
        cc in
      subst (λ x. Extends s x.0 × IsKnown spell control.id period_id x.0 [] x.1) same
        (((λ k x p. p), (λ i o p. p)), tt)
  materialized-IsKnown n (date ∷ dates) s s' os h =
      let ((s1, e), appended, h) =
        >>=-eq-ok
          (append_and_project (control_occurrence_projectors (fresh n).context.now)
            (materialization_draft spell control interval period_id (fresh n) date) [] s)
          _ h in
      let ((s2, rest), later, left) =
        >>=-eq-ok (materialize spell fresh control interval period_id (n + 1) dates s1) _ h in
      let ((keys, rows), found) = step-Extends (fresh n) date s s1 e appended in
      let ((keys', rows'), known) = materialized-IsKnown (n + 1) dates s1 s2 rest later in
      let same : ◌≡◌ {A = OccurrenceSession × List (Option ControlOccurrence)}
          (s2, get_occurrence e.aggregate_id s1.tables ∷ rest) (s', os) =
        cc in
      subst (λ x. Extends s x.0 × IsKnown spell control.id period_id x.0 (date ∷ dates) x.1) same
        (
          ((λ k x p. keys' k x (keys k x p)), (λ i o p. rows' i o (rows i o p))),
          (
            (
              e,
              keys' (key spell control.id period_id date) e found,
              still e.aggregate_id s1 s2 (rows' e.aggregate_id),
            ),
            known,
          ),
        )

-- each occurrence of the first list stands in the second, at the same place
pub data AreAgain : List (Option ControlOccurrence) → List (Option ControlOccurrence) → Type 0 where
  no_more : AreAgain [] []
  again :
      {o o' : Option ControlOccurrence} {os os' : List (Option ControlOccurrence)}
      → (o ≡ none) ⊎ (o' ≡ o)
      → AreAgain os os'
      → AreAgain (o ∷ os) (o' ∷ os')

module _ (spell : ℕ → String) (fresh : ℕ → Fresh) (control : InternalControl) (interval : ℕ)
    (period_id : Option ℕ) where
  materialize_again :
      (n : ℕ) (dates : List Date) (s : OccurrenceSession) (os : List (Option ControlOccurrence))
      → IsKnown spell control.id period_id s dates os
      → (os' : List (Option ControlOccurrence)) × (materialize spell fresh control interval
            period_id n dates s
          ≡ ok (s, os'))
        × AreAgain os os'
  unfolding materialize
  materialize_again n [] s [] known = ([], refl, no_more)
  materialize_again n [] s (o ∷ os) known = absurd known
  materialize_again n (date ∷ dates) s [] known = absurd known
  materialize_again n (date ∷ dates) s (o ∷ os) ((e, found, kept), known) =
      let (os', repeated, are) = materialize_again (n + 1) dates s os known in
      let draft = materialization_draft spell control interval period_id (fresh n) date in
      let key' = idempotency_key_of spell control.id period_id date in
      let found' : find_by_idempotency_key (some key') s.events ≡ some e = found in
      let nothing_new =
        keyed_again (control_occurrence_projectors (fresh n).context.now) draft key' s e refl
          found' in
      (
        get_occurrence e.aggregate_id s.tables ∷ os',
        rw nothing_new (rw repeated refl),
        again kept are,
      )

-- whether an occurrence of the control in the period is due at the end of the day
abbrev pub is_due : ℕ → ℕ → Date → List ControlOccurrence → Bool
is_due control period date rows =
    any
      (λ (o : ControlOccurrence).
        control == o.control_id
        && (same_period (some period) o.control_period_id
            && both_due (some (due_at_for_date date)) o.due_at))
      rows

-- the same control, with another owner and another effective version
abbrev pub with_owner_and_version : Option ℕ → Option ℕ → InternalControl → InternalControl
with_owner_and_version owner version control = record control {
  owner_person_id = owner;
  effective_version_id = version;
}

-- If the occurrences of a period were generated for a control, then generating them again changes
-- nothing and returns each of them at its place: with any clock and fresh ids, whoever owns the
-- control by then, and whichever version of its definition is effective.
pub generation_again :
    (spell : ℕ → String) (fresh fresh' : ℕ → Fresh) (today today' : Date)
    (control : InternalControl) (owner version : Option ℕ) (period : ControlPeriod)
    (horizon horizon' : ℕ) (s s' : OccurrenceSession) (os : List (Option ControlOccurrence))
    → generate_occurrences spell fresh today control (some period) horizon s ≡ ok (s', os)
    → (os' : List (Option ControlOccurrence)) × (generate_occurrences spell fresh' today'
          (with_owner_and_version owner version control)
          (some period)
          horizon'
          s'
        ≡ ok (s', os'))
      × AreAgain os os'
unfolding generate_occurrences generate_for compute_due_dates
generation_again spell fresh fresh' today today' control owner version period horizon horizon' s s'
      os h =
    let control' = with_owner_and_version owner version control in
    elim (Option-cases control.cadence_interval_months) [
      | inl p ↦
          let none_made : [] ≡ os = ground (arith, h, p) in
          ([], ground (arith, p), subst (λ x. AreAgain x []) none_made no_more)
      | inr (interval, p) ↦
          elim (Bool-cases (not (is_calendar control.cadence_type) || interval == 0)) [
            | inl q ↦
                let none_made : [] ≡ os = ground (arith, h, p, q) in
                ([], ground (arith, p, q), subst (λ x. AreAgain x []) none_made no_more)
            | inr q ↦
                let (active, h) =
                  require-eq-ok (not (is_inactive (some period))) inactive_period _
                    (rw (p, q, generate_occurrences) at h) in
                let (dates, computed, made) =
                  >>=-eq-ok (due_dates interval period.starts_on period.ends_on) _ h in
                let known =
                  (materialized-IsKnown spell fresh control interval (some period.id) 0 dates s s'
                    os made).1 in
                let (os', repeated, are) =
                  materialize_again spell fresh' control' interval (some period.id) 0 dates s' os
                    known in
                (os', ground (arith, p, q, active, computed, repeated), are)
          ]
    ]

collision-raises :
    (spell : ℕ → String) (f : Fresh) (control : InternalControl) (interval period_id : ℕ)
    (date : Date) (s : OccurrenceSession)
    → find_by_idempotency_key
        (some (idempotency_key_of spell control.id (some period_id) date))
        s.events
      ≡ none
    → is_due control.id period_id date s.tables.occurrences ≡ true
    → append_and_project
        (control_occurrence_projectors f.context.now)
        (materialization_draft spell control interval (some period_id) f date)
        []
        s
      ≡ err integrity_error
unfolding project_event control_occurrence_projectors project_materialized draft_event
    insert_occurrence collides same_due
collision-raises spell f control interval period_id date s new taken =
    let draft = materialization_draft spell control interval (some period_id) f date in
    rw
      (append-created (control_occurrence_projectors f.context.now) draft
        (idempotency_key_of spell control.id (some period_id) date) s new)
      (rw taken refl)

-- If no event has the key of the first due date of a period, but an occurrence of the control in that
-- period is due at the end of that day, such as one recorded by hand, then generating the occurrences
-- of the period raises an integrity error.
pub manual_occurrence_raises :
    (spell : ℕ → String) (fresh : ℕ → Fresh) (today : Date) (control : InternalControl)
    (interval : ℕ) (period : ControlPeriod) (horizon : ℕ) (date : Date) (dates : List Date)
    (s : OccurrenceSession)
    → is_calendar control.cadence_type ≡ true
    → control.cadence_interval_months ≡ some interval
    → (interval == 0) ≡ false
    → period.status ≡ "active"
    → due_dates interval period.starts_on period.ends_on ≡ ok (date ∷ dates)
    → find_by_idempotency_key
        (some (idempotency_key_of spell control.id (some period.id) date))
        s.events
      ≡ none
    → is_due control.id period.id date s.tables.occurrences ≡ true
    → generate_occurrences spell fresh today control (some period) horizon s ≡ err integrity_error
unfolding generate_occurrences generate_for compute_due_dates materialize
manual_occurrence_raises spell fresh today control interval period horizon date dates s calendar
      with_interval positive active computed new taken =
    let refused = collision-raises spell (fresh 0) control interval period.id date s new taken in
    ground
      (arith, calendar, with_interval, positive, active, eq_refl period.status, computed, refused)
