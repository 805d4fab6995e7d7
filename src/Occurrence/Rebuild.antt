-- ===== src/Occurrence/Rebuild.antt =====
-- Runs of requests on occurrences, and `rebuild_control_occurrence_projection` after them.
use minigrc.Occurrence.Stamp.{stamp-projectors, stamp}
use minigrc.Events.Stamped.{
  append_and_project-stamped, rebuild-stamped, record_event-stamped, stamped,
}
use minigrc.Occurrence.Projection.{OccurrenceEvent}
use minigrc.Prelude.{
  ℕ, ◌+◌, ◌≤◌, String, List, [], ◌∷◌, Option, none, some, not, ◌||◌, ◌==◌, ◌≡◌, refl, inl, inr,
  Bool-cases, Option-cases, Result-cases, subst, Result, ok, err, >>=-eq-ok, require-eq-ok,
  committed, not_found, inactive_period, arith, ◌>>=◌,
}
use minigrc.Events.{record_event, Context, append_and_project, draft_event}
use minigrc.Events.Record.{record_event-IsProjected}
use minigrc.Events.Keyed.{keyed-IsProjected}
use minigrc.Events.Replay.{IsProjected, IsProjected-empty, IsPast, IsPast-mono}
use minigrc.Occurrence.Dates.{Date, Moment}
use minigrc.Occurrence.{
  ControlOccurrence, OccurrenceSession, Occurrences, get_occurrence, control_occurrence_projectors,
  reset_control_occurrences, rebuild_control_occurrence_projection, record_occurrence_manually,
  perform_occurrence, link_evidence, link_evidence_artifact_version,
}
use minigrc.Occurrence.Generate.{
  InternalControl, ControlPeriod, Fresh, compute_due_dates, idempotency_key_of,
  materialization_draft, materialize, is_calendar, is_inactive, period_id_of, generate_for,
  generate_occurrences,
}

-- the requests that write occurrence events; an occurrence is loaded before it is changed
pub data OccurrenceCommand : Type 0 where
  generate : (ℕ → Fresh) → Date → InternalControl → Option ControlPeriod → ℕ → OccurrenceCommand
  record_manually :
      Context → ℕ → ℕ → Option ℕ → Option Moment → String → Option ℕ → OccurrenceCommand
  perform : Context → ℕ → ℕ → Option ℕ → String → String → OccurrenceCommand
  link_snapshot : Context → ℕ → ℕ → OccurrenceCommand
  link_artifact : Context → ℕ → ℕ → OccurrenceCommand

abbrev pub with_occurrence :
    ℕ
    → (ControlOccurrence → OccurrenceSession → Result OccurrenceSession)
    → OccurrenceSession
    → Result OccurrenceSession
with_occurrence id f s = elim (get_occurrence id s.tables) [ none ↦ err not_found | some o ↦ f o s ]

module _ (spell : ℕ → String) where
  unfoldable pub execute : OccurrenceCommand → OccurrenceSession → Result OccurrenceSession
  execute (generate fresh today control period horizon) s =
      generate_occurrences spell fresh today control period horizon s >>= λ left. ok left.0
  execute (record_manually c id control period due_at note version) s =
      record_occurrence_manually c id control period due_at note version s
  execute (perform c id at person scope_note evidence_note) s =
      with_occurrence id (λ o. perform_occurrence c o at person scope_note evidence_note) s
  execute (link_snapshot c id snapshot) s = with_occurrence id (λ o. link_evidence c o snapshot) s
  execute (link_artifact c id version) s =
      with_occurrence id (λ o. link_evidence_artifact_version c o version) s

  -- One request (app/deps.py, `get_db`): what raises is rolled back.
  unfoldable pub request : OccurrenceSession → OccurrenceCommand → OccurrenceSession
  request s cmd = committed s (execute cmd s)

  unfoldable pub run : OccurrenceSession → List OccurrenceCommand → OccurrenceSession
  run s [] = s
  run s (cmd ∷ rest) = run (request s cmd) rest

  -- the clock of the command is past all stored events, and moves on between its own
  abbrev pub IsReady : OccurrenceCommand → OccurrenceSession → Type 0
  IsReady (generate fresh today control period horizon) s =
      IsPast (fresh 0).context.now s.events
      × ((n : ℕ) → (fresh n).context.now + 1 ≤ (fresh (n + 1)).context.now)
  IsReady (record_manually c id control period due_at note version) s = IsPast c.now s.events
  IsReady (perform c id at person scope_note evidence_note) s = IsPast c.now s.events
  IsReady (link_snapshot c id snapshot) s = IsPast c.now s.events
  IsReady (link_artifact c id version) s = IsPast c.now s.events

  abbrev pub IsTicking : OccurrenceSession → List OccurrenceCommand → Type 0
  IsTicking s [] = Unit
  IsTicking s (cmd ∷ rest) = IsReady cmd s × IsTicking (request s cmd) rest

abbrev pub no_occurrences : Occurrences
no_occurrences = record { occurrences = []; evidence = []; artifacts = [] }

abbrev pub empty_session : OccurrenceSession
empty_session = record { events = []; tables = no_occurrences }

-- the tables, but for the times of their links, are what a replay at time `r` makes
abbrev OccurrencesProjected : ℕ → OccurrenceSession → Type 0
OccurrencesProjected r s =
    IsProjected (control_occurrence_projectors r) "control_occurrence" no_occurrences
      (stamped (stamp r) s)

module _ (r : ℕ) (spell : ℕ → String) (fresh : ℕ → Fresh) (control : InternalControl) (interval : ℕ)
    (period_id : Option ℕ)
    (ticks : (n : ℕ) → (fresh n).context.now + 1 ≤ (fresh (n + 1)).context.now) where
  materialize-IsProjected :
      (n : ℕ) (dates : List Date) (s s' : OccurrenceSession) (os : List (Option ControlOccurrence))
      → IsPast (fresh n).context.now s.events
      → OccurrencesProjected r s
      → materialize spell fresh control interval period_id n dates s ≡ ok (s', os)
      → OccurrencesProjected r s'
  unfolding materialize draft_event
  materialize-IsProjected n [] s s' os past v h =
      let same : s ≡ s' = ground (arith, h) in subst (OccurrencesProjected r) same v
  materialize-IsProjected n (date ∷ dates) s s' os past v h =
      let draft = materialization_draft spell control interval period_id (fresh n) date in
      let ((s1, e), appended, h) =
        >>=-eq-ok
          (append_and_project (control_occurrence_projectors (fresh n).context.now) draft [] s) _
          h in
      let ((s2, rest), later, left) =
        >>=-eq-ok (materialize spell fresh control interval period_id (n + 1) dates s1) _ h in
      let same : s2 ≡ s' = ground (arith, left) in
      let (v1, past1) =
        keyed-IsProjected (control_occurrence_projectors r) "control_occurrence" no_occurrences
          draft (idempotency_key_of spell control.id period_id date) (stamped (stamp r) s)
          (stamped (stamp r) s1) e refl refl past v
          (append_and_project-stamped control_occurrence_projectors (stamp r) r (stamp-projectors r)
            (fresh n).context.now draft s s1 e appended) in
      let past2 =
        IsPast-mono ((fresh n).context.now + 1) (fresh (n + 1)).context.now s1.events (ticks n)
          past1 in
      subst (OccurrencesProjected r) same
        (materialize-IsProjected (n + 1) dates s1 s2 rest past2 v1 later)

module _ (r : ℕ) (spell : ℕ → String) where
  generated-IsProjected :
      (fresh : ℕ → Fresh) (today : Date) (control : InternalControl) (period : Option ControlPeriod)
      (horizon : ℕ) (s : OccurrenceSession)
      (left : OccurrenceSession × List (Option ControlOccurrence))
      → IsReady spell (generate fresh today control period horizon) s
      → OccurrencesProjected r s
      → generate_occurrences spell fresh today control period horizon s ≡ ok left
      → OccurrencesProjected r left.0
  unfolding generate_occurrences generate_for
  generated-IsProjected fresh today control period horizon s (s', os) ready v h =
      elim (Option-cases control.cadence_interval_months) [
        | inl p ↦ let same : s ≡ s' = ground (arith, h, p) in subst (OccurrencesProjected r) same v
        | inr (interval, p) ↦
            elim (Bool-cases (not (is_calendar control.cadence_type) || interval == 0)) [
              | inl q ↦
                  let same : s ≡ s' = ground (arith, h, p, q) in
                  subst (OccurrencesProjected r) same v
              | inr q ↦
                  let (active, h) =
                    require-eq-ok (not (is_inactive period)) inactive_period _
                      (rw (p, q, generate_occurrences) at h) in
                  let (dates, computed, made) =
                    >>=-eq-ok
                      (compute_due_dates today control.id interval period horizon
                        s.tables.occurrences)
                      _ h in
                  materialize-IsProjected r spell fresh control interval (period_id_of period)
                    ready.1 0 dates s s' os ready.0 v made
            ]
      ]

  loaded :
      (id : ℕ) (f : ControlOccurrence → OccurrenceSession → Result OccurrenceSession)
      (s s' : OccurrenceSession)
      → with_occurrence id f s ≡ ok s'
      → (o : ControlOccurrence) × (f o s ≡ ok s')
  loaded id f s s' h = elim (Option-cases (get_occurrence id s.tables)) [
    | inl p ↦ absurd (ground (arith, h, p))
    | inr (o, p) ↦ (o, ground (arith, h, p))
  ]

  recorded-IsProjected :
      (c : Context) (id : ℕ) (at : Option ℕ) (payload : OccurrenceEvent) (s s' : OccurrenceSession)
      → IsPast c.now s.events
      → OccurrencesProjected r s
      → record_event (control_occurrence_projectors c.now) "control_occurrence" c id at payload s
        ≡ ok s'
      → OccurrencesProjected r s'
  recorded-IsProjected c id at payload s s' past v h =
      (record_event-IsProjected (control_occurrence_projectors r) "control_occurrence" c id at
        payload (stamped (stamp r) s) no_occurrences past v
        (record_event-stamped control_occurrence_projectors (stamp r) r (stamp-projectors r) c.now
          "control_occurrence" c id at payload s s' h)).0

  execute-IsProjected :
      (cmd : OccurrenceCommand) (s s' : OccurrenceSession)
      → IsReady spell cmd s
      → OccurrencesProjected r s
      → execute spell cmd s ≡ ok s'
      → OccurrencesProjected r s'
  unfolding execute record_occurrence_manually perform_occurrence link_evidence
      link_evidence_artifact_version
  execute-IsProjected (generate fresh today control period horizon) s s' ready v h =
      let (left, made, e) =
        >>=-eq-ok (generate_occurrences spell fresh today control period horizon s) _ h in
      let same : left.0 ≡ s' = ground (arith, e) in
      subst (OccurrencesProjected r) same
        (generated-IsProjected fresh today control period horizon s left ready v made)
  execute-IsProjected (record_manually c id control period due_at note version) s s' past v h =
      recorded-IsProjected c id none _ s s' past v h
  execute-IsProjected (perform c id at person scope_note evidence_note) s s' past v h =
      let (o, e) =
        loaded id (λ o. perform_occurrence c o at person scope_note evidence_note) s s' h in
      recorded-IsProjected c o.id (some at) _ s s' past v e
  execute-IsProjected (link_snapshot c id snapshot) s s' past v h =
      let (o, e) = loaded id (λ o. link_evidence c o snapshot) s s' h in
      recorded-IsProjected c o.id none _ s s' past v e
  execute-IsProjected (link_artifact c id version) s s' past v h =
      let (o, e) = loaded id (λ o. link_evidence_artifact_version c o version) s s' h in
      recorded-IsProjected c o.id none _ s s' past v e

  run-IsProjected :
      (s : OccurrenceSession) (commands : List OccurrenceCommand)
      → IsTicking spell s commands
      → OccurrencesProjected r s
      → OccurrencesProjected r (run spell s commands)
  unfolding run request
  run-IsProjected s [] ticking v = v
  run-IsProjected s (cmd ∷ rest) ticking v =
      run-IsProjected (request spell s cmd) rest ticking.1
        (elim (Result-cases (execute spell cmd s)) [
          | inl (reason, p) ↦ rw p v
          | inr (s', p) ↦ rw p (execute-IsProjected cmd s s' ticking.0 v p)
        ])

  -- Rebuilding the occurrences and their links of evidence restores them: after any requests from an
  -- empty database (generation by schedule, with or without a period, records by hand, claims of
  -- performance and links), accepted or refused, with a clock that moves on between events, wiping the
  -- tables and replaying the stored events at time `r` gives what the requests left, but for
  -- `created_at` of the links, which is `r` on each of them. (The ids of links, which the database draws
  -- anew, are not modelled.)
  pub rebuild_occurrences_after_run :
      (commands : List OccurrenceCommand)
      → IsTicking spell empty_session commands
      → rebuild_control_occurrence_projection r (run spell empty_session commands)
        ≡ ok (stamped (stamp r) (run spell empty_session commands))
  unfolding rebuild_control_occurrence_projection
  rebuild_occurrences_after_run commands ticking =
      rebuild-stamped control_occurrence_projectors (stamp r) r (stamp-projectors r)
        "control_occurrence" no_occurrences reset_control_occurrences
        (run spell empty_session commands)
        (run-IsProjected empty_session commands ticking
          (IsProjected-empty (control_occurrence_projectors r) "control_occurrence" no_occurrences))
        (unfold reset_control_occurrences in refl) (unfold reset_control_occurrences in refl)
