-- ===== src/Events/Record.antt =====
-- One event of a command: what `record_event` leaves, and that it keeps a session projected.
use minigrc.Events.Replay.{
  IsPast-mono, append_and_project-IsProjected, append_and_project-alone, IsProjected,
  append_and_project-created, finish, IsPast,
}
use minigrc.Events.Contention.{numbered}
use minigrc.Prelude.{
  ◌<◌, ◌∷◌, ◌+◌, ◌++◌, ◌≡◌, All-append, key_error, Result, ok, err, >>=-eq-ok, ℕ, String, refl,
  subst, Option, none, some, [], arith,
}
use minigrc.Events.{
  record_event, append_and_project, project_event, Projectors, Session, draft_event, Context,
  DomainEvent,
}

module _ {P S : Type 0} where
  -- the event that a command records
  abbrev pub recorded_event : String → Context → ℕ → Option ℕ → P → Session P S → DomainEvent P
  recorded_event type c id occurred_at payload s =
      numbered (draft_event c type id occurred_at payload) s.events

module _ {P S : Type 0} (projectors : Projectors P S) where
  abbrev pub project_payload : P → S → DomainEvent P → Result S
  project_payload p t e = elim (projectors p) [ none ↦ err key_error | some f ↦ f t e ]

module _ {P S : Type 0} (projectors : Projectors P S) (type : String) (c : Context) (id : ℕ)
    (occurred_at : Option ℕ) (payload : P) (s : Session P S) where
  -- what a command's event leaves: one more row, and what its projector makes of the tables
  pub record IsRecorded (s' : Session P S) : Type 0 where
    pub events : s'.events ≡ s.events ++ recorded_event type c id occurred_at payload s ∷ []
    pub tables :
        project_payload projectors payload s.tables (recorded_event type c id occurred_at payload s)
        ≡ ok s'.tables

  pub record_event-ok :
      {s' : Session P S}
      → record_event projectors type c id occurred_at payload s ≡ ok s'
      → IsRecorded s'
  unfolding record_event draft_event project_event
  record_event-ok h =
      let draft : DomainEvent P = draft_event c type id occurred_at payload in
      let (r, p, q) =
        >>=-eq-ok (append_and_project projectors draft [] s)
          (λ (r : Session P S × DomainEvent P). ok r.0) h in
      let (n, events, tables) = append_and_project-created projectors draft s refl p in
      record { events = cc; tables = cc }

  -- the command succeeds where the projector does
  pub record_event-total :
      (t : S)
      → project_payload projectors payload s.tables (recorded_event type c id occurred_at payload s)
        ≡ ok t
      → record_event projectors type c id occurred_at payload s
        ≡ ok (finish s (draft_event c type id occurred_at payload) t).0
  unfolding record_event draft_event project_event
  record_event-total t p =
      rw (append_and_project-alone projectors (draft_event c type id occurred_at payload) s refl)
        (ground (arith, p))

  pub record_event-IsProjected :
      (initial : S) {s' : Session P S}
      → IsPast c.now s.events
      → IsProjected projectors type initial s
      → record_event projectors type c id occurred_at payload s ≡ ok s'
      → IsProjected projectors type initial s' × IsPast (c.now + 1) s'.events
  unfolding record_event draft_event
  record_event-IsProjected initial {s'} past v h =
      let draft : DomainEvent P = draft_event c type id occurred_at payload in
      let (r, p, q) =
        >>=-eq-ok (append_and_project projectors draft [] s)
          (λ (r : Session P S × DomainEvent P). ok r.0) h in
      let e : r.0 ≡ s' = cc in
      let events = (record_event-ok (unfold record_event in h)).events in
      (
        subst (IsProjected projectors type initial) e
            (append_and_project-IsProjected projectors type initial draft s refl refl past v p),
        rw events (
            All-append (λ x. x.recorded_at < c.now + 1) s.events
              (recorded_event type c id occurred_at payload s ∷ [])
              (IsPast-mono c.now (c.now + 1) s.events (omega arith) past) ((omega arith), tt)),
      )
