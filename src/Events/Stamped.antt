-- ===== src/Events/Stamped.antt =====
-- Projections whose tables have columns that the database fills with the clock of the INSERT
-- (`default=utcnow`), and what a rebuild makes of these columns.
use minigrc.Prelude.{
  ◌≡◌, ap, String, List, [], Bool-cases, inl, inr, >>=-eq-ok, Result, ok, ℕ, arith, Option,
}
use minigrc.Events.{
  append_and_project, project_if_created, project_event, rebuild_projection, record_event, Appended,
  append_event_with_created_flag, draft_event, Projectors, Session, Context, DomainEvent,
}
use minigrc.Events.Record.{project_payload}
use minigrc.Events.Replay.{IsProjected, IsProjected-empty, rebuild_projection-IsProjected}
use minigrc.Events.Runs.{Effect, no_event, one_event, Effect-IsProjected, run, run-ticks, IsTicking}

-- a session with its tables stamped
abbrev pub stamped : {P S : Type 0} → (S → S) → Session P S → Session P S
stamped stamp s = record s { tables = stamp s.tables }

-- `projectors n` are the projectors at the time `n`; `stamp r` sets the columns to the time `r`, and
-- the projectors at `r` do to stamped tables what those at any time do to the tables.
module _ {P S : Type 0} (projectors : ℕ → Projectors P S) (stamp : S → S) (r : ℕ)
    (stamps : (n : ℕ) (p : P) (t t' : S) (e : DomainEvent P)
      → project_payload (projectors n) p t e ≡ ok t'
      → project_payload (projectors r) p (stamp t) e ≡ ok (stamp t')) where
  project_event-stamped :
      (n : ℕ) (t t' : S) (e : DomainEvent P)
      → project_event (projectors n) t e ≡ ok t'
      → project_event (projectors r) (stamp t) e ≡ ok (stamp t')
  unfolding project_event
  project_event-stamped n t t' e h = stamps n e.payload t t' e h

  project_if_created-stamped :
      (n : ℕ) (t : S) (a : Appended P) (s' : Session P S) (e : DomainEvent P)
      → project_if_created (projectors n) t a ≡ ok (s', e)
      → project_if_created (projectors r) (stamp t) a ≡ ok (stamped stamp s', e)
  unfolding project_if_created
  project_if_created-stamped n t a s' e h = elim (Bool-cases a.created) [
    | inr p ↦ ground (arith, p, h)
    | inl p ↦
        let (t', q, left) =
          >>=-eq-ok (project_event (projectors n) t a.event) _ (rw (p, project_if_created) at h) in
        ground (arith, p, project_event-stamped n t t' a.event q, left)
  ]

  pub append_and_project-stamped :
      (n : ℕ) (draft : DomainEvent P) (s s' : Session P S) (e : DomainEvent P)
      → append_and_project (projectors n) draft [] s ≡ ok (s', e)
      → append_and_project (projectors r) draft [] (stamped stamp s) ≡ ok (stamped stamp s', e)
  unfolding append_and_project
  append_and_project-stamped n draft s s' e h =
      let (a, p, q) = >>=-eq-ok (append_event_with_created_flag draft [] s.events) _ h in
      rw p (project_if_created-stamped n s.tables a s' e q)

  pub record_event-stamped :
      (n : ℕ) (type : String) (c : Context) (id : ℕ) (at : Option ℕ) (payload : P)
      (s s' : Session P S)
      → record_event (projectors n) type c id at payload s ≡ ok s'
      → record_event (projectors r) type c id at payload (stamped stamp s) ≡ ok (stamped stamp s')
  unfolding record_event
  record_event-stamped n type c id at payload s s' h =
      let draft : DomainEvent P = draft_event c type id at payload in
      let ((s1, e), p, q) = >>=-eq-ok (append_and_project (projectors n) draft [] s) _ h in
      let same : s1 ≡ s' = ground (arith, q) in
      rw (append_and_project-stamped n draft s s1 e p) (ap (λ x. ok (stamped stamp x)) same)

  Effect-stamped :
      (n : ℕ) (type : String) (c : Context) (s s' : Session P S)
      → Effect (projectors n) type c s s'
      → Effect (projectors r) type c (stamped stamp s) (stamped stamp s')
  Effect-stamped n type c s s' (no_event same) = no_event (ap (stamped stamp) same)
  Effect-stamped n type c s s' (one_event id at payload h) =
      one_event id at payload (record_event-stamped n type c id at payload s s' h)

  module _ (type : String) (initial : S) (reset : S → S) where
    -- the stamped tables are projected, so a rebuild at the time of the stamp gives just them
    pub rebuild-stamped :
        (s : Session P S)
        → IsProjected (projectors r) type initial (stamped stamp s)
        → reset s.tables ≡ initial
        → reset (stamp s.tables) ≡ initial
        → rebuild_projection (projectors r) type reset s ≡ ok (stamped stamp s)
    unfolding rebuild_projection
    rebuild-stamped s v a b =
        let again =
          rebuild_projection-IsProjected (projectors r) type initial reset (stamped stamp s) v b in
        rw a (rw (rebuild_projection, b) at again)

    module _ {C : Type 0} (execute : Context → C → Session P S → Result (Session P S))
        (effect : (c : Context) (cmd : C) (s s' : Session P S)
          → execute c cmd s ≡ ok s'
          → Effect (projectors c.now) type c s s')
        (wipes : (t : S) → reset t ≡ initial) (same : stamp initial ≡ initial) where
      abbrev empty : Session P S
      empty = record { events = []; tables = initial }

      -- a rebuild at time `r` after a run from the empty tables
      pub rebuild-run-stamped :
          (t : ℕ) (requests : List (Context × C))
          → IsTicking t requests
          → rebuild_projection (projectors r) type reset (run execute empty requests)
            ≡ ok (stamped stamp (run execute empty requests))
      rebuild-run-stamped t requests ticking =
          rebuild-stamped (run execute empty requests)
            (run-ticks execute (λ s. IsProjected (projectors r) type initial (stamped stamp s))
              (λ c cmd s s' past v h.
                Effect-IsProjected (projectors r) type initial c (stamped stamp s)
                  (stamped stamp s') past v
                  (Effect-stamped c.now type c s s' (effect c cmd s s' h)))
              t empty requests ticking tt (rw same (IsProjected-empty (projectors r) type initial)))
            (wipes _) (wipes _)
