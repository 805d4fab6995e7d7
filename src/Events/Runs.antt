-- ===== src/Events/Runs.antt =====
-- Runs of requests that each record at most one event, and the rebuild after them.
use minigrc.Events.{rebuild_projection, record_event, Projectors, Session, Context}
use minigrc.Prelude.{
  ◌+◌, ◌≤◌, ◌≡◌, ◌∷◌, Result, ok, committed, Result-cases, String, subst, inl, inr, Option, List,
  [], arith, ℕ,
}
use minigrc.Events.Record.{record_event-IsProjected}
use minigrc.Events.Replay.{
  IsProjected, IsProjected-empty, IsPast, IsPast-mono, rebuild_projection-IsProjected,
}

module _ {P S : Type 0} (projectors : Projectors P S) (type : String) (c : Context) where
  -- what an accepted command did: nothing, or one event
  pub data Effect : Session P S → Session P S → Type 0 where
    no_event : {s s' : Session P S} → s ≡ s' → Effect s s'
    one_event :
        {s s' : Session P S} (id : ℕ) (at : Option ℕ) (payload : P)
        → record_event projectors type c id at payload s ≡ ok s'
        → Effect s s'

module _ {P S C : Type 0} (execute : Context → C → Session P S → Result (Session P S)) where
  -- One request (app/deps.py, `get_db`): what raises is rolled back.
  unfoldable pub request : Session P S → Context × C → Session P S
  request s (c, cmd) = committed s (execute c cmd s)

  unfoldable pub run : Session P S → List (Context × C) → Session P S
  run s [] = s
  run s (r ∷ rest) = run (request s r) rest

  -- what one request keeps, a run keeps
  pub run-keeps {ℓ} :
      (Q : Session P S → Type ℓ)
      (kept : (c : Context) (cmd : C) (s s' : Session P S) → Q s → execute c cmd s ≡ ok s' → Q s')
      (s : Session P S) (requests : List (Context × C))
      → Q s
      → Q (run s requests)
  unfolding run request
  run-keeps Q kept s [] q = q
  run-keeps Q kept s ((c, cmd) ∷ rest) q =
      run-keeps Q kept (request s (c, cmd)) rest (elim (Result-cases (execute c cmd s)) [
        | inl (reason, p) ↦ rw p q
        | inr (s', p) ↦ rw p (kept c cmd s s' q p)
      ])

-- the clock of each request has moved on since the one before it
abbrev pub IsTicking : {C : Type 0} → ℕ → List (Context × C) → Type 0
IsTicking t [] = Unit
IsTicking t ((c, cmd) ∷ rest) = (t ≤ c.now) × IsTicking (c.now + 1) rest

module _ {P S C : Type 0} (execute : Context → C → Session P S → Result (Session P S)) where
  -- what each request keeps of a session whose events are all past, a run with a ticking clock keeps
  pub run-ticks {ℓ} :
      (Q : Session P S → Type ℓ)
      (kept : (c : Context) (cmd : C) (s s' : Session P S)
        → IsPast c.now s.events
        → Q s
        → execute c cmd s ≡ ok s'
        → Q s' × IsPast (c.now + 1) s'.events)
      (t : ℕ) (s : Session P S) (requests : List (Context × C))
      → IsTicking t requests
      → IsPast t s.events
      → Q s
      → Q (run execute s requests)
  unfolding run request
  run-ticks Q kept t s [] ticking past q = q
  run-ticks Q kept t s ((c, cmd) ∷ rest) ticking past q =
      let now_past : IsPast c.now s.events = IsPast-mono t c.now s.events ticking.0 past in
      elim (Result-cases (execute c cmd s)) [
        | inl (reason, p) ↦ rw p (
            run-ticks Q kept (c.now + 1) s rest ticking.1
              (IsPast-mono c.now (c.now + 1) s.events (omega arith) now_past) q)
        | inr (s', p) ↦
            let (w, later) = kept c cmd s s' now_past q p in
            rw p (run-ticks Q kept (c.now + 1) s' rest ticking.1 later w)
      ]

module _ {P S : Type 0} (projectors : Projectors P S) (type : String) (initial : S) where
  pub Effect-IsProjected :
      (c : Context) (s s' : Session P S)
      → IsPast c.now s.events
      → IsProjected projectors type initial s
      → Effect projectors type c s s'
      → IsProjected projectors type initial s' × IsPast (c.now + 1) s'.events
  Effect-IsProjected c s s' past v (no_event same) =
      subst (λ x. IsProjected projectors type initial x × IsPast (c.now + 1) x.events) same
        (v, IsPast-mono c.now (c.now + 1) s.events (omega arith) past)
  Effect-IsProjected c s s' past v (one_event id at payload r) =
      record_event-IsProjected projectors type c id at payload s initial past v r

module _ {P S C : Type 0} (projectors : Projectors P S) (type : String) (initial : S)
    (execute : Context → C → Session P S → Result (Session P S))
    (effect : (c : Context) (cmd : C) (s s' : Session P S)
      → execute c cmd s ≡ ok s'
      → Effect projectors type c s s') where
  abbrev pub empty_session : Session P S
  empty_session = record { events = []; tables = initial }

  abbrev Projected : Session P S → Type 0
  Projected = IsProjected projectors type initial

  run-IsProjected :
      (t : ℕ) (s : Session P S) (requests : List (Context × C))
      → IsTicking t requests
      → IsPast t s.events
      → Projected s
      → Projected (run execute s requests)
  run-IsProjected = run-ticks execute Projected λ c cmd s s' past v h.
      Effect-IsProjected projectors type initial c s s' past v (effect c cmd s s' h)

  -- after a run from the empty tables, the rebuild changes nothing
  pub rebuild-run :
      (reset : S → S) (t : ℕ) (requests : List (Context × C))
      → IsTicking t requests
      → reset (run execute empty_session requests).tables ≡ initial
      → rebuild_projection projectors type reset (run execute empty_session requests)
        ≡ ok (run execute empty_session requests)
  rebuild-run reset t requests ticking r =
      rebuild_projection-IsProjected projectors type initial reset
        (run execute empty_session requests)
        (run-IsProjected t empty_session requests ticking tt
          (IsProjected-empty projectors type initial))
        r
