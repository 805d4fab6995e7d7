-- ===== src/Events/Replay.antt =====
-- `rebuild_projection` gives back the tables that the commands left, event by event.
use minigrc.Events.Gapless.{appended_alone, append_alone}
use minigrc.Events.Contention.{find-no_key, numbered}
use minigrc.Events.{
  project_if_created, rebuild_projection, append_and_project, Session, project_event,
  insert_in_order, replay, of_type, precedes, in_order, DomainEvent, Projectors,
}
use minigrc.Prelude.{
  ◌≤◌, ◌>>=◌, sym, >>=-eq-ok, >>=-ok, none, ◌∙◌, ◌++◌, ◌<◌, ◌≡◌, ◌∷◌, Bool-cases, str_eq, All,
  All-append, ok, ℕ, String, refl, ap, inl, inr, true, List, [], arith, eq_iff,
}

module _ {P : Type 0} where
  -- the rows of the table, each before all that follow it in the order of a rebuild
  abbrev pub IsInOrder : List (DomainEvent P) → Type 0
  IsInOrder [] = Unit
  IsInOrder (e ∷ es) = All (λ x. precedes e x ≡ true) es × IsInOrder es

  insert_in_order-first :
      (e : DomainEvent P) (es : List (DomainEvent P))
      → All (λ x. precedes e x ≡ true) es
      → insert_in_order e es ≡ e ∷ es
  unfolding insert_in_order
  insert_in_order-first e [] h = refl
  insert_in_order-first e (x ∷ es) h = rw h.0

  in_order-IsInOrder : (es : List (DomainEvent P)) → IsInOrder es → in_order es ≡ es
  unfolding in_order
  in_order-IsInOrder [] h = refl
  in_order-IsInOrder (e ∷ es) h =
      ap (insert_in_order e) (in_order-IsInOrder es h.1) ∙ insert_in_order-first e es h.0

  precedes-later : (e c : DomainEvent P) → e.recorded_at < c.recorded_at → precedes e c ≡ true
  unfolding precedes
  precedes-later e c h = ground arith

  pub IsInOrder-append :
      (es : List (DomainEvent P)) (c : DomainEvent P)
      → IsInOrder es
      → All (λ x. precedes x c ≡ true) es
      → IsInOrder (es ++ c ∷ [])
  IsInOrder-append [] c h k = (tt, tt)
  IsInOrder-append (e ∷ es) c h k = (
    All-append (λ x. precedes e x ≡ true) es (c ∷ []) h.0 (k.0, tt),
    IsInOrder-append es c h.1 k.1,
  )

  -- every event was recorded before `now`
  abbrev pub IsPast : ℕ → List (DomainEvent P) → Type 0
  IsPast now es = All (λ x. x.recorded_at < now) es

  pub past-precedes :
      (c : DomainEvent P) (es : List (DomainEvent P))
      → IsPast c.recorded_at es
      → All (λ x. precedes x c ≡ true) es
  past-precedes c [] h = tt
  past-precedes c (x ∷ es) h = (precedes-later x c h.0, past-precedes c es h.1)

  pub of_type-IsPast :
      (type : String) (now : ℕ) (es : List (DomainEvent P))
      → IsPast now es
      → IsPast now (of_type type es)
  unfolding of_type
  of_type-IsPast type now [] h = tt
  of_type-IsPast type now (x ∷ es) h = elim (Bool-cases (str_eq x.aggregate_type type)) [
    | inl p ↦ rw p (h.0, of_type-IsPast type now es h.1)
    | inr p ↦ rw p (of_type-IsPast type now es h.1)
  ]

  pub of_type-append :
      (type : String) (es : List (DomainEvent P)) (c : DomainEvent P)
      → c.aggregate_type ≡ type
      → of_type type (es ++ c ∷ []) ≡ of_type type es ++ c ∷ []
  unfolding of_type
  of_type-append type [] c h = ground (arith, eq_iff c.aggregate_type type)
  of_type-append type (x ∷ es) c h = ground (arith, of_type-append type es c h)

module _ {P S : Type 0} (projectors : Projectors P S) where
  unwrap : {a b : S} → ok a ≡ ok b → a ≡ b
  unwrap h = cc

  pub replay-append :
      (tables : S) (es : List (DomainEvent P)) (c : DomainEvent P) (tables' : S)
      → replay projectors tables es ≡ ok tables'
      → replay projectors tables (es ++ c ∷ []) ≡ project_event projectors tables' c
  unfolding replay
  replay-append tables [] c tables' h =
      >>=-ok (project_event projectors tables c) ∙ ap (λ t. project_event projectors t c) (unwrap h)
  replay-append tables (x ∷ es) c tables' h =
      let (t, p, q) =
        >>=-eq-ok (project_event projectors tables x) (λ t. replay projectors t es) h in
      rw p (replay-append t es c tables' q)

module _ {P S : Type 0} where
  -- what an undisturbed append and its projector leave, from the tables that the projector made
  abbrev pub finish : Session P S → DomainEvent P → S → Session P S × DomainEvent P
  finish s draft tables =
      let e = numbered draft s.events in
      (record { events = s.events ++ e ∷ []; tables = tables }, e)

  pub append_and_project-alone :
      (projectors : Projectors P S) (draft : DomainEvent P) (s : Session P S)
      → draft.idempotency_key ≡ none
      → append_and_project projectors draft [] s ≡ (
          project_event projectors s.tables (numbered draft s.events) >>= λ tables.
          ok (finish s draft tables))
  unfolding append_and_project project_if_created
  append_and_project-alone projectors draft s k =
      rw (append_alone draft s.events)
        (rw (find-no_key draft.idempotency_key s.events k, appended_alone) refl)

  pub append_and_project-created :
      (projectors : Projectors P S) (draft : DomainEvent P) (s : Session P S) {s' : Session P S}
      {e : DomainEvent P}
      → draft.idempotency_key ≡ none
      → append_and_project projectors draft [] s ≡ ok (s', e)
      → (numbered draft s.events ≡ e)
        × (s'.events ≡ s.events ++ e ∷ [])
        × (project_event projectors s.tables e ≡ ok s'.tables)
  append_and_project-created projectors draft s {s'} {e} k h =
      let (t, p, q) =
        >>=-eq-ok (project_event projectors s.tables (numbered draft s.events))
          (λ t. ok (finish s draft t)) (sym (append_and_project-alone projectors draft s k) ∙ h) in
      (cc, cc, cc)

module _ {P S : Type 0} (projectors : Projectors P S) (type : String) (initial : S) where
  -- The tables are what the events of the type make of the initial ones, and these events stand in
  -- the order in which a rebuild replays them.
  pub record IsProjected (s : Session P S) : Type 0 where
    pub projected : replay projectors initial (of_type type s.events) ≡ ok s.tables
    pub ordered : IsInOrder (of_type type s.events)

  -- An event of the type, recorded after all others, keeps the tables projected.
  pub append_and_project-IsProjected :
      (draft : DomainEvent P) (s : Session P S) {s' : Session P S} {e : DomainEvent P}
      → draft.idempotency_key ≡ none
      → draft.aggregate_type ≡ type
      → IsPast draft.recorded_at s.events
      → IsProjected s
      → append_and_project projectors draft [] s ≡ ok (s', e)
      → IsProjected s'
  append_and_project-IsProjected draft s {s'} {e} k t past v h =
      let (n, events, tables) = append_and_project-created projectors draft s k h in
      let type_of : e.aggregate_type ≡ type = rw (← n) t in
      let split : of_type type s'.events ≡ of_type type s.events ++ e ∷ [] =
        rw events (of_type-append type s.events e type_of) in
      record {
        projected = rw split (
            replay-append projectors initial (of_type type s.events) e s.tables v.projected
            ∙ tables);
        ordered = rw split (
            IsInOrder-append (of_type type s.events) e v.ordered (
              past-precedes e (of_type type s.events)
                (of_type-IsPast type e.recorded_at s.events (rw (← n) past))));
      }

  -- Rebuilding is the identity on a session whose tables are projected: wiping the tables and
  -- replaying all events of the type, sorted as the query sorts them, gives the same tables.
  pub rebuild_projection-IsProjected :
      (reset : S → S) (s : Session P S)
      → IsProjected s
      → reset s.tables ≡ initial
      → rebuild_projection projectors type reset s ≡ ok s
  unfolding rebuild_projection
  rebuild_projection-IsProjected reset s v r =
      rw (r, in_order-IsInOrder (of_type type s.events) v.ordered, v.projected)

module _ {P : Type 0} where
  pub IsPast-mono : (t u : ℕ) (es : List (DomainEvent P)) → t ≤ u → IsPast t es → IsPast u es
  IsPast-mono t u [] h p = tt
  IsPast-mono t u (e ∷ es) h p = (omega arith, IsPast-mono t u es h p.1)

pub IsProjected-empty :
    {P S : Type 0} (projectors : Projectors P S) (type : String) (initial : S)
    → IsProjected projectors type initial (record { events = []; tables = initial })
unfolding of_type replay
IsProjected-empty projectors type initial = record { projected = refl; ordered = tt }
