-- ===== src/Events/Keyed.antt =====
-- Undisturbed appends with idempotency keys, and their projection.
use minigrc.Prelude.{
  ◌+◌, ◌<◌, String, List, [], ◌∷◌, ◌++◌, none, some, ◌≡◌, ◌⊎◌, inl, inr, refl, sym, ◌∙◌, eq_refl,
  Bool-cases, Option-cases, All-append, Result, ok, >>=-eq-ok, arith, ◌>>=◌,
}
use minigrc.Events.{
  Session, DomainEvent, Projectors, append_and_project, project_if_created, project_event,
  find_by_idempotency_key, has_key, of_type,
}
use minigrc.Events.Gapless.{append_alone, appended_alone}
use minigrc.Events.Contention.{numbered}
use minigrc.Events.Replay.{
  IsProjected, IsPast, IsPast-mono, past-precedes, of_type-IsPast, of_type-append, IsInOrder-append,
  replay-append, finish,
}

module _ {P : Type 0} where
  pub find-append :
      (k : String) (rows more : List (DomainEvent P)) (e : DomainEvent P)
      → find_by_idempotency_key (some k) rows ≡ some e
      → find_by_idempotency_key (some k) (rows ++ more) ≡ some e
  unfolding find_by_idempotency_key
  find-append k [] more e h = cc
  find-append k (x ∷ rows) more e h = elim (Bool-cases (has_key k x)) [
    | inl p ↦ ground (arith, h, p)
    | inr p ↦ ground (arith, p, find-append k rows more e (rw (p, find_by_idempotency_key) at h))
  ]

  pub find-append_last :
      (k : String) (rows : List (DomainEvent P)) (e : DomainEvent P)
      → find_by_idempotency_key (some k) rows ≡ none
      → e.idempotency_key ≡ some k
      → find_by_idempotency_key (some k) (rows ++ e ∷ []) ≡ some e
  unfolding find_by_idempotency_key
  find-append_last k [] e h own = ground (arith, own, eq_refl k)
  find-append_last k (x ∷ rows) e h own = elim (Bool-cases (has_key k x)) [
    | inl p ↦ absurd (ground (arith, h, p))
    | inr p ↦
        ground (arith, p, find-append_last k rows e (rw (p, find_by_idempotency_key) at h) own)
  ]

module _ {P S : Type 0} (projectors : Projectors P S) (draft : DomainEvent P) (k : String)
    (s : Session P S) where
  -- a used key gives its event, and nothing is written
  pub keyed_again :
      (e : DomainEvent P)
      → draft.idempotency_key ≡ some k
      → find_by_idempotency_key (some k) s.events ≡ some e
      → append_and_project projectors draft [] s ≡ ok (s, e)
  unfolding append_and_project project_if_created
  keyed_again e own found =
      let found' : find_by_idempotency_key draft.idempotency_key s.events ≡ some e = rw own found in
      rw (append_alone draft s.events) (rw (found', appended_alone) refl)

  -- What an append with a key leaves: what it found under the key, or one more event, projected.
  abbrev pub IsKeyed : Session P S → DomainEvent P → Type 0
  IsKeyed s' e =
      ((find_by_idempotency_key (some k) s.events ≡ some e) × (s' ≡ s))
      ⊎ ((find_by_idempotency_key (some k) s.events ≡ none)
          × (e ≡ numbered draft s.events)
          × (s'.events ≡ s.events ++ e ∷ [])
          × (project_event projectors s.tables e ≡ ok s'.tables))

  pub append-created :
      find_by_idempotency_key draft.idempotency_key s.events ≡ none
      → append_and_project projectors draft [] s ≡ (
          project_event projectors s.tables (numbered draft s.events) >>= λ tables.
          ok (finish s draft tables))
  unfolding append_and_project project_if_created
  append-created new = rw (append_alone draft s.events) (rw (new, appended_alone) refl)

  pub append-IsKeyed :
      (s' : Session P S) (e : DomainEvent P)
      → draft.idempotency_key ≡ some k
      → append_and_project projectors draft [] s ≡ ok (s', e)
      → IsKeyed s' e
  unfolding append_and_project project_if_created
  append-IsKeyed s' e own h = elim (Option-cases (find_by_idempotency_key (some k) s.events)) [
    | inr (old, found) ↦
        let kept : ◌≡◌ {A = Result (Session P S × DomainEvent P)} (ok (s, old)) (ok (s', e)) =
          sym (keyed_again old own found) ∙ h in
        let same : ◌≡◌ {A = Session P S × DomainEvent P} (s, old) (s', e) = cc in
        inl (ground (arith, same, found), ground (arith, same))
    | inl new ↦
        let new' : find_by_idempotency_key draft.idempotency_key s.events ≡ none = rw own new in
        let (tables, projected, left) =
          >>=-eq-ok (project_event projectors s.tables (numbered draft s.events))
            (λ t. ok (finish s draft t)) (sym (append-created new') ∙ h) in
        inr (new, cc, cc, cc)
  ]

module _ {P S : Type 0} (projectors : Projectors P S) (type : String) (initial : S) where
  -- An append with a key, of an event of the type that is recorded after all others, keeps the tables
  -- projected.
  pub keyed-IsProjected :
      (draft : DomainEvent P) (k : String) (s s' : Session P S) (e : DomainEvent P)
      → draft.idempotency_key ≡ some k
      → draft.aggregate_type ≡ type
      → IsPast draft.recorded_at s.events
      → IsProjected projectors type initial s
      → append_and_project projectors draft [] s ≡ ok (s', e)
      → IsProjected projectors type initial s' × IsPast (draft.recorded_at + 1) s'.events
  keyed-IsProjected draft k s s' e own t past v h =
      elim (append-IsKeyed projectors draft k s s' e own h) [
        | inl (found, same) ↦
            rw same
              (v, IsPast-mono draft.recorded_at (draft.recorded_at + 1) s.events (omega arith) past)
        | inr (new, is_numbered, events, tables) ↦
            let type_of : e.aggregate_type ≡ type = rw is_numbered t in
            let at : e.recorded_at ≡ draft.recorded_at = rw is_numbered refl in
            let split : of_type type s'.events ≡ of_type type s.events ++ e ∷ [] =
              rw events (of_type-append type s.events e type_of) in
            (
              record {
                projected = rw split (
                    replay-append projectors initial (of_type type s.events) e s.tables v.projected
                    ∙ tables);
                ordered = rw split (
                    IsInOrder-append (of_type type s.events) e v.ordered (
                      past-precedes e (of_type type s.events)
                        (of_type-IsPast type e.recorded_at s.events (rw at past))));
              },
              rw events (
                  All-append (λ x. x.recorded_at < draft.recorded_at + 1) s.events (e ∷ [])
                    (IsPast-mono draft.recorded_at (draft.recorded_at + 1) s.events (omega arith)
                      past)
                    (omega (arith, at), tt)),
            )
      ]
