-- ===== src/Events.antt =====
-- app/events.py: the immutable event table, appending to it under contention, and projections.
--
-- A row's `event_type` and its decoded `payload_json` are one value of the payload type `P`, which
-- has a constructor for each event type; encoding it as JSON and decoding it again is the identity.
-- Identifiers are the numbers that their 32 hexadecimal digits spell, so that their order is the
-- order of the strings; times are numbers of microseconds.
pub mod Append
pub mod Contention
pub mod Gapless
pub mod Replay
pub mod Record
pub mod Keyed
pub mod Runs
pub mod Stamped
mod Examples
use minigrc.Prelude.{
  ℕ, zero, suc, ◌+◌, max, String, Bool, true, false, ◌&&◌, ◌||◌, not, Option, none, some, List, [],
  ◌∷◌, ◌++◌, leb, ltb, ◌==◌, if◌then◌else◌, str_eq, any, Error, Result, ok, err, concurrent_append,
  integrity_error, key_error, immutable_event, ◌>>=◌,
}

pub record DomainEvent (P : Type 0) : Type 0 where
  pub id : ℕ
  pub aggregate_type : String
  pub aggregate_id : ℕ
  pub aggregate_sequence : ℕ
  pub payload : P
  pub schema_version : ℕ
  pub occurred_at : ℕ
  pub recorded_at : ℕ
  pub actor_type : String
  pub actor_id : Option String
  pub correlation_id : Option String
  pub causation_id : Option String
  pub idempotency_key : Option String

-- `_MAX_APPEND_ATTEMPTS`
abbrev pub max_append_attempts : ℕ
max_append_attempts = 5

module _ {P : Type 0} where
  -- the rows of one aggregate
  abbrev pub same_aggregate : String → ℕ → DomainEvent P → Bool
  same_aggregate type id e = str_eq e.aggregate_type type && e.aggregate_id == id

  -- `func.max` over the aggregate's rows, 0 where there is none
  unfoldable pub max_sequence : String → ℕ → List (DomainEvent P) → ℕ
  max_sequence type id [] = 0
  max_sequence type id (e ∷ es) =
      let rest = max_sequence type id es in
      if same_aggregate type id e then max e.aggregate_sequence rest else rest

  -- `_next_aggregate_sequence`
  unfoldable pub next_aggregate_sequence : String → ℕ → List (DomainEvent P) → ℕ
  next_aggregate_sequence type id rows = max_sequence type id rows + 1

  abbrev pub has_key : String → DomainEvent P → Bool
  has_key k e = elim e.idempotency_key [ none ↦ false | some j ↦ str_eq j k ]

  -- `_find_by_idempotency_key`, where no key is asked for too
  unfoldable pub find_by_idempotency_key :
      Option String → List (DomainEvent P) → Option (DomainEvent P)
  find_by_idempotency_key none rows = none
  find_by_idempotency_key (some k) [] = none
  find_by_idempotency_key (some k) (e ∷ es) =
      if has_key k e then some e else find_by_idempotency_key (some k) es

  -- `uq_domain_event_aggregate_sequence`
  abbrev pub same_slot : DomainEvent P → DomainEvent P → Bool
  same_slot c e =
      same_aggregate c.aggregate_type c.aggregate_id e
      && e.aggregate_sequence == c.aggregate_sequence

  -- `uq_domain_event_idempotency_key`; SQL lets any number of rows have no key
  abbrev pub same_key : DomainEvent P → DomainEvent P → Bool
  same_key c e = elim c.idempotency_key [ none ↦ false | some k ↦ has_key k e ]

  -- the INSERT: `none` is an `IntegrityError` of one of the two unique constraints or of
  -- `ck_domain_event_aggregate_sequence_positive`. The primary key of a new row is a fresh uuid4
  -- (`new_id`), which is taken never to be used before.
  unfoldable pub insert_row : DomainEvent P → List (DomainEvent P) → Option (List (DomainEvent P))
  insert_row c rows =
      if any (λ e. same_slot c e || same_key c e) rows || c.aggregate_sequence == 0
      then none
      else some (rows ++ c ∷ [])

  -- `slot_taken is not None`
  unfoldable pub slot_taken : DomainEvent P → List (DomainEvent P) → Bool
  slot_taken c rows = any (same_slot c) rows

  -- what other transactions send between one attempt's reads and its INSERT; the database holds
  -- them to the same constraints
  unfoldable pub commit_arrivals :
      List (DomainEvent P) → List (DomainEvent P) → List (DomainEvent P)
  unfolding insert_row
  commit_arrivals [] rows = rows
  commit_arrivals (e ∷ es) rows =
      commit_arrivals es (elim (insert_row e rows) [ none ↦ rows | some rows' ↦ rows' ])

  abbrev pub arrivals : List (List (DomainEvent P)) → List (DomainEvent P)
  arrivals [] = []
  arrivals (now ∷ later) = now

  abbrev pub later_arrivals : List (List (DomainEvent P)) → List (List (DomainEvent P))
  later_arrivals [] = []
  later_arrivals (now ∷ later) = later

-- What an append leaves: the table, the event, and whether the event is new.
pub record Appended (P : Type 0) : Type 0 where
  pub rows : List (DomainEvent P)
  pub event : DomainEvent P
  pub created : Bool

module _ {P : Type 0} where
  -- the body of the `for` loop; `draft` has every column but the sequence number
  unfoldable pub append_attempts :
      ℕ → DomainEvent P → List (List (DomainEvent P)) → List (DomainEvent P) → Result (Appended P)
  append_attempts zero draft others rows = err concurrent_append
  append_attempts (suc n) draft others rows =
      let candidate : DomainEvent P = record draft {
        aggregate_sequence = next_aggregate_sequence draft.aggregate_type draft.aggregate_id rows;
      } in
      let rows' : List (DomainEvent P) = commit_arrivals (arrivals others) rows in
      let again : Result (Appended P) = append_attempts n draft (later_arrivals others) rows' in
      elim (find_by_idempotency_key draft.idempotency_key rows) [
        | some e ↦ ok (record { rows = rows; event = e; created = false })
        | none ↦ elim (insert_row candidate rows') [
          | some rows'' ↦ ok (record { rows = rows''; event = candidate; created = true })
          | none ↦ if slot_taken candidate rows' then again else err integrity_error
        ]
      ]

  -- `_append_event_with_created_flag`
  unfoldable pub append_event_with_created_flag :
      DomainEvent P → List (List (DomainEvent P)) → List (DomainEvent P) → Result (Appended P)
  append_event_with_created_flag draft others rows =
      elim (find_by_idempotency_key draft.idempotency_key rows) [
        | some e ↦ ok (record { rows = rows; event = e; created = false })
        | none ↦ append_attempts max_append_attempts draft others rows
      ]

-- What the environment gives a command: the clock, a fresh event id, and who acts.
pub record Context : Type 0 where
  pub now : ℕ
  pub event_id : ℕ
  pub actor_type : String
  pub actor_id : Option String

-- The columns of a new event, its number left open: `recorded_at` is now, and `occurred_at` too
-- unless it is given; no keys.
unfoldable pub draft_event : {P : Type 0} → Context → String → ℕ → Option ℕ → P → DomainEvent P
draft_event c type id occurred_at payload = record {
  id = c.event_id;
  aggregate_type = type;
  aggregate_id = id;
  aggregate_sequence = 0;
  payload = payload;
  schema_version = 1;
  occurred_at = elim occurred_at [ none ↦ c.now | some t ↦ t ];
  recorded_at = c.now;
  actor_type = c.actor_type;
  actor_id = c.actor_id;
  correlation_id = none;
  causation_id = none;
  idempotency_key = none;
}

-- An ORM statement on the event table, and the guards that refuse to change a row.
pub data OrmStatement : Type 0 where
  unit_update unit_delete bulk_update bulk_delete select_rows : OrmStatement

-- `_reject_domain_event_update`, `_reject_domain_event_delete` and
-- `_reject_domain_event_bulk_mutation`
unfoldable pub guard_domain_event : OrmStatement → Result (Unit {0})
guard_domain_event select_rows = ok tt
guard_domain_event _ = err immutable_event

module _ {P : Type 0} where
  -- the order of `rebuild_projection`: (recorded_at, aggregate_type, aggregate_id,
  -- aggregate_sequence); the type is the same on all the rows that are sorted
  unfoldable pub precedes : DomainEvent P → DomainEvent P → Bool
  precedes a b =
      if a.recorded_at == b.recorded_at
      then (if a.aggregate_id == b.aggregate_id
          then leb a.aggregate_sequence b.aggregate_sequence
          else ltb a.aggregate_id b.aggregate_id)
      else ltb a.recorded_at b.recorded_at

  unfoldable pub of_type : String → List (DomainEvent P) → List (DomainEvent P)
  of_type type [] = []
  of_type type (e ∷ es) =
      let rest = of_type type es in if str_eq e.aggregate_type type then e ∷ rest else rest

  unfoldable pub insert_in_order : DomainEvent P → List (DomainEvent P) → List (DomainEvent P)
  unfolding precedes
  insert_in_order e [] = e ∷ []
  insert_in_order e (x ∷ xs) = if precedes e x then e ∷ x ∷ xs else x ∷ insert_in_order e xs

  -- ORDER BY
  unfoldable pub in_order : List (DomainEvent P) → List (DomainEvent P)
  unfolding insert_in_order
  in_order [] = []
  in_order (e ∷ es) = insert_in_order e (in_order es)

-- A transaction's view: the event table and the projection's tables `S`.
pub record Session (P S : Type 0) : Type 0 where
  pub events : List (DomainEvent P)
  pub tables : S

-- `ProjectorFn`; a projector that reads a missing row raises
abbrev pub ProjectorFn : Type 0 → Type 0 → Type 0
ProjectorFn P S = S → DomainEvent P → Result S

-- A `projectors` dictionary: `none` for an event type that is no key of it.
abbrev pub Projectors : Type 0 → Type 0 → Type 0
Projectors P S = P → Option (ProjectorFn P S)

module _ {P S : Type 0} where
  -- `projectors[event.event_type](session, event)`
  unfoldable pub project_event : Projectors P S → S → DomainEvent P → Result S
  project_event projectors tables e = elim (projectors e.payload) [
    | none ↦ err key_error
    | some f ↦ f tables e
  ]

  unfoldable pub project_if_created :
      Projectors P S → S → Appended P → Result (Session P S × DomainEvent P)
  project_if_created projectors tables a =
      if a.created
      then (do
        tables' ← project_event projectors tables a.event
        ok (record { events = a.rows; tables = tables' }, a.event))
      else ok (record { events = a.rows; tables = tables }, a.event)

  -- `append_and_project`
  unfoldable pub append_and_project :
      Projectors P S
      → DomainEvent P
      → List (List (DomainEvent P))
      → Session P S
      → Result (Session P S × DomainEvent P)
  append_and_project projectors draft others s = do
    a ← append_event_with_created_flag draft others s.events
    project_if_created projectors s.tables a

  -- one event of a command, in the command's own transaction
  unfoldable pub record_event :
      Projectors P S → String → Context → ℕ → Option ℕ → P → Session P S → Result (Session P S)
  record_event projectors type c id occurred_at payload s = do
    r ← append_and_project projectors (draft_event c type id occurred_at payload) [] s
    ok r.0

  -- the loop of `rebuild_projection`
  unfoldable pub replay : Projectors P S → S → List (DomainEvent P) → Result S
  replay projectors tables [] = ok tables
  replay projectors tables (e ∷ es) = do
    tables' ← project_event projectors tables e
    replay projectors tables' es

  -- `rebuild_projection`; `reset` is what it makes of the tables before the loop
  unfoldable pub rebuild_projection :
      Projectors P S → String → (S → S) → Session P S → Result (Session P S)
  rebuild_projection projectors type reset s = do
    tables ← replay projectors (reset s.tables) (in_order (of_type type s.events))
    ok (record s { tables = tables })

-- All that an append, its projector and a rebuild call: a test that runs them unfolds this name.
unfoldable pub event_machinery : Unit {0}
unfolding max_sequence next_aggregate_sequence find_by_idempotency_key insert_row slot_taken
    commit_arrivals append_attempts append_event_with_created_flag draft_event project_event
    project_if_created append_and_project record_event precedes of_type insert_in_order in_order
    replay rebuild_projection
event_machinery = tt
