-- ===== src/Events/Contention.antt =====
-- Repeated and competing appends: idempotency keys, retries, and a race on one key.
use minigrc.Prelude.{
  any-append_last, ◌≤◌, ◌≢◌, Option-cases, integrity_error, err, inl, inr, Option, zero, suc, refl,
  eq_iff, [], ◌++◌, ◌∙◌, ◌∷◌, true, ap, ◌||◌, false, ok, length, arith, none, any, some, String,
  ◌≡◌, ◌<◌, ℕ, List,
}
use minigrc.Events.{
  max_append_attempts, commit_arrivals, slot_taken, next_aggregate_sequence, same_key,
  append_attempts, same_slot, Appended, DomainEvent, find_by_idempotency_key, max_sequence,
  append_event_with_created_flag, insert_row,
}
use minigrc.Events.Append.{insert_row-some, Outcome, replayed, appended, append-Outcome}

module _ {P : Type 0} where
  find-append :
      (k : String) (rows : List (DomainEvent P)) (e : DomainEvent P)
      → any (λ x. same_slot e x || same_key e x) rows ≡ false
      → e.idempotency_key ≡ some k
      → find_by_idempotency_key (some k) (rows ++ e ∷ []) ≡ some e
  unfolding find_by_idempotency_key
  find-append k [] e h q = ground (arith, eq_iff k k)
  find-append k (x ∷ rows) e h q = ground (arith, find-append k rows e)

  find-insert :
      (k : String) (rows : List (DomainEvent P)) (e : DomainEvent P) {rows' : List (DomainEvent P)}
      → e.idempotency_key ≡ some k
      → insert_row e rows ≡ some rows'
      → find_by_idempotency_key (some k) rows' ≡ some e
  unfolding insert_row
  find-insert k rows e q h = ground (arith, find-append k rows e)

  abbrev Anything : List (DomainEvent P) → Type 0
  Anything rows = Unit

  -- An idempotent append is repeated without effect: once an append with a key has returned, any
  -- append with that key, for whatever event and whatever other transactions do meanwhile, returns
  -- the same event as an old one and leaves the table as it is.
  pub append_idempotent :
      (draft draft' : DomainEvent P) (others others' : List (List (DomainEvent P)))
      (rows : List (DomainEvent P)) (a : Appended P) (k : String)
      → draft.idempotency_key ≡ some k
      → draft'.idempotency_key ≡ some k
      → append_event_with_created_flag draft others rows ≡ ok a
      → append_event_with_created_flag draft' others' a.rows
        ≡ ok (record { rows = a.rows; event = a.event; created = false })
  unfolding append_event_with_created_flag
  append_idempotent draft draft' others others' rows a k p q h =
      let e : find_by_idempotency_key draft'.idempotency_key a.rows ≡ some a.event = rw q found in
      ground (arith, e)
    where
      finish : Outcome Anything draft a → find_by_idempotency_key (some k) a.rows ≡ some a.event
      finish (replayed _ f _) = rw p at f
      finish (appended base seen _ _ e _ i _) =
          find-insert k seen a.event (ap (λ (x : DomainEvent P). x.idempotency_key) e ∙ p) i

      found : find_by_idempotency_key (some k) a.rows ≡ some a.event
      found = finish (
          append-Outcome Anything (λ _ _ _. tt) draft others rows a tt
            (unfold append_event_with_created_flag in h))

  no_slot_above :
      (c : DomainEvent P) (rows : List (DomainEvent P))
      → max_sequence c.aggregate_type c.aggregate_id rows < c.aggregate_sequence
      → c.idempotency_key ≡ none
      → any (λ x. same_slot c x || same_key c x) rows ≡ false
  unfolding max_sequence
  no_slot_above c [] h k = refl
  no_slot_above c (x ∷ rows) h k = ground (arith, no_slot_above c rows)

  -- without a key the only error of an INSERT is a taken slot
  slot_of_refusal :
      (c : DomainEvent P) (rows : List (DomainEvent P))
      → c.idempotency_key ≡ none
      → any (λ x. same_slot c x || same_key c x) rows ≡ any (same_slot c) rows
  slot_of_refusal c [] k = refl
  slot_of_refusal c (x ∷ rows) k = ground (arith, slot_of_refusal c rows)

  pub find-no_key :
      (k : Option String) (rows : List (DomainEvent P))
      → k ≡ none
      → find_by_idempotency_key k rows ≡ none
  unfolding find_by_idempotency_key
  find-no_key none rows h = refl
  find-no_key (some k) rows h = cc

  insert-next :
      (c : DomainEvent P) (rows : List (DomainEvent P))
      → c.aggregate_sequence ≡ next_aggregate_sequence c.aggregate_type c.aggregate_id rows
      → c.idempotency_key ≡ none
      → insert_row c rows ≡ some (rows ++ c ∷ [])
  unfolding insert_row next_aggregate_sequence
  insert-next c rows h k = ground (arith, no_slot_above c rows)

  insert-refused :
      (c : DomainEvent P) (rows : List (DomainEvent P))
      → c.idempotency_key ≡ none
      → 1 ≤ c.aggregate_sequence
      → insert_row c rows ≡ none
      → slot_taken c rows ≡ true
  unfolding insert_row slot_taken
  insert-refused c rows k h i = ground (arith, slot_of_refusal c rows)

  next-positive :
      (type : String) (id : ℕ) (rows : List (DomainEvent P))
      → 1 ≤ next_aggregate_sequence type id rows
  unfolding next_aggregate_sequence
  next-positive type id rows = omega arith

  abbrev pub numbered : DomainEvent P → List (DomainEvent P) → DomainEvent P
  numbered draft rows = record draft {
    aggregate_sequence = next_aggregate_sequence draft.aggregate_type draft.aggregate_id rows;
  }

  attempts_quiet :
      (n : ℕ) (draft : DomainEvent P) (others : List (List (DomainEvent P)))
      (rows : List (DomainEvent P))
      → draft.idempotency_key ≡ none
      → length others < n
      → (a : Appended P) × (append_attempts n draft others rows ≡ ok a) × (a.created ≡ true)
  unfolding append_attempts commit_arrivals
  attempts_quiet zero draft others rows k h = absurd (omega arith)
  attempts_quiet (suc n) draft [] rows k h = (
    record { rows = rows ++ numbered draft rows ∷ []; event = numbered draft rows; created = true },
    ground (
      arith,
      find-no_key draft.idempotency_key rows k,
      insert-next (numbered draft rows) rows refl k,
    ),
    refl,
  )
  attempts_quiet (suc n) draft (now ∷ later) rows k h =
      let free = find-no_key draft.idempotency_key rows k in
      elim (Option-cases (insert_row (numbered draft rows) (commit_arrivals now rows))) [
        | inl i ↦
            let (a, e, c) =
              attempts_quiet n draft later (commit_arrivals now rows) k (omega arith) in
            let taken =
              insert-refused (numbered draft rows) (commit_arrivals now rows) k
                (next-positive _ _ rows) i in
            (a, ground (arith, free, i, taken, e), c)
        | inr (rows', i) ↦ (
          record { rows = rows'; event = numbered draft rows; created = true },
          ground (arith, free, i),
          refl,
        )
      ]

  -- An append without an idempotency key always returns a new event if fewer than five batches of
  -- other transactions' rows arrive during it, whatever these rows are.
  pub append_quiet :
      (draft : DomainEvent P) (others : List (List (DomainEvent P))) (rows : List (DomainEvent P))
      → draft.idempotency_key ≡ none
      → length others < max_append_attempts
      → (a : Appended P) × (append_event_with_created_flag draft others rows ≡ ok a)
        × (a.created ≡ true)
  unfolding append_event_with_created_flag
  append_quiet draft others rows k h =
      let (a, e, c) = attempts_quiet max_append_attempts draft others rows k h in
      (a, ground (arith, find-no_key draft.idempotency_key rows k, e), c)

  not_taken :
      (c : DomainEvent P) (rows : List (DomainEvent P))
      → max_sequence c.aggregate_type c.aggregate_id rows < c.aggregate_sequence
      → slot_taken c rows ≡ false
  unfolding slot_taken max_sequence
  not_taken c [] h = refl
  not_taken c (x ∷ rows) h = ground (arith, not_taken c rows)

  next-above :
      (draft : DomainEvent P) (rows : List (DomainEvent P))
      → max_sequence draft.aggregate_type draft.aggregate_id rows
        < (numbered draft rows).aggregate_sequence
  unfolding next_aggregate_sequence
  next-above draft rows = omega arith

  not_taken-append :
      (c other : DomainEvent P) (rows : List (DomainEvent P))
      → max_sequence c.aggregate_type c.aggregate_id rows < c.aggregate_sequence
      → other.aggregate_id ≢ c.aggregate_id
      → slot_taken c (rows ++ other ∷ []) ≡ false
  unfolding slot_taken
  not_taken-append c other rows h d =
      ground (arith, any-append_last (same_slot c) rows other, not_taken c rows h)

  insert-same_key :
      (c other : DomainEvent P) (rows : List (DomainEvent P)) (k : String)
      → c.idempotency_key ≡ some k
      → other.idempotency_key ≡ some k
      → insert_row c (rows ++ other ∷ []) ≡ none
  unfolding insert_row
  insert-same_key c other rows k p q = ground (
    arith,
    eq_iff k k,
    any-append_last (λ (x : DomainEvent P). same_slot c x || same_key c x) rows other,
  )

  -- The race on one key: where another transaction commits, during an append with a key, a row with
  -- the same key for another aggregate, the append raises `IntegrityError` instead of returning the
  -- committed event, since only a taken number is retried.
  pub key_race_raises :
      (draft other : DomainEvent P) (others : List (List (DomainEvent P)))
      (rows rows' : List (DomainEvent P)) (k : String)
      → draft.idempotency_key ≡ some k
      → other.idempotency_key ≡ some k
      → find_by_idempotency_key (some k) rows ≡ none
      → insert_row other rows ≡ some rows'
      → other.aggregate_id ≢ draft.aggregate_id
      → append_event_with_created_flag draft ((other ∷ []) ∷ others) rows ≡ err integrity_error
  unfolding append_event_with_created_flag append_attempts commit_arrivals
  key_race_raises draft other others rows rows' k p q f i d = ground (arith, refused, free, f', i)
    where
      c : DomainEvent P
      c = numbered draft rows

      f' : find_by_idempotency_key draft.idempotency_key rows ≡ none
      f' = rw p f

      grown : rows' ≡ rows ++ other ∷ []
      grown = (insert_row-some other rows i).0

      refused : insert_row c rows' ≡ none
      refused = rw grown (insert-same_key c other rows k p q)

      free : slot_taken c rows' ≡ false
      free = rw grown (not_taken-append c other rows (next-above draft rows) d)
