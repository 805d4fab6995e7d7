-- ===== src/Events/Gapless.antt =====
-- An append that no other transaction disturbs, and the numbers it gives.
use minigrc.Events.Contention.{numbered}
use minigrc.Events.{
  same_aggregate, same_key, same_slot, commit_arrivals, find_by_idempotency_key, append_attempts,
  Appended, next_aggregate_sequence, max_sequence, append_event_with_created_flag, insert_row,
  DomainEvent,
}
use minigrc.Prelude.{
  if◌then◌else◌, ◌||◌, ◌<◌, ◌+◌, ◌++◌, ◌≡◌, ◌∷◌, Option-cases, any, ok, ℕ, max, String, refl, subst,
  inl, inr, true, false, none, some, List, [], arith, eq_iff,
}

module _ {P : Type 0} where
  free_above :
      (c : DomainEvent P) (rows : List (DomainEvent P))
      → max_sequence c.aggregate_type c.aggregate_id rows < c.aggregate_sequence
      → find_by_idempotency_key c.idempotency_key rows ≡ none
      → any (λ x. same_slot c x || same_key c x) rows ≡ false
  unfolding max_sequence find_by_idempotency_key
  free_above c [] h k = refl
  free_above c (x ∷ rows) h k = ground (arith, free_above c rows)

  insert-numbered :
      (c : DomainEvent P) (rows : List (DomainEvent P))
      → c.aggregate_sequence ≡ next_aggregate_sequence c.aggregate_type c.aggregate_id rows
      → find_by_idempotency_key c.idempotency_key rows ≡ none
      → insert_row c rows ≡ some (rows ++ c ∷ [])
  unfolding insert_row next_aggregate_sequence
  insert-numbered c rows h k = ground (arith, free_above c rows)

  -- what an undisturbed append returns
  abbrev pub appended_alone : DomainEvent P → List (DomainEvent P) → Appended P
  appended_alone draft rows = elim (find_by_idempotency_key draft.idempotency_key rows) [
    | some e ↦ record { rows = rows; event = e; created = false }
    | none ↦ record {
      rows = rows ++ numbered draft rows ∷ [];
      event = numbered draft rows;
      created = true;
    }
  ]

  -- An append that no other transaction disturbs never raises, whatever the table: it returns the
  -- event with its key where there is one, and else adds one row, numbered after the highest number
  -- of its aggregate.
  pub append_alone :
      (draft : DomainEvent P) (rows : List (DomainEvent P))
      → append_event_with_created_flag draft [] rows ≡ ok (appended_alone draft rows)
  unfolding append_event_with_created_flag append_attempts commit_arrivals
  append_alone draft rows =
      elim (Option-cases (find_by_idempotency_key draft.idempotency_key rows)) [
        | inl p ↦ ground (arith, p, insert-numbered (numbered draft rows) rows refl p)
        | inr (e, p) ↦ ground (arith, p)
      ]

  abbrev pub count_aggregate : String → ℕ → List (DomainEvent P) → ℕ
  count_aggregate type id [] = 0
  count_aggregate type id (e ∷ es) =
      let rest = count_aggregate type id es in if same_aggregate type id e then rest + 1 else rest

  -- each row is numbered one more than the rows of its aggregate that stand before it
  pub data IsGapless : List (DomainEvent P) → Type 0 where
    empty : IsGapless []
    row :
        {rows : List (DomainEvent P)} (c : DomainEvent P)
        → IsGapless rows
        → c.aggregate_sequence ≡ count_aggregate c.aggregate_type c.aggregate_id rows + 1
        → IsGapless (rows ++ c ∷ [])

  max-append :
      (type : String) (id : ℕ) (rows : List (DomainEvent P)) (c : DomainEvent P)
      → max_sequence type id (rows ++ c ∷ []) ≡ (
          if same_aggregate type id c
          then max c.aggregate_sequence (max_sequence type id rows)
          else max_sequence type id rows)
  unfolding max_sequence
  max-append type id [] c = ground arith
  max-append type id (x ∷ rows) c = ground (arith, max-append type id rows c)

  count-append :
      (type : String) (id : ℕ) (rows : List (DomainEvent P)) (c : DomainEvent P)
      → count_aggregate type id (rows ++ c ∷ []) ≡ (
          if same_aggregate type id c
          then count_aggregate type id rows + 1
          else count_aggregate type id rows)
  count-append type id [] c = ground arith
  count-append type id (x ∷ rows) c = ground (arith, count-append type id rows c)

  max-eq-count :
      {rows : List (DomainEvent P)}
      → IsGapless rows
      → (type : String) (id : ℕ) → max_sequence type id rows ≡ count_aggregate type id rows
  unfolding max_sequence
  max-eq-count empty type id = refl
  max-eq-count (row {rows = rows} c g h) type id = ground (
    arith,
    max-append type id rows c,
    count-append type id rows c,
    max-eq-count g type id,
    eq_iff c.aggregate_type type,
  )

  numbered-gapless :
      (draft : DomainEvent P) (rows : List (DomainEvent P))
      → IsGapless rows
      → next_aggregate_sequence draft.aggregate_type draft.aggregate_id rows
        ≡ count_aggregate draft.aggregate_type draft.aggregate_id rows + 1
  unfolding next_aggregate_sequence
  numbered-gapless draft rows g =
      omega (arith, max-eq-count g draft.aggregate_type draft.aggregate_id)

  -- An undisturbed append keeps the numbering gapless: the events of each aggregate are numbered
  -- 1, 2, 3, ... in the order in which they were appended.
  pub append-IsGapless :
      (draft : DomainEvent P) (rows : List (DomainEvent P)) (a : Appended P)
      → IsGapless rows
      → append_event_with_created_flag draft [] rows ≡ ok a
      → IsGapless a.rows
  append-IsGapless draft rows a g h =
      let e : appended_alone draft rows ≡ a = cc (append_alone draft rows) in
      subst (λ (x : Appended P). IsGapless x.rows) e
        (elim (Option-cases (find_by_idempotency_key draft.idempotency_key rows)) [
          | inl p ↦
              rw (p, appended_alone) (row (numbered draft rows) g (numbered-gapless draft rows g))
          | inr (x, p) ↦ rw (p, appended_alone) g
        ])
