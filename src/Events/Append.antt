-- ===== src/Events/Append.antt =====
-- What one append does to the event table, whatever other transactions commit meanwhile.
use minigrc.Prelude.{
  subst, ℕ, zero, suc, ◌≤◌, ◌≡◌, refl, sym, ◌∙◌, ap, String, true, false, inl, inr, none, some,
  List, [], ◌∷◌, ◌++◌, append_assoc, append-nil, arith, eq_iff, any, All, ◌||◌, Option-cases, ok,
}
use minigrc.Events.{
  DomainEvent, Appended, next_aggregate_sequence, same_slot, same_key, insert_row, commit_arrivals,
  find_by_idempotency_key, append_attempts, append_event_with_created_flag, arrivals,
  later_arrivals, max_append_attempts,
}

module _ {P : Type 0} where
  -- two rows that the unique constraints let stand together
  pub record IsCompatible (c e : DomainEvent P) : Type 0 where
    pub slots :
        e.aggregate_type ≡ c.aggregate_type
        → e.aggregate_id ≡ c.aggregate_id
        → e.aggregate_sequence ≡ c.aggregate_sequence
        → ⊥
    pub keys : (k : String) → c.idempotency_key ≡ some k → e.idempotency_key ≡ some k → ⊥

  IsCompatible-of_tests :
      (c e : DomainEvent P) → (same_slot c e || same_key c e) ≡ false → IsCompatible c e
  IsCompatible-of_tests c e h = record {
    slots = λ p q r. ground (arith, eq_iff e.aggregate_type c.aggregate_type);
    keys = λ k p q. ground (arith, eq_iff k k);
  }

  IsCompatible-of_any :
      (c : DomainEvent P) (rows : List (DomainEvent P))
      → any (λ e. same_slot c e || same_key c e) rows ≡ false
      → All (IsCompatible c) rows
  IsCompatible-of_any c [] h = tt
  IsCompatible-of_any c (e ∷ rows) h =
      (IsCompatible-of_tests c e (ground arith), IsCompatible-of_any c rows (ground arith))

  pub insert_row-some :
      (c : DomainEvent P) (rows : List (DomainEvent P)) {rows' : List (DomainEvent P)}
      → insert_row c rows ≡ some rows'
      → (rows' ≡ rows ++ c ∷ []) × All (IsCompatible c) rows × (1 ≤ c.aggregate_sequence)
  unfolding insert_row
  insert_row-some c rows h = (ground arith, IsCompatible-of_any c rows (ground arith), ground arith)

  pub commit_arrivals-extends :
      (es rows : List (DomainEvent P))
      → (added : List (DomainEvent P)) × (commit_arrivals es rows ≡ rows ++ added)
  unfolding commit_arrivals
  commit_arrivals-extends [] rows = ([], sym (append-nil rows))
  commit_arrivals-extends (e ∷ es) rows = elim (Option-cases (insert_row e rows)) [
    | inl p ↦ rw p (commit_arrivals-extends es rows)
    | inr (rows', p) ↦
        let (added, q) = commit_arrivals-extends es rows' in
        (
          e ∷ added,
          rw p (
              q
              ∙ ap (λ t. t ++ added) (insert_row-some e rows p).0
              ∙ append_assoc rows (e ∷ []) added),
        )
  ]

-- How an append that returns has ended: `seen` is the table at its last INSERT, `base` the one that
-- its sequence number was read from, and `Q` holds of every table on the way.
pub data Outcome {P : Type 0} (Q : List (DomainEvent P) → Type 0) (draft : DomainEvent P)
    (a : Appended P) : Type 0 where
  replayed :
      Q a.rows
      → find_by_idempotency_key draft.idempotency_key a.rows ≡ some a.event
      → a.created ≡ false
      → Outcome Q draft a
  appended :
      (base seen : List (DomainEvent P))
      → Q base
      → Q seen
      → a.event ≡ record draft {
        aggregate_sequence = next_aggregate_sequence draft.aggregate_type draft.aggregate_id base;
      }
      → find_by_idempotency_key draft.idempotency_key base ≡ none
      → insert_row a.event seen ≡ some a.rows
      → a.created ≡ true
      → Outcome Q draft a

module _ {P : Type 0} (Q : List (DomainEvent P) → Type 0)
    (keeps : (es rows : List (DomainEvent P)) → Q rows → Q (commit_arrivals es rows))
    (draft : DomainEvent P) where
  append_attempts-Outcome :
      (n : ℕ) (others : List (List (DomainEvent P))) (rows : List (DomainEvent P)) (a : Appended P)
      → Q rows
      → append_attempts n draft others rows ≡ ok a
      → Outcome Q draft a
  unfolding append_attempts
  append_attempts-Outcome zero others rows a q h = cc
  append_attempts-Outcome (suc n) others rows a q h =
      elim (Option-cases (find_by_idempotency_key draft.idempotency_key rows)) [
        | inl p ↦ elim (Option-cases (insert_row candidate rows')) [
          | inl i ↦
              append_attempts-Outcome n (later_arrivals others) rows' a (keeps _ _ q)
                (ground (arith, p, i))
          | inr (rows'', i) ↦
              let e : record { rows = rows''; event = candidate; created = true } ≡ a =
                ground (arith, p, i) in
              subst (Outcome Q draft) e (appended rows rows' q (keeps _ _ q) refl p i refl)
        ]
        | inr (found, p) ↦
            let e : record { rows = rows; event = found; created = false } ≡ a =
              ground (arith, p) in
            subst (Outcome Q draft) e (replayed q p refl)
      ]
    where
      candidate : DomainEvent P
      candidate = record draft {
        aggregate_sequence = next_aggregate_sequence draft.aggregate_type draft.aggregate_id rows;
      }

      rows' : List (DomainEvent P)
      rows' = commit_arrivals (arrivals others) rows

  pub append-Outcome :
      (others : List (List (DomainEvent P))) (rows : List (DomainEvent P)) (a : Appended P)
      → Q rows
      → append_event_with_created_flag draft others rows ≡ ok a
      → Outcome Q draft a
  unfolding append_event_with_created_flag
  append-Outcome others rows a q h =
      elim (Option-cases (find_by_idempotency_key draft.idempotency_key rows)) [
        | inl p ↦ append_attempts-Outcome max_append_attempts others rows a q (ground (arith, p))
        | inr (found, p) ↦
            let e : record { rows = rows; event = found; created = false } ≡ a =
              ground (arith, p) in
            subst (Outcome Q draft) e (replayed q p refl)
      ]
