-- ===== src/Events/Examples.antt =====
-- Appends on a small table whose payloads are numbers.
use minigrc.Events.Contention.{append_quiet, append_idempotent, key_race_raises}
use minigrc.Events.Replay.{IsProjected}
use minigrc.Events.Gapless.{append-IsGapless, IsGapless}
use minigrc.Prelude.{
  ◌∷◌, ◌+◌, ◌≡◌, ◌++◌, integrity_error, ok, err, ℕ, String, refl, true, false, Option, none, some,
  List, [], arith,
}
use minigrc.Events.{
  append_event_with_created_flag, event_machinery, Projectors, Appended, DomainEvent,
}

abbrev event : ℕ → ℕ → ℕ → Option String → DomainEvent ℕ
event id aggregate sequence key = record {
  id = id;
  aggregate_type = "counter";
  aggregate_id = aggregate;
  aggregate_sequence = sequence;
  payload = id;
  schema_version = 1;
  occurred_at = id;
  recorded_at = id;
  actor_type = "system";
  actor_id = none;
  correlation_id = none;
  causation_id = none;
  idempotency_key = key;
}

abbrev table : List (DomainEvent ℕ)
table = event 1 5 1 none ∷ event 2 6 1 (some "k2") ∷ event 3 5 2 none ∷ []

-- another transaction takes the slot that the draft was about to take
abbrev rivals : List (List (DomainEvent ℕ))
rivals = (event 8 5 3 none ∷ []) ∷ []

abbrev after_rival : List (DomainEvent ℕ)
after_rival = table ++ event 8 5 3 none ∷ event 9 5 4 none ∷ []

retried :
    append_event_with_created_flag (event 9 5 0 none) rivals table
    ≡ ok (record { rows = after_rival; event = event 9 5 4 none; created = true })
unfolding event_machinery
retried = refl

abbrev keyed_table : List (DomainEvent ℕ)
keyed_table = table ++ event 9 7 1 (some "k9") ∷ []

keyed_once :
    append_event_with_created_flag (event 9 7 0 (some "k9")) [] table
    ≡ ok (record { rows = keyed_table; event = event 9 7 1 (some "k9"); created = true })
unfolding event_machinery
keyed_once = refl

append_idempotent_example :
    append_event_with_created_flag (event 10 8 0 (some "k9")) rivals keyed_table
    ≡ ok (record { rows = keyed_table; event = event 9 7 1 (some "k9"); created = false })
append_idempotent_example =
    append_idempotent (event 9 7 0 (some "k9")) (event 10 8 0 (some "k9")) [] rivals table
      (record { rows = keyed_table; event = event 9 7 1 (some "k9"); created = true }) "k9" refl
      refl keyed_once

append_quiet_example :
    (a : Appended ℕ) × (append_event_with_created_flag (event 9 5 0 none) rivals table ≡ ok a)
    × (a.created ≡ true)
append_quiet_example = append_quiet (event 9 5 0 none) rivals table refl (omega arith)

key_race_raises_example :
    append_event_with_created_flag
      (event 9 7 0 (some "k9"))
      ((event 8 6 2 (some "k9") ∷ []) ∷ [])
      table
    ≡ err integrity_error
unfolding event_machinery
key_race_raises_example =
    key_race_raises (event 9 7 0 (some "k9")) (event 8 6 2 (some "k9")) [] table
      (table ++ event 8 6 2 (some "k9") ∷ []) "k9" refl refl refl refl (λ e. omega arith)

table-IsGapless : IsGapless table
table-IsGapless =
    IsGapless.row (event 3 5 2 none)
      (IsGapless.row (event 2 6 1 (some "k2"))
        (IsGapless.row (event 1 5 1 none) IsGapless.empty refl) refl)
      refl

append-IsGapless_example : IsGapless keyed_table
append-IsGapless_example =
    append-IsGapless (event 9 7 0 (some "k9")) table
      (record { rows = keyed_table; event = event 9 7 1 (some "k9"); created = true })
      table-IsGapless keyed_once

-- the sum of the payloads, as a projection
abbrev summing : Projectors ℕ ℕ
summing n = some (λ total e. ok (total + e.payload))

summed : IsProjected summing "counter" 0 (record { events = table; tables = 6 })
unfolding event_machinery
summed = record { projected = refl; ordered = ((refl, (refl, tt)), ((refl, tt), (tt, tt))) }
