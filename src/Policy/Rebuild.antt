-- ===== src/Policy/Rebuild.antt =====
-- `rebuild_policy_version_lifecycle_projection` after any requests.
use minigrc.Events.Record.{record_event-IsProjected}
use minigrc.Prelude.Table
use minigrc.Events.{Context, DomainEvent}
use minigrc.Events.Replay.{
  rebuild_projection-IsProjected, IsProjected-empty, IsPast-mono, IsProjected, IsPast,
}
use minigrc.Prelude.{
  ◌∙◌, ◌∷◌, ◌+◌, ◌≡◌, ◌≤◌, Result, ok, err, committed, ℕ, refl, ap, subst, Option, none, some, List,
  [], arith,
}
use minigrc.Policy.Steps.{execute-IsExecuted, IsExecuted}
use minigrc.Policy.Rows.{recorded-rows, new_event}
use minigrc.Policy.Runs.{run, request}
use minigrc.Policy.{
  reset_policy_version_lifecycle, rebuild_policy_version_lifecycle_projection, execute, withdraw_it,
  make_it_effective, review_it, submit_it, PolicyCommand, supersede_previous, previous_effective,
  record_version_event, PolicySession, lifecycle_defaults, policy_version_projectors, row_after,
  project_withdrawn, project_superseded, project_made_effective, project_reviewed,
  project_submitted_for_review, version_id, version_withdrawn, superseded_by, made_effective,
  reviewed, submitted_for_review, PolicyVersionEvent, PolicyVersion,
}

-- both clocks of each request have moved on since the one before them
abbrev pub IsTicking : ℕ → List (Context × Context × PolicyCommand) → Type 0
IsTicking t [] = Unit
IsTicking t ((c, c', cmd) ∷ rest) = (t ≤ c.now) × (c.now + 1 ≤ c'.now) × IsTicking (c'.now + 1) rest

-- rows as they are uploaded: no lifecycle event has touched them
abbrev pub IsFresh : List PolicyVersion → Type 0
IsFresh rows = reset_policy_version_lifecycle rows ≡ rows

abbrev VersionsProjected : List PolicyVersion → PolicySession → Type 0
VersionsProjected = IsProjected policy_version_projectors "policy_version"

reset-modify :
    (f : PolicyVersion → PolicyVersion) (j : ℕ) (rows : List PolicyVersion)
    → ((v : PolicyVersion) → lifecycle_defaults (f v) ≡ lifecycle_defaults v)
    → reset_policy_version_lifecycle (Table.modify version_id j f rows)
      ≡ reset_policy_version_lifecycle rows
unfolding reset_policy_version_lifecycle Table.modify
reset-modify f j [] same = refl
reset-modify f j (v ∷ rows) same = ground (arith, same v, reset-modify f j rows same)

defaults-row_after :
    (p : PolicyVersionEvent) (e : DomainEvent PolicyVersionEvent) (v : PolicyVersion)
    → lifecycle_defaults (row_after p e v) ≡ lifecycle_defaults v
unfolding lifecycle_defaults project_submitted_for_review project_reviewed project_made_effective
    project_superseded project_withdrawn
defaults-row_after submitted_for_review e v = refl
defaults-row_after _ e v = refl

-- what every event keeps, from initial rows `rows` and up to time `t`
abbrev Keeps : List PolicyVersion → ℕ → PolicySession → Type 0
Keeps rows t s =
    VersionsProjected rows s × IsPast t s.events × (reset_policy_version_lifecycle s.tables ≡ rows)

recorded-Keeps :
    (rows : List PolicyVersion) (t : ℕ) (c : Context) (id : ℕ) (at : Option ℕ)
    (payload : PolicyVersionEvent) (s s' : PolicySession)
    → t ≤ c.now
    → Keeps rows t s
    → record_version_event c id at payload s ≡ ok s'
    → Keeps rows (c.now + 1) s'
unfolding record_version_event
recorded-Keeps rows t c id at payload s s' le (v, past, same) h =
    let (w, later) =
      record_event-IsProjected policy_version_projectors "policy_version" c id at payload s rows
        (IsPast-mono t c.now s.events le past) v h in
    (
      w,
      later,
      ap reset_policy_version_lifecycle (recorded-rows c id at payload s s' h).0
          ∙ reset-modify _ id s.tables (defaults-row_after payload (new_event c id at payload s))
          ∙ same,
    )

Keeps-mono :
    (rows : List PolicyVersion) (t u : ℕ) (s : PolicySession)
    → t ≤ u
    → Keeps rows t s
    → Keeps rows u s
Keeps-mono rows t u s le (v, past, same) = (v, IsPast-mono t u s.events le past, same)

superseded-Keeps :
    (rows : List PolicyVersion) (t : ℕ) (c : Context) (id : ℕ) (previous : Option PolicyVersion)
    (s s' : PolicySession)
    → t ≤ c.now
    → Keeps rows t s
    → supersede_previous c id previous s ≡ ok s'
    → Keeps rows (c.now + 1) s'
unfolding supersede_previous
superseded-Keeps rows t c id none s s' le k h =
    subst (Keeps rows (c.now + 1)) (cc) (Keeps-mono rows t (c.now + 1) s (omega arith) k)
superseded-Keeps rows t c id (some p) s s' le k h =
    recorded-Keeps rows t c p.id none (superseded_by id) s s' le k h

execute-Keeps :
    (rows : List PolicyVersion) (t : ℕ) (c c' : Context) (cmd : PolicyCommand)
    (s s' : PolicySession)
    → t ≤ c.now
    → c.now + 1 ≤ c'.now
    → Keeps rows t s
    → IsExecuted c c' cmd s s'
    → Keeps rows (c'.now + 1) s'
execute-Keeps rows t c c' (submit_it policy id) s s' le lt k x =
    Keeps-mono rows (c.now + 1) (c'.now + 1) s' (omega arith)
      (recorded-Keeps rows t c id none submitted_for_review s s' le k x.recorded)
execute-Keeps rows t c c' (review_it policy id decision comment) s s' le lt k x =
    Keeps-mono rows (c.now + 1) (c'.now + 1) s' (omega arith)
      (recorded-Keeps rows t c id none (reviewed decision comment) s s' le k x.recorded)
execute-Keeps rows t c c' (make_it_effective policy id) s s' le lt k x =
    recorded-Keeps rows (c.now + 1) c' id none made_effective x.between s' lt
      (superseded-Keeps rows t c id (previous_effective x.version s.tables) s x.between le k
        x.superseding)
      x.recorded
execute-Keeps rows t c c' (withdraw_it policy id reason at) s s' le lt k x =
    Keeps-mono rows (c.now + 1) (c'.now + 1) s' (omega arith)
      (recorded-Keeps rows t c id at (version_withdrawn reason) s s' le k x.recorded)

run-Keeps :
    (rows : List PolicyVersion) (t : ℕ) (s : PolicySession)
    (requests : List (Context × Context × PolicyCommand))
    → IsTicking t requests
    → Keeps rows t s
    → (u : ℕ) × Keeps rows u (run s requests)
unfolding run request
run-Keeps rows t s [] k h = (t, h)
run-Keeps rows t s ((c, c', cmd) ∷ rest) (le, lt, k) h =
    run-Keeps rows (c'.now + 1) (request s (c, c', cmd)) rest k (go (execute c c' cmd s) refl)
  where
    go :
        (x : Result PolicySession)
        → execute c c' cmd s ≡ x
        → Keeps rows (c'.now + 1) (committed s x)
    go (ok s') e = execute-Keeps rows t c c' cmd s s' le lt h (execute-IsExecuted c c' cmd s s' e)
    go (err e') e = Keeps-mono rows t (c'.now + 1) s (omega arith) h

-- Rebuilding the lifecycle columns changes nothing: after any requests on freshly uploaded versions
-- with no history, accepted or refused, with a clock that moves on between events, resetting the
-- columns and replaying the stored events gives exactly the rows that the requests left.
pub rebuild_versions_after_run :
    (t : ℕ) (rows : List PolicyVersion) (requests : List (Context × Context × PolicyCommand))
    → IsTicking t requests
    → IsFresh rows
    → let s = run (record { events = []; tables = rows }) requests in
      rebuild_policy_version_lifecycle_projection s ≡ ok s
unfolding rebuild_policy_version_lifecycle_projection
rebuild_versions_after_run t rows requests k fresh =
    let (u, (v, past, same)) =
      run-Keeps rows t (record { events = []; tables = rows }) requests k
        (IsProjected-empty policy_version_projectors "policy_version" rows, tt, fresh) in
    rebuild_projection-IsProjected policy_version_projectors "policy_version" rows
      reset_policy_version_lifecycle (run (record { events = []; tables = rows }) requests) v same
