-- ===== src/Connector/Runs/Ledger.antt =====
-- A run happens at most once for a key, and only a conforming result becomes a fact.
use minigrc.Prelude.{
  ℕ, String, List, [], ◌∷◌, ◌++◌, none, some, Bool, true, false, ◌&&◌, ◌==◌, ◌≡◌, ◌⊎◌, inl, inr,
  refl, >>=-eq-ok, ◌≢◌, subst, eq_iff, if◌then◌else◌, str_eq, Error, Result, ok, err, require-eq-ok,
  instance_disabled, Bool-cases, Option-cases, arith,
}
use minigrc.Connector.Manifest.{ConnectorManifest}
use minigrc.Connector.Payload.{Fields, ConnectorResult, validate_result}
use minigrc.Connector.Payload.Secrecy.{Conforms, validate_result-Conforms}
use minigrc.Connector.Ingestion.{flush_people, Facts}
use minigrc.Connector.Instances.{
  ConnectorInstance, ConnectorExecution, ConnectorStore, Secret, resolve_connector_config,
}
use minigrc.Connector.Runs.{
  flushed, Called, returned, raised, Trigger, find_execution, ingest, accept, try_run,
  failed_execution, successful_execution, record_execution, run_connector_instance, is_breach,
}

find-append :
    (id : ℕ) (key : String) (executions : List ConnectorExecution) (e : ConnectorExecution)
    → find_execution id key executions ≡ none
    → e.connector_instance_id ≡ id
    → e.idempotency_key ≡ key
    → find_execution id key (executions ++ e ∷ []) ≡ some e
unfolding find_execution
find-append id key [] e h same_id same_key =
    ground (arith, same_id, same_key, eq_iff e.idempotency_key key)
find-append id key (x ∷ executions) e h same_id same_key =
    elim (Bool-cases (x.connector_instance_id == id && str_eq x.idempotency_key key)) [
      | inl p ↦ absurd (ground (arith, h, p))
      | inr p ↦
          ground (
            arith,
            p,
            find-append id key executions e (rw (p, find_execution) at h) same_id same_key,
          )
    ]

failed_status : (breach : Bool) → ◌≢◌ {A = String} (if breach then "error" else "failure") "success"
failed_status true = ground (arith, eq_iff "error" "success")
failed_status false = ground (arith, eq_iff "failure" "success")

-- a result that was accepted conforms, and was ingested
accepted :
    (dumps : Fields → String) (hash normalized : String → String) (r : ConnectorResult)
    (m : ConnectorManifest) (facts facts' : Facts)
    → accept dumps hash normalized r m facts ≡ ok facts'
    → Conforms dumps r m × (ingest dumps hash normalized r m facts ≡ ok facts')
unfolding accept
accepted dumps hash normalized r m facts facts' h =
    let (u, valid, rest) = >>=-eq-ok (validate_result dumps r m) _ h in
    ((validate_result-Conforms dumps r m).0 valid, rest)

-- the execution that a run records is found again
recorded-found :
    (i : ConnectorInstance) (t : Trigger) (base s : ConnectorStore)
    (outcome : Called (ConnectorResult × Facts))
    → find_execution i.id t.idempotency_key s.executions ≡ none
    → base.executions ≡ s.executions
    → let left = record_execution i t base s outcome in
      find_execution i.id t.idempotency_key left.0.executions ≡ some left.1
unfolding record_execution failed_execution successful_execution
recorded-found i t base s (raised breach message) h same =
    find-append i.id t.idempotency_key base.executions (failed_execution i t breach message)
      (rw same h) refl refl
recorded-found i t base s (returned (r, facts)) h same =
    find-append i.id t.idempotency_key s.executions (successful_execution i t r) h refl refl

flushed-ok :
    (fresh left : ConnectorStore × ConnectorExecution) → flushed fresh ≡ ok left → fresh ≡ left
unfolding flushed
flushed-ok fresh left h =
    let (facts, p, q) = >>=-eq-ok (flush_people fresh.0.facts) _ h in ground (arith, q)

module _ (dumps : Fields → String) (hash normalized : String → String) (describe : Error → String)
    (resolve : Secret → Result String) where
  -- what the connector's code did in a run that called it
  abbrev called :
      (Fields → Called ConnectorResult)
      → ConnectorInstance
      → ConnectorStore
      → Called ConnectorResult
  called call i s = call (resolve_connector_config resolve i s)

  -- the facts that a called run leaves
  abbrev pub IsLeft :
      ConnectorManifest
      → Called ConnectorResult
      → ConnectorStore
      → ConnectorStore
      → ConnectorStore × ConnectorExecution
      → Type 0
  IsLeft m outcome base s (s', e) =
      ((r : ConnectorResult) × (outcome ≡ returned r)
        × Conforms dumps r m
        × (ingest dumps hash normalized r m s.facts ≡ ok s'.facts)
        × (e.status ≡ "success"))
      ⊎ ((s'.facts ≡ base.facts) × (e.status ≢ "success"))

  recorded-IsLeft :
      (i : ConnectorInstance) (m : ConnectorManifest) (outcome : Called ConnectorResult)
      (t : Trigger) (base s : ConnectorStore)
      → IsLeft m outcome base s
          (record_execution i t base s (try_run dumps hash normalized describe outcome m s.facts))
  unfolding record_execution try_run failed_execution successful_execution
  recorded-IsLeft i m (raised breach message) t base s = inr (refl, failed_status breach)
  recorded-IsLeft i m (returned r) t base s =
      elim (accept dumps hash normalized r m s.facts)
          as (λ a.
            (accept dumps hash normalized r m s.facts ≡ a)
            → IsLeft m (returned r) base s (
                record_execution i t base s (elim a as (λ x. Called (ConnectorResult × Facts)) [
                  | ok facts' ↦ returned (r, facts')
                  | err reason ↦ raised (is_breach reason) (describe reason)
                ]))) [
                  | ok facts' ↦ λ p.
                      let (conforms, ingested) =
                        accepted dumps hash normalized r m s.facts facts' p in
                      inl (r, refl, conforms, ingested, refl)
                  | err reason ↦ λ p. inr (refl, failed_status (is_breach reason))
                ]
        refl

  module _ (i : ConnectorInstance) (m : ConnectorManifest) (call : Fields → Called ConnectorResult)
      (t : Trigger) (base s : ConnectorStore) where
    -- a run that was not refused: by an old execution, or by a new one
    run_called :
        (left : ConnectorStore × ConnectorExecution)
        → run_connector_instance dumps hash normalized describe resolve i m call t base s ≡ ok left
        → (i.enabled ≡ true)
          × (((find_execution i.id t.idempotency_key s.executions ≡ some left.1) × (left.0 ≡ s))
              ⊎ ((find_execution i.id t.idempotency_key s.executions ≡ none)
                  × (record_execution i t base s
                        (try_run dumps hash normalized describe (called call i s) m s.facts)
                      ≡ left)))
    unfolding run_connector_instance
    run_called left h =
        let (on, rest) = require-eq-ok i.enabled instance_disabled _ h in
        elim (Option-cases (find_execution i.id t.idempotency_key s.executions)) [
          | inr (e, p) ↦
              let same : (s, e) ≡ left = ground (arith, rest, p) in
              (on, inl (ground (arith, p, same), ground (arith, same)))
          | inl p ↦
              let fresh =
                record_execution i t base s
                  (try_run dumps hash normalized describe (called call i s) m s.facts) in
              let flush : flushed fresh ≡ ok left = ground (arith, rest, p) in
              (on, inr (p, flushed-ok fresh left flush))
        ]

    -- A run that is not refused was of an enabled connector. If its key was used, it returns the old
    -- execution and changes nothing. Otherwise either the connector returned a result that conforms to
    -- its manifest, the facts are what ingesting it makes of them, and the execution succeeded; or the
    -- facts are those that the transaction began with, and the execution did not.
    pub run_facts :
        (left : ConnectorStore × ConnectorExecution)
        → run_connector_instance dumps hash normalized describe resolve i m call t base s ≡ ok left
        → (i.enabled ≡ true)
          × (((find_execution i.id t.idempotency_key s.executions ≡ some left.1) × (left.0 ≡ s))
              ⊎ IsLeft m (call (resolve_connector_config resolve i s)) base s left)
    run_facts left h =
        let (on, which) = run_called left h in
        elim which [
          | inl old ↦ (on, inl old)
          | inr (new, e) ↦ (
            on,
            inr (
                subst (IsLeft m (called call i s) base s) e
                  (recorded-IsLeft i m (called call i s) t base s)),
          )
        ]

    -- If a run, in a transaction that wrote no executions before, returned an execution, then another
    -- run with its key returns the same execution and changes nothing: whoever runs it, whatever its
    -- connector would do, with whatever manifest, as long as the instance is enabled.
    pub run_once :
        (left : ConnectorStore × ConnectorExecution) (i' : ConnectorInstance)
        (m' : ConnectorManifest) (call' : Fields → Called ConnectorResult) (t' : Trigger)
        (base' : ConnectorStore)
        → base.executions ≡ s.executions
        → run_connector_instance dumps hash normalized describe resolve i m call t base s ≡ ok left
        → i'.id ≡ i.id
        → i'.enabled ≡ true
        → t'.idempotency_key ≡ t.idempotency_key
        → run_connector_instance dumps hash normalized describe resolve i' m' call' t' base' left.0
          ≡ ok left
    unfolding run_connector_instance
    run_once left i' m' call' t' base' same h same_id on same_key =
        let found : find_execution i.id t.idempotency_key left.0.executions ≡ some left.1 =
          elim (run_called left h).1 [
            | inl (old, kept) ↦ rw kept old
            | inr (new, e) ↦
                subst (λ x. find_execution i.id t.idempotency_key x.0.executions ≡ some x.1) e
                  (recorded-found i t base s
                    (try_run dumps hash normalized describe (called call i s) m s.facts) new same)
          ] in
        let found' : find_execution i'.id t'.idempotency_key left.0.executions ≡ some left.1 =
          rw (same_id, same_key) found in
        rw (on, found') refl
