-- ===== src/Connector/Runs.antt =====
-- app/connector_lifecycle.py: `test_connector_instance` and `run_connector_instance`.
--
-- A connector's own code is a function of the resolved configuration. `describe` gives the text of an
-- exception that this application raises. A run is given the tables that its transaction began with,
-- for its rollback, and those of the session; runs that others commit meanwhile are left out.
pub mod Ledger
use Prim.Native.String.{◌++◌ as string_append}
use minigrc.Prelude.Table
use minigrc.Prelude.{
  ℕ, String, List, [], ◌∷◌, ◌++◌, Option, none, some, Bool, true, false, not, ◌||◌, ◌&&◌, ◌+◌, ◌==◌,
  if◌then◌else◌, str_eq, Error, Result, ok, err, require, contract_error, no_ingestion_path,
  instance_disabled, missing_secret_field, missing_config_field, identity_confusion, stale_plan,
  silent_downgrade, plan_mismatch, manifest_substituted, ◌>>=◌, ◌>>◌,
}
use minigrc.Jobs.{first_chars}
use minigrc.Access.{User}
use minigrc.Connector.Manifest.{ConnectorManifest}
use minigrc.Connector.Payload.{Fields, ConnectorResult, validate_result}
use minigrc.Connector.Ingestion.{
  flush_people, Facts, ingest_configuration_snapshot, ingest_identity_population,
}
use minigrc.Connector.Instances.{
  ConnectorInstance, ConnectorExecution, ConnectorStore, Secret, instance_id, log_instance, tested,
  resolve_connector_config,
}

-- what a connector's code does: `breach` tells a `ConnectorLifecycleError` or a
-- `ConnectorContractError` from any other exception
pub data Called {ℓ} (A : Type ℓ) : Type ℓ where
  returned : A → Called A
  raised : (breach : Bool) → (message : String) → Called A

-- `isinstance(exc, (ConnectorLifecycleError, ConnectorContractError))`
unfoldable pub is_breach : Error → Bool
is_breach contract_error = true
is_breach no_ingestion_path = true
is_breach instance_disabled = true
is_breach missing_secret_field = true
is_breach missing_config_field = true
is_breach identity_confusion = true
is_breach stale_plan = true
is_breach silent_downgrade = true
is_breach plan_mismatch = true
is_breach manifest_substituted = true
is_breach _ = false

-- `test_connector_instance` of the row `i`: `test` gives the text of what the callable raised, if it
-- did
unfoldable pub test_connector_instance :
    (Secret → Result String)
    → ℕ
    → (Fields → Option String)
    → ConnectorInstance
    → User
    → ConnectorStore
    → ConnectorStore × Bool
test_connector_instance resolve now test i actor s =
    let ended : Option String → ConnectorStore × Bool = elim [
      | none ↦ (
        record s {
          instances =
              Table.modify instance_id i.id
                (λ x. record x {
                  last_test_at = some now;
                  last_test_status = some "success";
                  last_test_error = "";
                })
                s.instances;
          audit = log_instance i.id "test_connection" (tested true i.display_name) actor s.audit;
        },
        true,
      )
      | some message ↦ (
        record s {
          instances =
              Table.modify instance_id i.id
                (λ x. record x {
                  last_test_at = some now;
                  last_test_status = some "failure";
                  last_test_error = first_chars 2000 message;
                })
                s.instances;
          audit = log_instance i.id "test_connection" (tested false i.display_name) actor s.audit;
        },
        false,
      )
    ] in
    ended (test (resolve_connector_config resolve i s))

-- the execution of the instance with that key, if there is one
unfoldable pub find_execution : ℕ → String → List ConnectorExecution → Option ConnectorExecution
find_execution id key [] = none
find_execution id key (e ∷ executions) =
    if e.connector_instance_id == id && str_eq e.idempotency_key key
    then some e
    else find_execution id key executions

module _ (dumps : Fields → String) (hash normalized : String → String) where
  -- `_INGESTION_DISPATCH`, and the call of what it gives
  unfoldable pub ingest : ConnectorResult → ConnectorManifest → Facts → Result Facts
  ingest r m facts =
      if str_eq r.capability "configuration.snapshot" || str_eq r.capability "evidence.collect"
      then ingest_configuration_snapshot dumps hash normalized r m facts
      else if str_eq r.capability "identity.population"
      then (ingest_identity_population dumps hash normalized r m facts >>= λ left. ok left.0)
      else err no_ingestion_path

  -- the result, validated and ingested
  unfoldable pub accept : ConnectorResult → ConnectorManifest → Facts → Result Facts
  accept r m facts = validate_result dumps r m >> ingest r m facts

  -- the body of the `try`
  unfoldable pub try_run :
      (Error → String)
      → Called ConnectorResult
      → ConnectorManifest
      → Facts
      → Called (ConnectorResult × Facts)
  try_run describe (raised breach message) m facts = raised breach message
  try_run describe (returned r) m facts = elim (accept r m facts) [
    | ok facts' ↦ returned (r, facts')
    | err reason ↦ raised (is_breach reason) (describe reason)
  ]

-- who runs it and when
pub record Trigger : Type 0 where
  pub idempotency_key : String
  pub triggered_by : String
  pub actor_id : Option ℕ
  pub started_at : ℕ
  pub finished_at : ℕ

unfoldable pub failed_execution : ConnectorInstance → Trigger → Bool → String → ConnectorExecution
failed_execution i t breach message = record {
  connector_instance_id = i.id;
  idempotency_key = t.idempotency_key;
  status = if breach then "error" else "failure";
  result_summary = "";
  error_summary = first_chars 2000 message;
  triggered_by = t.triggered_by;
  actor_id = t.actor_id;
  started_at = t.started_at;
  finished_at = t.finished_at;
}

unfoldable pub successful_execution :
    ConnectorInstance → Trigger → ConnectorResult → ConnectorExecution
successful_execution i t r = record {
  connector_instance_id = i.id;
  idempotency_key = t.idempotency_key;
  status = "success";
  result_summary = first_chars 2000 (string_append r.capability (string_append ": " r.title));
  error_summary = "";
  triggered_by = t.triggered_by;
  actor_id = t.actor_id;
  started_at = t.started_at;
  finished_at = t.finished_at;
}

-- the rest after the `try`: a failure is written onto the tables that the rollback leaves
unfoldable pub record_execution :
    ConnectorInstance
    → Trigger
    → ConnectorStore
    → ConnectorStore
    → Called (ConnectorResult × Facts)
    → ConnectorStore × ConnectorExecution
record_execution i t base s (raised breach message) =
    let e = failed_execution i t breach message in
    (
      record base {
        executions = base.executions ++ e ∷ [];
        instances =
            Table.modify instance_id i.id
              (λ x. record x {
                last_failure_at = some e.finished_at;
                last_error_summary = e.error_summary;
              })
              base.instances;
      },
      e,
    )
record_execution i t base s (returned (r, facts)) =
    let e = successful_execution i t r in
    (
      record s {
        executions = s.executions ++ e ∷ [];
        instances =
            Table.modify instance_id i.id (λ x. record x { last_success_at = some e.finished_at })
              s.instances;
        facts = facts;
      },
      e,
    )

-- the flush of what a run wrote, which raises out of the run
unfoldable pub flushed :
    ConnectorStore × ConnectorExecution → Result (ConnectorStore × ConnectorExecution)
flushed left = flush_people left.0.facts >>= λ facts. ok left

module _ (dumps : Fields → String) (hash normalized : String → String) (describe : Error → String)
    (resolve : Secret → Result String) where
  -- `run_connector_instance` of the row `i`; the last step is its flush
  unfoldable pub run_connector_instance :
      ConnectorInstance
      → ConnectorManifest
      → (Fields → Called ConnectorResult)
      → Trigger
      → ConnectorStore
      → ConnectorStore
      → Result (ConnectorStore × ConnectorExecution)
  run_connector_instance i m call t base s =
      require i.enabled instance_disabled
      >> elim (find_execution i.id t.idempotency_key s.executions) [
        | some existing ↦ ok (s, existing)
        | none ↦ flushed (
            record_execution i t base s (
              try_run dumps hash normalized describe (call (resolve_connector_config resolve i s)) m
                s.facts))
      ]
