-- ===== src/Connector/Instances.antt =====
-- app/connector_lifecycle.py: installed connectors, their configuration and their secrets.
--
-- The JSON columns hold typed values: the configuration is an object, and the secret references are
-- pairs of a field's name and a secret's id. `encrypt` and `resolve` stand for app/crypto.py, and
-- for the environment of the process. For each operation `fresh` gives the random ids: that of the
-- secret of a field, and `salt` the text of the one in the secret's name.
mod Schema
pub mod Configured
mod References
pub use Schema.*
unfoldable pub use Schema.{
  get_instance, get_key, set_key, update_keys, check_field, validate_config_against_schema,
}
use Prim.Native.String.{◌++◌ as string_append}
use minigrc.Prelude.Table
use minigrc.Prelude.{
  ℕ, String, List, [], ◌∷◌, ◌++◌, Option, none, some, Bool, true, false, not, ◌||◌, ◌&&◌, ◌+◌, ◌==◌,
  if◌then◌else◌, str_eq, is_some, Result, ok, err, require, missing_secret_field,
  missing_config_field, ◌>>=◌, ◌>>◌,
}
use minigrc.Connector.Instances.Schema.{
  ConnectorInstance, Secret, ConnectorExecution, ConnectorDetail, ConnectorStore, instance_id,
  secret_id, get_key, set_key, update_keys, validate_config_against_schema, secret_created,
  installed_as, updated_configuration, switched, removed_instance,
}
use minigrc.Audit.{AuditEvent, record_audit_event}
use minigrc.Access.{User}
use minigrc.Connector.Manifest.{
  ConnectorManifest, ConfigFieldSpec, is_text, validate_manifest, check_compatibility,
  core_contract_version,
}
use minigrc.Connector.Payload.{Json, null, text, Fields, no_fields, field}
use minigrc.Connector.Ingestion.{Facts, get_field, or_null, is_truthy}

abbrev pub log_instance :
    ℕ
    → String
    → ConnectorDetail
    → User
    → List (AuditEvent ConnectorDetail)
    → List (AuditEvent ConnectorDetail)
log_instance id action detail actor audit =
    record_audit_event "connector_instance" id action detail actor.email audit

abbrev pub secret_name : String → String → String → String
secret_name connector_id name salt =
    string_append "connector:"
      (string_append connector_id (string_append ":" (string_append name (string_append ":" salt))))

module _ (encrypt : String → Result String) where
  -- `create_encrypted_secret` of app/secrets.py
  unfoldable pub create_encrypted_secret :
      ℕ → String → String → User → ConnectorStore → Result ConnectorStore
  create_encrypted_secret id name plaintext actor s = do
    ciphertext ← encrypt plaintext
    secrets ←
        Table.insert secret_id
          (record { id = id; name = name; ciphertext = ciphertext; created_by = actor.email })
          s.secrets
    ok (record s {
      secrets = secrets;
      audit = record_audit_event "secret" id "create" (secret_created name) actor.email s.audit;
    })

abbrev pub new_instance :
    ℕ → ConnectorManifest → String → Fields → List (String × ℕ) → User → ConnectorInstance
new_instance id m display_name config secret_ref actor = record {
  id = id;
  connector_id = m.connector_id;
  manifest_version = m.version;
  display_name = display_name;
  enabled = false;
  config = config;
  secret_ref = secret_ref;
  last_test_at = none;
  last_test_status = none;
  last_test_error = "";
  last_success_at = none;
  last_failure_at = none;
  last_error_summary = "";
  created_by_user_id = actor.id;
}

module _ (encrypt : String → Result String) (fresh : String → ℕ) (salt : String → String) where
  -- `_store_secret_refs` over the rest of the schema, with the references that were made
  unfoldable pub store_secret_refs :
      String
      → List ConfigFieldSpec
      → List (String × String)
      → User
      → List (String × ℕ)
      → ConnectorStore
      → Result (List (String × ℕ) × ConnectorStore)
  store_secret_refs connector_id [] secret_values actor refs s = ok (refs, s)
  store_secret_refs connector_id (f ∷ fields) secret_values actor refs s =
      elim (get_key f.name secret_values) [
        | none ↦ store_secret_refs connector_id fields secret_values actor refs s
        | some value ↦ elim (f.secret && is_text value) [
          | false ↦ store_secret_refs connector_id fields secret_values actor refs s
          | true ↦
              create_encrypted_secret encrypt (fresh f.name)
                (secret_name connector_id f.name (salt f.name)) value actor s
              >>= λ s'.
                  store_secret_refs connector_id fields secret_values actor
                    (set_key f.name (fresh f.name) refs) s'
        ]
      ]

  -- `install_connector_instance`, the new row's id first
  unfoldable pub install_connector_instance :
      ℕ
      → ConnectorManifest
      → String
      → Fields
      → List (String × String)
      → User
      → ConnectorStore
      → Result (ConnectorStore × ConnectorInstance)
  install_connector_instance id m display_name config secret_values actor s = do
    validate_manifest m
    check_compatibility m core_contract_version
    validate_config_against_schema m.config_schema config secret_values []
    (secret_ref, s') ← store_secret_refs m.connector_id m.config_schema secret_values actor [] s
    let i = new_instance id m display_name config secret_ref actor
    instances ← Table.insert instance_id i s'.instances
    ok (
      record s' {
        instances = instances;
        audit = log_instance id "install" (installed_as m.connector_id display_name) actor s'.audit;
      },
      i,
    )

  -- `update_connector_instance_config` of the row `i`
  unfoldable pub update_connector_instance_config :
      ConnectorInstance
      → ConnectorManifest
      → Fields
      → List (String × String)
      → User
      → ConnectorStore
      → Result (ConnectorStore × ConnectorInstance)
  update_connector_instance_config i m config secret_values actor s = do
    validate_config_against_schema m.config_schema config secret_values i.secret_ref
    (new_secret_ref, s') ← store_secret_refs m.connector_id m.config_schema secret_values actor [] s
    let secret_ref = update_keys new_secret_ref i.secret_ref
    ok (
      record s' {
        instances =
            Table.modify instance_id i.id
              (λ x. record x { config = config; secret_ref = secret_ref }) s'.instances;
        audit =
            log_instance i.id "update_config" (updated_configuration i.display_name) actor s'.audit;
      },
      record i { config = config; secret_ref = secret_ref },
    )

-- `set_connector_instance_enabled`
unfoldable pub set_connector_instance_enabled :
    ConnectorInstance → Bool → User → ConnectorStore → ConnectorStore
set_connector_instance_enabled i enabled actor s = record s {
  instances = Table.modify instance_id i.id (λ x. record x { enabled = enabled }) s.instances;
  audit =
      log_instance i.id (if enabled then "enable" else "disable") (switched enabled i.display_name)
        actor s.audit;
}

-- `session.delete` of each execution of the instance
unfoldable pub delete_executions : ℕ → List ConnectorExecution → List ConnectorExecution
delete_executions id [] = []
delete_executions id (e ∷ executions) =
    let rest = delete_executions id executions in
    if e.connector_instance_id == id then rest else e ∷ rest

-- `session.delete` of the instance
unfoldable pub delete_instance : ℕ → List ConnectorInstance → List ConnectorInstance
delete_instance id [] = []
delete_instance id (i ∷ instances) =
    if i.id == id then instances else i ∷ delete_instance id instances

-- `remove_connector_instance`
unfoldable pub remove_connector_instance :
    ConnectorInstance → User → ConnectorStore → ConnectorStore
remove_connector_instance i actor s = record s {
  executions = delete_executions i.id s.executions;
  instances = delete_instance i.id s.instances;
  audit = log_instance i.id "remove" (removed_instance i.display_name i.connector_id) actor s.audit;
}

-- `config[name] = value`
unfoldable pub set_field : String → Json → Fields → Fields
set_field name value no_fields = field name value no_fields
set_field name value (field key old rest) =
    if str_eq key name then field key value rest else field key old (set_field name value rest)

-- the value of a field whose secret was found
abbrev pub resolved_value : Result String → Json
resolved_value (ok plaintext) = text plaintext
resolved_value (err reason) = null

module _ (resolve : Secret → Result String) where
  -- the loop of `resolve_connector_config`
  unfoldable pub resolve_refs : List Secret → List (String × ℕ) → Fields → Fields
  resolve_refs secrets [] config = config
  resolve_refs secrets ((name, id) ∷ refs) config =
      let rest = resolve_refs secrets refs in
      elim (Table.get secret_id id secrets) [
        | none ↦ rest config
        | some secret ↦ rest (set_field name (resolved_value (resolve secret)) config)
      ]

  -- `resolve_connector_config`
  unfoldable pub resolve_connector_config : ConnectorInstance → ConnectorStore → Fields
  resolve_connector_config i s = resolve_refs s.secrets i.secret_ref i.config
