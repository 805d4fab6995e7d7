-- ===== src/Connector/Instances/Schema.antt =====
-- app/connector_lifecycle.py: the tables of connectors, and `_validate_config_against_schema`.
use minigrc.Prelude.Table
use minigrc.Prelude.{
  ℕ, String, List, [], ◌∷◌, Option, none, some, Bool, false, not, ◌||◌, if◌then◌else◌, str_eq,
  is_some, Result, ok, require, missing_secret_field, missing_config_field, ◌>>◌,
}
use minigrc.Audit.{AuditEvent}
use minigrc.Connector.Manifest.{ConfigFieldSpec, is_text}
use minigrc.Connector.Payload.{Fields}
use minigrc.Connector.Ingestion.{Facts, get_field, or_null, is_truthy}

pub record ConnectorInstance : Type 0 where
  pub id : ℕ
  pub connector_id : String
  pub manifest_version : String
  pub display_name : String
  pub enabled : Bool
  pub config : Fields
  pub secret_ref : List (String × ℕ)
  pub last_test_at : Option ℕ
  pub last_test_status : Option String
  pub last_test_error : String
  pub last_success_at : Option ℕ
  pub last_failure_at : Option ℕ
  pub last_error_summary : String
  pub created_by_user_id : ℕ

-- a `Secret` row, as created here
pub record Secret : Type 0 where
  pub id : ℕ
  pub name : String
  pub ciphertext : String
  pub created_by : String

pub record ConnectorExecution : Type 0 where
  pub connector_instance_id : ℕ
  pub idempotency_key : String
  pub status : String
  pub result_summary : String
  pub error_summary : String
  pub triggered_by : String
  pub actor_id : Option ℕ
  pub started_at : ℕ
  pub finished_at : ℕ

-- the parts of the audit's details
pub data ConnectorDetail : Type 0 where
  secret_created : String → ConnectorDetail
  installed_as : String → String → ConnectorDetail
  updated_configuration : String → ConnectorDetail
  switched : Bool → String → ConnectorDetail
  removed_instance : String → String → ConnectorDetail
  tested : Bool → String → ConnectorDetail
  moved : String → String → String → String → List String → List String → ConnectorDetail

pub record ConnectorStore : Type 0 where
  pub instances : List ConnectorInstance
  pub executions : List ConnectorExecution
  pub secrets : List Secret
  pub facts : Facts
  pub audit : List (AuditEvent ConnectorDetail)

abbrev pub instance_id : ConnectorInstance → ℕ
instance_id i = i.id

abbrev pub secret_id : Secret → ℕ
secret_id s = s.id

unfoldable pub get_instance : ℕ → List ConnectorInstance → Option ConnectorInstance
unfolding Table.get
get_instance id rows = Table.get instance_id id rows

-- a dictionary from field names: `d.get(name)`, and `d[name] = value`
module _ {ℓ} {V : Type ℓ} where
  unfoldable pub get_key : String → List (String × V) → Option V
  get_key name [] = none
  get_key name ((key, value) ∷ pairs) = if str_eq key name then some value else get_key name pairs

  unfoldable pub set_key : String → V → List (String × V) → List (String × V)
  set_key name value [] = (name, value) ∷ []
  set_key name value ((key, old) ∷ pairs) =
      if str_eq key name then (key, value) ∷ pairs else (key, old) ∷ set_key name value pairs

-- `d.update(changes)`
unfoldable pub update_keys {ℓ} :
    {V : Type ℓ} → List (String × V) → List (String × V) → List (String × V)
update_keys [] pairs = pairs
update_keys ((name, value) ∷ changes) pairs = update_keys changes (set_key name value pairs)

-- `bool(secret_values.get(name))`
abbrev pub is_filled : Option String → Bool
is_filled none = false
is_filled (some value) = is_text value

-- one turn of the loop of `_validate_config_against_schema`; `existing` are the stored secrets
unfoldable pub check_field :
    Fields → List (String × String) → List (String × ℕ) → ConfigFieldSpec → Result (Unit {0})
check_field config secret_values existing f =
    if f.secret
    then require
        (not f.required
          || is_filled (get_key f.name secret_values)
          || is_some (get_key f.name existing))
        missing_secret_field
    else require (not f.required || is_truthy (or_null (get_field f.name config)))
        missing_config_field

-- `_validate_config_against_schema`
unfoldable pub validate_config_against_schema :
    List ConfigFieldSpec → Fields → List (String × String) → List (String × ℕ) → Result (Unit {0})
validate_config_against_schema [] config secret_values existing = ok tt
validate_config_against_schema (f ∷ fields) config secret_values existing =
    check_field config secret_values existing f
    >> validate_config_against_schema fields config secret_values existing
