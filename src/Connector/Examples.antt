-- ===== src/Connector/Examples.antt =====
-- A directory connector with one secret, and runs of it.
use minigrc.Connector.Ingestion.Population.{all_users}
use minigrc.Prelude.Table
use minigrc.Prelude.{
  ◌>>=◌, integrity_error, err, ◌↔◌, ◌==◌, ◌⊎◌, if◌then◌else◌, is_ok, ok_of, ℕ, String, [], ◌∷◌,
  none, some, Bool, true, false, ◌≡◌, refl, Error, Result, ok, is_space, codes,
}
use minigrc.Access.{User, admin, active, local}
use minigrc.Jobs.{first_chars}
use minigrc.Audit.{record_audit_event}
use minigrc.Connector.Version.{
  Semver, digit_value, digit_from, skip_digits, some_digits, full_stop, number_and_stop, is_semver,
  split_stops, rest_of_int, read_int, count_digits, int_of, version_of_parts, semver_tuple,
  version_lt,
}
use minigrc.Connector.Manifest.{
  ConnectorManifest, check_fields, validate_manifest, check_compatibility,
}
use minigrc.Connector.Payload.{
  Json, text, array, object, Items, no_items, item, Fields, no_fields, field, ConnectorResult,
  validate_result, fold_case, is_term, has_secret_end, is_secret_shaped, find_secret_shaped_keys,
}
use minigrc.Connector.Payload.Secrecy.{validate_result-Conforms, Conforms}
use minigrc.Connector.Ingestion.{
  has_repeated_email, flush_people, SyncCounts, Facts, get_field, users_of, count_items,
  person_with, write_person, new_person, synced_person, upsert_person, sync_user, sync_users,
  ingest_configuration_snapshot, ingest_identity_population,
}
use minigrc.Connector.Ingestion.People.{are_clashing, IsIngested, ingestion_refines}
use minigrc.Connector.Instances.{
  is_filled, ConnectorExecution, ConnectorInstance, ConnectorStore, Secret, new_instance,
  get_instance, get_key, set_key, update_keys, check_field, validate_config_against_schema,
  create_encrypted_secret, store_secret_refs, update_connector_instance_config, resolve_refs,
  resolve_connector_config, set_field,
}
use minigrc.Connector.Instances.Configured.{IsConfigured, update-IsConfigured}
use minigrc.Connector.Runs.{
  flushed, Called, returned, raised, Trigger, find_execution, ingest, accept, try_run,
  failed_execution, successful_execution, record_execution, run_connector_instance, is_breach,
}
use minigrc.Connector.Runs.Ledger.{IsLeft, run_facts, run_once}
use minigrc.Connector.Upgrade.{
  plan_connector_instance_upgrade, apply_connector_instance_upgrade, direction_of, not_in,
  same_texts,
}
use minigrc.Connector.Upgrade.Forward.{Move, move, moves, versions_go_forward}

abbrev directory_manifest : String → ConnectorManifest
directory_manifest version = record {
  connector_id = "directory";
  display_name = "Directory";
  publisher = "minigrc";
  version = version;
  capabilities = "identity.population" ∷ [];
  required_permissions = "users.read" ∷ [];
  supported_auth_methods = [];
  config_schema =
      record { name = "domain"; type = "str"; required = true; secret = false }
      ∷ record { name = "credential"; type = "str"; required = true; secret = true }
      ∷ [];
  min_core_contract_version = 1;
  max_core_contract_version = none;
}

abbrev manifest : ConnectorManifest
manifest = directory_manifest "1.9.0"

-- a feed that is accepted for its version
validated_manifest : validate_manifest (directory_manifest "1.10.0") ≡ ok tt
unfolding validate_manifest check_fields is_semver number_and_stop some_digits skip_digits full_stop
    digit_value digit_from
validated_manifest = refl

read_version : semver_tuple (codes "1.10.0") ≡ ok (record { major = 1; minor = 10; patch = 0 })
unfolding semver_tuple version_of_parts split_stops int_of read_int rest_of_int count_digits
    digit_value digit_from is_space
read_version = refl

abbrev ada : User
ada = record {
  id = 1;
  email = "ada@example.org";
  password_hash = "";
  role = admin;
  status = active;
  role_source = local;
  google_subject = none;
  person_id = none;
  pii_redacted_at = none;
}

abbrev dumped : Fields → String
dumped payload = "{}"

abbrev unchanged : String → String
unchanged s = s

abbrev described : Error → String
described reason = "refused"

abbrev resolved : Secret → Result String
resolved secret = ok secret.ciphertext

abbrev config : Fields
config = field "domain" (text "example.org") no_fields

abbrev instance_at : String → Bool → ConnectorInstance
instance_at version enabled =
    record (new_instance 7 (directory_manifest version) "People" config (("credential", 3) ∷ [])
      ada) { enabled = enabled }

abbrev store_with : ConnectorInstance → ConnectorStore
store_with i = record {
  instances = i ∷ [];
  executions = [];
  secrets =
      record { id = 3; name = "old"; ciphertext = "hunter2"; created_by = "ada@example.org" } ∷ [];
  facts = record { snapshots = []; people = [] };
  audit = [];
}

abbrev user_named : String → String → Json
user_named email name =
    object (field "email" (text email) (field "display_name" (text name) no_fields))

abbrev population : Items
population =
    item (user_named "bo@example.org" "Bo")
      (item (user_named "" "Nobody") (item (user_named "al@example.org" "Al") no_items))

abbrev people_result : ConnectorResult
people_result = record {
  capability = "identity.population";
  check_key = "people";
  status = "pass";
  title = "People";
  summary = "";
  provenance = record {
    source_connection_id = none;
    collected_at = 90;
    source_object_id = none;
    source_revision_id = none;
    source_modified_at = none;
    collector_version = "1";
  };
  normalized_payload = field "users" (array population) no_fields;
}

-- what the runs unfold
connector_machinery : Unit {0}
unfolding Table.get Table.modify Table.insert validate_result fold_case is_term has_secret_end
    is_secret_shaped find_secret_shaped_keys get_field users_of count_items person_with write_person
    new_person synced_person upsert_person sync_user sync_users ingest_configuration_snapshot
    ingest_identity_population get_instance get_key set_key update_keys check_field
    validate_config_against_schema create_encrypted_secret store_secret_refs
    update_connector_instance_config resolve_refs resolve_connector_config set_field find_execution
    ingest accept try_run failed_execution successful_execution record_execution flushed
    flush_people has_repeated_email run_connector_instance is_breach first_chars record_audit_event
connector_machinery = tt

validate_result-Conforms_example :
    (validate_result dumped people_result manifest ≡ ok tt) ↔ Conforms dumped people_result manifest
validate_result-Conforms_example = validate_result-Conforms dumped people_result manifest

-- A key inside a list is not looked at, although one inside an object is.
hidden_in_list :
    find_secret_shaped_keys
      (field "users"
        (array (item (object (field "api_token" (text "t") no_fields)) no_items))
        no_fields)
      ""
    ≡ []
unfolding connector_machinery
hidden_in_list = refl

found_in_object :
    find_secret_shaped_keys
      (field "user" (object (field "api_Token" (text "t") no_fields)) no_fields)
      ""
    ≡ "user.api_Token" ∷ []
unfolding connector_machinery
found_in_object = refl

valid_people : validate_result dumped people_result manifest ≡ ok tt
unfolding connector_machinery
valid_people = refl

abbrev nobody : Facts
nobody = record { snapshots = []; people = [] }

abbrev ingested : Result (Facts × SyncCounts)
ingested = ingest_identity_population dumped unchanged unchanged people_result manifest nobody

abbrev are_twice : Bool
are_twice = are_clashing dumped unchanged unchanged people_result manifest nobody population

abbrev IngestedExample : Type 0
IngestedExample =
    ((all_users population ≡ true)
      × (are_twice ≡ false)
      × (left : Facts × SyncCounts) × (ingested ≡ ok left)
      × (flush_people left.0 ≡ ok left.0)
      × IsIngested dumped unchanged unchanged people_result manifest nobody population left)
    ⊎ ((all_users population ≡ true)
        × (are_twice ≡ true)
        × (left : Facts × SyncCounts) × (ingested ≡ ok left)
        × (flush_people left.0 ≡ err integrity_error))
    ⊎ ((all_users population ≡ false) × (is_ok ingested ≡ false))

listed_people : users_of (get_field "users" people_result.normalized_payload) ≡ ok population
unfolding connector_machinery
listed_people = refl

nobody_twice : has_repeated_email nobody.people ≡ false
unfolding connector_machinery
nobody_twice = refl

ingestion_refines_example : IngestedExample
ingestion_refines_example =
    ingestion_refines dumped unchanged unchanged people_result manifest nobody population
      valid_people listed_people nobody_twice

-- one new email twice: the loop adds two rows, and the flush raises
abbrev twice_result : ConnectorResult
twice_result = record people_result {
  normalized_payload =
      field "users"
        (array (
          item (user_named "bo@example.org" "Bo")
            (item (user_named "bo@example.org" "Bob") no_items)))
        no_fields;
}

twice_raises :
    (ingest_identity_population dumped unchanged unchanged twice_result manifest nobody >>= λ left.
    flush_people left.0)
    ≡ err integrity_error
unfolding connector_machinery
twice_raises = refl

abbrev yields_people : Fields → Called ConnectorResult
yields_people resolved_config = returned people_result

abbrev trigger : Trigger
trigger = record {
  idempotency_key = "monday";
  triggered_by = "manual";
  actor_id = none;
  started_at = 100;
  finished_at = 101;
}

abbrev enabled_instance : ConnectorInstance
enabled_instance = instance_at "1.9.0" true

abbrev before : ConnectorStore
before = store_with enabled_instance

abbrev run_example : Result (ConnectorStore × ConnectorExecution)
run_example =
    run_connector_instance dumped unchanged unchanged described resolved enabled_instance manifest
      yields_people trigger before before

run_returns : is_ok run_example ≡ true
unfolding connector_machinery
run_returns = refl

abbrev run_left : (left : ConnectorStore × ConnectorExecution) × (run_example ≡ ok left)
run_left = ok_of run_example run_returns

abbrev RunFacts : ConnectorStore × ConnectorExecution → Type 0
RunFacts left =
    (true ≡ true)
    × (((find_execution 7 "monday" [] ≡ some left.1) × (left.0 ≡ before))
        ⊎ IsLeft dumped unchanged unchanged described resolved manifest (returned people_result)
            before before left)

run_facts_example : RunFacts run_left.0
run_facts_example =
    run_facts dumped unchanged unchanged described resolved enabled_instance manifest yields_people
      trigger before before run_left.0 run_left.1

abbrev breaks : Fields → Called ConnectorResult
breaks resolved_config = raised false "timeout"

run_once_example :
    run_connector_instance dumped unchanged unchanged described resolved enabled_instance manifest
      breaks trigger before run_left.0.0
    ≡ ok run_left.0
run_once_example =
    run_once dumped unchanged unchanged described resolved enabled_instance manifest yields_people
      trigger before before run_left.0 enabled_instance manifest breaks trigger before refl
      run_left.1 refl refl refl

abbrev update_example : Result (ConnectorStore × ConnectorInstance)
update_example =
    update_connector_instance_config (λ p. ok p) (λ name. 4) (λ name. "x") enabled_instance manifest
      (field "domain" (text "example.com") no_fields) [] ada before

update_returns : is_ok update_example ≡ true
unfolding connector_machinery
update_returns = refl

abbrev updated : (left : ConnectorStore × ConnectorInstance) × (update_example ≡ ok left)
updated = ok_of update_example update_returns

enabled_found : get_instance 7 before.instances ≡ some enabled_instance
unfolding connector_machinery
enabled_found = refl

abbrev UpdatedExample : ConnectorStore → ConnectorInstance → Type 0
UpdatedExample s' i' =
    ((j : ℕ)
      → get_instance j s'.instances ≡ (if 7 == j then some i' else get_instance j before.instances))
    × (s'.executions ≡ [])
    × (s'.facts ≡ before.facts)
    × (i' ≡ record enabled_instance {
      config = field "domain" (text "example.com") no_fields;
      secret_ref = i'.secret_ref;
    })
    × ((k : String)
        → is_filled (get_key k []) ≡ false
        → get_key k i'.secret_ref ≡ get_key k (("credential", 3) ∷ []))
    × IsConfigured manifest i'

update-IsConfigured_example : UpdatedExample updated.0.0 updated.0.1
update-IsConfigured_example =
    update-IsConfigured (λ p. ok p) (λ name. 4) (λ name. "x") manifest
      (field "domain" (text "example.com") no_fields) [] ada before enabled_instance updated.0.0
      updated.0.1 enabled_found updated.1

abbrev up : Move
up = record {
  from = manifest;
  reviewed = directory_manifest "1.10.0";
  to = directory_manifest "1.10.0";
  actor = ada;
}

abbrev down : Move
down = record {
  from = directory_manifest "1.10.0";
  reviewed = manifest;
  to = manifest;
  actor = ada;
}

abbrev IsForward : Type 0
IsForward =
    (w : Semver) × (semver_tuple
        (codes (moves (up ∷ down ∷ []) (before, enabled_instance)).1.manifest_version)
      ≡ ok w)
    × (version_lt w (record { major = 1; minor = 9; patch = 0 }) ≡ false)

first_version : semver_tuple (codes "1.9.0") ≡ ok (record { major = 1; minor = 9; patch = 0 })
unfolding semver_tuple version_of_parts split_stops int_of read_int rest_of_int count_digits
    digit_value digit_from is_space
first_version = refl

versions_go_forward_example : IsForward
versions_go_forward_example =
    versions_go_forward (up ∷ down ∷ []) before enabled_instance
      (record { major = 1; minor = 9; patch = 0 }) first_version

-- the first move is made, and the second refused
moved_up : (moves (up ∷ down ∷ []) (before, enabled_instance)).1 ≡ instance_at "1.10.0" true
unfolding moves move plan_connector_instance_upgrade apply_connector_instance_upgrade direction_of
    version_lt same_texts not_in validate_manifest check_compatibility check_fields is_semver
    number_and_stop some_digits skip_digits full_stop semver_tuple version_of_parts split_stops
    int_of read_int rest_of_int count_digits digit_value digit_from is_space
moved_up = refl
