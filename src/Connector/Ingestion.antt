-- ===== src/Connector/Ingestion.antt =====
-- app/connectors/ingestion.py: how an accepted result becomes evidence or people.
--
-- A person is found by `email`, which is unique in the schema; ids and the columns that ingestion
-- does not touch are left out. `dumps` is `json.dumps` with sorted keys and `default=str`, `hash`
-- SHA-256 of UTF-8, and `normalized` what `.strip().lower()` makes of a text. The names and external
-- ids of a population are taken to be texts, numbers, truth values or null, which the driver binds.
-- Sessions do not flush by themselves (`autoflush=False`, app/db.py): the SELECT of the loop does not
-- see the rows that it has added, which the database first meets at the caller's flush,
-- `flush_people`.
pub mod Rows
pub mod Population
pub mod Synced
pub mod People
use minigrc.Prelude.{
  is_some, integrity_error, ℕ, String, List, [], ◌∷◌, ◌++◌, Option, none, some, Bool, true, false,
  not, ◌||◌, ◌+◌, ◌==◌, if◌then◌else◌, str_eq, Result, ok, err, require, key_error, attribute_error,
  type_error, ◌>>=◌, ◌>>◌,
}
use minigrc.Jobs.{first_chars}
use minigrc.Connector.Manifest.{ConnectorManifest, is_text}
use minigrc.Connector.Payload.{
  Json, null, boolean, number, text, array, object, Items, no_items, item, Fields, no_fields, field,
  ConnectorResult, ConnectorProvenance, validate_result,
}

pub record EvidenceSnapshot : Type 0 where
  pub source_type : String
  pub source_connection_id : Option String
  pub check_key : String
  pub status : String
  pub title : String
  pub summary : String
  pub collected_at : ℕ
  pub collector_version : String
  pub normalized_payload_json : String
  pub raw_payload_sha256 : String

pub record PersonRow : Type 0 where
  pub email : String
  pub display_name : Json
  pub employment_status : String
  pub source : String
  pub external_id : Json
  pub last_synced_at : Option ℕ

-- `payload.get(key)`
unfoldable pub get_field : String → Fields → Option Json
get_field key no_fields = none
get_field key (field k value fields) = if str_eq k key then some value else get_field key fields

-- `d.get(key)`, with `None` for a key that is not there
abbrev pub or_null : Option Json → Json
or_null none = null
or_null (some value) = value

-- `bool(value)`
abbrev pub is_truthy : Json → Bool
is_truthy null = false
is_truthy (boolean b) = b
is_truthy (number n) = not (n == 0)
is_truthy (text s) = is_text s
is_truthy (array no_items) = false
is_truthy (array (item value items)) = true
is_truthy (object no_fields) = false
is_truthy (object (field key value rest)) = true

unfoldable pub characters : String → Items
characters String.[] = no_items
characters (String.◌∷◌ c s) = item (text (String.◌∷◌ c "")) (characters s)

unfoldable pub keys_of : Fields → Items
keys_of no_fields = no_items
keys_of (field key value fields) = item (text key) (keys_of fields)

-- what `for user in payload.get("users", [])` goes through
unfoldable pub users_of : Option Json → Result Items
users_of none = ok no_items
users_of (some (array users)) = ok users
users_of (some (text s)) = ok (characters s)
users_of (some (object fields)) = ok (keys_of fields)
users_of (some _) = err type_error

unfoldable pub count_items : Items → ℕ
count_items no_items = 0
count_items (item value items) = 1 + count_items items

-- `value.strip().lower()`
abbrev pub normalized_text : (String → String) → Json → Result String
normalized_text normalized (text s) = ok (normalized s)
normalized_text normalized _ = err attribute_error

unfoldable pub person_with : String → List PersonRow → Option PersonRow
person_with email [] = none
person_with email (p ∷ people) = if str_eq p.email email then some p else person_with email people

-- attributes of the row with that email are written
unfoldable pub write_person : String → (PersonRow → PersonRow) → List PersonRow → List PersonRow
write_person email f [] = []
write_person email f (p ∷ people) =
    if str_eq p.email email then f p ∷ people else p ∷ write_person email f people

-- the rows of people that were there before the loop, the rows that it has added, and the counts
pub record Sync : Type 0 where
  pub people : List PersonRow
  pub added : List PersonRow
  pub created : ℕ
  pub updated : ℕ

abbrev pub status_of : Fields → String
status_of user = if is_truthy (or_null (get_field "suspended" user)) then "suspended" else "active"

-- a new row: a null from `user.get("display_name", "")` makes way for the column's default
unfoldable pub new_person : String → ℕ → String → Fields → PersonRow
new_person source at email user = record {
  email = email;
  display_name = elim (get_field "display_name" user) [
    | none ↦ text ""
    | some null ↦ text ""
    | some name ↦ name
  ];
  employment_status = status_of user;
  source = source;
  external_id = or_null (get_field "external_id" user);
  last_synced_at = some at;
}

-- the attributes of a known person; the name stays where the population has none
unfoldable pub synced_person : String → ℕ → Fields → PersonRow → PersonRow
synced_person source at user p = record p {
  display_name =
      let name = or_null (get_field "display_name" user) in
      if is_truthy name then name else p.display_name;
  employment_status = status_of user;
  source = source;
  external_id = or_null (get_field "external_id" user);
  last_synced_at = some at;
}

-- one user whose email is not empty
unfoldable pub upsert_person : String → ℕ → String → Fields → Sync → Sync
upsert_person source at email user s = elim (person_with email s.people) [
  | none ↦ record s {
    added = s.added ++ new_person source at email user ∷ [];
    created = s.created + 1;
  }
  | some p ↦ record s {
    people = write_person email (synced_person source at user) s.people;
    updated = s.updated + 1;
  }
]

-- `user["email"]`, and the rest of the loop's body
unfoldable pub sync_user : (String → String) → String → ℕ → Json → Sync → Result Sync
sync_user normalized source at (object user) s = elim (get_field "email" user) [
  | none ↦ err key_error
  | some value ↦ normalized_text normalized value >>= λ email.
      ok (if is_text email then upsert_person source at email user s else s)
]
sync_user normalized source at _ s = err type_error

unfoldable pub sync_users : (String → String) → String → ℕ → Items → Sync → Result Sync
sync_users normalized source at no_items s = ok s
sync_users normalized source at (item user users) s =
    sync_user normalized source at user s >>= sync_users normalized source at users

-- two rows with one email
unfoldable pub has_repeated_email : List PersonRow → Bool
has_repeated_email [] = false
has_repeated_email (p ∷ people) = is_some (person_with p.email people) || has_repeated_email people

-- what ingestion writes to
pub record Facts : Type 0 where
  pub snapshots : List EvidenceSnapshot
  pub people : List PersonRow

pub record SyncCounts : Type 0 where
  pub created : ℕ
  pub updated : ℕ
  pub total : ℕ

-- the flush of the caller: the unique constraint on `Person.email`
unfoldable pub flush_people : Facts → Result Facts
flush_people s = if has_repeated_email s.people then err integrity_error else ok s

module _ (dumps : Fields → String) (hash normalized : String → String) where
  -- `ingest_configuration_snapshot`
  unfoldable pub ingest_configuration_snapshot :
      ConnectorResult → ConnectorManifest → Facts → Result Facts
  ingest_configuration_snapshot r m s = do
    validate_result dumps r m
    let canonical_json = dumps r.normalized_payload
    ok (record s {
      snapshots =
          s.snapshots
          ++ record {
            source_type = m.connector_id;
            source_connection_id = r.provenance.source_connection_id;
            check_key = r.check_key;
            status = r.status;
            title = r.title;
            summary = first_chars 2000 r.summary;
            collected_at = r.provenance.collected_at;
            collector_version = r.provenance.collector_version;
            normalized_payload_json = canonical_json;
            raw_payload_sha256 = hash canonical_json;
          }
            ∷ [];
    })

  -- `ingest_identity_population`
  unfoldable pub ingest_identity_population :
      ConnectorResult → ConnectorManifest → Facts → Result (Facts × SyncCounts)
  ingest_identity_population r m s = do
    validate_result dumps r m
    users ← users_of (get_field "users" r.normalized_payload)
    sync ←
        sync_users normalized m.connector_id r.provenance.collected_at users
          (record { people = s.people; added = []; created = 0; updated = 0 })
    ok (
      record s { people = sync.people ++ sync.added },
      record { created = sync.created; updated = sync.updated; total = count_items users },
    )
