-- ===== src/Connector/Payload.antt =====
-- app/connectors/result.py: what a connector yields, and the checks of it against its manifest.
pub mod Secrecy
use Prim.Native.String.{◌++◌ as string_append}
use minigrc.Prelude.{
  ℕ, String, List, [], ◌∷◌, ◌++◌, Option, none, some, Bool, true, false, not, ◌&&◌, ◌||◌, ◌+◌, ◌==◌,
  leb, ltb, if◌then◌else◌, any, all, length, one_of, codes, Result, ok, err, require,
  contract_error, ◌>>=◌, ◌>>◌,
}
use minigrc.Connector.Version.{at_end}
use minigrc.Connector.Manifest.{ConnectorManifest, has_items}

-- a payload's values; a number only counts
mutual
  pub data Json : Type 0 where
    null : Json
    boolean : Bool → Json
    number : ℕ → Json
    text : String → Json
    array : Items → Json
    object : Fields → Json

  pub data Items : Type 0 where
    no_items : Items
    item : Json → Items → Items

  pub data Fields : Type 0 where
    no_fields : Fields
    field : String → Json → Fields → Fields

-- `_SECRET_SHAPED_KEY_TERMS`
abbrev pub secret_shaped_key_terms : List String
secret_shaped_key_terms =
    "token" ∷ "secret" ∷ "password" ∷ "passwd" ∷ "access_key" ∷ "private_key" ∷ "api_key"
    ∷ "refresh_token" ∷ []

-- the letter that a character matches under `re.IGNORECASE`: an ASCII capital, the long s (383)
-- and the Kelvin sign (8490) each match a small letter
unfoldable pub fold_case : ℕ → ℕ
fold_case c =
    if leb b'A' c && leb c b'Z'
    then c + 32
    else if c == 383
    then b's'
    else if c == 8490
    then b'k'
    else c

-- a term, and then the end
unfoldable pub is_term : List ℕ → List ℕ → Bool
is_term [] s = at_end s
is_term (t ∷ term) [] = false
is_term (t ∷ term) (c ∷ s) = fold_case c == t && is_term term s

abbrev pub is_secret_term : List ℕ → Bool
is_secret_term s = any (λ term. is_term (codes term) s) secret_shaped_key_terms

-- an underscore somewhere with a term after it
unfoldable pub has_secret_end : List ℕ → Bool
has_secret_end [] = false
has_secret_end (c ∷ s) = (c == b'_' && is_secret_term s) || has_secret_end s

-- `_SECRET_SHAPED_KEY_RE.search(key)`
unfoldable pub is_secret_shaped : String → Bool
is_secret_shaped key = is_secret_term (codes key) || has_secret_end (codes key)

-- `_find_secret_shaped_keys`: the paths that it reports
unfoldable mutual
  pub find_secret_shaped_keys : Fields → String → List String
  find_secret_shaped_keys no_fields prefix = []
  find_secret_shaped_keys (field key value fields) prefix =
      let path = string_append prefix key in
      (if is_secret_shaped key then path ∷ [] else [])
      ++ (find_in_value value (string_append path ".") ++ find_secret_shaped_keys fields prefix)

  pub find_in_value : Json → String → List String
  find_in_value (object fields) prefix = find_secret_shaped_keys fields prefix
  find_in_value _ prefix = []

pub record ConnectorProvenance : Type 0 where
  pub source_connection_id : Option String
  pub collected_at : ℕ
  pub source_object_id : Option String
  pub source_revision_id : Option String
  pub source_modified_at : Option ℕ
  pub collector_version : String

pub record ConnectorResult : Type 0 where
  pub capability : String
  pub check_key : String
  pub status : String
  pub title : String
  pub summary : String
  pub provenance : ConnectorProvenance
  pub normalized_payload : Fields

-- `EVIDENCE_STATUSES`
abbrev pub evidence_statuses : List String
evidence_statuses = "pass" ∷ "fail" ∷ "warning" ∷ "unknown" ∷ []

abbrev pub max_normalized_payload_chars : ℕ
max_normalized_payload_chars = 20000

module _ (dumps : Fields → String) where
  -- `validate_result`: `dumps` is `json.dumps` with sorted keys and `default=str`
  unfoldable pub validate_result : ConnectorResult → ConnectorManifest → Result (Unit {0})
  validate_result r m = do
    require (one_of m.capabilities r.capability) contract_error
    require (one_of evidence_statuses r.status) contract_error
    require (leb (length (codes (dumps r.normalized_payload))) max_normalized_payload_chars)
        contract_error
    require (not (has_items (find_secret_shaped_keys r.normalized_payload ""))) contract_error
