-- ===== src/Connector/Manifest.antt =====
-- app/connectors/manifest.py: what a connector declares, and the checks of it.
pub mod Validity
use minigrc.Prelude.{
  ℕ, String, List, [], ◌∷◌, Option, none, some, Bool, true, false, not, ◌||◌, ltb, if◌then◌else◌,
  any, all, one_of, codes, Result, ok, err, require, contract_error, ◌>>=◌, ◌>>◌,
}
use minigrc.Connector.Version.{is_semver}

abbrev pub core_contract_version : ℕ
core_contract_version = 1

-- the keys of `CAPABILITIES`
abbrev pub known_capabilities : List String
known_capabilities =
    "file.capture" ∷ "evidence.collect" ∷ "configuration.snapshot" ∷ "identity.population"
    ∷ "identity.groups" ∷ "asset.inventory" ∷ "vulnerability.findings" ∷ "notification.send" ∷ []

-- `_CONFIG_FIELD_TYPES`
abbrev pub config_field_types : List String
config_field_types = "str" ∷ "bool" ∷ "int" ∷ []

pub record ConfigFieldSpec : Type 0 where
  pub name : String
  pub type : String
  pub required : Bool
  pub secret : Bool

pub record ConnectorManifest : Type 0 where
  pub connector_id : String
  pub display_name : String
  pub publisher : String
  pub version : String
  pub capabilities : List String
  pub required_permissions : List String
  pub supported_auth_methods : List String
  pub config_schema : List ConfigFieldSpec
  pub min_core_contract_version : ℕ
  pub max_core_contract_version : Option ℕ

-- `bool(text)`
abbrev pub is_text : String → Bool
is_text String.[] = false
is_text (String.◌∷◌ c s) = true

abbrev pub has_items {ℓ} : {A : Type ℓ} → List A → Bool
has_items [] = false
has_items (x ∷ xs) = true

-- the loop over `config_schema`, with the names that were seen
unfoldable pub check_fields : List String → List ConfigFieldSpec → Result (Unit {0})
check_fields seen [] = ok tt
check_fields seen (f ∷ fields) =
    let rest = check_fields (f.name ∷ seen) fields in
    require (not (one_of seen f.name)) contract_error
    >> (require (one_of config_field_types f.type) contract_error >> rest)

-- `validate_manifest`
unfoldable pub validate_manifest : ConnectorManifest → Result (Unit {0})
validate_manifest m = do
  require (is_text m.connector_id) contract_error
  require (is_semver (codes m.version)) contract_error
  require (has_items m.capabilities) contract_error
  require (all (one_of known_capabilities) m.capabilities) contract_error
  check_fields [] m.config_schema

-- `maximum is not None and version > maximum`
abbrev pub is_above : ℕ → Option ℕ → Bool
is_above version none = false
is_above version (some maximum) = ltb maximum version

-- `check_compatibility`
unfoldable pub check_compatibility : ConnectorManifest → ℕ → Result (Unit {0})
check_compatibility m version = do
  require (not (ltb version m.min_core_contract_version)) contract_error
  require (not (is_above version m.max_core_contract_version)) contract_error
