-- ===== src/Connector/Manifest/Validity.antt =====
-- Validation accepts exactly the well-formed manifests.
use minigrc.Prelude.{
  ap, ◌↔◌, Bool-cases, all, contract_error, ok, require-eq-ok, inl, inr, not, String, List, [], ◌∷◌,
  true, false, ◌≡◌, ◌≢◌, refl, All, one_of, codes, eq_iff, arith,
}
use minigrc.Connector.Version.{is_semver}
use minigrc.Connector.Manifest.{
  validate_manifest, check_fields, has_items, is_text, ConnectorManifest, ConfigFieldSpec,
  known_capabilities, config_field_types,
}

-- a name is none of those
abbrev pub IsNew : String → List String → Type 0
IsNew name = All (λ other. name ≢ other)

abbrev pub field_names : List ConfigFieldSpec → List String
field_names [] = []
field_names (f ∷ fields) = f.name ∷ field_names fields

-- fields of supported types, with names that are not among those seen and are all different
abbrev pub AreFields : List String → List ConfigFieldSpec → Type 0
AreFields seen [] = Unit
AreFields seen (f ∷ fields) =
    IsNew f.name seen × (one_of config_field_types f.type ≡ true) × AreFields (f.name ∷ seen) fields

abbrev pub IsWellFormed : ConnectorManifest → Type 0
IsWellFormed m =
    (m.connector_id ≢ "")
    × (is_semver (codes m.version) ≡ true)
    × (m.capabilities ≢ [])
    × All (λ c. one_of known_capabilities c ≡ true) m.capabilities
    × AreFields [] m.config_schema

one_of_new : (name : String) (names : List String) → IsNew name names → one_of names name ≡ false
one_of_new name [] h = refl
one_of_new name (n ∷ names) h =
    ground (arith, h.0, eq_iff name n, eq_iff n name, one_of_new name names h.1)

IsNew-one_of : (name : String) (names : List String) → one_of names name ≡ false → IsNew name names
IsNew-one_of name [] h = tt
IsNew-one_of name (n ∷ names) h =
    (ground (arith, h, eq_iff name n, eq_iff n name), IsNew-one_of name names (ground (arith, h)))

fields-ok :
    (seen : List String) (fields : List ConfigFieldSpec)
    → AreFields seen fields
    → check_fields seen fields ≡ ok tt
unfolding check_fields
fields-ok seen [] h = refl
fields-ok seen (f ∷ fields) h =
    rw (one_of_new f.name seen h.0, h.1) (fields-ok (f.name ∷ seen) fields h.2)

ok-fields :
    (seen : List String) (fields : List ConfigFieldSpec)
    → check_fields seen fields ≡ ok tt
    → AreFields seen fields
unfolding check_fields
ok-fields seen [] h = tt
ok-fields seen (f ∷ fields) h =
    let (new, h') = require-eq-ok (not (one_of seen f.name)) contract_error _ h in
    let (typed, h'') = require-eq-ok (one_of config_field_types f.type) contract_error _ h' in
    (IsNew-one_of f.name seen (ground (arith, new)), typed, ok-fields (f.name ∷ seen) fields h'')

all-All :
    (names : List String)
    → all (one_of known_capabilities) names ≡ true
    → All (λ c. one_of known_capabilities c ≡ true) names
all-All [] h = tt
all-All (n ∷ names) h = elim (Bool-cases (one_of known_capabilities n)) [
  | inl p ↦ (p, all-All names (rw p at h))
  | inr p ↦ absurd (ground (arith, h, p))
]

All-all :
    (names : List String)
    → All (λ c. one_of known_capabilities c ≡ true) names
    → all (one_of known_capabilities) names ≡ true
All-all [] h = refl
All-all (n ∷ names) h = rw h.0 (All-all names h.1)

text-nonempty : (s : String) → is_text s ≡ true → s ≢ ""
text-nonempty String.[] h = cc
text-nonempty (String.◌∷◌ c s) h =
    λ e. let t : true ≡ false = ap (λ x. is_text x) e in absurd (cc t)

nonempty-text : (s : String) → s ≢ "" → is_text s ≡ true
nonempty-text String.[] h = absurd (h refl)
nonempty-text (String.◌∷◌ c s) h = refl

items-nonempty : (s : List String) → has_items s ≡ true → s ≢ []
items-nonempty [] h = cc
items-nonempty (c ∷ s) h = λ e. cc

nonempty-items : (s : List String) → s ≢ [] → has_items s ≡ true
nonempty-items [] h = absurd (h refl)
nonempty-items (c ∷ s) h = refl

-- The manifest check accepts a manifest exactly if its id is not empty, its version is three numbers
-- with full stops between, it declares at least one capability and only known ones, and its
-- configuration fields have supported types and names that are all different.
pub validate-IsWellFormed : (m : ConnectorManifest) → (validate_manifest m ≡ ok tt) ↔ IsWellFormed m
unfolding validate_manifest
validate-IsWellFormed m = (accepted_is_well_formed, well_formed_is_accepted)
  where
    accepted_is_well_formed : validate_manifest m ≡ ok tt → IsWellFormed m
    accepted_is_well_formed h =
        let (a, h) = require-eq-ok (is_text m.connector_id) contract_error _ h in
        let (b, h) = require-eq-ok (is_semver (codes m.version)) contract_error _ h in
        let (c, h) = require-eq-ok (has_items m.capabilities) contract_error _ h in
        let (d, h) =
          require-eq-ok (all (one_of known_capabilities) m.capabilities) contract_error _ h in
        (
          text-nonempty m.connector_id a,
          b,
          items-nonempty m.capabilities c,
          all-All m.capabilities d,
          ok-fields [] m.config_schema h,
        )

    well_formed_is_accepted : IsWellFormed m → validate_manifest m ≡ ok tt
    well_formed_is_accepted h =
        rw
          (
            nonempty-text m.connector_id h.0,
            h.1,
            nonempty-items m.capabilities h.2,
            All-all m.capabilities h.3,
          )
          (fields-ok [] m.config_schema h.4)
