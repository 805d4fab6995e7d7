-- ===== src/Access/RoleMapping.antt =====
-- app/oidc_role_mapping.py: roles from the groups that an identity provider claims.
--
-- A scalar claim stands as the text that `str` makes of it. The audit's detail holds both roles and
-- the values.
pub mod Follows
use minigrc.Audit.{record_audit_event, AuditEvent}
use minigrc.Prelude.{
  ◌&&◌, ◌||◌, ◌∷◌, if◌then◌else◌, str_eq, any, ℕ, zero, suc, String, Bool, true, false, List, [],
}
use minigrc.Access.{User, oidc_mapped, local, RoleSource, auditor, reader, operator, admin, Role}

-- the value of a claim: absent or null, a list, or anything else
pub data ClaimValue : Type 0 where
  no_value : ClaimValue
  items : List String → ClaimValue
  scalar : String → ClaimValue

abbrev pub max_claim_values : ℕ
max_claim_values = 1000

-- `value[:n]`
unfoldable pub first_values : ℕ → List String → List String
first_values zero values = []
first_values (suc n) [] = []
first_values (suc n) (v ∷ values) = v ∷ first_values n values

-- `extract_claim_values`, of the claim that the name selects
unfoldable pub extract_claim_values : ClaimValue → List String
extract_claim_values no_value = []
extract_claim_values (items values) = first_values max_claim_values values
extract_claim_values (scalar value) = value ∷ []

-- An `OidcRoleMapping` row, by the columns that count.
pub record OidcRoleMapping : Type 0 where
  pub claim_value : String
  pub role : Role

abbrev pub role_eq : Role → Role → Bool
role_eq admin admin = true
role_eq operator operator = true
role_eq reader reader = true
role_eq auditor auditor = true
role_eq _ _ = false

-- whether the mapping of `load_role_mappings` gives `value` the role: claim values are unique
unfoldable pub maps_to : List OidcRoleMapping → String → Role → Bool
maps_to [] value role = false
maps_to (m ∷ mappings) value role =
    if str_eq m.claim_value value then role_eq m.role role else maps_to mappings value role

-- `role in matched_roles`
unfoldable pub is_matched : List OidcRoleMapping → List String → Role → Bool
is_matched mappings values role = any (λ v. maps_to mappings v role) values

abbrev pub role_precedence : List Role
role_precedence = admin ∷ operator ∷ reader ∷ auditor ∷ []

-- the loop over `ROLE_PRECEDENCE`
unfoldable pub first_matched : List Role → List OidcRoleMapping → List String → Role
first_matched [] mappings values = reader
first_matched (r ∷ roles) mappings values =
    if is_matched mappings values r then r else first_matched roles mappings values

-- `compute_mapped_role`
unfoldable pub compute_mapped_role : List String → List OidcRoleMapping → Role
compute_mapped_role values mappings = first_matched role_precedence mappings values

pub record RoleChange : Type 0 where
  pub old_role : Role
  pub new_role : Role
  pub claim_values : List String

abbrev is_local : RoleSource → Bool
is_local local = true
is_local oidc_mapped = false

abbrev is_oidc_mapped : RoleSource → Bool
is_oidc_mapped local = false
is_oidc_mapped oidc_mapped = true

-- a user and the audit
abbrev pub Account : Type 0
Account = User × List (AuditEvent RoleChange)

-- `apply_role_mapping`
unfoldable pub apply_role_mapping : List OidcRoleMapping → String → ClaimValue → Account → Account
apply_role_mapping [] actor claims account = account
apply_role_mapping (m ∷ mappings) actor claims (user, audit) =
    let values = extract_claim_values claims in
    let new_role = compute_mapped_role values (m ∷ mappings) in
    if is_local user.role_source
    then (user, audit)
    else if role_eq new_role user.role && is_oidc_mapped user.role_source
    then (user, audit)
    else (
      record user { role = new_role; role_source = oidc_mapped },
      record_audit_event "user" user.id "oidc_role_mapping_applied"
          (record { old_role = user.role; new_role = new_role; claim_values = values }) actor audit,
    )
