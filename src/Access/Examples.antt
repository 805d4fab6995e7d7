-- ===== src/Access/Examples.antt =====
-- One user, one session, one role mapping and one token.
use minigrc.Access.ApiTokens.Creation.{created_token_verifies}
use minigrc.Access.Redaction.Complete.{
  person_redaction, user_redaction, IsRedactedPerson, IsRedacted,
}
use minigrc.Access.Redaction.{
  audit_actor, is_column, redact_user_pii, redact_person_pii, is_departed, UserReport, Archive,
  Person, departed,
}
use minigrc.Audit.{record_audit_event}
use minigrc.Prelude.Table
use minigrc.Prelude.{
  ◌&&◌, if◌then◌else◌, str_eq, Option, ◌⊎◌, not_departed, err, ℕ, true, false, ◌↔◌, ◌≡◌, ◌∷◌, ok,
  String, refl, none, some, List, [],
}
use minigrc.Access.RoleMapping.Follows.{roles_follow_claims, IsEarned, logins}
use minigrc.Access.Login.{admission_exact, IsLive, Allows, admitted, writer}
use minigrc.Access.ApiTokens.{
  verify_api_token, revoke_api_token, create_api_token, new_token, token_with_hash, TokenStore,
  ApiToken,
}
use minigrc.Access.RoleMapping.{
  apply_role_mapping, Account, OidcRoleMapping, extract_claim_values, scalar, items, ClaimValue,
}
use minigrc.Access.ApiTokens.Revocation.{
  revocation_is_final, verify_it, create_it, TokenCommand, run,
}
use minigrc.Access.{
  disabled, require_write_access, require_login, active_user, session_with_hash, get_user,
  Directory, User, oidc_mapped, local, active, operator, admin,
}
use Prim.Native.String.{◌++◌ as string_append}

abbrev ada : User
ada = record {
  id = 7;
  email = "ada@example.com";
  password_hash = "";
  role = operator;
  status = active;
  role_source = oidc_mapped;
  google_subject = none;
  person_id = none;
  pii_redacted_at = none;
}

abbrev salted : String → String
salted text = string_append "#" text

abbrev directory : Directory
directory = record {
  users = ada ∷ [];
  sessions =
      record { id = 1; user_id = 7; token_hash = "#cookie"; expires_at = 100; revoked_at = none }
      ∷ [];
}

admission_exact_example :
    (admitted writer (require_login salted 50 (some "cookie") directory) ≡ ok ada)
    ↔ (IsLive salted 50 "cookie" directory ada × Allows writer operator)
admission_exact_example = admission_exact salted 50 "cookie" directory ada writer

admitted-ada : admitted writer (require_login salted 50 (some "cookie") directory) ≡ ok ada
unfolding admitted require_write_access require_login session_with_hash get_user active_user
    Table.get
admitted-ada = refl

abbrev admins_mapping : OidcRoleMapping
admins_mapping = record { claim_value = "grc-admins"; role = admin }

abbrev earlier : List (String × ClaimValue)
earlier = ("idp", items ("grc-admins" ∷ [])) ∷ []

abbrev last_login : Account
last_login =
    apply_role_mapping (admins_mapping ∷ []) "idp" (scalar "staff")
      (logins (admins_mapping ∷ []) earlier (ada, []))

roles_follow_claims_example :
    (oidc_mapped ≡ local → last_login ≡ (ada, []))
    × (oidc_mapped ≡ oidc_mapped
        → IsEarned (admins_mapping ∷ []) (extract_claim_values (scalar "staff")) last_login.0.role
          × (apply_role_mapping (admins_mapping ∷ []) "idp" (scalar "staff") last_login
              ≡ last_login))
roles_follow_claims_example =
    roles_follow_claims admins_mapping [] earlier "idp" (scalar "staff") (ada, [])

abbrev ci_token : ApiToken
ci_token = new_token 3 10 "#mgrc_x" "ci" ada (some 99)

abbrev one_token : TokenStore
one_token = record {
  tokens = ci_token ∷ [];
  audit =
      record {
        entity_type = "api_token";
        entity_id = 3;
        action = "create";
        detail = record { name = "ci"; token_id = 3 };
        actor = "ada@example.com";
      }
      ∷ [];
}

created_token_verifies_example :
    (verify_api_token salted 50 "mgrc_x" one_token).1
    ≡ some (record ci_token { last_used_at = some 50 })
unfolding create_api_token token_with_hash record_audit_event
created_token_verifies_example =
    created_token_verifies salted 3 10 50 "x" "ci" ada (some 99)
      (record { tokens = []; audit = [] }) one_token "mgrc_x" refl

abbrev later_requests : List TokenCommand
later_requests = verify_it 60 "mgrc_x" ∷ create_it 4 61 "y" "ci" ada none ∷ []

abbrev revoked_store : TokenStore
revoked_store = run salted (revoke_api_token 55 "#mgrc_x" ada one_token).0 later_requests

revocation_is_final_example :
    verify_api_token salted 70 "mgrc_x" revoked_store ≡ (revoked_store, none)
unfolding token_with_hash
revocation_is_final_example =
    revocation_is_final salted 55 70 "mgrc_x" ada one_token ci_token later_requests refl

abbrev spelled : ℕ → String
spelled id = "07"

abbrev bob : User
bob = record ada { email = "bob@example.com"; status = disabled }

abbrev audit_actors : List (Option String)
audit_actors = some "bob@example.com" ∷ some "ada@example.com" ∷ []

abbrev archive : Archive
archive = record {
  columns = λ table column.
      if is_column audit_actor table column
      then audit_actors
      else if str_eq table "requirement_notes" && str_eq column "author"
      then some "bob@example.com" ∷ []
      else if str_eq table "jobs" && str_eq column "created_by"
      then none ∷ some "bob@example.com" ∷ []
      else [];
  audit = [];
}

abbrev redacted_bob : User × Archive × UserReport
redacted_bob = elim (redact_user_pii spelled 50 "ada@example.com" bob archive) [
  | err e ↦
      (bob, archive, record { user_id = 0; already_redacted = true; rows_updated_by_table = [] })
  | ok left ↦ left
]

user_redaction_example :
    (bob.status ≡ disabled) × IsRedacted spelled 60 "eve@example.com" bob archive redacted_bob
unfolding redact_user_pii
user_redaction_example =
    user_redaction spelled 50 60 "ada@example.com" "eve@example.com" bob archive redacted_bob refl
      refl refl refl

abbrev carol : Person
carol = record {
  id = 9;
  email = "carol@example.com";
  display_name = "Carol";
  external_id = some "g-1";
  employment_status = departed;
  pii_redacted_at = none;
}

person_redaction_example :
    ((redact_person_pii spelled 50 "ada@example.com" carol archive ≡ err not_departed)
      × (is_departed departed ≡ false))
    ⊎ ((p' : Person) × (s' : Archive) × (redact_person_pii spelled 50 "ada@example.com" carol
            archive
          ≡ ok (p', s', record { person_id = 9; already_redacted = false }))
        × (departed ≡ departed)
        × IsRedactedPerson spelled 50 carol p'
        × (redact_person_pii spelled 60 "eve@example.com" p' s'
            ≡ ok (p', s', record { person_id = 9; already_redacted = true })))
person_redaction_example =
    person_redaction spelled 50 60 "ada@example.com" "eve@example.com" carol archive refl
