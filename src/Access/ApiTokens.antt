-- ===== src/Access/ApiTokens.antt =====
-- app/api_tokens.py: read-only bearer tokens.
--
-- The random text of a new token is an argument, `hash` stands for SHA-256, and the clock is read
-- once for each operation. `token_hash` is unique in the schema.
pub mod Revocation
pub mod Creation
use minigrc.Audit.{AuditEvent, record_audit_event}
use minigrc.Prelude.{
  ◌∷◌, ◌||◌, ◌++◌, ltb, if◌then◌else◌, str_eq, integrity_error, Result, ok, err, ℕ, String, Bool,
  true, false, Option, none, some, List, [],
}
use minigrc.Access.{is_empty, is_set, User}
use Prim.Native.String.{◌++◌ as string_append}

pub record ApiToken : Type 0 where
  pub id : ℕ
  pub name : String
  pub token_hash : String
  pub scope : String
  pub created_by_user_id : ℕ
  pub created_at : ℕ
  pub last_used_at : Option ℕ
  pub expires_at : Option ℕ
  pub revoked_at : Option ℕ

-- what the audit's detail shows: the token's name and id
pub record TokenDetail : Type 0 where
  pub name : String
  pub token_id : ℕ

pub record TokenStore : Type 0 where
  pub tokens : List ApiToken
  pub audit : List (AuditEvent TokenDetail)

-- `select(ApiToken).where(ApiToken.token_hash == token_hash)`
unfoldable pub token_with_hash : String → List ApiToken → Option ApiToken
token_with_hash h [] = none
token_with_hash h (t ∷ tokens) = if str_eq t.token_hash h then some t else token_with_hash h tokens

-- attributes of the row with that hash are written
unfoldable pub write_token : String → (ApiToken → ApiToken) → List ApiToken → List ApiToken
write_token h f [] = []
write_token h f (t ∷ tokens) =
    if str_eq t.token_hash h then f t ∷ tokens else t ∷ write_token h f tokens

abbrev pub new_token : ℕ → ℕ → String → String → User → Option ℕ → ApiToken
new_token id now token_hash name actor expires_at = record {
  id = id;
  name = name;
  token_hash = token_hash;
  scope = "read";
  created_by_user_id = actor.id;
  created_at = now;
  last_used_at = none;
  expires_at = expires_at;
  revoked_at = none;
}

-- `create_api_token`: `random` is `secrets.token_urlsafe(32)`. Returns the plaintext.
unfoldable pub create_api_token :
    (String → String)
    → ℕ
    → ℕ
    → String
    → String
    → User
    → Option ℕ
    → TokenStore
    → Result (TokenStore × String)
create_api_token hash id now random name actor expires_at s =
    let plaintext = string_append "mgrc_" random in
    let token_hash = hash plaintext in
    elim (token_with_hash token_hash s.tokens) [
      | some t ↦ err integrity_error
      | none ↦ ok (
        record {
          tokens = s.tokens ++ new_token id now token_hash name actor expires_at ∷ [];
          audit =
              record_audit_event "api_token" id "create" (record { name = name; token_id = id })
                actor.email s.audit;
        },
        plaintext,
      )
    ]

-- `revoke_api_token`, of the token with that hash
unfoldable pub revoke_api_token : ℕ → String → User → TokenStore → TokenStore × Bool
revoke_api_token now h actor s = elim (token_with_hash h s.tokens) [
  | none ↦ (s, false)
  | some t ↦ if is_set t.revoked_at then (s, false) else (
    record {
      tokens = write_token h (λ x. record x { revoked_at = some now }) s.tokens;
      audit =
          record_audit_event "api_token" t.id "revoke" (record { name = t.name; token_id = t.id })
            actor.email s.audit;
    },
    true,
  )
]

-- `expires_at is not None and expires_at < now`
abbrev pub has_expired : ℕ → Option ℕ → Bool
has_expired now none = false
has_expired now (some at) = ltb at now

-- `verify_api_token`
unfoldable pub verify_api_token :
    (String → String) → ℕ → String → TokenStore → TokenStore × Option ApiToken
verify_api_token hash now raw_token s =
    if is_empty raw_token then (s, none) else elim (token_with_hash (hash raw_token) s.tokens) [
      | none ↦ (s, none)
      | some t ↦ if is_set t.revoked_at || has_expired now t.expires_at then (s, none) else (
        record s {
          tokens =
              write_token (hash raw_token) (λ x. record x { last_used_at = some now }) s.tokens;
        },
        some (record t { last_used_at = some now }),
      )
    ]
