-- ===== src/Access.antt =====
-- app/deps.py: who may make a request.
--
-- `hash` stands for the SHA-256 of app/security.py. Of sessions with one token hash, which the
-- schema excludes, the first counts.
pub mod Login
pub mod RoleMapping
pub mod ApiTokens
pub mod Redaction
mod Examples
use minigrc.Prelude.Table
use minigrc.Prelude.{
  ◌>>◌, ◌>>=◌, ◌||◌, ◌∷◌, ltb, if◌then◌else◌, str_eq, login_required, account_pending,
  account_inactive, admin_required, write_required, Result, ok, err, require, ℕ, String, Bool, true,
  false, Option, none, some, List, [],
}

-- `USER_ROLES`
pub data Role : Type 0 where
  admin operator reader auditor : Role

-- `USER_STATUSES`
pub data UserStatus : Type 0 where
  active disabled pending : UserStatus

-- `ROLE_SOURCES`
pub data RoleSource : Type 0 where
  local oidc_mapped : RoleSource

pub record User : Type 0 where
  pub id : ℕ
  pub email : String
  pub password_hash : String
  pub role : Role
  pub status : UserStatus
  pub role_source : RoleSource
  pub google_subject : Option String
  pub person_id : Option ℕ
  pub pii_redacted_at : Option ℕ

pub record UserSession : Type 0 where
  pub id : ℕ
  pub user_id : ℕ
  pub token_hash : String
  pub expires_at : ℕ
  pub revoked_at : Option ℕ

-- what a login check reads
pub record Directory : Type 0 where
  pub users : List User
  pub sessions : List UserSession

abbrev pub user_id : User → ℕ
user_id u = u.id

unfoldable pub get_user : ℕ → List User → Option User
get_user = Table.get user_id

-- `select(UserSession).where(UserSession.token_hash == token_hash)`
unfoldable pub session_with_hash : String → List UserSession → Option UserSession
session_with_hash h [] = none
session_with_hash h (s ∷ rest) = if str_eq s.token_hash h then some s else session_with_hash h rest

abbrev pub is_set : Option ℕ → Bool
is_set none = false
is_set (some t) = true

-- an empty cookie counts as none
abbrev pub is_empty : String → Bool
is_empty text = str_eq text ""

-- the status check of `require_login`
unfoldable pub active_user : Option User → Result User
active_user none = err login_required
active_user (some u) = elim u.status [
  | pending ↦ err account_pending
  | disabled ↦ err account_inactive
  | active ↦ ok u
]

-- `require_login`
unfoldable pub require_login : (String → String) → ℕ → Option String → Directory → Result User
require_login hash now none d = err login_required
require_login hash now (some raw_token) d =
    if is_empty raw_token
    then err login_required
    else elim (session_with_hash (hash raw_token) d.sessions) [
      | none ↦ err login_required
      | some session ↦
          if is_set session.revoked_at || ltb session.expires_at now
          then err login_required
          else active_user (get_user session.user_id d.users)
    ]

abbrev pub is_admin : Role → Bool
is_admin admin = true
is_admin _ = false

-- `WRITE_ROLES`
abbrev pub is_write_role : Role → Bool
is_write_role admin = true
is_write_role operator = true
is_write_role _ = false

-- `require_admin`, for the user of `require_login`
unfoldable pub require_admin : Result User → Result User
require_admin login = login >>= λ u. require (is_admin u.role) admin_required >> ok u

-- `require_write_access`
unfoldable pub require_write_access : Result User → Result User
require_write_access login = login >>= λ u. require (is_write_role u.role) write_required >> ok u
