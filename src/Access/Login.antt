-- ===== src/Access/Login.antt =====
-- Exactly which requests pass the login check and the role checks.
use minigrc.Prelude.{
  ◌>>◌, Error, admin_required, write_required, require, require-eq-ok, subst, Bool, true, ◌||◌, ◌↔◌,
  ◌∙◌, ltb, Bool-cases, Option-cases, err, sym, ap, inl, inr, false, eq_iff, ◌≤◌, ◌⊎◌, ◌≡◌, ◌≢◌,
  Result, ok, ℕ, String, refl, Option, none, some, arith,
}
use minigrc.Access.{
  is_write_role, is_admin, auditor, reader, require_login, is_empty, is_set, require_write_access,
  require_admin, active_user, session_with_hash, get_user, Directory, UserSession, User, pending,
  disabled, active, UserStatus, operator, admin, Role,
}

-- what a route demands
pub data Demand : Type 0 where
  any_user writer administrator : Demand

unfoldable pub admitted : Demand → Result User → Result User
admitted any_user login = login
admitted writer login = require_write_access login
admitted administrator login = require_admin login

abbrev pub Allows : Demand → Role → Type 0
Allows any_user r = Unit
Allows writer r = (r ≡ admin) ⊎ (r ≡ operator)
Allows administrator r = r ≡ admin

-- a live session of an active user stands behind the token
abbrev pub IsLive : (String → String) → ℕ → String → Directory → User → Type 0
IsLive hash now token d u =
    (token ≢ "")
    × ((session : UserSession) × (session_with_hash (hash token) d.sessions ≡ some session)
        × (session.revoked_at ≡ none)
        × (now ≤ session.expires_at)
        × (get_user session.user_id d.users ≡ some u)
        × (u.status ≡ active))

active_user-ok :
    (o : Option User) (u : User) → active_user o ≡ ok u → (o ≡ some u) × (u.status ≡ active)
unfolding active_user
active_user-ok none u h = cc
active_user-ok (some x) u h = go x.status refl
  where
    go : (st : UserStatus) → x.status ≡ st → (some x ≡ some u) × (u.status ≡ active)
    go active e =
        let same : x ≡ u = ground (arith, e) in
        (ap some same, ap (λ (y : User). y.status) (sym same) ∙ e)
    go disabled e = absurd (ground (arith, e))
    go pending e = absurd (ground (arith, e))

module _ (hash : String → String) (now : ℕ) (token : String) (d : Directory) (u : User) where
  not_empty : is_empty token ≡ false → token ≢ ""
  not_empty h e = absurd (ground (arith, h, (eq_iff token "").1 e))

  require_login-ok : require_login hash now (some token) d ≡ ok u → IsLive hash now token d u
  unfolding require_login
  require_login-ok h = elim (Bool-cases (is_empty token)) [
    | inl p ↦ absurd (ground (arith, p))
    | inr p ↦ elim (Option-cases (session_with_hash (hash token) d.sessions)) [
      | inl n ↦ absurd (ground (arith, p, n))
      | inr (session, n) ↦
          elim (Bool-cases (is_set session.revoked_at || ltb session.expires_at now)) [
            | inl q ↦ absurd (ground (arith, p, n, q))
            | inr q ↦
                let found : active_user (get_user session.user_id d.users) ≡ ok u =
                  ground (arith, p, n, q) in
                let (g, a) = active_user-ok (get_user session.user_id d.users) u found in
                (not_empty p, (session, n, ground (arith, q), ground (arith, q), g, a))
          ]
    ]
  ]

  require_login-live : IsLive hash now token d u → require_login hash now (some token) d ≡ ok u
  unfolding require_login active_user
  require_login-live (ne, (session, n, r, e, g, a)) = elim (Bool-cases (is_empty token)) [
    | inl p ↦ absurd (ne ((eq_iff token "").0 p))
    | inr p ↦ ground (arith, p, n, r, e, g, a)
  ]

write_roles : (r : Role) → (is_write_role r ≡ true) ↔ Allows writer r
write_roles admin = ((λ h. inl refl), λ h. refl)
write_roles operator = ((λ h. inr refl), λ h. refl)
write_roles reader = ground arith
write_roles auditor = ground arith

admin_roles : (r : Role) → (is_admin r ≡ true) ↔ Allows administrator r
admin_roles admin = ((λ h. refl), λ h. refl)
admin_roles operator = ground arith
admin_roles reader = ground arith
admin_roles auditor = ground arith

-- a role check after a login
checked :
    (test : Role → Bool) (e : Error) (P : Role → Type 0) (same : (r : Role) → (test r ≡ true) ↔ P r)
    (x u : User)
    → ((require (test x.role) e >> ok x) ≡ ok u) ↔ ((Result.ok x ≡ ok u) × P u.role)
checked test e P same x u = (
  (λ h.
      let (t, q) = require-eq-ok (test x.role) e (ok x) h in
      let x_is_u : x ≡ u = cc in (q, subst (λ (y : User). P y.role) x_is_u ((same x.role).0 t))),
  (λ (q, p).
      let x_is_u : u ≡ x = cc in
      let t : test x.role ≡ true = (same x.role).1 (subst (λ (y : User). P y.role) x_is_u p) in
      ground (arith, t, q)),
)

admitted-ok :
    (demand : Demand) (login : Result User) (u : User)
    → (admitted demand login ≡ ok u) ↔ ((login ≡ ok u) × Allows demand u.role)
unfolding admitted require_write_access require_admin
admitted-ok any_user login u = (λ h. (h, tt), λ h. h.0)
admitted-ok writer (ok x) u = checked is_write_role write_required (Allows writer) write_roles x u
admitted-ok administrator (ok x) u =
    checked is_admin admin_required (Allows administrator) admin_roles x u
admitted-ok writer (err e) u = (λ h. cc, λ h. absurd (cc (h.0)))
admitted-ok administrator (err e) u = (λ h. cc, λ h. absurd (cc (h.0)))

-- A request is admitted as user `u` exactly if its cookie is not empty, the session with its hash
-- is neither revoked nor expired and belongs to `u`, `u` is active now, and the role of `u` is one
-- that the route demands: any, admin or operator for a change, admin for administration.
pub admission_exact :
    (hash : String → String) (now : ℕ) (token : String) (d : Directory) (u : User) (demand : Demand)
    → (admitted demand (require_login hash now (some token) d) ≡ ok u)
      ↔ (IsLive hash now token d u × Allows demand u.role)
admission_exact hash now token d u demand =
    let (f, g) = admitted-ok demand (require_login hash now (some token) d) u in
    (
      (λ h. (require_login-ok hash now token d u (f h).0, (f h).1)),
      (λ h. g (require_login-live hash now token d u h.0, h.1)),
    )
