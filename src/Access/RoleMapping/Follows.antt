-- ===== src/Access/RoleMapping/Follows.antt =====
-- Roles follow the claims of the last login, and no higher role is ever given than one they grant.
use minigrc.Prelude.{
  ◌∷◌, refl, sym, subst, [], ◌≤◌, ◌⊎◌, ◌≡◌, Bool-cases, ℕ, String, inl, inr, true, false, List,
  arith,
}
use minigrc.Access.RoleMapping.{
  apply_role_mapping, Account, role_eq, extract_claim_values, ClaimValue, is_matched,
  compute_mapped_role, first_matched, OidcRoleMapping,
}
use minigrc.Access.{oidc_mapped, local, auditor, reader, operator, admin, Role}

abbrev pub precedence : Role → ℕ
precedence admin = 0
precedence operator = 1
precedence reader = 2
precedence auditor = 3

-- The role that values earn: one that is matched, or `reader` without any match; and every matched
-- role comes at that place or later.
abbrev pub IsEarned : List OidcRoleMapping → List String → Role → Type 0
IsEarned mappings values r =
    ((is_matched mappings values r ≡ true)
      ⊎ ((r ≡ reader) × ((q : Role) → is_matched mappings values q ≡ false)))
    × ((q : Role) → is_matched mappings values q ≡ true → precedence r ≤ precedence q)

-- The computed role is the highest of the roles that the claims grant, and `reader` exactly when
-- they grant none.
pub mapped_role-IsEarned :
    (values : List String) (mappings : List OidcRoleMapping)
    → IsEarned mappings values (compute_mapped_role values mappings)
unfolding compute_mapped_role first_matched
mapped_role-IsEarned values mappings = elim (Bool-cases (is_matched mappings values admin)) [
  | inl a ↦ rw a (inl a, λ q m. omega arith)
  | inr a ↦ elim (Bool-cases (is_matched mappings values operator)) [
    | inl o ↦ rw (a, o) (inl o, not_above a)
    | inr o ↦ elim (Bool-cases (is_matched mappings values reader)) [
      | inl r ↦ rw (a, o, r) (inl r, below_operator a o)
      | inr r ↦ elim (Bool-cases (is_matched mappings values auditor)) [
        | inl t ↦ rw (a, o, r, t) (inl t, below_reader a o r)
        | inr t ↦ rw (a, o, r, t) (inr (refl, none_matched a o r t), below_operator a o)
      ]
    ]
  ]
]
  where
    not_above :
        is_matched mappings values admin ≡ false
        → (q : Role) → is_matched mappings values q ≡ true
        → 1 ≤ precedence q
    not_above a admin m = absurd (ground (arith, a, m))
    not_above a operator m = omega arith
    not_above a reader m = omega arith
    not_above a auditor m = omega arith

    below_operator :
        is_matched mappings values admin ≡ false
        → is_matched mappings values operator ≡ false
        → (q : Role) → is_matched mappings values q ≡ true
        → 2 ≤ precedence q
    below_operator a o admin m = absurd (ground (arith, a, m))
    below_operator a o operator m = absurd (ground (arith, o, m))
    below_operator a o reader m = omega arith
    below_operator a o auditor m = omega arith

    below_reader :
        is_matched mappings values admin ≡ false
        → is_matched mappings values operator ≡ false
        → is_matched mappings values reader ≡ false
        → (q : Role) → is_matched mappings values q ≡ true
        → 3 ≤ precedence q
    below_reader a o r admin m = absurd (ground (arith, a, m))
    below_reader a o r operator m = absurd (ground (arith, o, m))
    below_reader a o r reader m = absurd (ground (arith, r, m))
    below_reader a o r auditor m = omega arith

    none_matched :
        is_matched mappings values admin ≡ false
        → is_matched mappings values operator ≡ false
        → is_matched mappings values reader ≡ false
        → is_matched mappings values auditor ≡ false
        → (q : Role) → is_matched mappings values q ≡ false
    none_matched a o r t admin = a
    none_matched a o r t operator = o
    none_matched a o r t reader = r
    none_matched a o r t auditor = t

role_eq-eq : (r q : Role) → role_eq r q ≡ true → r ≡ q
role_eq-eq r q h = ground arith

role_eq_refl : (r : Role) → role_eq r r ≡ true
role_eq_refl r = ground arith

module _ (m : OidcRoleMapping) (ms : List OidcRoleMapping) (actor : String)
    (claims : ClaimValue) where
  apply-local :
      (a : Account) → a.0.role_source ≡ local → apply_role_mapping (m ∷ ms) actor claims a ≡ a
  unfolding apply_role_mapping
  apply-local (u, audit) h = ground (arith, h)

  -- what an account that the mapping owns becomes
  apply-mapped :
      (a : Account)
      → a.0.role_source ≡ oidc_mapped
      → let a' = apply_role_mapping (m ∷ ms) actor claims a in
        (a'.0.role_source ≡ oidc_mapped)
        × (a'.0.role ≡ compute_mapped_role (extract_claim_values claims) (m ∷ ms))
  unfolding apply_role_mapping
  apply-mapped (u, audit) h =
      let r = compute_mapped_role (extract_claim_values claims) (m ∷ ms) in
      elim (Bool-cases (role_eq r u.role)) [
        | inl p ↦
            let same : r ≡ u.role = role_eq-eq r u.role p in
            (ground (arith, h, p), ground (arith, h, p, same))
        | inr p ↦ (ground (arith, h, p), ground (arith, h, p))
      ]

  apply-settled :
      (a : Account)
      → a.0.role_source ≡ oidc_mapped
      → a.0.role ≡ compute_mapped_role (extract_claim_values claims) (m ∷ ms)
      → apply_role_mapping (m ∷ ms) actor claims a ≡ a
  unfolding apply_role_mapping
  apply-settled (u, audit) h e =
      let r = compute_mapped_role (extract_claim_values claims) (m ∷ ms) in
      let p : role_eq r u.role ≡ true = rw e (role_eq_refl r) in ground (arith, h, p)

-- logins in order, each with the claims of its token
unfoldable pub logins : List OidcRoleMapping → List (String × ClaimValue) → Account → Account
logins mappings [] a = a
logins mappings ((actor, claims) ∷ rest) a =
    logins mappings rest (apply_role_mapping mappings actor claims a)

logins-local :
    (m : OidcRoleMapping) (ms : List OidcRoleMapping) (history : List (String × ClaimValue))
    (a : Account)
    → a.0.role_source ≡ local
    → logins (m ∷ ms) history a ≡ a
unfolding logins
logins-local m ms [] a h = refl
logins-local m ms ((actor, claims) ∷ rest) a h =
    rw (apply-local m ms actor claims a h) (logins-local m ms rest a h)

logins-mapped :
    (m : OidcRoleMapping) (ms : List OidcRoleMapping) (history : List (String × ClaimValue))
    (a : Account)
    → a.0.role_source ≡ oidc_mapped
    → (logins (m ∷ ms) history a).0.role_source ≡ oidc_mapped
unfolding logins
logins-mapped m ms [] a h = h
logins-mapped m ms ((actor, claims) ∷ rest) a h =
    logins-mapped m ms rest (apply_role_mapping (m ∷ ms) actor claims a)
      (apply-mapped m ms actor claims a h).0

-- With mappings configured, a last login after any others: an account with a local role is as it
-- was, with no audit written; otherwise its role is the one that the last login's claims earn, and a
-- further login with the same claims changes and logs nothing.
pub roles_follow_claims :
    (m : OidcRoleMapping) (ms : List OidcRoleMapping) (history : List (String × ClaimValue))
    (actor : String) (claims : ClaimValue) (a : Account)
    → let a' = apply_role_mapping (m ∷ ms) actor claims (logins (m ∷ ms) history a) in
      (a.0.role_source ≡ local → a' ≡ a)
      × (a.0.role_source ≡ oidc_mapped
          → IsEarned (m ∷ ms) (extract_claim_values claims) a'.0.role
            × (apply_role_mapping (m ∷ ms) actor claims a' ≡ a'))
roles_follow_claims m ms history actor claims a =
    let before = logins (m ∷ ms) history a in
    (
      (λ h. rw (logins-local m ms history a h) (apply-local m ms actor claims a h)),
      (λ h.
          let (s, r) = apply-mapped m ms actor claims before (logins-mapped m ms history a h) in
          (
            subst (IsEarned (m ∷ ms) (extract_claim_values claims)) (sym r)
                (mapped_role-IsEarned (extract_claim_values claims) (m ∷ ms)),
            apply-settled m ms actor claims (apply_role_mapping (m ∷ ms) actor claims before) s r,
          )),
    )
