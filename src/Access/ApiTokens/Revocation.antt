-- ===== src/Access/ApiTokens/Revocation.antt =====
-- A revoked token never works again.
use Prim.Native.String.{◌++◌ as string_append}
use minigrc.Prelude.{
  ◌||◌, ◌∙◌, Option-cases, refl, sym, ap, subst, false, none, ◌++◌, ◌⊎◌, ◌∷◌, ◌≡◌, Bool-cases,
  str_eq, ok, err, ℕ, String, inl, inr, true, Option, some, List, [], arith,
}
use minigrc.Access.ApiTokens.{
  new_token, has_expired, verify_api_token, revoke_api_token, create_api_token, write_token,
  token_with_hash, TokenStore, ApiToken,
}
use minigrc.Access.{is_empty, is_set, User}

-- the operations on tokens, with what each reads of the clock and of chance
pub data TokenCommand : Type 0 where
  create_it : ℕ → ℕ → String → String → User → Option ℕ → TokenCommand
  revoke_it : ℕ → String → User → TokenCommand
  verify_it : ℕ → String → TokenCommand

-- one request: a creation that raises is rolled back
unfoldable pub request : (String → String) → TokenStore → TokenCommand → TokenStore
request hash s (create_it id now random name actor expires_at) =
    elim (create_api_token hash id now random name actor expires_at s) [
      | ok (s', plaintext) ↦ s'
      | err e ↦ s
    ]
request hash s (revoke_it now h actor) = (revoke_api_token now h actor s).0
request hash s (verify_it now raw_token) = (verify_api_token hash now raw_token s).0

unfoldable pub run : (String → String) → TokenStore → List TokenCommand → TokenStore
run hash s [] = s
run hash s (c ∷ rest) = run hash (request hash s c) rest

write-found :
    (g h : String) (f : ApiToken → ApiToken) (tokens : List ApiToken) (t : ApiToken)
    → ((x : ApiToken) → (f x).token_hash ≡ x.token_hash)
    → token_with_hash g tokens ≡ some t
    → (token_with_hash g (write_token h f tokens) ≡ some t)
      ⊎ (token_with_hash g (write_token h f tokens) ≡ some (f t))
unfolding token_with_hash write_token
write-found g h f [] t keeps n = absurd (ground arith)
write-found g h f (x ∷ tokens) t keeps n = elim (Bool-cases (str_eq x.token_hash h)) [
  | inl p ↦ elim (Bool-cases (str_eq x.token_hash g)) [
    | inl q ↦ inr (ground (arith, p, q, keeps x, n))
    | inr q ↦ inl (ground (arith, p, q, keeps x, n))
  ]
  | inr p ↦ elim (Bool-cases (str_eq x.token_hash g)) [
    | inl q ↦ inl (ground (arith, p, q, n))
    | inr q ↦ rw (p, q) (write-found g h f tokens t keeps (ground (arith, q, n)))
  ]
]

append-found :
    (g : String) (tokens more : List ApiToken) (t : ApiToken)
    → token_with_hash g tokens ≡ some t
    → token_with_hash g (tokens ++ more) ≡ some t
unfolding token_with_hash
append-found g [] more t n = absurd (ground arith)
append-found g (x ∷ tokens) more t n = elim (Bool-cases (str_eq x.token_hash g)) [
  | inl q ↦ ground (arith, q, n)
  | inr q ↦ ground (arith, q, append-found g tokens more t (ground (arith, q, n)))
]

-- the token with that hash is revoked
abbrev pub IsRevoked : String → TokenStore → Type 0
IsRevoked g s =
    (t : ApiToken) × (token_with_hash g s.tokens ≡ some t) × (is_set t.revoked_at ≡ true)

write-IsRevoked :
    (g h : String) (f : ApiToken → ApiToken) (s s' : TokenStore)
    → ((x : ApiToken) → (f x).token_hash ≡ x.token_hash)
    → ((x : ApiToken) → is_set x.revoked_at ≡ true → is_set (f x).revoked_at ≡ true)
    → s'.tokens ≡ write_token h f s.tokens
    → IsRevoked g s
    → IsRevoked g s'
write-IsRevoked g h f s s' keeps stays e (t, n, r) = elim (write-found g h f s.tokens t keeps n) [
  | inl p ↦ (t, ap (token_with_hash g) e ∙ p, r)
  | inr p ↦ (f t, ap (token_with_hash g) e ∙ p, stays t r)
]

revoke-IsRevoked :
    (g : String) (now : ℕ) (h : String) (actor : User) (s : TokenStore)
    → IsRevoked g s
    → IsRevoked g (revoke_api_token now h actor s).0
unfolding revoke_api_token
revoke-IsRevoked g now h actor s k = elim (Option-cases (token_with_hash h s.tokens)) [
  | inl n ↦ subst (IsRevoked g) (sym (revoke-idle n)) k
  | inr (t, n) ↦ elim (Bool-cases (is_set t.revoked_at)) [
    | inl r ↦ subst (IsRevoked g) (sym (revoke-again t n r)) k
    | inr r ↦
        write-IsRevoked g h (λ x. record x { revoked_at = some now }) s
          (revoke_api_token now h actor s).0 (λ x. refl) (λ x _. refl) (revoke-writes t n r) k
  ]
]
  where
    revoke-idle : token_with_hash h s.tokens ≡ none → (revoke_api_token now h actor s).0 ≡ s
    revoke-idle n = ground (arith, n)

    revoke-again :
        (t : ApiToken)
        → token_with_hash h s.tokens ≡ some t
        → is_set t.revoked_at ≡ true
        → (revoke_api_token now h actor s).0 ≡ s
    revoke-again t n r = ground (arith, n, r)

    revoke-writes :
        (t : ApiToken)
        → token_with_hash h s.tokens ≡ some t
        → is_set t.revoked_at ≡ false
        → (revoke_api_token now h actor s).0.tokens
          ≡ write_token h (λ x. record x { revoked_at = some now }) s.tokens
    revoke-writes t n r = ground (arith, n, r)

verify-IsRevoked :
    (hash : String → String) (g : String) (now : ℕ) (raw_token : String) (s : TokenStore)
    → IsRevoked g s
    → IsRevoked g (verify_api_token hash now raw_token s).0
unfolding verify_api_token
verify-IsRevoked hash g now raw_token s k = elim verified [
  | inl e ↦ subst (IsRevoked g) (sym e) k
  | inr e ↦
      write-IsRevoked g (hash raw_token) (λ x. record x { last_used_at = some now }) s
        (verify_api_token hash now raw_token s).0 (λ x. refl) (λ x r. r) e k
]
  where
    verified :
        ((verify_api_token hash now raw_token s).0 ≡ s)
        ⊎ ((verify_api_token hash now raw_token s).0.tokens
            ≡ write_token (hash raw_token) (λ x. record x { last_used_at = some now }) s.tokens)
    verified = elim (Bool-cases (is_empty raw_token)) [
      | inl p ↦ inl (ground (arith, p))
      | inr p ↦ elim (Option-cases (token_with_hash (hash raw_token) s.tokens)) [
        | inl n ↦ inl (ground (arith, p, n))
        | inr (t, n) ↦ elim (Bool-cases (is_set t.revoked_at || has_expired now t.expires_at)) [
          | inl r ↦ inl (ground (arith, p, n, r))
          | inr r ↦ inr (ground (arith, p, n, r))
        ]
      ]
    ]

request-IsRevoked :
    (hash : String → String) (g : String) (s : TokenStore) (c : TokenCommand)
    → IsRevoked g s
    → IsRevoked g (request hash s c)
unfolding request create_api_token
request-IsRevoked hash g s (create_it id now random name actor expires_at) (t, n, r) =
    elim (Option-cases (token_with_hash (hash (string_append "mgrc_" random)) s.tokens)) [
      | inl m ↦
          let created =
            new_token id now (hash (string_append "mgrc_" random)) name actor expires_at in
          let kept = append-found g s.tokens (created ∷ []) t n in (t, ground (arith, m, kept), r)
      | inr (x, m) ↦ (t, ground (arith, m, n), r)
    ]
request-IsRevoked hash g s (revoke_it now h actor) k = revoke-IsRevoked g now h actor s k
request-IsRevoked hash g s (verify_it now raw_token) k = verify-IsRevoked hash g now raw_token s k

run-IsRevoked :
    (hash : String → String) (g : String) (s : TokenStore) (commands : List TokenCommand)
    → IsRevoked g s
    → IsRevoked g (run hash s commands)
unfolding run
run-IsRevoked hash g s [] k = k
run-IsRevoked hash g s (c ∷ rest) k =
    run-IsRevoked hash g (request hash s c) rest (request-IsRevoked hash g s c k)

write-now :
    (g : String) (f : ApiToken → ApiToken) (tokens : List ApiToken) (t : ApiToken)
    → ((x : ApiToken) → (f x).token_hash ≡ x.token_hash)
    → token_with_hash g tokens ≡ some t
    → token_with_hash g (write_token g f tokens) ≡ some (f t)
unfolding token_with_hash write_token
write-now g f [] t keeps n = absurd (ground arith)
write-now g f (x ∷ tokens) t keeps n = elim (Bool-cases (str_eq x.token_hash g)) [
  | inl q ↦ ground (arith, q, keeps x, n)
  | inr q ↦ rw q (rw q (write-now g f tokens t keeps (ground (arith, q, n))))
]

revoke_api_token-IsRevoked :
    (now : ℕ) (h : String) (actor : User) (s : TokenStore) (t : ApiToken)
    → token_with_hash h s.tokens ≡ some t
    → IsRevoked h (revoke_api_token now h actor s).0
unfolding revoke_api_token
revoke_api_token-IsRevoked now h actor s t n = elim (Bool-cases (is_set t.revoked_at)) [
  | inl r ↦ (t, ground (arith, n, r), r)
  | inr r ↦
      let found =
        write-now h (λ (x : ApiToken). record x { revoked_at = some now }) s.tokens t (λ x. refl)
          n in
      (record t { revoked_at = some now }, ground (arith, n, r, found), refl)
]

-- Revocation is final: once a token is revoked, and whatever requests follow (creations, other
-- revocations, verifications), a verification of its text at any time is refused and changes
-- nothing.
pub revocation_is_final :
    (hash : String → String) (now later : ℕ) (raw_token : String) (actor : User) (s : TokenStore)
    (t : ApiToken) (commands : List TokenCommand)
    → token_with_hash (hash raw_token) s.tokens ≡ some t
    → let s' = run hash (revoke_api_token now (hash raw_token) actor s).0 commands in
      verify_api_token hash later raw_token s' ≡ (s', none)
unfolding verify_api_token
revocation_is_final hash now later raw_token actor s t commands n =
    let s' = run hash (revoke_api_token now (hash raw_token) actor s).0 commands in
    let (u, m, r) =
      run-IsRevoked hash (hash raw_token) (revoke_api_token now (hash raw_token) actor s).0 commands
        (revoke_api_token-IsRevoked now (hash raw_token) actor s t n) in
    ground (arith, m, r)
