-- ===== src/Access/ApiTokens/Creation.antt =====
-- A created token works until it expires.
use Prim.Native.String.append
use Prim.Native.String.{◌++◌ as string_append}
use minigrc.Prelude.{
  eq_iff, if◌then◌else◌, eq_refl, ◌∙◌, Option-cases, refl, sym, subst, false, none, ◌++◌, ◌∷◌, ◌≡◌,
  Bool-cases, str_eq, ok, ℕ, String, inl, inr, true, Option, some, List, [], arith,
}
use minigrc.Access.ApiTokens.{
  new_token, has_expired, verify_api_token, create_api_token, token_with_hash, TokenStore, ApiToken,
}
use minigrc.Access.{is_empty, is_set, User}

append-new :
    (g : String) (tokens : List ApiToken) (t : ApiToken)
    → token_with_hash g tokens ≡ none
    → str_eq t.token_hash g ≡ true
    → token_with_hash g (tokens ++ t ∷ []) ≡ some t
unfolding token_with_hash
append-new g [] t n h = ground (arith, h)
append-new g (x ∷ tokens) t n h = elim (Bool-cases (str_eq x.token_hash g)) [
  | inl q ↦ absurd (ground (arith, q))
  | inr q ↦ rw q (append-new g tokens t (ground (arith, q)) h)
]

-- a plaintext is not empty
plaintext-not_empty : (random : String) → is_empty (string_append "mgrc_" random) ≡ false
plaintext-not_empty random = elim (Bool-cases (is_empty (string_append "mgrc_" random))) [
  | inr q ↦ q
  | inl q ↦
      let p : string_append "mgrc_" random ≡ String.◌∷◌ "m" (string_append "grc_" random) =
        λ i. append.cons "m" "grc_" random i in
      let e : string_append "mgrc_" random ≡ "" = (eq_iff (string_append "mgrc_" random) "").0 q in
      let e' : String.◌∷◌ "m" (string_append "grc_" random) ≡ String.[] = sym p ∙ e in absurd (cc)
]

verify-found :
    (hash : String → String) (later : ℕ) (raw_token : String) (s : TokenStore) (t : ApiToken)
    → is_empty raw_token ≡ false
    → token_with_hash (hash raw_token) s.tokens ≡ some t
    → is_set t.revoked_at ≡ false
    → (verify_api_token hash later raw_token s).1 ≡ (
        if has_expired later t.expires_at
        then none
        else some (record t { last_used_at = some later }))
unfolding verify_api_token
verify-found hash later raw_token s t e n r = ground (arith, e, n, r)

-- A created token's text verifies at any time that is not past its expiry, as the token with the
-- given name, created by the actor, of scope "read" and last used now; past its expiry it does not.
pub created_token_verifies :
    (hash : String → String) (id now later : ℕ) (random name : String) (actor : User)
    (expires_at : Option ℕ) (s s' : TokenStore) (plaintext : String)
    → create_api_token hash id now random name actor expires_at s ≡ ok (s', plaintext)
    → let t = new_token id now (hash plaintext) name actor expires_at in
      (verify_api_token hash later plaintext s').1 ≡ (
        if has_expired later expires_at
        then none
        else some (record t { last_used_at = some later }))
unfolding create_api_token
created_token_verifies hash id now later random name actor expires_at s s' plaintext h =
    let text = string_append "mgrc_" random in
    let t = new_token id now (hash text) name actor expires_at in
    elim (Option-cases (token_with_hash (hash text) s.tokens)) [
      | inr (x, m) ↦ absurd (ground (arith, m))
      | inl m ↦
          let found = append-new (hash text) s.tokens t m (eq_refl (hash text)) in
          let left : s.tokens ++ t ∷ [] ≡ s'.tokens = ground (arith, m) in
          let same : text ≡ plaintext = ground (arith, m) in
          let there : token_with_hash (hash text) s'.tokens ≡ some t =
            subst (λ l. token_with_hash (hash text) l ≡ some t) left found in
          subst
            (λ p. (verify_api_token hash later p s').1 ≡ (
              if has_expired later expires_at
              then none
              else some (record (new_token id now (hash p) name actor expires_at) {
                last_used_at = some later;
              })))
            same (verify-found hash later text s' t (plaintext-not_empty random) there refl)
    ]
