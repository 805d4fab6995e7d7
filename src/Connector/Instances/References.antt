-- ===== src/Connector/Instances/References.antt =====
-- The references to secrets that a configuration leaves.
use minigrc.Prelude.Table
use minigrc.Prelude.{
  ℕ, String, List, [], ◌∷◌, none, some, true, false, ◌||◌, ◌&&◌, ◌≡◌, refl, ◌∙◌, if◌then◌else◌,
  str_eq, eq_iff, eq_refl, ◌⊎◌, is_some, All, Result, ok, err, >>=-eq-ok, Bool-cases, Option-cases,
  inl, inr, arith,
}
use minigrc.Access.{User}
use minigrc.Connector.Manifest.{ConfigFieldSpec, is_text}
use minigrc.Connector.Instances.{
  ConnectorStore, get_key, set_key, is_filled, store_secret_refs, update_keys,
  create_encrypted_secret, secret_name, Secret, secret_id,
}

module _ {V : Type 0} where
  pub get-set :
      (name k : String) (value : V) (pairs : List (String × V))
      → get_key k (set_key name value pairs)
        ≡ (if str_eq name k then some value else get_key k pairs)
  unfolding get_key set_key
  get-set name k value [] = refl
  get-set name k value ((key, old) ∷ pairs) =
      ground (arith, eq_iff name k, eq_iff key name, eq_iff key k, get-set name k value pairs)

  set-some :
      (name k : String) (value : V) (pairs : List (String × V))
      → is_some (get_key k pairs) ≡ true
      → is_some (get_key k (set_key name value pairs)) ≡ true
  set-some name k value pairs h = ground (arith, h, get-set name k value pairs)

  -- an update keeps what it does not name
  pub update-other :
      (k : String) (changes pairs : List (String × V))
      → get_key k changes ≡ none
      → get_key k (update_keys changes pairs) ≡ get_key k pairs
  unfolding update_keys get_key
  update-other k [] pairs h = refl
  update-other k ((name, value) ∷ changes) pairs h = elim (Bool-cases (str_eq name k)) [
    | inl p ↦ absurd (ground (arith, h, p))
    | inr p ↦
        update-other k changes (set_key name value pairs) (rw p at h)
        ∙ ground (arith, p, get-set name k value pairs)
  ]

  update-keeps :
      (k : String) (changes pairs : List (String × V))
      → is_some (get_key k pairs) ≡ true
      → is_some (get_key k (update_keys changes pairs)) ≡ true
  unfolding update_keys
  update-keeps k [] pairs h = h
  update-keeps k ((name, value) ∷ changes) pairs h =
      update-keeps k changes (set_key name value pairs) (set-some name k value pairs h)

  -- what either side of an update has, the result has
  pub update-some :
      (k : String) (changes pairs : List (String × V))
      → is_some (get_key k changes) || is_some (get_key k pairs) ≡ true
      → is_some (get_key k (update_keys changes pairs)) ≡ true
  unfolding update_keys get_key
  update-some k [] pairs h = h
  update-some k ((name, value) ∷ changes) pairs h = elim (Bool-cases (str_eq name k)) [
    | inl p ↦
        update-keeps k changes (set_key name value pairs)
          (ground (arith, p, get-set name k value pairs))
    | inr p ↦
        update-some k changes (set_key name value pairs)
          (ground (arith, h, p, get-set name k value pairs))
  ]

-- what stays as it is while secrets are stored
abbrev pub IsBeside : ConnectorStore → ConnectorStore → Type 0
IsBeside s s' = (s'.instances ≡ s.instances) × (s'.executions ≡ s.executions) × (s'.facts ≡ s.facts)

created-IsBeside :
    (encrypt : String → Result String) (id : ℕ) (name value : String) (actor : User)
    (s s' : ConnectorStore)
    → create_encrypted_secret encrypt id name value actor s ≡ ok s'
    → IsBeside s s'
unfolding create_encrypted_secret
created-IsBeside encrypt id name value actor s s' h =
    elim (encrypt value) as (λ r. (encrypt value ≡ r) → IsBeside s s') [
      | err e ↦ λ p. absurd (ground (arith, h, p))
      | ok c ↦ λ p.
          let row : Secret = record {
            id = id;
            name = name;
            ciphertext = c;
            created_by = actor.email;
          } in
          let (secrets, e, left) =
            >>=-eq-ok (Table.insert secret_id row s.secrets) _
              (rw (p, create_encrypted_secret) at h) in
          (ground (arith, left), ground (arith, left), ground (arith, left))
    ]
      refl

module _ (encrypt : String → Result String) (fresh : String → ℕ) (salt : String → String)
    (connector_id : String) (secret_values : List (String × String)) (actor : User) where
  -- the loop passes a field by, or stores a secret for it
  store-step :
      (f : ConfigFieldSpec) (fields : List ConfigFieldSpec) (refs : List (String × ℕ))
      (s : ConnectorStore) (left : List (String × ℕ) × ConnectorStore)
      → store_secret_refs encrypt fresh salt connector_id (f ∷ fields) secret_values actor refs s
        ≡ ok left
      → ((f.secret && is_filled (get_key f.name secret_values) ≡ false)
          × (store_secret_refs encrypt fresh salt connector_id fields secret_values actor refs s
              ≡ ok left))
        ⊎ ((f.secret && is_filled (get_key f.name secret_values) ≡ true)
            × (s' : ConnectorStore) × IsBeside s s'
            × (store_secret_refs encrypt fresh salt connector_id fields secret_values actor
                  (set_key f.name (fresh f.name) refs)
                  s'
                ≡ ok left))
  unfolding store_secret_refs
  store-step f fields refs s left h = elim (Option-cases (get_key f.name secret_values)) [
    | inl p ↦ inl (ground (arith, p), ground (arith, h, p))
    | inr (value, p) ↦ elim (Bool-cases (f.secret && is_text value)) [
      | inr q ↦ inl (ground (arith, p, q), ground (arith, h, p, q))
      | inl q ↦
          let (s', e, rest) =
            >>=-eq-ok
              (create_encrypted_secret encrypt (fresh f.name)
                (secret_name connector_id f.name (salt f.name)) value actor s)
              (λ s'.
                store_secret_refs encrypt fresh salt connector_id fields secret_values actor
                  (set_key f.name (fresh f.name) refs) s')
              (rw (p, q, store_secret_refs) at h) in
          inr (
            ground (arith, p, q),
            s',
            created-IsBeside encrypt (fresh f.name) (secret_name connector_id f.name (salt f.name))
                value actor s s' e,
            rest,
          )
    ]
  ]

  -- the references that the loop returns contain those that it began with, leave those of fields
  -- without a new value, and have one for each secret field with a new value
  abbrev pub IsStored : List ConfigFieldSpec → List (String × ℕ) → List (String × ℕ) → Type 0
  IsStored fields refs refs' =
      ((k : String) → is_some (get_key k refs) ≡ true → is_some (get_key k refs') ≡ true)
      × ((k : String)
          → is_filled (get_key k secret_values) ≡ false
          → get_key k refs' ≡ get_key k refs)
      × All
          (λ f.
            f.secret && is_filled (get_key f.name secret_values) ≡ true
            → is_some (get_key f.name refs') ≡ true)
          fields

  pub stored :
      (fields : List ConfigFieldSpec) (refs : List (String × ℕ)) (s : ConnectorStore)
      (refs' : List (String × ℕ)) (s' : ConnectorStore)
      → store_secret_refs encrypt fresh salt connector_id fields secret_values actor refs s
        ≡ ok (refs', s')
      → IsStored fields refs refs'
  unfolding store_secret_refs
  stored [] refs s refs' s' h =
      let same : refs ≡ refs' = cc in (rw same (λ k e. e), rw same (λ k e. refl), tt)
  stored (f ∷ fields) refs s refs' s' h = elim (store-step f fields refs s (refs', s') h) [
    | inl (q, rest) ↦
        let (mono, blank, each) = stored fields refs s refs' s' rest in
        (mono, blank, ((λ p. absurd (cc (p, q))), each))
    | inr (q, s1, beside, rest) ↦
        let refs1 = set_key f.name (fresh f.name) refs in
        let (mono, blank, each) = stored fields refs1 s1 refs' s' rest in
        (
          (λ k p. mono k (set-some f.name k (fresh f.name) refs p)),
          (λ k p.
              blank k p
              ∙ ground (arith, p, q, get-set f.name k (fresh f.name) refs, eq_iff f.name k)),
          (
            (λ p.
                mono f.name
                  (ground (arith, eq_refl f.name, get-set f.name f.name (fresh f.name) refs))),
            each,
          ),
        )
  ]

  pub stored-IsBeside :
      (fields : List ConfigFieldSpec) (refs : List (String × ℕ)) (s : ConnectorStore)
      (refs' : List (String × ℕ)) (s' : ConnectorStore)
      → store_secret_refs encrypt fresh salt connector_id fields secret_values actor refs s
        ≡ ok (refs', s')
      → IsBeside s s'
  unfolding store_secret_refs
  stored-IsBeside [] refs s refs' s' h = let same : s ≡ s' = cc in (cc, cc, cc)
  stored-IsBeside (f ∷ fields) refs s refs' s' h = elim (store-step f fields refs s (refs', s') h) [
    | inl (q, rest) ↦ stored-IsBeside fields refs s refs' s' rest
    | inr (q, s1, (a, b, c), rest) ↦
        let (a', b', c') =
          stored-IsBeside fields (set_key f.name (fresh f.name) refs) s1 refs' s' rest in
        (a' ∙ a, b' ∙ b, c' ∙ c)
  ]
