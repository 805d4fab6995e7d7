-- ===== src/Connector/Instances/Configured.antt =====
-- An installed connector always has what its manifest requires, and a blank secret stays.
use minigrc.Connector.Instances.References.{update-some, update-other, stored, stored-IsBeside}
use minigrc.Prelude.Table
use minigrc.Prelude.{
  Bool, subst, ◌==◌, ℕ, String, List, [], ◌∷◌, ◌++◌, none, some, true, false, not, ◌||◌, ◌&&◌, ◌≡◌,
  refl, if◌then◌else◌, is_some, All, Result, ok, >>=-eq-ok, Bool-cases, inl, inr, arith,
}
use minigrc.Access.{User}
use minigrc.Connector.Manifest.{
  check_compatibility, validate_manifest, core_contract_version, ConnectorManifest, ConfigFieldSpec,
}
use minigrc.Connector.Payload.{Fields}
use minigrc.Connector.Ingestion.{get_field, or_null, is_truthy}
use minigrc.Connector.Instances.{
  new_instance, instance_id, get_instance, ConnectorInstance, ConnectorStore, get_key, is_filled,
  check_field, validate_config_against_schema, install_connector_instance,
  update_connector_instance_config, store_secret_refs, update_keys,
}

-- a required secret field has a stored secret, and another required field a value that counts
abbrev pub IsMet : Fields → List (String × ℕ) → ConfigFieldSpec → Type 0
IsMet config refs f =
    (if f.secret
      then not f.required || is_some (get_key f.name refs)
      else not f.required || is_truthy (or_null (get_field f.name config)))
    ≡ true

abbrev pub IsConfigured : ConnectorManifest → ConnectorInstance → Type 0
IsConfigured m i = All (IsMet i.config i.secret_ref) m.config_schema

-- the schema was satisfied by new values or stored secrets
abbrev Accepted : Fields → List (String × String) → List (String × ℕ) → ConfigFieldSpec → Type 0
Accepted config secret_values existing f =
    (if f.secret
      then not f.required
        || (is_filled (get_key f.name secret_values) || is_some (get_key f.name existing))
      else not f.required || is_truthy (or_null (get_field f.name config)))
    ≡ true

validated :
    (fields : List ConfigFieldSpec) (config : Fields) (secret_values : List (String × String))
    (existing : List (String × ℕ))
    → validate_config_against_schema fields config secret_values existing ≡ ok tt
    → All (Accepted config secret_values existing) fields
unfolding validate_config_against_schema check_field
validated [] config secret_values existing h = tt
validated (f ∷ fields) config secret_values existing h =
    let (u, e, rest) = >>=-eq-ok (check_field config secret_values existing f) _ h in
    (checked e, validated fields config secret_values existing rest)
  where
    checked :
        {u : Unit {0}}
        → check_field config secret_values existing f ≡ ok u
        → Accepted config secret_values existing f
    checked e = ground (arith, e)

-- new references and existing ones meet a schema that accepted their values
met :
    (fields : List ConfigFieldSpec) (config : Fields) (secret_values : List (String × String))
    (existing refs final : List (String × ℕ))
    → All (Accepted config secret_values existing) fields
    → All
        (λ f.
          f.secret && is_filled (get_key f.name secret_values) ≡ true
          → is_some (get_key f.name refs) ≡ true)
        fields
    → ((k : String)
        → is_some (get_key k refs) || is_some (get_key k existing) ≡ true
        → is_some (get_key k final) ≡ true)
    → All (IsMet config final) fields
met [] config secret_values existing refs final accepted made contains = tt
met (f ∷ fields) config secret_values existing refs final accepted made contains =
    (field_met, met fields config secret_values existing refs final accepted.1 made.1 contains)
  where
    field_met : IsMet config final f
    field_met = elim (Bool-cases f.secret) [
      | inr p ↦ ground (arith, p, accepted.0)
      | inl p ↦ elim (Bool-cases f.required) [
        | inr q ↦ ground (arith, p, q)
        | inl q ↦ elim (Bool-cases (is_filled (get_key f.name secret_values))) [
          | inl filled ↦
              let has = made.0 (ground (arith, p, filled)) in
              let final_has = contains f.name (ground (arith, has)) in ground (arith, p, final_has)
          | inr blank ↦
              let final_has = contains f.name (ground (arith, p, q, blank, accepted.0)) in
              ground (arith, p, final_has)
        ]
      ]
    ]

or_false : (b : Bool) → b || false ≡ true → b ≡ true
or_false true h = refl
or_false false h = h

module _ (encrypt : String → Result String) (fresh : String → ℕ) (salt : String → String)
    (m : ConnectorManifest) (config : Fields) (secret_values : List (String × String))
    (actor : User) (s : ConnectorStore) where
  -- If a connector is installed, nothing had its id, its row is added as it is returned, disabled and
  -- at the manifest's version, no other row, execution or fact is touched, and every required field of
  -- the manifest's schema has a value or, if it is secret, a stored secret.
  pub install-IsConfigured :
      (id : ℕ) (display_name : String) (s' : ConnectorStore) (i : ConnectorInstance)
      → install_connector_instance encrypt fresh salt id m display_name config secret_values actor s
        ≡ ok (s', i)
      → (get_instance id s.instances ≡ none)
        × (s'.instances ≡ s.instances ++ i ∷ [])
        × (s'.executions ≡ s.executions)
        × (s'.facts ≡ s.facts)
        × (i.enabled ≡ false)
        × (i.manifest_version ≡ m.version)
        × IsConfigured m i
  unfolding install_connector_instance get_instance get_key
  install-IsConfigured id display_name s' i h =
      let (u, valid, h) = >>=-eq-ok (validate_manifest m) _ h in
      let (u', compatible, h) = >>=-eq-ok (check_compatibility m core_contract_version) _ h in
      let (u'', accepted, h) =
        >>=-eq-ok (validate_config_against_schema m.config_schema config secret_values []) _ h in
      let ((refs, s1), kept, h) =
        >>=-eq-ok
          (store_secret_refs encrypt fresh salt m.connector_id m.config_schema secret_values actor
            [] s)
          _ h in
      let i' = new_instance id m display_name config refs actor in
      let (instances, added, left) = >>=-eq-ok (Table.insert instance_id i' s1.instances) _ h in
      let (beside, beside', beside'') =
        stored-IsBeside encrypt fresh salt m.connector_id secret_values actor m.config_schema [] s
          refs s1 kept in
      let (mono, blank, made) =
        stored encrypt fresh salt m.connector_id secret_values actor m.config_schema [] s refs s1
          kept in
      let (unused, appended) = Table.insert-ok instance_id i' s1.instances added in
      let same : i' ≡ i = ground (arith, left) in
      subst
        (λ x.
          (get_instance id s.instances ≡ none)
          × (s'.instances ≡ s.instances ++ x ∷ [])
          × (s'.executions ≡ s.executions)
          × (s'.facts ≡ s.facts)
          × (x.enabled ≡ false)
          × (x.manifest_version ≡ m.version)
          × IsConfigured m x)
        same
        (
          rw beside at unused,
          ground (arith, left, appended, beside),
          ground (arith, left, beside'),
          ground (arith, left, beside''),
          refl,
          refl,
          met m.config_schema config secret_values [] refs refs
              (validated m.config_schema config secret_values [] accepted) made
              (λ k h. or_false (is_some (get_key k refs)) h),
        )

  -- If the configuration of an installed connector is updated, its row is the returned one and no
  -- other row, execution or fact is touched; only configuration and secret references change; a field
  -- with a blank or no new secret keeps its stored one; and every required field of the manifest's
  -- schema has a value or, if it is secret, a stored secret.
  pub update-IsConfigured :
      (i : ConnectorInstance) (s' : ConnectorStore) (i' : ConnectorInstance)
      → get_instance i.id s.instances ≡ some i
      → update_connector_instance_config encrypt fresh salt i m config secret_values actor s
        ≡ ok (s', i')
      → ((j : ℕ)
          → get_instance j s'.instances
            ≡ (if i.id == j then some i' else get_instance j s.instances))
        × (s'.executions ≡ s.executions)
        × (s'.facts ≡ s.facts)
        × (i' ≡ record i { config = config; secret_ref = i'.secret_ref })
        × ((k : String)
            → is_filled (get_key k secret_values) ≡ false
            → get_key k i'.secret_ref ≡ get_key k i.secret_ref)
        × IsConfigured m i'
  unfolding update_connector_instance_config get_instance get_key
  update-IsConfigured i s' i' found h =
      let (u, accepted, h) =
        >>=-eq-ok (validate_config_against_schema m.config_schema config secret_values i.secret_ref)
          _ h in
      let ((refs, s1), kept, left) =
        >>=-eq-ok
          (store_secret_refs encrypt fresh salt m.connector_id m.config_schema secret_values actor
            [] s)
          _ h in
      let (beside, beside', beside'') =
        stored-IsBeside encrypt fresh salt m.connector_id secret_values actor m.config_schema [] s
          refs s1 kept in
      let (mono, blank, made) =
        stored encrypt fresh salt m.connector_id secret_values actor m.config_schema [] s refs s1
          kept in
      let final = update_keys refs i.secret_ref in
      let f : ConnectorInstance → ConnectorInstance =
        λ x. record x { config = config; secret_ref = final } in
      let same : f i ≡ i' = ground (arith, left) in
      let rows : s'.instances ≡ Table.modify instance_id i.id f s.instances =
        ground (arith, left, beside) in
      subst
        (λ x.
          ((j : ℕ)
            → get_instance j s'.instances
              ≡ (if i.id == j then some x else get_instance j s.instances))
          × (s'.executions ≡ s.executions)
          × (s'.facts ≡ s.facts)
          × (x ≡ record i { config = config; secret_ref = x.secret_ref })
          × ((k : String)
              → is_filled (get_key k secret_values) ≡ false
              → get_key k x.secret_ref ≡ get_key k i.secret_ref)
          × IsConfigured m x)
        same
        (
          (λ j.
              rw rows
                (rw found at (Table.get-modify instance_id f (λ x. refl) j i.id s.instances))),
          ground (arith, left, beside'),
          ground (arith, left, beside''),
          refl,
          (λ k h. update-other k refs i.secret_ref (blank k h)),
          met m.config_schema config secret_values i.secret_ref refs final
              (validated m.config_schema config secret_values i.secret_ref accepted) made
              (λ k h. update-some k refs i.secret_ref h),
        )
