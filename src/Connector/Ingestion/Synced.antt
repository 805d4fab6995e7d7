-- ===== src/Connector/Ingestion/Synced.antt =====
-- A whole population, user by user: read to its end, or refused.
use minigrc.Prelude.{
  ◌⊎◌, ◌||◌, ◌≡◌, ◌∙◌, Bool-cases, Option-cases, ok, is_ok, ℕ, String, fun_ext, refl, ap, inl, inr,
  Bool, true, false, some, arith,
}
use minigrc.Connector.Ingestion.Population.{
  listed, upsert-Stepped, Stepped, Follows, Knows, clashes, clash_of, view, rows, all_listed,
  all_users, is_user,
}
use minigrc.Connector.Ingestion.{
  upsert_person, has_repeated_email, sync_users, sync_user, Sync, count_items, get_field,
}
use minigrc.Connector.Manifest.{is_text}
use minigrc.Connector.Payload.{
  Json, null, boolean, number, text, array, object, Items, no_items, item, Fields,
}

module _ (normalized : String → String) (source : String) (at : ℕ) (known : String → Bool) where
  -- a user is read, or the whole population is refused
  abbrev Read : Json → Sync → Type 0
  Read user s =
      ((is_user user ≡ true)
        × (s' : Sync) × (sync_user normalized source at user s ≡ ok s')
        × Stepped normalized source at known user s s')
      ⊎ ((is_user user ≡ false) × (is_ok (sync_user normalized source at user s) ≡ false))

  module _ (user : Fields) (s : Sync) (knows : Knows normalized source at known s) where
    blank-Stepped :
        (address : String)
        → get_field "email" user ≡ some (text address)
        → is_text (normalized address) ≡ false
        → Stepped normalized source at known (object user) s s
    unfolding all_listed count_items
    blank-Stepped address has blank = (
      knows,
      ground (arith, has, blank),
      λ free. (fun_ext (λ e. ground (arith, has, blank)), omega arith, refl),
    )

    text-Read :
        (address : String) → get_field "email" user ≡ some (text address) → Read (object user) s
    unfolding sync_user
    text-Read address has = elim (Bool-cases (is_text (normalized address))) [
      | inl filled ↦ inl (
        ground (arith, has),
        upsert_person source at (normalized address) user s,
        ground (arith, has, filled),
        upsert-Stepped normalized source at known address user s has filled knows,
      )
      | inr blank ↦
          inl (ground (arith, has), s, ground (arith, has, blank), blank-Stepped address has blank)
    ]

    user-Read : Read (object user) s
    unfolding sync_user
    user-Read = elim (Option-cases (get_field "email" user)) [
      | inl p ↦ inr (ground (arith, p), ground (arith, p))
      | inr (text address, p) ↦ text-Read address p
      | inr (null, p) ↦ inr (ground (arith, p), ground (arith, p))
      | inr (boolean b, p) ↦ inr (ground (arith, p), ground (arith, p))
      | inr (number n, p) ↦ inr (ground (arith, p), ground (arith, p))
      | inr (array xs, p) ↦ inr (ground (arith, p), ground (arith, p))
      | inr (object o, p) ↦ inr (ground (arith, p), ground (arith, p))
    ]

  value-Read : (value : Json) (s : Sync) → Knows normalized source at known s → Read value s
  unfolding sync_user
  value-Read null s k = inr (refl, refl)
  value-Read (boolean b) s k = inr (refl, refl)
  value-Read (number n) s k = inr (refl, refl)
  value-Read (text t) s k = inr (refl, refl)
  value-Read (array xs) s k = inr (refl, refl)
  value-Read (object user) s k = user-Read user s k

  Follows-trans :
      (value : Json) (users : Items) (s s' s'' : Sync)
      → Follows normalized source at known (item value no_items) s s'
      → Follows normalized source at known users s' s''
      → Follows normalized source at known (item value users) s s''
  unfolding all_listed count_items
  Follows-trans value users s s' s'' (d, n, l) (d', n', l') = (
    d' ∙ ap (λ people. all_listed normalized source at users people) d,
    omega (arith, n, n'),
    omega (arith, l, l'),
  )

  -- what a population that is read to its end leaves
  abbrev pub IsSynced : Items → Sync → Sync → Type 0
  IsSynced users s s' =
      (has_repeated_email (rows s')
        ≡ has_repeated_email (rows s) || clashes normalized source at known users (view s))
      × (clashes normalized source at known users (view s) ≡ false
          → Follows normalized source at known users s s')

  IsSynced-more :
      (value : Json) (users : Items) (s s' s'' : Sync)
      → Stepped normalized source at known value s s'
      → IsSynced users s' s''
      → IsSynced (item value users) s s''
  unfolding all_listed clashes
  IsSynced-more value users s s' s'' (k, r, f) (r', f') =
      elim (Bool-cases (clash_of normalized source at known value (view s))) [
        | inl c ↦ (ground (arith, r, r', c), λ free. absurd (ground (arith, c, free)))
        | inr c ↦
            let step = f c in
            let same : view s' ≡ listed normalized source at value (view s) = step.0 in
            let later : clashes normalized source at known users (view s')
                ≡ clashes normalized source at known users
                    (listed normalized source at value (view s)) =
              ap (clashes normalized source at known users) same in
            (
              ground (arith, r, r', c, later),
              λ free. Follows-trans value users s s' s'' step (f' (ground (arith, c, free, later))),
            )
      ]

  -- A population is read to its end if each user is an object with a text for its `email`, and is
  -- refused as a whole otherwise.
  pub sync-cases :
      (users : Items) (s : Sync)
      → Knows normalized source at known s
      → ((all_users users ≡ true)
          × (s' : Sync) × (sync_users normalized source at users s ≡ ok s')
          × IsSynced users s s')
        ⊎ ((all_users users ≡ false) × (is_ok (sync_users normalized source at users s) ≡ false))
  unfolding sync_users all_listed count_items clashes
  sync-cases no_items s k = inl (refl, s, refl, (ground arith, λ free. (refl, omega arith, refl)))
  sync-cases (item user users) s k = elim (value-Read user s k) [
    | inr (unread, refused) ↦ inr (ground (arith, unread), ground (arith, refused))
    | inl (read, s', e, step) ↦ elim (sync-cases users s' step.0) [
      | inr (unread, refused) ↦ inr (ground (arith, read, unread), ground (arith, e, refused))
      | inl (read', s'', e', rest) ↦ inl (
        ground (arith, read, read'),
        s'',
        ground (arith, e, e'),
        IsSynced-more user users s s' s'' step rest,
      )
    ]
  ]
