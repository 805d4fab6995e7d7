-- ===== src/Connector/Ingestion/People.antt =====
-- Ingesting a population refines the update of a map from emails to people.
use minigrc.Prelude.{
  ◌||◌, ◌++◌, ◌≤◌, ◌⊎◌, ◌+◌, ◌≡◌, Bool-cases, is_some, length, integrity_error, ok, err, is_ok,
  String, refl, inl, inr, Bool, true, false, List, [], append-nil, arith,
}
use minigrc.Connector.Ingestion.Synced.{sync-cases}
use minigrc.Connector.Ingestion.Population.{clashes, all_listed, listed, all_users, directory}
use minigrc.Connector.Ingestion.{
  has_repeated_email, ingest_identity_population, flush_people, SyncCounts, Facts, Sync,
  person_with, count_items, users_of, get_field, PersonRow,
}
use minigrc.Connector.Manifest.{ConnectorManifest}
use minigrc.Connector.Payload.{Items, Fields, ConnectorResult, validate_result}

-- whether the people have the email
abbrev pub has_email : List PersonRow → String → Bool
has_email people e = is_some (person_with e people)

module _ (dumps : Fields → String) (hash normalized : String → String) (r : ConnectorResult)
    (m : ConnectorManifest) (s : Facts) where
  -- the facts and counts after the users were ingested
  abbrev pub IsIngested : Items → Facts × SyncCounts → Type 0
  IsIngested users (s', counts) =
      (directory s'.people
        ≡ all_listed normalized m.connector_id r.provenance.collected_at users (directory s.people))
      × (s'.snapshots ≡ s.snapshots)
      × (counts.total ≡ count_items users)
      × (counts.created + counts.updated ≤ counts.total)
      × (length s'.people ≡ length s.people + counts.created)

  -- two users have one email that nobody had before
  abbrev pub are_clashing : Items → Bool
  are_clashing users =
      clashes normalized m.connector_id r.provenance.collected_at (has_email s.people) users
        (directory s.people)

  abbrev pub Left : Type 0
  Left = Facts × SyncCounts

  -- The ingestion of a conforming population, whose users a loop can go through, into people of whom
  -- no two have one email, has one of three outcomes. If each user is an object with a text for its
  -- email and no two of them have one normalized email that nobody had before, it succeeds, as does
  -- the flush after it: the people, as a map from emails, become what listing the users one by one
  -- makes of the map (each makes or renews the entry of its normalized email, unless that is empty,
  -- and touches no other), the evidence stays, at most every user is counted once, and the table grows
  -- by the created rows alone. If two users have one email that nobody had before, it returns, but the
  -- flush after it raises an integrity error. If a user is not such an object, it raises.
  pub ingestion_refines :
      (users : Items)
      → validate_result dumps r m ≡ ok tt
      → users_of (get_field "users" r.normalized_payload) ≡ ok users
      → has_repeated_email s.people ≡ false
      → ((all_users users ≡ true)
          × (are_clashing users ≡ false)
          × (left : Left) × (ingest_identity_population dumps hash normalized r m s ≡ ok left)
          × (flush_people left.0 ≡ ok left.0)
          × IsIngested users left)
        ⊎ ((all_users users ≡ true)
            × (are_clashing users ≡ true)
            × (left : Left) × (ingest_identity_population dumps hash normalized r m s ≡ ok left)
            × (flush_people left.0 ≡ err integrity_error))
        ⊎ ((all_users users ≡ false)
            × (is_ok (ingest_identity_population dumps hash normalized r m s) ≡ false))
  unfolding ingest_identity_population flush_people
  ingestion_refines users conforms listed distinct =
      let start : Sync = record { people = s.people; added = []; created = 0; updated = 0 } in
      let known = has_email s.people in
      let source = m.connector_id in
      let at = r.provenance.collected_at in
      let nothing : s.people ++ [] ≡ s.people = append-nil s.people in
      elim (sync-cases normalized source at known users start (λ e. refl)) [
        | inr (unread, refused) ↦ inr (inr (unread, ground (arith, conforms, listed, refused)))
        | inl (read, sync, e, (repeated, follows)) ↦
            let left : Left = (
              record s { people = sync.people ++ sync.added },
              record { created = sync.created; updated = sync.updated; total = count_items users },
            ) in
            let returns : ingest_identity_population dumps hash normalized r m s ≡ ok left =
              ground (arith, conforms, listed, e) in
            let repeats : has_repeated_email left.0.people
                ≡ has_repeated_email s.people || are_clashing users =
              rw nothing at repeated in
            elim (Bool-cases (are_clashing users)) [
              | inl c ↦ inr (inl (read, c, left, returns, ground (arith, repeats, c, distinct)))
              | inr c ↦
                  let (d, n, l) = rw nothing at (follows (rw nothing c)) in
                  inl (
                    read,
                    c,
                    left,
                    returns,
                    ground (arith, repeats, c, distinct),
                    (d, refl, refl, omega (arith, n), omega (arith, l)),
                  )
            ]
      ]
