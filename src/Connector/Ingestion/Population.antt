-- ===== src/Connector/Ingestion/Population.antt =====
-- What a synchronized population does to the people, seen as a map from emails.
use minigrc.Connector.Ingestion.Rows.{
  person_with-append, person_with-append_last, repeated-append_last, person_with-write, known-write,
  repeated-write, length-write,
}
use minigrc.Prelude.{
  ℕ, String, List, [], ◌∷◌, ◌++◌, Option, none, some, Bool, true, false, not, ◌&&◌, ◌||◌, ◌+◌, ◌≤◌,
  ◌≡◌, inl, inr, refl, sym, ◌∙◌, fun_ext, if◌then◌else◌, str_eq, eq_iff, length, length-append,
  append_assoc, Option-cases, arith, is_some,
}
use minigrc.Connector.Manifest.{is_text}
use minigrc.Connector.Payload.{Json, text, object, Items, no_items, item, Fields}
use minigrc.Connector.Ingestion.{
  PersonRow, Sync, get_field, person_with, write_person, new_person, synced_person, upsert_person,
  count_items, has_repeated_email,
}

-- the table as a map from emails
abbrev pub directory : List PersonRow → String → Option PersonRow
directory people e = person_with e people

-- a user of the population that the loop can read: an object whose `email` is a text
abbrev pub is_user : Json → Bool
is_user (object user) = elim (get_field "email" user) [ some (text email) ↦ true | _ ↦ false ]
is_user _ = false

abbrev pub all_users : Items → Bool
all_users no_items = true
all_users (item user users) = is_user user && all_users users

module _ (normalized : String → String) (source : String) (at : ℕ) where
  -- the map after one user: the entry of the user's email is made or renewed
  abbrev pub listed : Json → (String → Option PersonRow) → String → Option PersonRow
  listed (object user) people e = elim (get_field "email" user) [
    | some (text address) ↦
        let email = normalized address in
        if is_text email && str_eq email e
        then elim (people email) [
          | none ↦ some (new_person source at email user)
          | some p ↦ some (synced_person source at user p)
        ]
        else people e
    | _ ↦ people e
  ]
  listed _ people e = people e

  -- the map after a population
  unfoldable pub all_listed : Items → (String → Option PersonRow) → String → Option PersonRow
  all_listed no_items people = people
  all_listed (item user users) people = all_listed users (listed user people)

  new-email : (email : String) (user : Fields) → (new_person source at email user).email ≡ email
  unfolding new_person
  new-email email user = refl

  synced-email : (user : Fields) (p : PersonRow) → (synced_person source at user p).email ≡ p.email
  unfolding synced_person
  synced-email user p = refl

-- all rows of people in the session
abbrev pub rows : Sync → List PersonRow
rows s = s.people ++ s.added

abbrev pub view : Sync → String → Option PersonRow
view s = directory (rows s)

module _ (normalized : String → String) (source : String) (at : ℕ) (known : String → Bool) where
  -- a user whose email was not known before the loop, but has been listed by now
  abbrev pub clash_of : Json → (String → Option PersonRow) → Bool
  clash_of (object user) people = elim (get_field "email" user) [
    | some (text address) ↦
        let email = normalized address in
        is_text email && (not (known email) && is_some (people email))
    | _ ↦ false
  ]
  clash_of _ people = false

  -- two users of one email that was not known before the loop
  unfoldable pub clashes : Items → (String → Option PersonRow) → Bool
  clashes no_items people = false
  clashes (item user users) people =
      clash_of user people || clashes users (listed normalized source at user people)

  -- the people found by the SELECT of the loop are those known before it
  abbrev pub Knows : Sync → Type 0
  Knows s = (e : String) → is_some (person_with e s.people) ≡ known e

  -- the state of a synchronization seen from outside
  abbrev pub Follows : Items → Sync → Sync → Type 0
  Follows users s s' =
      (view s' ≡ all_listed normalized source at users (view s))
      × (s'.created + s'.updated ≤ s.created + s.updated + count_items users)
      × (length (rows s') + s.created ≡ length (rows s) + s'.created)

  -- what one user does
  abbrev pub Stepped : Json → Sync → Sync → Type 0
  Stepped user s s' =
      Knows s'
      × (has_repeated_email (rows s') ≡ has_repeated_email (rows s) || clash_of user (view s))
      × (clash_of user (view s) ≡ false → Follows (item user no_items) s s')

  module _ (address : String) (user : Fields) (s : Sync)
      (has : get_field "email" user ≡ some (text address))
      (filled : is_text (normalized address) ≡ true) (knows : Knows s) where
    abbrev email : String
    email = normalized address

    found-Stepped :
        (p : PersonRow)
        → person_with email s.people ≡ some p
        → Stepped (object user) s (upsert_person source at email user s)
    unfolding upsert_person all_listed count_items
    found-Stepped p found =
        let f = synced_person source at user in
        let keeps = synced-email normalized source at user in
        let is_known : known email ≡ true = rw (← knows email, found) refl in
        rw (found, upsert_person)
          (
            (λ e. known-write f keeps email e s.people ∙ knows e),
            ground (arith, has, filled, is_known, repeated-write f keeps email s.people s.added),
            λ free. (
              fun_ext (λ e. ground (
                arith,
                has,
                filled,
                found,
                person_with-append e s.people s.added,
                person_with-append email s.people s.added,
                person_with-append e (write_person email f s.people) s.added,
                person_with-write f keeps email e s.people,
                eq_iff email e,
              )),
              omega arith,
              omega (
                arith,
                length-append s.people s.added,
                length-append (write_person email f s.people) s.added,
                length-write f keeps email s.people,
              ),
            ),
          )

    new-Stepped :
        person_with email s.people ≡ none
        → Stepped (object user) s (upsert_person source at email user s)
    unfolding upsert_person all_listed count_items
    new-Stepped none_found =
        let new = new_person source at email user in
        let own : new.email ≡ email = new-email normalized source at email user in
        let unknown : known email ≡ false = rw (← knows email, none_found) refl in
        let last : s.people ++ (s.added ++ new ∷ []) ≡ rows s ++ new ∷ [] =
          sym (append_assoc s.people s.added (new ∷ [])) in
        rw (none_found, upsert_person)
          (
            knows,
            rw last (ground (arith, has, filled, unknown, own, repeated-append_last (rows s) new)),
            λ free. (
              fun_ext (λ e. rw last (
                  ground (
                    arith,
                    has,
                    filled,
                    free,
                    unknown,
                    own,
                    person_with-append_last e (rows s) new,
                    eq_iff email e,
                  ))),
              omega arith,
              rw last (omega (arith, length-append (rows s) (new ∷ []))),
            ),
          )

    pub upsert-Stepped : Stepped (object user) s (upsert_person source at email user s)
    upsert-Stepped = elim (Option-cases (person_with email s.people)) [
      | inl none_found ↦ new-Stepped none_found
      | inr (p, found) ↦ found-Stepped p found
    ]
