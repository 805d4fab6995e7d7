-- ===== src/Connector/Ingestion/Rows.antt =====
-- The rows of people as a map from emails, under the writes of the loop, and their repeated emails.
use minigrc.Prelude.{
  String, List, [], ◌∷◌, ◌++◌, Option, none, some, ◌||◌, ◌≡◌, refl, if◌then◌else◌, str_eq, eq_iff,
  length, arith, is_some,
}
use minigrc.Connector.Ingestion.{PersonRow, person_with, write_person, has_repeated_email}

abbrev pub or_else : Option PersonRow → Option PersonRow → Option PersonRow
or_else none b = b
or_else (some a) b = some a

abbrev pub applied : (PersonRow → PersonRow) → Option PersonRow → Option PersonRow
applied f none = none
applied f (some p) = some (f p)

pub person_with-append :
    (email : String) (people more : List PersonRow)
    → person_with email (people ++ more)
      ≡ or_else (person_with email people) (person_with email more)
unfolding person_with
person_with-append email [] more = refl
person_with-append email (q ∷ people) more = ground (arith, person_with-append email people more)

pub person_with-append_last :
    (email : String) (people : List PersonRow) (p : PersonRow)
    → person_with email (people ++ p ∷ [])
      ≡ or_else (person_with email people) (if str_eq p.email email then some p else none)
unfolding person_with
person_with-append_last email [] p = ground arith
person_with-append_last email (q ∷ people) p =
    ground (arith, person_with-append_last email people p)

-- one more row repeats an email if its own is there
pub repeated-append_last :
    (people : List PersonRow) (p : PersonRow)
    → has_repeated_email (people ++ p ∷ [])
      ≡ has_repeated_email people || is_some (person_with p.email people)
unfolding has_repeated_email person_with
repeated-append_last [] p = refl
repeated-append_last (q ∷ people) p = ground (
  arith,
  repeated-append_last people p,
  person_with-append_last q.email people p,
  eq_iff q.email p.email,
  eq_iff p.email q.email,
)

module _ (f : PersonRow → PersonRow) (keeps : (p : PersonRow) → (f p).email ≡ p.email) where
  pub person_with-write :
      (email e : String) (people : List PersonRow)
      → person_with e (write_person email f people)
        ≡ (if str_eq email e then applied f (person_with email people) else person_with e people)
  unfolding person_with write_person
  person_with-write email e [] = ground arith
  person_with-write email e (p ∷ people) = ground (
    arith,
    keeps p,
    eq_iff p.email email,
    eq_iff p.email e,
    eq_iff email e,
    person_with-write email e people,
  )

  pub known-write :
      (email e : String) (people : List PersonRow)
      → is_some (person_with e (write_person email f people)) ≡ is_some (person_with e people)
  unfolding person_with write_person
  known-write email e [] = refl
  known-write email e (p ∷ people) = ground (arith, keeps p, known-write email e people)

  pub repeated-write :
      (email : String) (people more : List PersonRow)
      → has_repeated_email (write_person email f people ++ more)
        ≡ has_repeated_email (people ++ more)
  unfolding has_repeated_email write_person
  repeated-write email [] more = refl
  repeated-write email (p ∷ people) more = ground (
    arith,
    keeps p,
    person_with-append p.email people more,
    person_with-append p.email (write_person email f people) more,
    known-write email p.email people,
    repeated-write email people more,
  )

  pub length-write :
      (email : String) (people : List PersonRow)
      → length (write_person email f people) ≡ length people
  unfolding write_person
  length-write email [] = refl
  length-write email (p ∷ people) = ground (arith, length-write email people)
