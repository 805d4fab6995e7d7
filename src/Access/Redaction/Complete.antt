-- ===== src/Access/Redaction/Complete.antt =====
-- A redaction leaves no trace of the old email, reports what it replaced, and happens once.
use minigrc.Audit.{record_audit_event}
use minigrc.Prelude.{
  ◌&&◌, ◌==◌, any, ap, Bool, not, eq_iff, ◌⊎◌, length, not_departed, err, ◌∙◌, not_disabled,
  require-eq-ok, subst, ◌+◌, ◌++◌, ◌∷◌, ◌≡◌, Bool-cases, str_eq, ok, ℕ, String, refl, inl, inr,
  true, false, Option, none, some, List, [], arith,
}
use minigrc.Access.Redaction.{
  audit_actor, change_column, is_column, Columns, actor_string_columns, redact_person_pii,
  is_departed, Person, departed, is_disabled, redact_user_pii, total_rows, rows_updated,
  redact_columns, count_value, replace_values, is_value, pseudonym, log_redaction, add_actor,
  UserReport, Archive, ActorColumn,
}
use minigrc.Access.{User, disabled}

-- the values of the listed columns that are the email
unfoldable pub occurrences : String → List ActorColumn → Columns → ℕ
occurrences email [] columns = 0
occurrences email (x ∷ entries) columns =
    count_value email (columns x.table x.column) + occurrences email entries columns

abbrev pub is_listed : List ActorColumn → String → String → Bool
is_listed entries table column = any (λ x. is_column x table column) entries

-- no column is listed twice
abbrev are_distinct : List ActorColumn → Bool
are_distinct [] = true
are_distinct (x ∷ entries) = not (is_listed entries x.table x.column) && are_distinct entries

replaced-count :
    (old new : String) (values : List (Option String))
    → str_eq new old ≡ false
    → count_value old (replace_values old new values) ≡ 0
unfolding count_value replace_values
replaced-count old new [] h = refl
replaced-count old new (v ∷ values) h = elim (Bool-cases (is_value old v)) [
  | inl p ↦ rw p (rw h (omega (arith, replaced-count old new values h)))
  | inr p ↦ rw p (rw p (omega (arith, replaced-count old new values h)))
]

module _ (old new : String) (ne : str_eq new old ≡ false) where
  redacted-stays :
      (entries : List ActorColumn) (columns : Columns) (table column : String)
      → count_value old (columns table column) ≡ 0
      → count_value old (redact_columns old new entries columns table column) ≡ 0
  unfolding redact_columns
  redacted-stays [] columns table column h = h
  redacted-stays (x ∷ entries) columns table column h =
      redacted-stays entries (change_column x (replace_values old new) columns) table column
        (elim (Bool-cases (is_column x table column)) [
          | inl p ↦ rw p (replaced-count old new (columns table column) ne)
          | inr p ↦ rw p h
        ])

  redacted-listed :
      (entries : List ActorColumn) (columns : Columns) (table column : String)
      → is_listed entries table column ≡ true
      → count_value old (redact_columns old new entries columns table column) ≡ 0
  unfolding redact_columns
  redacted-listed [] columns table column h = absurd (ground (arith, h))
  redacted-listed (x ∷ entries) columns table column h =
      elim (Bool-cases (is_column x table column)) [
        | inl p ↦
            redacted-stays entries (change_column x (replace_values old new) columns) table column
              (rw p (replaced-count old new (columns table column) ne))
        | inr p ↦
            redacted-listed entries (change_column x (replace_values old new) columns) table column
              (ground (arith, h, p))
      ]

redacted-unlisted :
    (old new : String) (entries : List ActorColumn) (columns : Columns) (table column : String)
    → is_listed entries table column ≡ false
    → redact_columns old new entries columns table column ≡ columns table column
unfolding redact_columns
redacted-unlisted old new [] columns table column h = refl
redacted-unlisted old new (x ∷ entries) columns table column h =
    let (p, q) : (is_column x table column ≡ false) × (is_listed entries table column ≡ false) =
      ground (arith, h) in
    redacted-unlisted old new entries (change_column x (replace_values old new) columns) table
      column q
    ∙ rw p refl

count-append :
    (old v : String) (values : List (Option String))
    → str_eq v old ≡ false
    → count_value old (values ++ some v ∷ []) ≡ count_value old values
unfolding count_value
count-append old v [] h = ground (arith, h)
count-append old v (x ∷ values) h = omega (arith, count-append old v values h)

added-count :
    (old actor : String) (columns : Columns) (table column : String)
    → str_eq actor old ≡ false
    → count_value old (add_actor actor columns table column)
      ≡ count_value old (columns table column)
added-count old actor columns table column h =
    elim (Bool-cases (is_column audit_actor table column)) [
      | inl p ↦ rw p (count-append old actor (columns table column) h)
      | inr p ↦ rw p refl
    ]

changed-occurrences :
    (old : String) (x : ActorColumn) (change : List (Option String) → List (Option String))
    (entries : List ActorColumn) (columns : Columns)
    → is_listed entries x.table x.column ≡ false
    → occurrences old entries (change_column x change columns) ≡ occurrences old entries columns
unfolding occurrences
changed-occurrences old x change [] columns h = refl
changed-occurrences old x change (y ∷ entries) columns h =
    let (p, q) : (is_column x y.table y.column ≡ false)
        × (is_listed entries x.table x.column ≡ false) =
      ground (
        arith,
        h,
        eq_iff x.table y.table,
        eq_iff y.table x.table,
        eq_iff x.column y.column,
        eq_iff y.column x.column,
      ) in
    rw p (
      ap (λ n. count_value old (columns y.table y.column) + n)
        (changed-occurrences old x change entries columns q))

rows-total :
    (old new : String) (entries : List ActorColumn) (columns : Columns)
    → are_distinct entries ≡ true
    → total_rows (rows_updated old new entries columns) ≡ occurrences old entries columns
unfolding total_rows rows_updated occurrences
rows-total old new [] columns h = refl
rows-total old new (x ∷ entries) columns h =
    let (p, q) : (is_listed entries x.table x.column ≡ false) × (are_distinct entries ≡ true) =
      ground (arith, h) in
    let rest = rows-total old new entries (change_column x (replace_values old new) columns) q in
    let same = changed-occurrences old x (replace_values old new) entries columns p in
    elim (Bool-cases (count_value old (columns x.table x.column) == 0)) [
      | inl z ↦ ground (arith, z, rest, same)
      | inr z ↦ ground (arith, z, rest, same)
    ]

-- the actor of an audit row is in the registry
not_audit :
    (actor : String) (columns : Columns) (table column : String)
    → is_listed actor_string_columns table column ≡ false
    → add_actor actor columns table column ≡ columns table column
not_audit actor columns table column h = elim (Bool-cases (is_column audit_actor table column)) [
  | inl p ↦ absurd (ground (arith, h, p))
  | inr p ↦ rw p refl
]

-- what a first redaction of `u` leaves and reports
abbrev pub IsRedacted :
    (ℕ → String) → ℕ → String → User → Archive → User × Archive × UserReport → Type 0
IsRedacted spell later actor' u s (u', s', report) =
    ((table column : String)
      → is_listed actor_string_columns table column ≡ true
      → count_value u.email (s'.columns table column) ≡ 0)
    × ((table column : String)
        → is_listed actor_string_columns table column ≡ false
        → s'.columns table column ≡ s.columns table column)
    × (total_rows report.rows_updated_by_table ≡ occurrences u.email actor_string_columns s.columns)
    × (u'.id ≡ u.id)
    × (u'.status ≡ u.status)
    × (redact_user_pii spell later actor' u' s'
        ≡ ok (
          u',
          s',
          record { user_id = u.id; already_redacted = true; rows_updated_by_table = [] },
        ))

-- A first redaction of a user is refused unless the user is disabled. If it is accepted, with a
-- pseudonym and an administrator's email other than the old one, none of the ten columns of the
-- registry holds the old email any more, every other column that names an actor stays as it was (so
-- the author of a requirement's note, who is not in the registry, keeps the old email), the report's
-- counts add up to the rows that held it, the id and the status stay, and a second redaction, by anyone
-- at any time, changes nothing and reports that it was done already.
pub user_redaction :
    (spell : ℕ → String) (now later : ℕ) (actor actor' : String) (u : User) (s : Archive)
    (left : User × Archive × UserReport)
    → u.pii_redacted_at ≡ none
    → str_eq (pseudonym spell "redacted-user-" u.id) u.email ≡ false
    → str_eq actor u.email ≡ false
    → redact_user_pii spell now actor u s ≡ ok left
    → (u.status ≡ disabled) × IsRedacted spell later actor' u s left
unfolding redact_user_pii log_redaction
user_redaction spell now later actor actor' u s left fresh ne ne' h =
    let (d, e) =
      require-eq-ok (is_disabled u.status) not_disabled _ (rw (fresh, redact_user_pii) at h) in
    let new = pseudonym spell "redacted-user-" u.id in
    let columns = redact_columns u.email new actor_string_columns s.columns in
    let rows = rows_updated u.email new actor_string_columns s.columns in
    let concrete : User × Archive × UserReport = (
      record u { email = new; pii_redacted_at = some now },
      record {
        columns = add_actor actor columns;
        audit =
            record_audit_event "user" u.id "redact_pii"
              (record { subject_id = u.id; references = total_rows rows; tables = length rows })
              actor s.audit;
      },
      record { user_id = u.id; already_redacted = false; rows_updated_by_table = rows },
    ) in
    let same : concrete ≡ left = cc in
    (
      ground (arith, d),
      subst (IsRedacted spell later actor' u s) same (
        (λ table column p.
            added-count u.email actor columns table column ne'
            ∙ redacted-listed u.email new ne actor_string_columns s.columns table column p),
        (λ table column p.
            not_audit actor columns table column p
            ∙ redacted-unlisted u.email new actor_string_columns s.columns table column p),
        rows-total u.email new actor_string_columns s.columns refl,
        refl,
        refl,
        refl,
      ),
    )

-- a person whose data are gone
abbrev pub IsRedactedPerson : (ℕ → String) → ℕ → Person → Person → Type 0
IsRedactedPerson spell now p p' =
    (p'.id ≡ p.id)
    × (p'.email ≡ pseudonym spell "redacted-person-" p.id)
    × (p'.display_name ≡ "Redacted Person")
    × (p'.external_id ≡ none)
    × (p'.employment_status ≡ p.employment_status)
    × (p'.pii_redacted_at ≡ some now)

-- The redaction of a person that was not redacted before is refused exactly if the person has not
-- departed; if it is accepted, the email, the name and the external id are replaced, the id and the
-- status stay, and a second redaction, by anyone at any time, changes nothing.
pub person_redaction :
    (spell : ℕ → String) (now later : ℕ) (actor actor' : String) (p : Person) (s : Archive)
    → p.pii_redacted_at ≡ none
    → ((redact_person_pii spell now actor p s ≡ err not_departed)
        × (is_departed p.employment_status ≡ false))
      ⊎ ((p' : Person) × (s' : Archive) × (redact_person_pii spell now actor p s
            ≡ ok (p', s', record { person_id = p.id; already_redacted = false }))
          × (p.employment_status ≡ departed)
          × IsRedactedPerson spell now p p'
          × (redact_person_pii spell later actor' p' s'
              ≡ ok (p', s', record { person_id = p.id; already_redacted = true })))
unfolding redact_person_pii log_redaction
person_redaction spell now later actor actor' p s fresh =
    elim (Bool-cases (is_departed p.employment_status)) [
      | inr d ↦ inl (ground (arith, d), d)
      | inl d ↦ inr (
        record p {
          email = pseudonym spell "redacted-person-" p.id;
          display_name = "Redacted Person";
          external_id = none;
          pii_redacted_at = some now;
        },
        log_redaction "person" p.id (record { subject_id = p.id; references = 0; tables = 0 }) actor
            s,
        ground (arith, d),
        ground (arith, d),
        (refl, refl, refl, refl, refl, refl),
        refl,
      )
    ]
