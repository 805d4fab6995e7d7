-- ===== src/Access/Redaction.antt =====
-- app/pii_redaction.py: redaction of departed persons and disabled users.
--
-- `spell` writes an id as its 32 digits. The columns of the schema that name an actor are a map from
-- tables and columns to the lists of their values, NULL among them; the audit row of a redaction puts
-- its actor into the column of audit_events. The unique constraint on `User.email` is left out, since
-- pseudonyms are unique with their ids.
pub mod Complete
use minigrc.Audit.{AuditEvent, record_audit_event}
use minigrc.Prelude.{
  ◌&&◌, ◌+◌, ◌++◌, ◌==◌, ◌>>◌, ◌∷◌, if◌then◌else◌, str_eq, length, not_departed, not_disabled,
  Result, ok, require, ℕ, String, Bool, true, false, Option, none, some, List, [],
}
use minigrc.Access.{is_set, User, disabled, UserStatus}
use Prim.Native.String.{◌++◌ as string_append}

-- `EMPLOYMENT_STATUSES`
pub data EmploymentStatus : Type 0 where
  active suspended departed unknown : EmploymentStatus

pub record Person : Type 0 where
  pub id : ℕ
  pub email : String
  pub display_name : String
  pub external_id : Option String
  pub employment_status : EmploymentStatus
  pub pii_redacted_at : Option ℕ

-- an entry of `_ACTOR_STRING_COLUMNS`, the model given by its `__tablename__`
pub record ActorColumn : Type 0 where
  pub table : String
  pub column : String

-- `_ACTOR_STRING_COLUMNS`
abbrev pub actor_string_columns : List ActorColumn
actor_string_columns =
    record { table = "audit_events"; column = "actor" }
    ∷ record { table = "policy_versions"; column = "uploader" }
    ∷ record { table = "control_periods"; column = "created_by" }
    ∷ record { table = "control_test_populations"; column = "created_by" }
    ∷ record { table = "control_test_samples"; column = "created_by" }
    ∷ record { table = "requirement_assessments"; column = "last_reviewed_by" }
    ∷ record { table = "secrets"; column = "created_by" }
    ∷ record { table = "external_connections"; column = "created_by" }
    ∷ record { table = "jobs"; column = "created_by" }
    ∷ record { table = "import_jobs"; column = "created_by" }
    ∷ []

-- the values of each column that names an actor, by its table and its name
abbrev pub Columns : Type 0
Columns = String → String → List (Option String)

abbrev pub is_column : ActorColumn → String → String → Bool
is_column x table column = str_eq x.table table && str_eq x.column column

-- the parts of the audit's details: the id, and the rows and tables that were updated
pub record RedactionDetail : Type 0 where
  pub subject_id : ℕ
  pub references : ℕ
  pub tables : ℕ

pub record Archive : Type 0 where
  pub columns : Columns
  pub audit : List (AuditEvent RedactionDetail)

-- `PersonRedactionReport`
pub record PersonReport : Type 0 where
  pub person_id : ℕ
  pub already_redacted : Bool

-- `UserRedactionReport`
pub record UserReport : Type 0 where
  pub user_id : ℕ
  pub already_redacted : Bool
  pub rows_updated_by_table : List (String × ℕ)

-- the values of one column are changed
abbrev pub change_column :
    ActorColumn → (List (Option String) → List (Option String)) → Columns → Columns
change_column x change columns table column =
    if is_column x table column then change (columns table column) else columns table column

abbrev pub audit_actor : ActorColumn
audit_actor = record { table = "audit_events"; column = "actor" }

-- the row of an audit event in the column `AuditEvent.actor`
abbrev pub add_actor : String → Columns → Columns
add_actor actor columns = change_column audit_actor (λ values. values ++ some actor ∷ []) columns

unfoldable pub log_redaction : String → ℕ → RedactionDetail → String → Archive → Archive
log_redaction entity_type id detail actor s = record {
  columns = add_actor actor s.columns;
  audit = record_audit_event entity_type id "redact_pii" detail actor s.audit;
}

abbrev pub is_departed : EmploymentStatus → Bool
is_departed departed = true
is_departed _ = false

abbrev pub is_disabled : UserStatus → Bool
is_disabled disabled = true
is_disabled _ = false

abbrev pub pseudonym : (ℕ → String) → String → ℕ → String
pseudonym spell kind id = string_append kind (string_append (spell id) "@redacted.invalid")

-- `redact_person_pii`
unfoldable pub redact_person_pii :
    (ℕ → String) → ℕ → String → Person → Archive → Result (Person × Archive × PersonReport)
redact_person_pii spell now actor p s =
    if is_set p.pii_redacted_at
    then ok (p, s, record { person_id = p.id; already_redacted = true })
    else (require (is_departed p.employment_status) not_departed
        >> ok (
          record p {
            email = pseudonym spell "redacted-person-" p.id;
            display_name = "Redacted Person";
            external_id = none;
            pii_redacted_at = some now;
          },
          log_redaction "person" p.id (record { subject_id = p.id; references = 0; tables = 0 })
              actor s,
          record { person_id = p.id; already_redacted = false },
        ))

-- `value = old_email`, which NULL is not
abbrev pub is_value : String → Option String → Bool
is_value old none = false
is_value old (some v) = str_eq v old

-- `update(model).where(column == old).values(column=new)` on one column, and its `rowcount`
unfoldable pub replace_values : String → String → List (Option String) → List (Option String)
replace_values old new [] = []
replace_values old new (v ∷ values) =
    (if is_value old v then some new else v) ∷ replace_values old new values

unfoldable pub count_value : String → List (Option String) → ℕ
count_value old [] = 0
count_value old (v ∷ values) = (if is_value old v then 1 else 0) + count_value old values

-- the loop over `_ACTOR_STRING_COLUMNS`: what it leaves
unfoldable pub redact_columns : String → String → List ActorColumn → Columns → Columns
redact_columns old new [] columns = columns
redact_columns old new (x ∷ entries) columns =
    redact_columns old new entries (change_column x (replace_values old new) columns)

-- and what it reports
unfoldable pub rows_updated : String → String → List ActorColumn → Columns → List (String × ℕ)
rows_updated old new [] columns = []
rows_updated old new (x ∷ entries) columns =
    let rest = rows_updated old new entries (change_column x (replace_values old new) columns) in
    let n = count_value old (columns x.table x.column) in
    if n == 0 then rest else (x.table, n) ∷ rest

unfoldable pub total_rows : List (String × ℕ) → ℕ
total_rows [] = 0
total_rows ((table, n) ∷ rest) = n + total_rows rest

-- `redact_user_pii`; `actor` is the email of the administrator
unfoldable pub redact_user_pii :
    (ℕ → String) → ℕ → String → User → Archive → Result (User × Archive × UserReport)
redact_user_pii spell now actor u s =
    let new_email = pseudonym spell "redacted-user-" u.id in
    let rows = rows_updated u.email new_email actor_string_columns s.columns in
    if is_set u.pii_redacted_at
    then ok (u, s, record { user_id = u.id; already_redacted = true; rows_updated_by_table = [] })
    else (require (is_disabled u.status) not_disabled
        >> ok (
          record u { email = new_email; pii_redacted_at = some now },
          log_redaction "user" u.id
              (record { subject_id = u.id; references = total_rows rows; tables = length rows })
              actor
              (record s {
                columns = redact_columns u.email new_email actor_string_columns s.columns;
              }),
          record { user_id = u.id; already_redacted = false; rows_updated_by_table = rows },
        ))
