-- ===== src/Scope.antt =====
-- app/compliance_scope.py: the declared scope of the compliance program, a single aggregate.
--
-- Dates of the audit period are `Date`s, without their ISO text.
pub mod Declared
mod Examples
use Prim.Native.String.{◌++◌ as string_append}
use minigrc.Prelude.{
  ◌>>=◌, ◌+◌, ◌∷◌, ◌>>◌, if◌then◌else◌, one_of, all, unknown_category, bad_period, attribute_error,
  Result, ok, err, require, String, Bool, false, not, Option, none, some, List, [], ℕ,
}
use minigrc.Prelude.Table
use minigrc.Events.{
  DomainEvent, ProjectorFn, Projectors, Session, rebuild_projection, record_event, Context,
}
use minigrc.Occurrence.Dates.{Date, date_le}

abbrev pub trust_service_categories : List String
trust_service_categories =
    "security" ∷ "availability" ∷ "confidentiality" ∷ "processing_integrity" ∷ "privacy" ∷ []

-- `",".join(...)`
unfoldable pub comma_joined : List String → String
comma_joined [] = ""
comma_joined (name ∷ []) = name
comma_joined (name ∷ next ∷ names) =
    string_append name (string_append "," (comma_joined (next ∷ names)))

-- the names of the vocabulary that are selected, in the order of the vocabulary
unfoldable pub in_vocabulary_order : List String → List String → List String
in_vocabulary_order selected [] = []
in_vocabulary_order selected (name ∷ names) =
    let rest = in_vocabulary_order selected names in
    if one_of selected name then name ∷ rest else rest

-- `_normalize_categories`; `None` is the empty list
unfoldable pub normalize_categories : List String → Result String
normalize_categories categories = do
  require (all (one_of trust_service_categories) categories) unknown_category
  ok (comma_joined (in_vocabulary_order ("security" ∷ categories) trust_service_categories))

-- the test of `_validate_period`
abbrev pub is_reversed : Option Date → Option Date → Bool
is_reversed none ends_on = false
is_reversed (some starts_on) none = false
is_reversed (some starts_on) (some ends_on) = not (date_le starts_on ends_on)

pub record ComplianceScope : Type 0 where
  pub id : ℕ
  pub service_description : String
  pub trust_service_categories : String
  pub audit_period_starts_on : Option Date
  pub audit_period_ends_on : Option Date
  pub data_categories : String
  pub locations : String
  pub exclusions : String
  pub exclusions_rationale : String
  pub revision : ℕ
  pub created_at : ℕ
  pub updated_at : ℕ

-- the payload of both events
pub record ScopeFields : Type 0 where
  pub service_description : String
  pub trust_service_categories : String
  pub audit_period_starts_on : Option Date
  pub audit_period_ends_on : Option Date
  pub data_categories : String
  pub locations : String
  pub exclusions : String
  pub exclusions_rationale : String

-- the arguments of `define_or_revise_scope`
pub record ScopeArguments : Type 0 where
  pub service_description : String
  pub trust_service_categories : List String
  pub audit_period_starts_on : Option Date
  pub audit_period_ends_on : Option Date
  pub data_categories : String
  pub locations : String
  pub exclusions : String
  pub exclusions_rationale : String

-- the event types, each with its payload
pub data ScopeEvent : Type 0 where
  scope_defined : ScopeFields → ScopeEvent
  scope_revised : ScopeFields → ScopeEvent

abbrev pub scope_id : ComplianceScope → ℕ
scope_id scope = scope.id

abbrev pub defined_row : ScopeFields → DomainEvent ScopeEvent → ComplianceScope
defined_row f e = record {
  id = e.aggregate_id;
  service_description = f.service_description;
  trust_service_categories = f.trust_service_categories;
  audit_period_starts_on = f.audit_period_starts_on;
  audit_period_ends_on = f.audit_period_ends_on;
  data_categories = f.data_categories;
  locations = f.locations;
  exclusions = f.exclusions;
  exclusions_rationale = f.exclusions_rationale;
  revision = 1;
  created_at = e.recorded_at;
  updated_at = e.recorded_at;
}

abbrev pub revised_row : ScopeFields → DomainEvent ScopeEvent → ComplianceScope → ComplianceScope
revised_row f e scope = record scope {
  service_description = f.service_description;
  trust_service_categories = f.trust_service_categories;
  audit_period_starts_on = f.audit_period_starts_on;
  audit_period_ends_on = f.audit_period_ends_on;
  data_categories = f.data_categories;
  locations = f.locations;
  exclusions = f.exclusions;
  exclusions_rationale = f.exclusions_rationale;
  revision = scope.revision + 1;
  updated_at = e.recorded_at;
}

-- `_project_defined`
unfoldable pub project_defined : ScopeFields → ProjectorFn ScopeEvent (List ComplianceScope)
project_defined f rows e = Table.insert scope_id (defined_row f e) rows

-- `_project_revised`
unfoldable pub project_revised : ScopeFields → ProjectorFn ScopeEvent (List ComplianceScope)
project_revised f rows e = elim (Table.get scope_id e.aggregate_id rows) [
  | none ↦ err attribute_error
  | some scope ↦ ok (Table.modify scope_id e.aggregate_id (revised_row f e) rows)
]

-- `COMPLIANCE_SCOPE_PROJECTORS`
unfoldable pub compliance_scope_projectors : Projectors ScopeEvent (List ComplianceScope)
compliance_scope_projectors (scope_defined f) = some (project_defined f)
compliance_scope_projectors (scope_revised f) = some (project_revised f)

-- `_reset_compliance_scopes`
unfoldable pub reset_compliance_scopes : List ComplianceScope → List ComplianceScope
reset_compliance_scopes rows = []

abbrev pub ScopeSession : Type 0
ScopeSession = Session ScopeEvent (List ComplianceScope)

-- `rebuild_compliance_scope_projection`
unfoldable pub rebuild_compliance_scope_projection : ScopeSession → Result ScopeSession
rebuild_compliance_scope_projection =
    rebuild_projection compliance_scope_projectors "compliance_scope" reset_compliance_scopes

-- `get_compliance_scope`
unfoldable pub get_compliance_scope : List ComplianceScope → Option ComplianceScope
get_compliance_scope [] = none
get_compliance_scope (scope ∷ rows) = some scope

abbrev pub fields_of : ScopeArguments → String → ScopeFields
fields_of a categories = record {
  service_description = a.service_description;
  trust_service_categories = categories;
  audit_period_starts_on = a.audit_period_starts_on;
  audit_period_ends_on = a.audit_period_ends_on;
  data_categories = a.data_categories;
  locations = a.locations;
  exclusions = a.exclusions;
  exclusions_rationale = a.exclusions_rationale;
}

-- `define_or_revise_scope`; the number of the request is the value of `new_id()`
unfoldable pub define_or_revise_scope :
    Context → ℕ × ScopeArguments → ScopeSession → Result ScopeSession
define_or_revise_scope c (id, a) s = do
  require (not (is_reversed a.audit_period_starts_on a.audit_period_ends_on)) bad_period
  categories ← normalize_categories a.trust_service_categories
  elim (get_compliance_scope s.tables) [
    | none ↦
        record_event compliance_scope_projectors "compliance_scope" c id none
          (scope_defined (fields_of a categories)) s
    | some scope ↦
        record_event compliance_scope_projectors "compliance_scope" c scope.id none
          (scope_revised (fields_of a categories)) s
  ]
