-- ===== src/Adoption.antt =====
-- app/framework_adoption.py: which version of each family of catalogs the organization has adopted.
pub mod Upgrades
mod Examples
use minigrc.Prelude.{
  ◌∷◌, ◌==◌, ◌>>◌, ◌&&◌, if◌then◌else◌, str_eq, opt_str_eq, any, no_catalog_family, already_adopted,
  other_family, nothing_to_upgrade, inactive_framework, integrity_error, attribute_error, not_found,
  Result, ok, err, require, String, Bool, not, Option, none, some, List, [], ℕ,
}
use minigrc.Prelude.Table
use minigrc.Events.{
  DomainEvent, ProjectorFn, Projectors, Session, rebuild_projection, record_event, Context,
}

-- a `Framework` row, without its texts
pub record Framework : Type 0 where
  pub id : ℕ
  pub name : String
  pub version : String
  pub is_active : Bool
  pub catalog_family : Option String

pub record FrameworkAdoption : Type 0 where
  pub id : ℕ
  pub catalog_family : String
  pub framework_id : ℕ
  pub previous_framework_id : Option ℕ
  pub adopted_at : ℕ
  pub upgraded_at : Option ℕ

-- the event types: the family and the framework; the family, the old and the new framework
pub data AdoptionEvent : Type 0 where
  adopted : String → ℕ → AdoptionEvent
  upgraded : String → ℕ → ℕ → AdoptionEvent

abbrev pub Adoptions : Type 0
Adoptions = List FrameworkAdoption

abbrev pub adoption_id : FrameworkAdoption → ℕ
adoption_id a = a.id

abbrev pub framework_id : Framework → ℕ
framework_id f = f.id

-- `_project_adopted`, its flush with `uq_framework_adoption_catalog_family` included
unfoldable pub project_adopted : String → ℕ → ProjectorFn AdoptionEvent Adoptions
project_adopted family framework rows e =
    if any (λ a. str_eq a.catalog_family family) rows
    then err integrity_error
    else Table.insert adoption_id
        (record {
          id = e.aggregate_id;
          catalog_family = family;
          framework_id = framework;
          previous_framework_id = none;
          adopted_at = e.recorded_at;
          upgraded_at = none;
        })
        rows

abbrev pub upgraded_row : ℕ → ℕ → DomainEvent AdoptionEvent → FrameworkAdoption → FrameworkAdoption
upgraded_row from_framework to_framework e a = record a {
  previous_framework_id = some from_framework;
  framework_id = to_framework;
  upgraded_at = some e.recorded_at;
}

-- `_project_upgraded`
unfoldable pub project_upgraded : ℕ → ℕ → ProjectorFn AdoptionEvent Adoptions
project_upgraded from_framework to_framework rows e =
    elim (Table.get adoption_id e.aggregate_id rows) [
      | none ↦ err attribute_error
      | some a ↦ ok (
          Table.modify adoption_id e.aggregate_id (upgraded_row from_framework to_framework e) rows)
    ]

-- `FRAMEWORK_ADOPTION_PROJECTORS`
unfoldable pub framework_adoption_projectors : Projectors AdoptionEvent Adoptions
framework_adoption_projectors (adopted family framework) = some (project_adopted family framework)
framework_adoption_projectors (upgraded family from_framework to_framework) =
    some (project_upgraded from_framework to_framework)

-- `_reset_framework_adoptions`
unfoldable pub reset_framework_adoptions : Adoptions → Adoptions
reset_framework_adoptions rows = []

abbrev pub AdoptionSession : Type 0
AdoptionSession = Session AdoptionEvent Adoptions

-- `rebuild_framework_adoption_projection`
unfoldable pub rebuild_framework_adoption_projection : AdoptionSession → Result AdoptionSession
rebuild_framework_adoption_projection =
    rebuild_projection framework_adoption_projectors "framework_adoption" reset_framework_adoptions

-- `get_adoption`
unfoldable pub get_adoption : String → Adoptions → Option FrameworkAdoption
get_adoption family [] = none
get_adoption family (a ∷ rows) =
    let rest = get_adoption family rows in if str_eq a.catalog_family family then some a else rest

abbrev pub record_adoption_event :
    Context → ℕ → AdoptionEvent → AdoptionSession → Result AdoptionSession
record_adoption_event c id payload s =
    record_event framework_adoption_projectors "framework_adoption" c id none payload s

-- `adopt_framework`; `id` is the value of `new_id()`
unfoldable pub adopt_framework : Context → ℕ → Framework → AdoptionSession → Result AdoptionSession
adopt_framework c id framework s = elim framework.catalog_family [
  | none ↦ err no_catalog_family
  | some family ↦ elim (get_adoption family s.tables) [
    | some existing ↦ if existing.framework_id == framework.id then ok s else err already_adopted
    | none ↦ record_adoption_event c id (adopted family framework.id) s
  ]
]

-- `upgrade_framework_adoption`
unfoldable pub upgrade_framework_adoption :
    Context → FrameworkAdoption → Framework → AdoptionSession → Result AdoptionSession
upgrade_framework_adoption c adoption to_framework s = do
  require (opt_str_eq to_framework.catalog_family (some adoption.catalog_family)) other_family
  require (not (to_framework.id == adoption.framework_id)) nothing_to_upgrade
  require to_framework.is_active inactive_framework
  record_adoption_event c adoption.id
      (upgraded adoption.catalog_family adoption.framework_id to_framework.id) s

-- the `where` clause of `list_upgrade_candidates`
abbrev pub is_candidate : FrameworkAdoption → Framework → Bool
is_candidate adoption f =
    opt_str_eq f.catalog_family (some adoption.catalog_family)
    && (not (f.id == adoption.framework_id) && f.is_active)

unfoldable pub candidates : FrameworkAdoption → List Framework → List Framework
candidates adoption [] = []
candidates adoption (f ∷ frameworks) =
    let rest = candidates adoption frameworks in if is_candidate adoption f then f ∷ rest else rest

-- `list_upgrade_candidates`; the parameter is the database's `order_by(Framework.version)`
unfoldable pub list_upgrade_candidates :
    (List Framework → List Framework) → FrameworkAdoption → List Framework → List Framework
list_upgrade_candidates ordered adoption frameworks = ordered (candidates adoption frameworks)

-- the requests on adoptions; the route loads the adoption and the framework
pub data AdoptionCommand : Type 0 where
  adopt : ℕ → Framework → AdoptionCommand
  upgrade : String → Framework → AdoptionCommand

unfoldable pub execute : Context → AdoptionCommand → AdoptionSession → Result AdoptionSession
execute c (adopt id framework) s = adopt_framework c id framework s
execute c (upgrade family to_framework) s = elim (get_adoption family s.tables) [
  | none ↦ err not_found
  | some adoption ↦ upgrade_framework_adoption c adoption to_framework s
]
