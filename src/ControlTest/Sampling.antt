-- ===== src/ControlTest/Sampling.antt =====
-- `freeze_population` and `draw_sample` of app/control_tests.py.
--
-- A population and a sample hold their items. The ids of the rows that a loop adds are drawn from
-- `fresh`, in order.
use minigrc.Prelude.{
  ◌||◌, integrity_error, ◌+◌, ◌&&◌, ◌>>◌, ◌==◌, ◌∷◌, if◌then◌else◌, any, all, empty_sample,
  unknown_population_item, Result, ok, require, ℕ, String, Bool, true, false, not, Option, none,
  some, List, [],
}

-- the columns of an occurrence that populations read
pub record Occurrence : Type 0 where
  pub id : ℕ
  pub control_id : ℕ
  pub control_period_id : Option ℕ

-- `ControlTestPopulationItem`
pub record PopulationItem : Type 0 where
  pub id : ℕ
  pub control_occurrence_id : ℕ

-- `ControlTestPopulation`
pub record Population : Type 0 where
  pub id : ℕ
  pub control_id : ℕ
  pub control_period_id : Option ℕ
  pub description : String
  pub criteria_note : String
  pub created_by : String
  pub items : List PopulationItem

-- `ControlTestSampleItem`
pub record SampleItem : Type 0 where
  pub id : ℕ
  pub population_item_id : ℕ

-- `ControlTestSample`
pub record Sample : Type 0 where
  pub id : ℕ
  pub population_id : ℕ
  pub selection_method : String
  pub selection_rationale : String
  pub created_by : String
  pub items : List SampleItem

abbrev pub opt_eq : Option ℕ → ℕ → Bool
opt_eq none b = false
opt_eq (some a) b = a == b

-- the WHERE clause: the control, and the period if one is given
unfoldable pub is_selected : ℕ → Option ℕ → Occurrence → Bool
is_selected control none o = o.control_id == control
is_selected control (some period) o = o.control_id == control && opt_eq o.control_period_id period

unfoldable pub population_items : (ℕ → ℕ) → ℕ → ℕ → Option ℕ → List Occurrence → List PopulationItem
population_items fresh n control period [] = []
population_items fresh n control period (o ∷ occurrences) =
    let rest = population_items fresh (n + 1) control period occurrences in
    let skipped = population_items fresh n control period occurrences in
    if is_selected control period o
    then record { id = fresh n; control_occurrence_id = o.id } ∷ rest
    else skipped

-- `freeze_population`
unfoldable pub freeze_population :
    ℕ → (ℕ → ℕ) → ℕ → Option ℕ → String → String → String → List Occurrence → Population
freeze_population id fresh control period description criteria_note actor occurrences = record {
  id = id;
  control_id = control;
  control_period_id = period;
  description = description;
  criteria_note = criteria_note;
  created_by = actor;
  items = population_items fresh 0 control period occurrences;
}

-- `id in {item.id for item in population.items}`
abbrev pub has_item : List PopulationItem → ℕ → Bool
has_item items i = any (λ (x : PopulationItem). x.id == i) items

unfoldable pub sample_items : (ℕ → ℕ) → ℕ → List ℕ → List SampleItem
sample_items fresh n [] = []
sample_items fresh n (i ∷ ids) =
    record { id = fresh n; population_item_id = i } ∷ sample_items fresh (n + 1) ids

abbrev pub is_nil {ℓ} : {A : Type ℓ} → List A → Bool
is_nil [] = true
is_nil (x ∷ xs) = false

-- an id that the list holds twice
unfoldable pub has_repeated_id : List ℕ → Bool
has_repeated_id [] = false
has_repeated_id (i ∷ ids) = any (λ j. i == j) ids || has_repeated_id ids

-- `draw_sample`; the last condition is `uq_sample_item_population_item`, at the flush
unfoldable pub draw_sample :
    ℕ → (ℕ → ℕ) → Population → List ℕ → String → String → String → Result Sample
draw_sample id fresh population item_ids method rationale actor = do
  require (not (is_nil item_ids)) empty_sample
  require (all (has_item population.items) item_ids) unknown_population_item
  require (not (has_repeated_id item_ids)) integrity_error
  ok (record {
    id = id;
    population_id = population.id;
    selection_method = method;
    selection_rationale = rationale;
    created_by = actor;
    items = sample_items fresh 0 item_ids;
  })
