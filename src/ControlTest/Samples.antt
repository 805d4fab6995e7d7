-- ===== src/ControlTest/Samples.antt =====
-- A sample drawn from a frozen population names occurrences of the tested control only.
use minigrc.ControlTest.Sampling.{has_repeated_id}
use minigrc.Prelude.{
  integrity_error, ◌+◌, ◌==◌, ◌≡◌, ◌∷◌, ==_iff, Bool-cases, all, All, empty_sample,
  unknown_population_item, ok, require-eq-ok, ℕ, String, refl, ap, subst, inl, inr, true, false,
  not, Option, List, [], map, arith,
}
use minigrc.ControlTest.{
  draw_sample, is_nil, sample_items, has_item, freeze_population, population_items, is_selected,
  Sample, SampleItem, PopulationItem, Occurrence,
}

-- one position of a list
pub data IsIn {A : Type 0} (a : A) : List A → Type 0 where
  here : {xs : List A} → IsIn a (a ∷ xs)
  there : {x : A} {xs : List A} → IsIn a xs → IsIn a (x ∷ xs)

-- the occurrence that was frozen as an item
pub record IsFrozen (control : ℕ) (period : Option ℕ) (occurrences : List Occurrence)
    (item : PopulationItem) : Type 0 where
  pub occurrence : Occurrence
  pub stands : IsIn occurrence occurrences
  pub named : item.control_occurrence_id ≡ occurrence.id
  pub selected : is_selected control period occurrence ≡ true

later-IsFrozen :
    (control : ℕ) (period : Option ℕ) (o : Occurrence) (occurrences : List Occurrence)
    (item : PopulationItem)
    → IsFrozen control period occurrences item
    → IsFrozen control period (o ∷ occurrences) item
later-IsFrozen control period o occurrences item f = record {
  occurrence = f.occurrence;
  stands = there f.stands;
  named = f.named;
  selected = f.selected;
}

population_items-IsFrozen :
    (fresh : ℕ → ℕ) (n control : ℕ) (period : Option ℕ) (occurrences : List Occurrence) (i : ℕ)
    → has_item (population_items fresh n control period occurrences) i ≡ true
    → (item : PopulationItem) × (item.id ≡ i) × IsFrozen control period occurrences item
unfolding population_items
population_items-IsFrozen fresh n control period [] i h = absurd (ground arith)
population_items-IsFrozen fresh n control period (o ∷ occurrences) i h =
    elim (Bool-cases (is_selected control period o)) [
      | inr q ↦
          let (item, e, f) =
            population_items-IsFrozen fresh n control period occurrences i (ground (arith, q)) in
          (item, e, later-IsFrozen control period o occurrences item f)
      | inl q ↦ elim (Bool-cases (fresh n == i)) [
        | inl e ↦ (
          record { id = fresh n; control_occurrence_id = o.id },
          (==_iff (fresh n) i).0 e,
          record { occurrence = o; stands = here; named = refl; selected = q },
        )
        | inr e ↦
            let (item, e', f) =
              population_items-IsFrozen fresh (n + 1) control period occurrences i
                (ground (arith, q, e)) in
            (item, e', later-IsFrozen control period o occurrences item f)
      ]
    ]

module _ (fresh fresh' : ℕ → ℕ) (control : ℕ) (period : Option ℕ)
    (occurrences : List Occurrence) where
  -- a sample item that leads to an occurrence of the control, in the period if there is one
  abbrev pub IsSampled : SampleItem → Type 0
  IsSampled x =
      (item : PopulationItem) × (item.id ≡ x.population_item_id)
      × IsFrozen control period occurrences item

  sample_items-IsSampled :
      (n : ℕ) (ids : List ℕ)
      → all (has_item (population_items fresh 0 control period occurrences)) ids ≡ true
      → All IsSampled (sample_items fresh' n ids)
  unfolding sample_items
  sample_items-IsSampled n [] h = tt
  sample_items-IsSampled n (i ∷ ids) h = (
    population_items-IsFrozen fresh 0 control period occurrences i (ground arith),
    sample_items-IsSampled (n + 1) ids (ground arith),
  )

sample_items-some :
    (fresh : ℕ → ℕ) (ids : List ℕ)
    → not (is_nil ids) ≡ true
    → is_nil (sample_items fresh 0 ids) ≡ false
unfolding sample_items
sample_items-some fresh [] h = absurd (ground arith)
sample_items-some fresh (i ∷ ids) h = refl

sample_items-ids :
    (fresh : ℕ → ℕ) (n : ℕ) (ids : List ℕ)
    → map (λ (x : SampleItem). x.population_item_id) (sample_items fresh n ids) ≡ ids
unfolding sample_items
sample_items-ids fresh n [] = refl
sample_items-ids fresh n (i ∷ ids) = ap (λ l. i ∷ l) (sample_items-ids fresh (n + 1) ids)

-- A sample that is drawn from a population, frozen over any occurrences, holds one item for each id
-- that was asked for, in that order and at least one; and each item leads through the population to
-- an occurrence that was there when it was frozen, of the tested control and of the period if one
-- was given.
pub drawn_sample :
    (id id' control : ℕ) (fresh fresh' : ℕ → ℕ) (period : Option ℕ) (occurrences : List Occurrence)
    (description note method rationale actor : String) (ids : List ℕ) (sample : Sample)
    → draw_sample id' fresh'
        (freeze_population id fresh control period description note actor occurrences)
        ids
        method
        rationale
        actor
      ≡ ok sample
    → (is_nil sample.items ≡ false)
      × (map (λ (x : SampleItem). x.population_item_id) sample.items ≡ ids)
      × All (IsSampled fresh fresh' control period occurrences) sample.items
unfolding draw_sample freeze_population
drawn_sample id id' control fresh fresh' period occurrences description note method rationale actor
      ids sample h =
    let items = population_items fresh 0 control period occurrences in
    let (a, h) = require-eq-ok (not (is_nil ids)) empty_sample _ h in
    let (b, h) = require-eq-ok (all (has_item items) ids) unknown_population_item _ h in
    let (d, h) = require-eq-ok (not (has_repeated_id ids)) integrity_error _ h in
    let e : sample_items fresh' 0 ids ≡ sample.items = ground (arith, h) in
    (
      subst (λ l. is_nil l ≡ false) e (sample_items-some fresh' ids a),
      subst (λ l. map (λ (x : SampleItem). x.population_item_id) l ≡ ids) e
          (sample_items-ids fresh' 0 ids),
      subst (All (IsSampled fresh fresh' control period occurrences)) e
          (sample_items-IsSampled fresh fresh' control period occurrences 0 ids b),
    )
