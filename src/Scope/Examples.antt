-- ===== src/Scope/Examples.antt =====
-- A scope that is defined, refused a reversed period and an unknown category, and revised.
use minigrc.Occurrence.Dates.{Date}
use minigrc.Scope.Declared.{one_scope, no_scope, HasOneScope}
use minigrc.Scope.{
  define_or_revise_scope, ScopeArguments, normalize_categories, in_vocabulary_order, comma_joined,
}
use minigrc.Prelude.{◌≡◌, ◌∷◌, unknown_category, ok, err, String, refl, some, List, [], ℕ}
use minigrc.Events.{Context}
use minigrc.Events.Runs.{run}

abbrev at_time : ℕ → Context
at_time t = record { now = t; event_id = t; actor_type = "user"; actor_id = some "ada" }

abbrev day : ℕ → ℕ → Date
day month number = record { year = 2026; month = month; day = number }

abbrev a_year : List String → Date → ScopeArguments
a_year categories ends_on = record {
  service_description = "Hosting";
  trust_service_categories = categories;
  audit_period_starts_on = some (day 3 1);
  audit_period_ends_on = some ends_on;
  data_categories = "";
  locations = "";
  exclusions = "";
  exclusions_rationale = "";
}

abbrev declarations : List (Context × (ℕ × ScopeArguments))
declarations =
    (at_time 1, (5, a_year ("privacy" ∷ "availability" ∷ "privacy" ∷ []) (day 12 31)))
    ∷ (at_time 2, (6, a_year [] (day 2 28)))
    ∷ (at_time 3, (7, a_year ("secrecy" ∷ []) (day 12 31)))
    ∷ (at_time 4, (8, a_year ("security" ∷ []) (day 3 1)))
    ∷ []

-- the order of the vocabulary, without repetitions, with security
vocabulary_order :
    normalize_categories ("privacy" ∷ "availability" ∷ "privacy" ∷ [])
    ≡ ok "security,availability,privacy"
unfolding normalize_categories in_vocabulary_order comma_joined
vocabulary_order = refl

unknown : normalize_categories ("secrecy" ∷ []) ≡ err unknown_category
unfolding normalize_categories
unknown = refl

one_scope_example : HasOneScope (run define_or_revise_scope no_scope declarations)
one_scope_example = one_scope declarations
