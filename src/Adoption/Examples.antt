-- ===== src/Adoption/Examples.antt =====
-- Two versions of one family of catalogs, the first of them adopted.
use minigrc.Adoption.Upgrades.{upgrade_exact, has_id, no_adoptions}
use minigrc.Adoption.{
  framework_adoption_projectors, framework_id, execute, adopt, list_upgrade_candidates,
  upgrade_framework_adoption, adopt_framework, get_adoption, AdoptionSession, project_adopted,
  adoption_id, FrameworkAdoption, Framework,
}
use minigrc.Prelude.{
  ◌⊎◌, false, ◌≡◌, ◌∷◌, any, ok, is_ok, String, refl, true, none, some, List, [], ℕ,
}
use minigrc.Prelude.Table
use minigrc.Events.{event_machinery, Context}
use minigrc.Events.Runs.{run, request}

abbrev at_time : ℕ → Context
at_time t = record { now = t; event_id = t; actor_type = "user"; actor_id = some "ada" }

abbrev edition : ℕ → String → Framework
edition id version = record {
  id = id;
  name = "SOC 2";
  version = version;
  is_active = true;
  catalog_family = some "soc2";
}

abbrev editions : List Framework
editions = edition 1 "2017" ∷ edition 2 "2022" ∷ []

abbrev adopted_first : AdoptionSession
adopted_first = run execute no_adoptions (
    (at_time 1, adopt 7 (edition 1 "2017"))
    ∷ (at_time 2, adopt 8 (edition 1 "2017"))
    ∷ (at_time 3, adopt 9 (edition 2 "2022"))
    ∷ [])

abbrev adoption : FrameworkAdoption
adoption = record {
  id = 7;
  catalog_family = "soc2";
  framework_id = 1;
  previous_framework_id = none;
  adopted_at = 1;
  upgraded_at = none;
}

-- the repeated adoption changed nothing, and the second edition was refused as an adoption
one_adoption : adopted_first.tables ≡ adoption ∷ []
unfolding event_machinery run request execute adopt_framework get_adoption
    framework_adoption_projectors project_adopted Table.insert Table.get
one_adoption = refl

stored : Table.get adoption_id 7 adopted_first.tables ≡ some adoption
unfolding Table.get
stored = rw one_adoption refl

second_found : Table.get framework_id 2 editions ≡ some (edition 2 "2022")
unfolding Table.get
second_found = refl

abbrev IsUpgradable : Type 0
IsUpgradable =
    (is_ok (upgrade_framework_adoption (at_time 4) adoption (edition 2 "2022") adopted_first)
      ≡ any (has_id (edition 2 "2022")) (list_upgrade_candidates (λ rows. rows) adoption editions))
    × ((is_ok (upgrade_framework_adoption (at_time 4) adoption (edition 2 "2022") adopted_first)
          ≡ false)
        ⊎ ((s' : AdoptionSession) × (upgrade_framework_adoption (at_time 4) adoption
                (edition 2 "2022") adopted_first
              ≡ ok s')
            × (Table.get adoption_id 7 s'.tables
                ≡ some (record adoption {
                  framework_id = 2;
                  previous_framework_id = some 1;
                  upgraded_at = some 4;
                }))))

upgrade_exact_example : IsUpgradable
upgrade_exact_example =
    upgrade_exact (λ rows. rows) (at_time 4) adoption (edition 2 "2022") editions adopted_first
      (λ p rows. refl) ((refl, tt), (tt, tt)) second_found stored
