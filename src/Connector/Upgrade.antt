-- ===== src/Connector/Upgrade.antt =====
-- app/connector_lifecycle.py: plans of an upgrade, and their application.
pub mod Versions
pub mod Forward
use minigrc.Prelude.Table
use minigrc.Prelude.{
  ℕ, String, List, [], ◌∷◌, ◌++◌, Option, none, some, Bool, true, false, not, ◌||◌, ◌&&◌, ◌+◌, ◌==◌,
  if◌then◌else◌, str_eq, one_of, codes, Result, ok, err, require, identity_confusion, stale_plan,
  silent_downgrade, plan_mismatch, manifest_substituted, ◌>>=◌, ◌>>◌,
}
use minigrc.Access.{User}
use minigrc.Connector.Version.{Semver, semver_tuple, version_lt}
use minigrc.Connector.Manifest.{
  ConnectorManifest, validate_manifest, check_compatibility, core_contract_version,
}
use minigrc.Connector.Instances.{
  ConnectorInstance, ConnectorStore, instance_id, log_instance, moved,
}

pub data Direction : Type 0 where
  upgrade downgrade same : Direction

pub record ConnectorUpgradePlan : Type 0 where
  pub connector_id : String
  pub from_version : String
  pub to_version : String
  pub direction : Direction
  pub new_capabilities : List String
  pub new_required_permissions : List String
  pub to_capabilities : List String
  pub to_required_permissions : List String

unfoldable pub direction_of : Semver → Semver → Direction
direction_of from to =
    if version_lt from to then upgrade else (if version_lt to from then downgrade else same)

-- `tuple(x for x in xs if x not in old)`
unfoldable pub not_in : List String → List String → List String
not_in old [] = []
not_in old (x ∷ xs) = let rest = not_in old xs in if one_of old x then rest else x ∷ rest

-- `plan_connector_instance_upgrade`
unfoldable pub plan_connector_instance_upgrade :
    ConnectorInstance → ConnectorManifest → ConnectorManifest → Result ConnectorUpgradePlan
plan_connector_instance_upgrade i from to = do
  require (str_eq to.connector_id i.connector_id) identity_confusion
  validate_manifest to
  check_compatibility to core_contract_version
  from_version ← semver_tuple (codes from.version)
  to_version ← semver_tuple (codes to.version)
  ok (record {
    connector_id = i.connector_id;
    from_version = from.version;
    to_version = to.version;
    direction = direction_of from_version to_version;
    new_capabilities = not_in from.capabilities to.capabilities;
    new_required_permissions = not_in from.required_permissions to.required_permissions;
    to_capabilities = to.capabilities;
    to_required_permissions = to.required_permissions;
  })

abbrev pub is_downgrade : Direction → Bool
is_downgrade downgrade = true
is_downgrade _ = false

-- `xs == ys` on tuples of texts
unfoldable pub same_texts : List String → List String → Bool
same_texts [] [] = true
same_texts (x ∷ xs) (y ∷ ys) = str_eq x y && same_texts xs ys
same_texts _ _ = false

-- `apply_connector_instance_upgrade` of the row `i`
unfoldable pub apply_connector_instance_upgrade :
    ConnectorInstance
    → ConnectorUpgradePlan
    → ConnectorManifest
    → User
    → Bool
    → ConnectorStore
    → Result (ConnectorStore × ConnectorInstance)
apply_connector_instance_upgrade i plan to actor allow_downgrade s = do
  require (str_eq i.manifest_version plan.from_version) stale_plan
  require (not (is_downgrade plan.direction && not allow_downgrade)) silent_downgrade
  require (str_eq plan.connector_id i.connector_id && str_eq to.connector_id i.connector_id)
      plan_mismatch
  require
      (str_eq to.version plan.to_version
        && (same_texts to.capabilities plan.to_capabilities
            && same_texts to.required_permissions plan.to_required_permissions))
      manifest_substituted
  ok (
    record s {
      instances =
          Table.modify instance_id i.id (λ x. record x { manifest_version = to.version })
            s.instances;
      audit =
          log_instance i.id (if is_downgrade plan.direction then "rollback" else "upgrade")
            (moved (if is_downgrade plan.direction then "Rollbackd" else "Upgraded") i.display_name
              plan.from_version plan.to_version plan.new_capabilities plan.new_required_permissions)
            actor s.audit;
    },
    record i { manifest_version = to.version },
  )
