-- ===== src/Connector/Upgrade/Versions.antt =====
-- Upgrades go forward unless a downgrade is allowed.
use minigrc.Prelude.{
  String, List, [], ◌∷◌, true, false, ◌≤◌, ◌≡◌, inl, inr, refl, sym, eq_iff, str_eq, codes, ok_of,
  ok, require-eq-ok, >>=-eq-ok, identity_confusion, Bool-cases, arith,
}
use minigrc.Connector.Version.{Semver, semver_tuple, version_lt, count_digits, int_max_str_digits}
use minigrc.Connector.Version.Reads.{accepted_is_read}
use minigrc.Connector.Manifest.{
  ConnectorManifest, validate_manifest, check_compatibility, core_contract_version,
}
use minigrc.Connector.Manifest.Validity.{validate-IsWellFormed}
use minigrc.Connector.Instances.{ConnectorInstance}
use minigrc.Connector.Upgrade.{
  Direction, upgrade, downgrade, same, ConnectorUpgradePlan, direction_of,
  plan_connector_instance_upgrade, same_texts,
}

abbrev pub reverse : Direction → Direction
reverse upgrade = downgrade
reverse downgrade = upgrade
reverse same = same

direction-reverse : (v w : Semver) → direction_of w v ≡ reverse (direction_of v w)
unfolding direction_of version_lt
direction-reverse v w = ground arith

pub not_lt_trans :
    (u v w : Semver) → version_lt v u ≡ false → version_lt w v ≡ false → version_lt w u ≡ false
unfolding version_lt
not_lt_trans u v w h h' = ground (arith, h, h')

pub same_texts-eq : (xs ys : List String) → same_texts xs ys ≡ true → xs ≡ ys
unfolding same_texts
same_texts-eq [] [] h = refl
same_texts-eq [] (y ∷ ys) h = cc
same_texts-eq (x ∷ xs) [] h = cc
same_texts-eq (x ∷ xs) (y ∷ ys) h = elim (Bool-cases (str_eq x y)) [
  | inr p ↦ absurd (ground (arith, h, p))
  | inl p ↦
      let head : x ≡ y = (eq_iff x y).0 p in
      let tail = same_texts-eq xs ys (rw (p, same_texts) at h) in cc (head, tail)
]

-- what a plan says, and what had to hold for it
abbrev pub IsPlanned :
    ConnectorInstance → ConnectorManifest → ConnectorManifest → ConnectorUpgradePlan → Type 0
IsPlanned i from to plan =
    (to.connector_id ≡ i.connector_id)
    × (validate_manifest to ≡ ok tt)
    × (plan.from_version ≡ from.version)
    × (plan.to_version ≡ to.version)
    × (plan.to_capabilities ≡ to.capabilities)
    × (plan.to_required_permissions ≡ to.required_permissions)
    × ((v : Semver) × (w : Semver) × (semver_tuple (codes from.version) ≡ ok v)
        × (semver_tuple (codes to.version) ≡ ok w)
        × (plan.direction ≡ direction_of v w))

pub plan-IsPlanned :
    (i : ConnectorInstance) (from to : ConnectorManifest) (plan : ConnectorUpgradePlan)
    → plan_connector_instance_upgrade i from to ≡ ok plan
    → IsPlanned i from to plan
unfolding plan_connector_instance_upgrade
plan-IsPlanned i from to plan h =
    let (same_id, h) =
      require-eq-ok (str_eq to.connector_id i.connector_id) identity_confusion _ h in
    let (u, valid, h) = >>=-eq-ok (validate_manifest to) _ h in
    let (u', compatible, h) = >>=-eq-ok (check_compatibility to core_contract_version) _ h in
    let (v, read, h) = >>=-eq-ok (semver_tuple (codes from.version)) _ h in
    let (w, read', left) = >>=-eq-ok (semver_tuple (codes to.version)) _ h in
    (
      (eq_iff to.connector_id i.connector_id).0 same_id,
      valid,
      ground (arith, left),
      ground (arith, left),
      ground (arith, left),
      ground (arith, left),
      (v, w, read, read', ground (arith, left)),
    )

-- Two plans between the same manifests in opposite directions, of any instances, are reverse: one
-- upgrades exactly if the other downgrades.
pub plans-reverse :
    (i j : ConnectorInstance) (a b : ConnectorManifest) (plan back : ConnectorUpgradePlan)
    → plan_connector_instance_upgrade i a b ≡ ok plan
    → plan_connector_instance_upgrade j b a ≡ ok back
    → back.direction ≡ reverse plan.direction
plans-reverse i j a b plan back h h' =
    let (v, w, read_a, read_b, d) = (plan-IsPlanned i a b plan h).6 in
    let (w', v', reread_b, reread_a, d') = (plan-IsPlanned j b a back h').6 in
    let e : w ≡ w' = ground (arith, read_b, reread_b) in
    let e' : v ≡ v' = ground (arith, read_a, reread_a) in
    rw (d, d', sym e, sym e') (direction-reverse v w)

-- A plan is always made for two accepted manifests of the instance's connector whose versions have at
-- most 4300 digits, the one to move to being compatible: reading the versions cannot fail.
pub plan_is_made :
    (i : ConnectorInstance) (from to : ConnectorManifest)
    → to.connector_id ≡ i.connector_id
    → validate_manifest from ≡ ok tt
    → validate_manifest to ≡ ok tt
    → check_compatibility to core_contract_version ≡ ok tt
    → count_digits (codes from.version) ≤ int_max_str_digits
    → count_digits (codes to.version) ≤ int_max_str_digits
    → (plan : ConnectorUpgradePlan) × (plan_connector_instance_upgrade i from to ≡ ok plan)
unfolding plan_connector_instance_upgrade
plan_is_made i from to same_id from_valid to_valid compatible few few' =
    let (v, read) =
      accepted_is_read (codes from.version) ((validate-IsWellFormed from).0 from_valid).1 few in
    let (w, read') =
      accepted_is_read (codes to.version) ((validate-IsWellFormed to).0 to_valid).1 few' in
    let p : str_eq to.connector_id i.connector_id ≡ true =
      (eq_iff to.connector_id i.connector_id).1 same_id in
    ok_of (plan_connector_instance_upgrade i from to)
      (ground (arith, p, to_valid, compatible, read, read'))
