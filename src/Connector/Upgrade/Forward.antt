-- ===== src/Connector/Upgrade/Forward.antt =====
-- What is applied was reviewed, and goes forward unless a downgrade is allowed.
use minigrc.Prelude.{
  List, [], ◌∷◌, Bool, true, false, not, ◌&&◌, ◌≡◌, ◌⊎◌, ◌∙◌, inl, inr, refl, sym, subst, eq_iff,
  str_eq, codes, committed, Result, ok, require-eq-ok, >>=-eq-ok, Result-cases, stale_plan,
  silent_downgrade, plan_mismatch, manifest_substituted, arith, ◌>>=◌,
}
use minigrc.Access.{User}
use minigrc.Connector.Version.{Semver, semver_tuple, version_lt}
use minigrc.Connector.Manifest.{ConnectorManifest}
use minigrc.Connector.Instances.{ConnectorInstance, ConnectorStore}
use minigrc.Connector.Upgrade.{
  ConnectorUpgradePlan, direction_of, plan_connector_instance_upgrade, is_downgrade, same_texts,
  apply_connector_instance_upgrade,
}
use minigrc.Connector.Upgrade.Versions.{plan-IsPlanned, same_texts-eq, not_lt_trans}

-- `i'` is `i` at the version that a plan reviewed, which is no lower unless that was allowed
abbrev pub IsMoved :
    ConnectorInstance → ConnectorManifest → ConnectorManifest → Bool → ConnectorInstance → Type 0
IsMoved i reviewed to allow i' =
    (i' ≡ record i { manifest_version = reviewed.version })
    × (to.version ≡ reviewed.version)
    × (to.capabilities ≡ reviewed.capabilities)
    × (to.required_permissions ≡ reviewed.required_permissions)
    × (to.connector_id ≡ i.connector_id)
    × ((v : Semver) × (w : Semver) × (semver_tuple (codes i.manifest_version) ≡ ok v)
        × (semver_tuple (codes i'.manifest_version) ≡ ok w)
        × ((allow ≡ true) ⊎ (version_lt w v ≡ false)))

lower_is_downgrade :
    (v w : Semver) (allow : Bool)
    → not (is_downgrade (direction_of v w) && not allow) ≡ true
    → (allow ≡ true) ⊎ (version_lt w v ≡ false)
unfolding direction_of version_lt
lower_is_downgrade v w true h = inl refl
lower_is_downgrade v w false h = inr (ground (arith, h))

-- If a plan was made, of any instance, and is applied to an instance with any manifest, then the
-- instance was at the version that the plan starts from and is now at the one that it reviewed; the
-- manifest is of the instance's connector and has the reviewed version, capabilities and permissions;
-- both versions are read, and the new one is not lower unless a downgrade was allowed. Nothing else of
-- the instance changes.
pub apply-IsMoved :
    (i0 i : ConnectorInstance) (from reviewed to : ConnectorManifest) (plan : ConnectorUpgradePlan)
    (actor : User) (allow : Bool) (s s' : ConnectorStore) (i' : ConnectorInstance)
    → plan_connector_instance_upgrade i0 from reviewed ≡ ok plan
    → apply_connector_instance_upgrade i plan to actor allow s ≡ ok (s', i')
    → IsMoved i reviewed to allow i'
unfolding apply_connector_instance_upgrade
apply-IsMoved i0 i from reviewed to plan actor allow s s' i' planned h =
    let (id0, valid, from_v, to_v, to_c, to_p, (v, w, read, read_to, d)) =
      plan-IsPlanned i0 from reviewed plan planned in
    let (fresh, h) = require-eq-ok (str_eq i.manifest_version plan.from_version) stale_plan _ h in
    let (allowed, h) =
      require-eq-ok (not (is_downgrade plan.direction && not allow)) silent_downgrade _ h in
    let (ids, h) =
      require-eq-ok
        (str_eq plan.connector_id i.connector_id && str_eq to.connector_id i.connector_id)
        plan_mismatch _ h in
    let (as_reviewed, left) =
      require-eq-ok
        (str_eq to.version plan.to_version
          && (same_texts to.capabilities plan.to_capabilities
              && same_texts to.required_permissions plan.to_required_permissions))
        manifest_substituted _ h in
    let at : i.manifest_version ≡ from.version =
      (eq_iff i.manifest_version plan.from_version).0 fresh ∙ from_v in
    let version : to.version ≡ reviewed.version =
      (eq_iff to.version plan.to_version).0 (ground (arith, as_reviewed)) ∙ to_v in
    let moved_to : record i { manifest_version = reviewed.version } ≡ i' =
      ground (arith, left, version) in
    (
      sym moved_to,
      version,
      same_texts-eq to.capabilities plan.to_capabilities (ground (arith, as_reviewed)) ∙ to_c,
      same_texts-eq to.required_permissions plan.to_required_permissions
            (ground (arith, as_reviewed))
          ∙ to_p,
      (eq_iff to.connector_id i.connector_id).0 (ground (arith, ids)),
      (
        v,
        w,
        rw at read,
        subst (λ x. semver_tuple (codes x.manifest_version) ≡ ok w) moved_to read_to,
        lower_is_downgrade v w allow (rw d at allowed),
      ),
    )

-- one upgrade: a reviewed plan, then its application to a manifest that may be another
pub record Move : Type 0 where
  pub from : ConnectorManifest
  pub reviewed : ConnectorManifest
  pub to : ConnectorManifest
  pub actor : User

-- the plan and its application without permission to downgrade; a refusal is rolled back
abbrev move_result :
    Move → ConnectorStore → ConnectorInstance → Result (ConnectorStore × ConnectorInstance)
move_result x s i = plan_connector_instance_upgrade i x.from x.reviewed >>= λ plan.
    apply_connector_instance_upgrade i plan x.to x.actor false s

unfoldable pub move : Move → ConnectorStore × ConnectorInstance → ConnectorStore × ConnectorInstance
move x (s, i) = committed (s, i) (move_result x s i)

unfoldable pub moves :
    List Move → ConnectorStore × ConnectorInstance → ConnectorStore × ConnectorInstance
moves [] a = a
moves (x ∷ xs) a = moves xs (move x a)

not_lt_refl : (v : Semver) → version_lt v v ≡ false
unfolding version_lt
not_lt_refl v = ground arith

move_forward :
    (x : Move) (s : ConnectorStore) (i : ConnectorInstance) (v : Semver)
    → semver_tuple (codes i.manifest_version) ≡ ok v
    → (w : Semver) × (semver_tuple (codes (move x (s, i)).1.manifest_version) ≡ ok w)
      × (version_lt w v ≡ false)
unfolding move
move_forward x s i v h = elim (Result-cases (move_result x s i)) [
  | inl (reason, p) ↦ (v, ground (arith, p, h), not_lt_refl v)
  | inr ((s', i'), p) ↦
      let (plan, planned, applied) =
        >>=-eq-ok (plan_connector_instance_upgrade i x.from x.reviewed) _ p in
      let (v', w, read, read', d) =
        (apply-IsMoved i i x.from x.reviewed x.to plan x.actor false s s' i' planned applied).5 in
      let e : v' ≡ v = ground (arith, h, read) in (w, ground (arith, p, read'), forward v v' w e d)
]
  where
    forward :
        (v v' w : Semver)
        → v' ≡ v
        → (false ≡ true) ⊎ (version_lt w v' ≡ false)
        → version_lt w v ≡ false
    forward v v' w e (inl d) = cc
    forward v v' w e (inr d) = rw e at d

-- Any upgrades without permission to downgrade, applied or refused, leave an installed connector at a
-- version that is not lower than the one that it began with.
pub versions_go_forward :
    (xs : List Move) (s : ConnectorStore) (i : ConnectorInstance) (v : Semver)
    → semver_tuple (codes i.manifest_version) ≡ ok v
    → (w : Semver) × (semver_tuple (codes (moves xs (s, i)).1.manifest_version) ≡ ok w)
      × (version_lt w v ≡ false)
unfolding moves
versions_go_forward [] s i v h = (v, h, not_lt_refl v)
versions_go_forward (x ∷ xs) s i v h =
    let (w, read, up) = move_forward x s i v h in
    let (u, read', up') = versions_go_forward xs (move x (s, i)).0 (move x (s, i)).1 w read in
    (u, read', not_lt_trans v w u up up')
