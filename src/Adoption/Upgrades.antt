-- ===== src/Adoption/Upgrades.antt =====
-- Which upgrades are accepted, what they leave, and the rebuild of the adoptions.
use minigrc.Events.{draft_event, DomainEvent, Context}
use minigrc.Adoption.{
  list_upgrade_candidates, is_candidate, reset_framework_adoptions, execute, upgrade, adopt,
  AdoptionCommand, candidates, upgrade_framework_adoption, adopt_framework, get_adoption,
  rebuild_framework_adoption_projection, AdoptionSession, framework_adoption_projectors,
  project_upgraded, upgraded_row, framework_id, adoption_id, upgraded, adopted, AdoptionEvent,
  FrameworkAdoption, Framework,
}
use minigrc.Prelude.{
  ◌⊎◌, Result-cases, ◌∙◌, sym, ◌∷◌, ◌==◌, ◌≡◌, Bool-cases, Option-cases, opt_str_eq, any, All,
  other_family, nothing_to_upgrade, inactive_framework, ok, require-eq-ok, is_ok, refl, subst, inl,
  inr, Bool, true, false, not, none, some, List, [], arith, ℕ,
}
use minigrc.Prelude.Table
use minigrc.Events.Record.{record_event-ok, record_event-total, recorded_event, project_payload}
use minigrc.Events.Runs.{Effect, no_event, one_event, run, rebuild-run, IsTicking}

-- an accepted request is one event, or nothing
pub execute-Effect :
    (c : Context) (cmd : AdoptionCommand) (s s' : AdoptionSession)
    → execute c cmd s ≡ ok s'
    → Effect framework_adoption_projectors "framework_adoption" c s s'
unfolding execute adopt_framework upgrade_framework_adoption
execute-Effect c (adopt id framework) s s' h = elim (Option-cases framework.catalog_family) [
  | inl p ↦ absurd (ground (arith, h, p))
  | inr (family, p) ↦ elim (Option-cases (get_adoption family s.tables)) [
    | inl q ↦
        one_event id none (adopted family framework.id) (rw (p, q, adopt_framework, execute) at h)
    | inr (existing, q) ↦ elim (Bool-cases (existing.framework_id == framework.id)) [
      | inl r ↦ no_event (ground (arith, h, p, q, r))
      | inr r ↦ absurd (ground (arith, h, p, q, r))
    ]
  ]
]
execute-Effect c (upgrade family f) s s' h = elim (Option-cases (get_adoption family s.tables)) [
  | inl p ↦ absurd (ground (arith, h, p))
  | inr (a, p) ↦
      let (same, h) =
        require-eq-ok (opt_str_eq f.catalog_family (some a.catalog_family)) other_family _
          (rw (p, execute) at h) in
      let (moves, h) = require-eq-ok (not (f.id == a.framework_id)) nothing_to_upgrade _ h in
      let (active, h) = require-eq-ok f.is_active inactive_framework _ h in
      one_event a.id none (upgraded a.catalog_family a.framework_id f.id) h
]

abbrev pub no_adoptions : AdoptionSession
no_adoptions = record { events = []; tables = [] }

-- Rebuilding the adoptions after any requests changes nothing.
pub rebuild_adoptions_after_run :
    (t : ℕ) (requests : List (Context × AdoptionCommand))
    → IsTicking t requests
    → rebuild_framework_adoption_projection (run execute no_adoptions requests)
      ≡ ok (run execute no_adoptions requests)
unfolding rebuild_framework_adoption_projection reset_framework_adoptions
rebuild_adoptions_after_run t requests ticking =
    rebuild-run framework_adoption_projectors "framework_adoption" [] execute execute-Effect
      reset_framework_adoptions t requests ticking refl

-- the framework with the id of `f`
abbrev pub has_id : Framework → Framework → Bool
has_id f g = g.id == f.id

module _ (a : FrameworkAdoption) (f : Framework) where
  candidates-other :
      (frameworks : List Framework)
      → All (λ g. (f.id == g.id) ≡ false) frameworks
      → any (has_id f) (candidates a frameworks) ≡ false
  unfolding candidates
  candidates-other [] h = refl
  candidates-other (g ∷ frameworks) h = ground (arith, h.0, candidates-other frameworks h.1)

  candidates-found :
      (frameworks : List Framework)
      → Table.IsKeyed framework_id frameworks
      → Table.get framework_id f.id frameworks ≡ some f
      → any (has_id f) (candidates a frameworks) ≡ is_candidate a f
  unfolding candidates Table.get
  candidates-found [] k h = cc
  candidates-found (g ∷ frameworks) k h = elim (Bool-cases (g.id == f.id)) [
    | inl p ↦
        let same : g ≡ f = ground (arith, h, p) in
        let others : any (has_id f) (candidates a frameworks) ≡ false =
          candidates-other frameworks
            (subst (λ x. All (λ y. (x.id == y.id) ≡ false) frameworks) same (k.0)) in
        ground (arith, same, others, p)
    | inr p ↦ ground (arith, p, candidates-found frameworks (k.1) (rw (p, Table.get) at h))
  ]

module _ (c : Context) (a : FrameworkAdoption) (f : Framework) (s : AdoptionSession)
    (stored : Table.get adoption_id a.id s.tables ≡ some a) where
  -- the event of an upgrade
  abbrev pub upgrade_event : DomainEvent AdoptionEvent
  upgrade_event =
      recorded_event "framework_adoption" c a.id none
        (upgraded a.catalog_family a.framework_id f.id) s

  upgrade-projected :
      project_payload framework_adoption_projectors
        (upgraded a.catalog_family a.framework_id f.id)
        s.tables
        upgrade_event
      ≡ ok (Table.modify adoption_id a.id (upgraded_row a.framework_id f.id upgrade_event) s.tables)
  unfolding framework_adoption_projectors project_upgraded draft_event
  upgrade-projected = ground (arith, stored)

  candidate-upgraded : is_candidate a f ≡ true → is_ok (upgrade_framework_adoption c a f s) ≡ true
  unfolding upgrade_framework_adoption
  candidate-upgraded h =
      let total =
        record_event-total framework_adoption_projectors "framework_adoption" c a.id none
          (upgraded a.catalog_family a.framework_id f.id) s _ upgrade-projected in
      ground (arith, h, total)

  refused_otherwise : is_candidate a f ≡ false → is_ok (upgrade_framework_adoption c a f s) ≡ false
  unfolding upgrade_framework_adoption
  refused_otherwise h = ground (arith, h)

  upgrade-row :
      (s' : AdoptionSession)
      → upgrade_framework_adoption c a f s ≡ ok s'
      → Table.get adoption_id a.id s'.tables
        ≡ some (upgraded_row a.framework_id f.id upgrade_event a)
  unfolding upgrade_framework_adoption
  upgrade-row s' h =
      let (same, h) =
        require-eq-ok (opt_str_eq f.catalog_family (some a.catalog_family)) other_family _ h in
      let (moves, h) = require-eq-ok (not (f.id == a.framework_id)) nothing_to_upgrade _ h in
      let (active, h) = require-eq-ok f.is_active inactive_framework _ h in
      let r =
        record_event-ok framework_adoption_projectors "framework_adoption" c a.id none
          (upgraded a.catalog_family a.framework_id f.id) s h in
      let tables : Table.modify adoption_id a.id (upgraded_row a.framework_id f.id upgrade_event)
            s.tables
          ≡ s'.tables =
        ground (arith, upgrade-projected, r.tables) in
      let at_id =
        Table.get-modify adoption_id (upgraded_row a.framework_id f.id upgrade_event) (λ x. refl)
          a.id a.id s.tables in
      rw (sym tables) (ground (arith, at_id, stored))

-- An upgrade of a stored adoption to a stored framework is accepted exactly if the framework is one of
-- the candidates that `list_upgrade_candidates` offers, whatever order the database gives them; an
-- accepted upgrade leaves the adoption on the new framework, with the old one as the previous one and
-- the time of the event.
pub upgrade_exact :
    (ordered : List Framework → List Framework) (c : Context) (a : FrameworkAdoption)
    (f : Framework) (frameworks : List Framework) (s : AdoptionSession)
    → ((p : Framework → Bool) (rows : List Framework) → any p (ordered rows) ≡ any p rows)
    → Table.IsKeyed framework_id frameworks
    → Table.get framework_id f.id frameworks ≡ some f
    → Table.get adoption_id a.id s.tables ≡ some a
    → (is_ok (upgrade_framework_adoption c a f s)
        ≡ any (has_id f) (list_upgrade_candidates ordered a frameworks))
      × ((is_ok (upgrade_framework_adoption c a f s) ≡ false)
          ⊎ ((s' : AdoptionSession) × (upgrade_framework_adoption c a f s ≡ ok s')
              × (Table.get adoption_id a.id s'.tables
                  ≡ some (record a {
                    framework_id = f.id;
                    previous_framework_id = some a.framework_id;
                    upgraded_at = some c.now;
                  }))))
unfolding list_upgrade_candidates draft_event
upgrade_exact ordered c a f frameworks s reorders keyed found stored =
    let offered : any (has_id f) (list_upgrade_candidates ordered a frameworks) ≡ is_candidate a f =
      reorders (has_id f) (candidates a frameworks) ∙ candidates-found a f frameworks keyed found in
    (
      elim (Bool-cases (is_candidate a f)) [
        | inl p ↦ ground (arith, candidate-upgraded c a f s stored p, offered, p)
        | inr p ↦ ground (arith, refused_otherwise c a f s stored p, offered, p)
      ],
      elim (Result-cases (upgrade_framework_adoption c a f s)) [
        | inl (reason, p) ↦ inl (rw p refl)
        | inr (s', p) ↦ inr (s', p, upgrade-row c a f s stored s' p)
      ],
    )
