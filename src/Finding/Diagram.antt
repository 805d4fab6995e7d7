-- ===== src/Finding/Diagram.antt =====
-- How the status of a finding moves.
use minigrc.ControlTest.{ControlTest}
use minigrc.Finding.Lifecycle.{execute-ok, IsAllowed, IsAllowedOn, payload_of, target}
use minigrc.Prelude.Table
use minigrc.Finding.Rows.{
  row_after, recorded-get, row_after-keeps_id, recorded-opening, new_event, is_opening,
}
use minigrc.Events.{DomainEvent, Context}
use minigrc.Prelude.{
  true, Option, ◌==◌, if◌then◌else◌, ==_iff, ap, subst, Bool-cases, str_eq, String, inl, inr, ok,
  ◌≢◌, ◌≡◌, ℕ, refl, false, some, arith,
}
use minigrc.Finding.{
  References, record_finding_event, after_retest, after_update, opened, finding_id, FindingStatus,
  execute, close_it, retest_it, request_it, update_it, open_it, FindingCommand, FindingSession,
  get_finding, FindingEvent, Finding, closed, retesting, remediating,
}

-- the arrows of the diagram, each under the command that takes it
pub data Moves : FindingCommand → FindingStatus → FindingStatus → Type 0 where
  start :
      {refs : References} {id : ℕ} {note : String} {linked : Option ℕ}
      → Moves (update_it refs id note linked) opened remediating
  go_on :
      {refs : References} {id : ℕ} {note : String} {linked : Option ℕ}
      → Moves (update_it refs id note linked) remediating remediating
  note_while_retesting :
      {refs : References} {id : ℕ} {note : String} {linked : Option ℕ}
      → Moves (update_it refs id note linked) retesting retesting
  submit : {id : ℕ} → Moves (request_it id) remediating retesting
  pass_retest :
      {id : ℕ} {t : ControlTest}
      → str_eq t.result "exceptions_noted" ≡ false
      → Moves (retest_it id t) retesting retesting
  fail_retest :
      {id : ℕ} {t : ControlTest}
      → str_eq t.result "exceptions_noted" ≡ true
      → Moves (retest_it id t) retesting remediating
  close :
      {id : ℕ} {decision note : String} {x : FindingStatus}
      → x ≢ closed
      → Moves (close_it id decision note) x closed

-- what one accepted command does to one row
pub data RowStep (i : ℕ) (cmd : FindingCommand) (f f' : Finding) : Type 0 where
  untouched : target cmd ≢ i → f' ≡ f → RowStep i cmd f f'
  moved : target cmd ≡ i → f'.id ≡ f.id → Moves cmd f.status f'.status → RowStep i cmd f f'

after_update-Moves :
    (refs : References) (id : ℕ) (note : String) (linked : Option ℕ) (x : FindingStatus)
    → x ≢ closed
    → Moves (update_it refs id note linked) x (after_update x)
after_update-Moves refs id note linked opened h = start
after_update-Moves refs id note linked remediating h = go_on
after_update-Moves refs id note linked retesting h = note_while_retesting
after_update-Moves refs id note linked closed h = absurd (h refl)

after_retest-Moves :
    (id : ℕ) (t : ControlTest) → Moves (retest_it id t) retesting (after_retest t.result)
after_retest-Moves id t = elim (Bool-cases (str_eq t.result "exceptions_noted")) [
  | inl p ↦ rw p (fail_retest p)
  | inr p ↦ rw p (pass_retest p)
]

allowed-Moves :
    (cmd : FindingCommand) (f : Finding) (e : DomainEvent FindingEvent)
    → IsAllowedOn cmd f
    → Moves cmd f.status (row_after (payload_of cmd) e f).status
allowed-Moves (open_it refs id o) f e a = absurd a
allowed-Moves (update_it refs id note linked) f e a =
    after_update-Moves refs id note linked f.status a.0
allowed-Moves (request_it id) f e a = rw a submit
allowed-Moves (retest_it id t) f e a = rw a.0 (after_retest-Moves id t)
allowed-Moves (close_it id decision note) f e a = close a.0

later-RowStep :
    (c : Context) (cmd : FindingCommand) (s s' : FindingSession) (i : ℕ) (f g : Finding)
    → is_opening (payload_of cmd) ≡ false
    → get_finding (target cmd) s.tables ≡ some g
    → IsAllowedOn cmd g
    → record_finding_event c (target cmd) (payload_of cmd) s ≡ ok s'
    → get_finding i s.tables ≡ some f
    → (f' : Finding) × (get_finding i s'.tables ≡ some f') × RowStep i cmd f f'
later-RowStep c cmd s s' i f g k q a r p = elim (Bool-cases (target cmd == i)) [
  | inl m ↦
      let same : target cmd ≡ i = (==_iff (target cmd) i).0 m in
      let g_is_f : g ≡ f = cc in
      (
        row_after (payload_of cmd) e f,
        rw (now, m, q) (ap (λ x. some (row_after (payload_of cmd) e x)) g_is_f),
        moved same (row_after-keeps_id (payload_of cmd) e f)
            (allowed-Moves cmd f e (subst (IsAllowedOn cmd) g_is_f a)),
      )
  | inr m ↦ (f, rw (now, m) p, untouched (ne m) refl)
]
  where
    e : DomainEvent FindingEvent
    e = new_event c (target cmd) (payload_of cmd) s

    now : get_finding i s'.tables ≡ (
        if target cmd == i
        then Table.applied finding_id
            (row_after (payload_of cmd) e)
            (get_finding (target cmd) s.tables)
        else get_finding i s.tables)
    now = recorded-get c (target cmd) (payload_of cmd) s s' i k r

    ne : (target cmd == i) ≡ false → target cmd ≢ i
    ne m x = ground arith

recorded-RowStep :
    (c : Context) (cmd : FindingCommand) (s s' : FindingSession) (i : ℕ) (f : Finding)
    → IsAllowed cmd s
    → record_finding_event c (target cmd) (payload_of cmd) s ≡ ok s'
    → get_finding i s.tables ≡ some f
    → (f' : Finding) × (get_finding i s'.tables ≡ some f') × RowStep i cmd f f'
recorded-RowStep c (open_it refs id o) s s' i f a r p =
    let (free, now) = recorded-opening c id o s s' i r in
    let ne : id ≢ i = λ same. cc in (f, ground (arith, now, ne), untouched ne refl)
recorded-RowStep c (update_it refs id note linked) s s' i f (g, q, a) r p =
    later-RowStep c (update_it refs id note linked) s s' i f g refl q a r p
recorded-RowStep c (request_it id) s s' i f (g, q, a) r p =
    later-RowStep c (request_it id) s s' i f g refl q a r p
recorded-RowStep c (retest_it id t) s s' i f (g, q, a) r p =
    later-RowStep c (retest_it id t) s s' i f g refl q a r p
recorded-RowStep c (close_it id decision note) s s' i f (g, q, a) r p =
    later-RowStep c (close_it id decision note) s s' i f g refl q a r p

-- The status of every finding moves along the diagram, and only by its own commands: an accepted
-- command leaves the rows of other findings as they are, and takes its own finding's status along
-- an arrow of `Moves` of that command. An update starts the remediation of an opened finding and
-- keeps the status of a remediating or retesting one; a request for a retest takes a remediating
-- finding to retesting; a retest with exceptions takes it back to remediating, and any other result
-- leaves it retesting; only the closing command closes, and nothing leaves `closed`.
pub execute-RowStep :
    (c : Context) (cmd : FindingCommand) (s s' : FindingSession) (i : ℕ) (f : Finding)
    → execute c cmd s ≡ ok s'
    → get_finding i s.tables ≡ some f
    → (f' : Finding) × (get_finding i s'.tables ≡ some f') × RowStep i cmd f f'
execute-RowStep c cmd s s' i f h p =
    let (a, r) = execute-ok c cmd s h in recorded-RowStep c cmd s s' i f a r p
