-- ===== src/Finding/Validity.antt =====
-- What every finding satisfies, whatever requests have been made.
use minigrc.Prelude.Table
use minigrc.Finding.Rows.{
  recorded-get, new_event, row_after, opened_row, recorded-opening, is_opening,
}
use minigrc.Finding.Lifecycle.{payload_of, target, IsAllowedOn, IsAllowed, execute-ok}
use minigrc.Events.{DomainEvent, Context}
use minigrc.Events.Runs.{run, run-keeps}
use minigrc.Prelude.{
  ◌==◌, ◌≡◌, ◌≢◌, if◌then◌else◌, Bool-cases, one_of, ok, ℕ, String, refl, subst, inl, inr, true,
  false, none, some, List, arith,
}
use minigrc.Finding.{
  get_finding, empty_session, execute, close_it, retest_it, request_it, update_it, open_it,
  FindingCommand, record_finding_event, FindingSession, after_retest, after_update, finding_id,
  finding_opened, FindingEvent, Opening, Finding, finding_closure_decisions, finding_severities,
  closed, FindingStatus,
}

-- The CHECK constraints of the table, and that a decision is there exactly when the finding is
-- closed.
pub record IsValidFinding (f : Finding) : Type 0 where
  pub severity : one_of finding_severities f.severity ≡ true
  pub decided :
      f.status ≡ closed
      → (d : String) × (f.closure_decision ≡ some d) × (one_of finding_closure_decisions d ≡ true)
  pub undecided : f.status ≢ closed → f.closure_decision ≡ none

abbrev pub AllValid : FindingSession → Type 0
AllValid s = (i : ℕ) (f : Finding) → get_finding i s.tables ≡ some f → IsValidFinding f

after_update-ne-closed : (x : FindingStatus) → x ≢ closed → after_update x ≢ closed
after_update-ne-closed x h e = ground arith

after_retest-ne-closed : (result : String) → after_retest result ≢ closed
after_retest-ne-closed result e = ground arith

row_after-IsValid :
    (cmd : FindingCommand) (f : Finding) (e : DomainEvent FindingEvent)
    → IsAllowedOn cmd f
    → IsValidFinding f
    → IsValidFinding (row_after (payload_of cmd) e f)
row_after-IsValid (open_it refs id o) f e a v = absurd a
row_after-IsValid (update_it refs id note linked) f e a v = record {
  severity = v.severity;
  decided = λ h. absurd (after_update-ne-closed f.status a.0 h);
  undecided = λ h. v.undecided a.0;
}
row_after-IsValid (request_it id) f e a v = record {
  severity = v.severity;
  decided = λ h. cc;
  undecided = λ h. v.undecided (λ x. cc);
}
row_after-IsValid (retest_it id t) f e a v = record {
  severity = v.severity;
  decided = λ h. absurd (after_retest-ne-closed t.result h);
  undecided = λ h. v.undecided (λ x. cc (a.0));
}
row_after-IsValid (close_it id decision note) f e a v = record {
  severity = v.severity;
  decided = λ h. (decision, refl, a.1);
  undecided = λ h. absurd (h refl);
}

opened_row-IsValid :
    (o : Opening) (e : DomainEvent FindingEvent)
    → one_of finding_severities o.severity ≡ true
    → IsValidFinding (opened_row o e)
opened_row-IsValid o e h = record { severity = h; decided = λ x. cc; undecided = λ x. refl }

later-AllValid :
    (c : Context) (cmd : FindingCommand) (s s' : FindingSession) (g : Finding)
    → is_opening (payload_of cmd) ≡ false
    → get_finding (target cmd) s.tables ≡ some g
    → IsAllowedOn cmd g
    → record_finding_event c (target cmd) (payload_of cmd) s ≡ ok s'
    → AllValid s
    → AllValid s'
later-AllValid c cmd s s' g k q a r v i f p = elim (Bool-cases (target cmd == i)) [
  | inl m ↦
      let changed : row_after (payload_of cmd) e g ≡ f = ground (arith, now, m, q, p) in
      subst IsValidFinding changed (row_after-IsValid cmd g e a (v (target cmd) g q))
  | inr m ↦ v i f (ground (arith, now, m, p))
]
  where
    e : DomainEvent FindingEvent
    e = new_event c (target cmd) (payload_of cmd) s

    now : get_finding i s'.tables ≡ (
        if target cmd == i
        then Table.applied finding_id
            (row_after (payload_of cmd) e)
            (get_finding (target cmd) s.tables)
        else get_finding i s.tables)
    now = recorded-get c (target cmd) (payload_of cmd) s s' i k r

opening-AllValid :
    (c : Context) (id : ℕ) (o : Opening) (s s' : FindingSession)
    → one_of finding_severities o.severity ≡ true
    → record_finding_event c id (finding_opened o) s ≡ ok s'
    → AllValid s
    → AllValid s'
opening-AllValid c id o s s' known r v i f p =
    let (free, now) = recorded-opening c id o s s' i r in
    let e = new_event c id (finding_opened o) s in
    elim (Bool-cases (id == i)) [
      | inl m ↦
          let new : opened_row o e ≡ f = ground (arith, now, m, p) in
          subst IsValidFinding new (opened_row-IsValid o e known)
      | inr m ↦ v i f (ground (arith, now, m, p))
    ]

execute-AllValid :
    (c : Context) (cmd : FindingCommand) (s s' : FindingSession)
    → IsAllowed cmd s
    → record_finding_event c (target cmd) (payload_of cmd) s ≡ ok s'
    → AllValid s
    → AllValid s'
execute-AllValid c (open_it refs id o) s s' a r v = opening-AllValid c id o s s' a.0 r v
execute-AllValid c (update_it refs id note linked) s s' (g, q, a) r v =
    later-AllValid c (update_it refs id note linked) s s' g refl q a r v
execute-AllValid c (request_it id) s s' (g, q, a) r v =
    later-AllValid c (request_it id) s s' g refl q a r v
execute-AllValid c (retest_it id t) s s' (g, q, a) r v =
    later-AllValid c (retest_it id t) s s' g refl q a r v
execute-AllValid c (close_it id decision note) s s' (g, q, a) r v =
    later-AllValid c (close_it id decision note) s s' g refl q a r v

-- After any requests from an empty database, every finding is valid: a known severity, a known
-- closure decision on each closed finding, and none on a finding that is not closed.
pub run_is_valid :
    (requests : List (Context × FindingCommand)) → AllValid (run execute empty_session requests)
unfolding empty_session get_finding Table.get
run_is_valid requests =
    run-keeps execute AllValid
      (λ c cmd s s' v h. let (a, r) = execute-ok c cmd s h in execute-AllValid c cmd s s' a r v)
      empty_session requests (λ i f p. cc)
