-- ===== src/Finding/Rows.antt =====
-- What one recorded event does to the event table and to each finding's row.
use minigrc.Events.Record.{record_event-ok, recorded_event, project_payload}
use minigrc.Finding.{
  record_finding_event, retest_requested, closed, after_retest, finding_closed_event, retesting,
  retest_recorded, after_update, remediation_update_recorded, get_finding, finding_opened,
  finding_id, opened, Finding, Opening, Findings, finding_projectors, FindingSession, FindingEvent,
}
use minigrc.Events.{draft_event, DomainEvent, Context}
use minigrc.Prelude.{
  ok_of, ◌==◌, if◌then◌else◌, arith, Bool, true, false, some, ◌∷◌, ◌++◌, ◌≡◌, ok, >>=-eq-ok, ℕ,
  refl, none, [],
}
use minigrc.Prelude.Table

-- the event that a command records
abbrev pub new_event : Context → ℕ → FindingEvent → FindingSession → DomainEvent FindingEvent
new_event c id payload s = recorded_event "finding" c id none payload s

-- the row that an event makes of its finding's row
abbrev pub row_after : FindingEvent → DomainEvent FindingEvent → Finding → Finding
row_after (finding_opened o) e f = f
row_after (remediation_update_recorded note linked) e f = record f {
  status = after_update f.status;
  updated_at = e.recorded_at;
}
row_after retest_requested e f = record f { status = retesting; updated_at = e.recorded_at }
row_after (retest_recorded test_id result) e f = record f {
  status = after_retest result;
  updated_at = e.recorded_at;
}
row_after (finding_closed_event decision note) e f = record f {
  status = closed;
  closure_decision = some decision;
  closure_note = note;
  updated_at = e.recorded_at;
}

-- the row that `FindingOpened` adds
abbrev pub opened_row : Opening → DomainEvent FindingEvent → Finding
opened_row o e = record {
  id = e.aggregate_id;
  title = o.title;
  description = o.description;
  severity = o.severity;
  status = opened;
  control_id = o.control_id;
  source_test_id = o.source_test_id;
  owner_person_id = o.owner_person_id;
  due_date = o.due_date;
  closure_decision = none;
  closure_note = "";
  created_at = e.recorded_at;
  updated_at = e.recorded_at;
}

pub row_after-keeps_id :
    (p : FindingEvent) (e : DomainEvent FindingEvent) (f : Finding)
    → finding_id (row_after p e f) ≡ finding_id f
row_after-keeps_id (finding_opened o) e f = refl
row_after-keeps_id _ e f = refl

abbrev pub is_opening : FindingEvent → Bool
is_opening (finding_opened o) = true
is_opening _ = false

project_payload-rows :
    (n : ℕ) (p : FindingEvent) (t t' : Findings) (e : DomainEvent FindingEvent)
    → is_opening p ≡ false
    → project_payload (finding_projectors n) p t e ≡ ok t'
    → t'.findings ≡ Table.modify finding_id e.aggregate_id (row_after p e) t.findings
unfolding finding_projectors
project_payload-rows n (finding_opened o) t t' e k h = cc
project_payload-rows n (remediation_update_recorded note linked) t t' e k h = ground arith
project_payload-rows n retest_requested t t' e k h = ground arith
project_payload-rows n (retest_recorded test_id result) t t' e k h = ground arith
project_payload-rows n (finding_closed_event decision note) t t' e k h = ground arith

project_opened-rows :
    (n : ℕ) (o : Opening) (t t' : Findings) (e : DomainEvent FindingEvent)
    → project_payload (finding_projectors n) (finding_opened o) t e ≡ ok t'
    → (t'.findings ≡ t.findings ++ opened_row o e ∷ [])
      × (Table.get finding_id e.aggregate_id t.findings ≡ none)
unfolding finding_projectors
project_opened-rows n o t t' e h =
    let (rows, p, q) =
      >>=-eq-ok (Table.insert finding_id (opened_row o e) t.findings)
        (λ rows. ok (record t { findings = rows })) h in
    let (free, same) = Table.insert-ok finding_id (opened_row o e) t.findings p in (cc, free)

-- A recorded event that opens no finding rewrites its own finding's row and no other.
pub recorded-get :
    (c : Context) (id : ℕ) (payload : FindingEvent) (s s' : FindingSession) (i : ℕ)
    → is_opening payload ≡ false
    → record_finding_event c id payload s ≡ ok s'
    → get_finding i s'.tables ≡ (
        if id == i
        then Table.applied finding_id
            (row_after payload (new_event c id payload s))
            (get_finding id s.tables)
        else get_finding i s.tables)
unfolding get_finding record_finding_event draft_event
recorded-get c id payload s s' i k h =
    let r = record_event-ok (finding_projectors c.now) "finding" c id none payload s h in
    rw (project_payload-rows c.now payload s.tables s'.tables (new_event c id payload s) k r.tables)
      (Table.get-modify finding_id (row_after payload (new_event c id payload s))
        (row_after-keeps_id payload (new_event c id payload s)) i id s.tables.findings)

-- An opening adds one row, under an id that had none.
pub recorded-opening :
    (c : Context) (id : ℕ) (o : Opening) (s s' : FindingSession) (i : ℕ)
    → record_finding_event c id (finding_opened o) s ≡ ok s'
    → (get_finding id s.tables ≡ none)
      × (get_finding i s'.tables ≡ (
          if id == i
          then some (opened_row o (new_event c id (finding_opened o) s))
          else get_finding i s.tables))
unfolding get_finding record_finding_event draft_event
recorded-opening c id o s s' i h =
    let r = record_event-ok (finding_projectors c.now) "finding" c id none (finding_opened o) s h in
    let e = new_event c id (finding_opened o) s in
    let (rows, free) = project_opened-rows c.now o s.tables s'.tables e r.tables in
    (
      free,
      rw rows
          (ground (arith, Table.get-append finding_id i s.tables.findings (opened_row o e), free)),
    )

-- the projector of a later event succeeds where the finding's row is there
pub project-total :
    (n : ℕ) (p : FindingEvent) (t : Findings) (e : DomainEvent FindingEvent) (f : Finding)
    → is_opening p ≡ false
    → get_finding e.aggregate_id t ≡ some f
    → (t' : Findings) × (project_payload (finding_projectors n) p t e ≡ ok t')
unfolding finding_projectors
project-total n (finding_opened o) t e f k h = cc
project-total n (remediation_update_recorded note linked) t e f k h = ok_of _ (ground (arith, h))
project-total n retest_requested t e f k h = ok_of _ (ground (arith, h))
project-total n (retest_recorded test_id result) t e f k h = ok_of _ (ground (arith, h))
project-total n (finding_closed_event decision note) t e f k h = ok_of _ (ground (arith, h))

pub project_opening-total :
    (n : ℕ) (o : Opening) (t : Findings) (e : DomainEvent FindingEvent)
    → get_finding e.aggregate_id t ≡ none
    → (t' : Findings) × (project_payload (finding_projectors n) (finding_opened o) t e ≡ ok t')
unfolding finding_projectors get_finding Table.insert
project_opening-total n o t e h = ok_of _ (ground (arith, h))
