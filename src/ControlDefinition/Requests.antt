-- ===== src/ControlDefinition/Requests.antt =====
-- Runs of requests on the versions of control definitions.
use minigrc.Events.{Context}
use minigrc.ControlDefinition.Single.{single-count, count_effective}
use minigrc.ControlDefinition.Log.{
  withdraw-Logged, make_effective-Logged, review-Logged, Logged-trans, bootstrap-Logged, AreOrdered,
  loaded, submit-Logged, draft-Logged, Logged-single, nothing, Logged,
}
use minigrc.ControlDefinition.{
  with_version, bootstrap_initial_effective_version, Contexts, withdraw_definition,
  make_definition_effective, review_definition, submit_definition, draft_control_definition_version,
  Overrides, ControlRow,
}
use minigrc.ControlDefinition.Projection.{VersionSession, has_two_effective}
use minigrc.Prelude.{
  ◌+◌, ◌≤◌, ◌∷◌, ◌≡◌, Result, ok, committed, Result-cases, String, refl, inl, inr, Option, List, [],
  arith, ℕ,
}

-- the requests that write version events; a version is loaded before it is changed
pub data DefinitionCommand : Type 0 where
  draft_it : Context → ℕ → ControlRow → Overrides → DefinitionCommand
  submit_it : Context → ℕ → DefinitionCommand
  review_it : Context → ℕ → String → String → DefinitionCommand
  make_effective_it : Context → Context → ℕ → DefinitionCommand
  withdraw_it : Context → ℕ → String → Option ℕ → DefinitionCommand
  bootstrap_it : Contexts → ℕ → ControlRow → DefinitionCommand

unfoldable pub execute : DefinitionCommand → VersionSession → Result VersionSession
execute (draft_it c id control given) s = draft_control_definition_version c id control given s
execute (submit_it c id) s = with_version id (submit_definition c) s
execute (review_it c id decision comment) s =
    with_version id (λ v. review_definition c v decision comment) s
execute (make_effective_it c c' id) s = with_version id (make_definition_effective c c') s
execute (withdraw_it c id reason at) s = with_version id (λ v. withdraw_definition c v reason at) s
execute (bootstrap_it cs id control) s = bootstrap_initial_effective_version cs id control s

-- One request (app/deps.py, `get_db`): what raises is rolled back.
unfoldable pub request : VersionSession → DefinitionCommand → VersionSession
request s cmd = committed s (execute cmd s)

unfoldable pub run : VersionSession → List DefinitionCommand → VersionSession
run s [] = s
run s (cmd ∷ rest) = run (request s cmd) rest

abbrev pub empty_session : VersionSession
empty_session = record { events = []; tables = [] }

-- the time of a command's last event
abbrev pub last_now : DefinitionCommand → ℕ
last_now (draft_it c id control given) = c.now
last_now (submit_it c id) = c.now
last_now (review_it c id decision comment) = c.now
last_now (make_effective_it c c' id) = c'.now
last_now (withdraw_it c id reason at) = c.now
last_now (bootstrap_it cs id control) = cs.activating.now

-- the command's clock starts at the time or later, and moves on between its events
abbrev pub StartsAt : ℕ → DefinitionCommand → Type 0
StartsAt t (draft_it c id control given) = t ≤ c.now
StartsAt t (submit_it c id) = t ≤ c.now
StartsAt t (review_it c id decision comment) = t ≤ c.now
StartsAt t (make_effective_it c c' id) = (t ≤ c.now) × (c.now + 1 ≤ c'.now)
StartsAt t (withdraw_it c id reason at) = t ≤ c.now
StartsAt t (bootstrap_it cs id control) = AreOrdered t cs

abbrev pub IsTicking : ℕ → List DefinitionCommand → Type 0
IsTicking t [] = Unit
IsTicking t (cmd ∷ rest) = StartsAt t cmd × IsTicking (last_now cmd + 1) rest

starts_before : (t : ℕ) (cmd : DefinitionCommand) → StartsAt t cmd → t ≤ last_now cmd + 1
starts_before t (draft_it c id control given) h = omega (arith, h)
starts_before t (submit_it c id) h = omega (arith, h)
starts_before t (review_it c id decision comment) h = omega (arith, h)
starts_before t (make_effective_it c c' id) (a, b) = omega (arith, a, b)
starts_before t (withdraw_it c id reason at) h = omega (arith, h)
starts_before t (bootstrap_it cs id control) (a, b, c, d, e) = omega (arith, a, b, c, d, e)

execute-Logged :
    (t : ℕ) (cmd : DefinitionCommand) (s s' : VersionSession)
    → StartsAt t cmd
    → execute cmd s ≡ ok s'
    → Logged t s (last_now cmd + 1) s'
unfolding execute
execute-Logged t (draft_it c id control given) s s' k h = draft-Logged t c k s s' id control given h
execute-Logged t (submit_it c id) s s' k h =
    let (v, e) = loaded id (submit_definition c) s s' h in submit-Logged t c k s s' v e
execute-Logged t (review_it c id decision comment) s s' k h =
    let (v, e) = loaded id (λ v. review_definition c v decision comment) s s' h in
    review-Logged t c k s s' v decision comment e
execute-Logged t (make_effective_it c c' id) s s' (k, k') h =
    let (v, e) = loaded id (make_definition_effective c c') s s' h in
    make_effective-Logged t c c' v s s' k k' e
execute-Logged t (withdraw_it c id reason at) s s' k h =
    let (v, e) = loaded id (λ v. withdraw_definition c v reason at) s s' h in
    withdraw-Logged t c k s s' v reason at e
execute-Logged t (bootstrap_it cs id control) s s' k h = bootstrap-Logged t cs id control s s' k h

abbrev pub finish : ℕ → List DefinitionCommand → ℕ
finish t [] = t
finish t (cmd ∷ rest) = finish (last_now cmd + 1) rest

-- a run is a sequence of recorded events
pub run-Logged :
    (t : ℕ) (s : VersionSession) (commands : List DefinitionCommand)
    → IsTicking t commands
    → Logged t s (finish t commands) (run s commands)
unfolding run request
run-Logged t s [] ticking = nothing (omega arith)
run-Logged t s (cmd ∷ rest) (starts, ticking) =
    let later = run-Logged (last_now cmd + 1) (request s cmd) rest ticking in
    Logged-trans
      (elim (Result-cases (execute cmd s)) [
        | inl (reason, p) ↦ rw p (nothing (starts_before t cmd starts))
        | inr (s', p) ↦ rw p (execute-Logged t cmd s s' starts p)
      ])
      later

-- After any requests from an empty database, accepted or refused, with a clock that moves on, each
-- control has at most one effective version of its definition.
pub one_effective_definition :
    (t : ℕ) (commands : List DefinitionCommand) (control : ℕ)
    → IsTicking t commands
    → count_effective control (run empty_session commands).tables ≤ 1
one_effective_definition t commands control ticking =
    single-count control (run empty_session commands).tables (
      Logged-single (run-Logged t empty_session commands ticking)
        (unfold has_two_effective in refl))
