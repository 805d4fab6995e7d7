-- ===== src/Policy/Runs.antt =====
-- Runs of requests on policy versions: one effective version for each policy, and rebuilding.
use minigrc.Prelude.Table
use minigrc.Events.{Context}
use minigrc.Prelude.{
  ◌∷◌, ◌≡◌, if◌then◌else◌, str_eq, any, Result, ok, err, committed, ℕ, String, refl, false, none,
  List, [], arith,
}
use minigrc.Policy.Rows.{recorded-rows}
use minigrc.Policy.Effective.{IsSingle-of_index, IsSingle}
use minigrc.Policy.Steps.{execute-IsExecuted, IsExecuted}
use minigrc.Policy.{
  execute, withdraw_it, make_it_effective, review_it, submit_it, PolicyCommand, has_two_effective,
  both_effective, is_effective, PolicySession, project_withdrawn, project_reviewed,
  project_submitted_for_review, version_id, version_withdrawn, reviewed, submitted_for_review,
  PolicyVersion, approved, draft,
}

-- One request (app/deps.py, `get_db`): what raises is rolled back.
unfoldable pub request : PolicySession → Context × Context × PolicyCommand → PolicySession
request s (c, c', cmd) = committed s (execute c c' cmd s)

unfoldable pub run : PolicySession → List (Context × Context × PolicyCommand) → PolicySession
run s [] = s
run s (r ∷ rest) = run (request s r) rest

both_effective-modified :
    (x v w : PolicyVersion) → is_effective w.lifecycle_status ≡ false → both_effective x w ≡ false
both_effective-modified x v w h = ground arith

any-modify :
    (x : PolicyVersion) (f : PolicyVersion → PolicyVersion) (j : ℕ) (rows : List PolicyVersion)
    → ((v : PolicyVersion) → is_effective (f v).lifecycle_status ≡ false)
    → any (both_effective x) rows ≡ false
    → any (both_effective x) (Table.modify version_id j f rows) ≡ false
unfolding Table.modify
any-modify x f j [] low h = refl
any-modify x f j (y ∷ rows) low h = ground (arith, low y, any-modify x f j rows low)

any-low :
    (x : PolicyVersion) (rows : List PolicyVersion)
    → is_effective x.lifecycle_status ≡ false
    → any (both_effective x) rows ≡ false
any-low x [] h = refl
any-low x (y ∷ rows) h = ground (arith, any-low x rows h)

-- a write that leaves its row not effective keeps the index valid
modify-single :
    (f : PolicyVersion → PolicyVersion) (j : ℕ) (rows : List PolicyVersion)
    → ((v : PolicyVersion) → is_effective (f v).lifecycle_status ≡ false)
    → has_two_effective rows ≡ false
    → has_two_effective (Table.modify version_id j f rows) ≡ false
unfolding has_two_effective Table.modify
modify-single f j [] low h = refl
modify-single f j (y ∷ rows) low h = ground (
  arith,
  low y,
  any-low (f y) rows (low y),
  any-modify y f j rows low,
  modify-single f j rows low,
)

review-low :
    (decision : String)
    → is_effective (if str_eq decision "approved" then approved else draft) ≡ false
review-low decision = ground arith

execute-single :
    (c c' : Context) (cmd : PolicyCommand) (s s' : PolicySession)
    → has_two_effective s.tables ≡ false
    → IsExecuted c c' cmd s s'
    → has_two_effective s'.tables ≡ false
unfolding project_submitted_for_review project_reviewed project_withdrawn
execute-single c c' (submit_it policy id) s s' h x =
    rw (recorded-rows c id none submitted_for_review s s' x.recorded).0
      (modify-single _ id s.tables (λ v. refl) h)
execute-single c c' (review_it policy id decision comment) s s' h x =
    rw (recorded-rows c id none (reviewed decision comment) s s' x.recorded).0
      (modify-single _ id s.tables (λ v. review-low decision) h)
execute-single c c' (make_it_effective policy id) s s' h x = x.single
execute-single c c' (withdraw_it policy id reason at) s s' h x =
    rw (recorded-rows c id at (version_withdrawn reason) s s' x.recorded).0
      (modify-single _ id s.tables (λ v. refl) h)

request-single :
    (s : PolicySession) (r : Context × Context × PolicyCommand)
    → has_two_effective s.tables ≡ false
    → has_two_effective (request s r).tables ≡ false
unfolding request
request-single s (c, c', cmd) h = go (execute c c' cmd s) refl
  where
    go :
        (x : Result PolicySession)
        → execute c c' cmd s ≡ x
        → has_two_effective (committed s x).tables ≡ false
    go (ok s') e = execute-single c c' cmd s s' h (execute-IsExecuted c c' cmd s s' e)
    go (err e') e = h

run-single :
    (s : PolicySession) (requests : List (Context × Context × PolicyCommand))
    → has_two_effective s.tables ≡ false
    → has_two_effective (run s requests).tables ≡ false
unfolding run
run-single s [] h = h
run-single s (r ∷ rest) h = run-single (request s r) rest (request-single s r h)

-- From a table without two effective versions of one policy, any requests lead to such a table: two
-- effective versions of the same policy are always the same version.
pub one_effective :
    (s : PolicySession) (requests : List (Context × Context × PolicyCommand))
    → has_two_effective s.tables ≡ false
    → IsSingle (run s requests).tables
one_effective s requests h = IsSingle-of_index _ (run-single s requests h)
