-- ===== src/Jobs/Budget.antt =====
-- Attempts are bounded: a job is run at most `max_attempts` times by workers that process in turn.
use minigrc.Jobs.Claims.{claim_job-none, claim_job-IsGranted}
use minigrc.Prelude.Table
use minigrc.Prelude.{
  ◌∙◌, all, ap, Option-cases, none, ◌+◌, ◌<◌, ◌==◌, ◌∷◌, ◌≡◌, ◌≤◌, ◌-◌, leb, if◌then◌else◌,
  Bool-cases, All, ℕ, String, sym, subst, inl, inr, Bool, true, false, some, List, [], arith,
}
use minigrc.Jobs.{
  process_next_job, run_job, call_handler, claim_job, stale_before_of, Handlers, JobSession,
  attempted, ended, claimed, candidate_predicate, get_job, job_id, raised, returned, Outcome, Job,
  running, pending, JobStatus,
}

abbrev is_unfinished : JobStatus → Bool
is_unfinished pending = true
is_unfinished running = true
is_unfinished _ = false

-- the runs that a job may still get
unfoldable pub budget : Job → ℕ
budget j = if is_unfinished j.status then j.max_attempts - j.attempts else 0

unfoldable pub total_budget : List Job → ℕ
total_budget [] = 0
total_budget (j ∷ jobs) = budget j + total_budget jobs

-- `attempts` never passes `max_attempts`, and an unfinished job has runs left
abbrev pub IsWithinBudget : Job → Type 0
IsWithinBudget j =
    (j.attempts ≤ j.max_attempts) × (is_unfinished j.status ≡ true → j.attempts < j.max_attempts)

All-modify :
    (P : Job → Type 0) (f : Job → Job) (id : ℕ) (jobs : List Job) (j : Job)
    → get_job id jobs ≡ some j
    → P (f j)
    → All P jobs
    → All P (Table.modify job_id id f jobs)
unfolding get_job Table.get Table.modify
All-modify P f id [] j n p h = tt
All-modify P f id (x ∷ jobs) j n p h = elim (Bool-cases (x.id == id)) [
  | inl m ↦ rw m (subst (λ y. P (f y)) (sym (ground (arith, m, n))) p, h.1)
  | inr m ↦ rw m (h.0, All-modify P f id jobs j (ground (arith, m, n)) p h.1)
]

All-get :
    (P : Job → Type 0) (id : ℕ) (jobs : List Job) (j : Job)
    → get_job id jobs ≡ some j
    → All P jobs
    → P j
unfolding get_job Table.get
All-get P id [] j n h = absurd (ground arith)
All-get P id (x ∷ jobs) j n h = elim (Bool-cases (x.id == id)) [
  | inl m ↦ subst P (ground (arith, m, n)) h.0
  | inr m ↦ All-get P id jobs j (ground (arith, m, n)) h.1
]

total_budget-modify :
    (f : Job → Job) (id : ℕ) (jobs : List Job) (j : Job)
    → get_job id jobs ≡ some j
    → total_budget (Table.modify job_id id f jobs) + budget j ≡ total_budget jobs + budget (f j)
unfolding get_job Table.get Table.modify total_budget
total_budget-modify f id [] j n = absurd (ground arith)
total_budget-modify f id (x ∷ jobs) j n = elim (Bool-cases (x.id == id)) [
  | inl m ↦ let same : x ≡ j = ground (arith, m, n) in rw (m, same) (omega arith)
  | inr m ↦ rw m (omega (arith, total_budget-modify f id jobs j (ground (arith, m, n))))
]

-- a candidate is unfinished, and its claim takes nothing from its budget
candidate-unfinished :
    (now stale : ℕ) (j : Job)
    → candidate_predicate now stale j ≡ true
    → is_unfinished j.status ≡ true
unfolding candidate_predicate
candidate-unfinished now stale j h = ground arith

claimed-IsWithinBudget :
    (worker_id : String) (now : ℕ) (j : Job)
    → is_unfinished j.status ≡ true
    → IsWithinBudget j
    → IsWithinBudget (claimed worker_id now j)
claimed-IsWithinBudget worker_id now j u h = (h.0, λ _. h.1 u)

claimed-budget :
    (worker_id : String) (now : ℕ) (j : Job)
    → is_unfinished j.status ≡ true
    → budget (claimed worker_id now j) ≡ budget j
unfolding budget
claimed-budget worker_id now j u = ground (arith, u)

ended-IsWithinBudget :
    (now : ℕ) (outcome : Outcome) (j : Job)
    → is_unfinished j.status ≡ true
    → IsWithinBudget j
    → IsWithinBudget (ended now outcome (attempted j))
unfolding ended
ended-IsWithinBudget now (returned result) j u h =
    (omega (arith, h.1 u), λ e. absurd (ground arith))
ended-IsWithinBudget now (raised text) j u h =
    elim (Bool-cases (leb j.max_attempts (j.attempts + 1))) [
      | inl p ↦ rw p (omega (arith, h.1 u), λ e. absurd (ground arith))
      | inr p ↦ rw p (omega (arith, h.1 u), λ e. ground (arith, p))
    ]

ended-budget :
    (now : ℕ) (outcome : Outcome) (j : Job)
    → is_unfinished j.status ≡ true
    → IsWithinBudget j
    → budget (ended now outcome (attempted j)) + 1 ≤ budget j
unfolding ended budget
ended-budget now (returned result) j u h = ground (arith, u, h.1 u)
ended-budget now (raised text) j u h = ground (arith, u, h.1 u)

-- a claim and a run of one job: within the budgets, and one run spent
run-step :
    (worker_id : String) (now later id : ℕ) (outcome : Outcome) (jobs left : List Job) (x j : Job)
    → get_job id jobs ≡ some x
    → is_unfinished x.status ≡ true
    → j ≡ claimed worker_id now x
    → left ≡ Table.modify job_id id (claimed worker_id now) jobs
    → get_job j.id left ≡ some j
    → All IsWithinBudget jobs
    → let jobs' = Table.modify job_id j.id (λ y. ended later outcome (attempted y)) left in
      All IsWithinBudget jobs' × (total_budget jobs' + 1 ≤ total_budget jobs)
run-step worker_id now later id outcome jobs left x j n u w t p h =
    let f = claimed worker_id now in
    let g : Job → Job = λ y. ended later outcome (attempted y) in
    let within = claimed-IsWithinBudget worker_id now x u (All-get IsWithinBudget id jobs x n h) in
    let within_j : IsWithinBudget j = subst IsWithinBudget (sym w) within in
    let running_j : is_unfinished j.status ≡ true = ap (λ (y : Job). is_unfinished y.status) w in
    let same : budget j ≡ budget x = ap budget w ∙ claimed-budget worker_id now x u in
    let same_x : budget (f x) ≡ budget x = claimed-budget worker_id now x u in
    let all_left : All IsWithinBudget left =
      subst (All IsWithinBudget) (sym t) (All-modify IsWithinBudget f id jobs x n within h) in
    let total_left : total_budget left + budget x ≡ total_budget jobs + budget (f x) =
      ap (λ l. total_budget l + budget x) t ∙ total_budget-modify f id jobs x n in
    let total_run = total_budget-modify g j.id left j p in
    let spent = ended-budget later outcome j running_j within_j in
    (
      All-modify IsWithinBudget g j.id left j p
          (ended-IsWithinBudget later outcome j running_j within_j) all_left,
      omega (arith, total_left, total_run, spent, same, same_x),
    )

module _ {W : Type 0} (handlers : Handlers W) (worker_id actor : String) where
  process-idle :
      (now later : ℕ) (seen : List Job) (s : JobSession W)
      → (claim_job worker_id now seen s.jobs).1 ≡ none
      → ((process_next_job handlers worker_id actor now later seen s).1 ≡ false)
        × ((process_next_job handlers worker_id actor now later seen s).0.jobs ≡ s.jobs)
  unfolding process_next_job
  process-idle now later seen s n =
      (ground (arith, n), ground (arith, n, claim_job-none worker_id now seen s.jobs n))

  process-ran :
      (now later : ℕ) (seen : List Job) (s : JobSession W) (j : Job)
      → (claim_job worker_id now seen s.jobs).1 ≡ some j
      → (outcome : Outcome) × ((process_next_job handlers worker_id actor now later seen s).0.jobs
          ≡ Table.modify job_id j.id
              (λ x. ended later outcome (attempted x))
              (claim_job worker_id now seen s.jobs).0)
  unfolding process_next_job run_job
  process-ran now later seen s j n =
      ((call_handler handlers (attempted j) s.other).1, ground (arith, n))

  process-ran_true :
      (now later : ℕ) (seen : List Job) (s : JobSession W) (j : Job)
      → (claim_job worker_id now seen s.jobs).1 ≡ some j
      → (process_next_job handlers worker_id actor now later seen s).1 ≡ true
  unfolding process_next_job
  process-ran_true now later seen s j n = ground (arith, n)

  -- what a turn of the worker does to the budgets
  process-step :
      (now later : ℕ) (seen : List Job) (s : JobSession W)
      → All IsWithinBudget s.jobs
      → let (s', ran) = process_next_job handlers worker_id actor now later seen s in
        All IsWithinBudget s'.jobs
        × (total_budget s'.jobs + (if ran then 1 else 0) ≤ total_budget s.jobs)
  process-step now later seen s h = elim (Option-cases (claim_job worker_id now seen s.jobs).1) [
    | inl n ↦ let (f, e) = process-idle now later seen s n in (rw e h, rw (e, f) (omega arith))
    | inr (j, n) ↦
        let (k, _, g) = claim_job-IsGranted worker_id now seen s.jobs j n in
        let (outcome, e) = process-ran now later seen s j n in
        let u = candidate-unfinished now (stale_before_of now) g.row g.passed in
        let (all, spent) =
          run-step worker_id now later k.id outcome s.jobs _ g.row j g.found u g.written g.table
            g.stands h in
        (rw e all, rw (e, process-ran_true now later seen s j n) spent)
  ]

-- One turn of a worker: its clocks at the claim and after the handler, and the table as its SELECT
-- reads it.
abbrev pub Turn : Type 0
Turn = ℕ × ℕ × List Job

-- a worker's turns, one after the other, and the number of jobs that they ran
unfoldable pub turns :
    {W : Type 0} → Handlers W → String → String → List Turn → JobSession W → JobSession W × ℕ
turns handlers worker_id actor [] s = (s, 0)
turns handlers worker_id actor ((now, later, seen) ∷ rest) s =
    let (s', ran) = process_next_job handlers worker_id actor now later seen s in
    let (s'', count) = turns handlers worker_id actor rest s' in
    (s'', count + (if ran then 1 else 0))

-- From jobs within their budgets, whatever the handlers, the clocks and the reads of the workers,
-- any number of turns runs at most as many jobs as the budgets add up to: no job is retried for
-- ever. Every job stays within its budget: it never makes more than `max_attempts` attempts, and one
-- that is still pending or running has an attempt left.
pub runs_are_bounded :
    {W : Type 0} (handlers : Handlers W) (worker_id actor : String) (list : List Turn)
    (s : JobSession W)
    → All IsWithinBudget s.jobs
    → let (s', count) = turns handlers worker_id actor list s in
      All IsWithinBudget s'.jobs × (total_budget s'.jobs + count ≤ total_budget s.jobs)
unfolding turns
runs_are_bounded handlers worker_id actor [] s h = (h, omega arith)
runs_are_bounded handlers worker_id actor ((now, later, seen) ∷ rest) s h =
    let (all, spent) = process-step handlers worker_id actor now later seen s h in
    let (all', spent') =
      runs_are_bounded handlers worker_id actor rest
        (process_next_job handlers worker_id actor now later seen s).0 all in
    (all', omega (arith, spent, spent'))
