-- ===== src/Jobs/Claims.antt =====
-- Claims by several workers: a fresh claim excludes every other one.
use minigrc.Jobs.Enqueue.{raised, returned, Outcome}
use minigrc.Prelude.Table
use minigrc.Prelude.{
  ◌≢◌, subst, ◌∙◌, sym, ap, true, ◌*◌, ◌+◌, ◌<◌, ◌||◌, ◌∷◌, ◌==◌, ◌≡◌, ==_iff, Bool-cases,
  Option-cases, All, ℕ, String, refl, inl, inr, Bool, false, Option, none, some, List, [], arith,
}
use minigrc.Jobs.{
  job_ended, attempted, ended, claim_specific_job, claim_job, stale_before_of, oldest_candidate,
  try_claim, guarded_update, claimed, candidate_predicate, is_pending, get_job, job_id,
  stale_running_threshold_seconds, second, Job, running,
}

-- one worker's attempt, with all that it needs to know of the clock and of what its SELECT read
pub data Attempt : Type 0 where
  from_queue : String → ℕ → List Job → Attempt
  of_job : ℕ → String → ℕ → Attempt

abbrev pub time_of : Attempt → ℕ
time_of (from_queue worker_id now seen) = now
time_of (of_job id worker_id now) = now

unfoldable pub attempt : Attempt → List Job → List Job × Option Job
attempt (from_queue worker_id now seen) jobs = claim_job worker_id now seen jobs
attempt (of_job id worker_id now) jobs = claim_specific_job id worker_id now jobs

-- what workers do: an attempt, or the end of a run of a job at a time with an outcome
pub data Step : Type 0 where
  tries : Attempt → Step
  ends : ℕ → ℕ → Outcome → Step

-- what a step leaves, and the job that it grants
unfoldable pub step : Step → List Job → List Job × Option Job
step (tries a) jobs = attempt a jobs
step (ends id now outcome) jobs = (job_ended id now outcome jobs, none)

-- the table after steps in the order in which the database executes their updates
unfoldable pub after : List Step → List Job → List Job
after [] jobs = jobs
after (x ∷ rest) jobs = after rest (step x jobs).0

abbrev grants_job : ℕ → Option Job → Bool
grants_job i none = false
grants_job i (some j) = j.id == i

-- whether one of the attempts is granted job `i`
unfoldable pub granted : ℕ → List Step → List Job → Bool
granted i [] jobs = false
granted i (x ∷ rest) jobs = grants_job i (step x jobs).1 || granted i rest (step x jobs).0

-- an attempt within two minutes of time `t`, or the end of a run of another job than `i`
abbrev pub IsWithin : ℕ → ℕ → Step → Type 0
IsWithin i t (tries a) = time_of a < t + stale_running_threshold_seconds * second
IsWithin i t (ends id now outcome) = id ≢ i

module _ (test : Job → Bool) (f : Job → Job) (id : ℕ) (jobs : List Job) where
  update-absent : get_job id jobs ≡ none → guarded_update test f id jobs ≡ (jobs, none)
  unfolding guarded_update
  update-absent n = ground (arith, n)

  update-rejected :
      (x : Job)
      → get_job id jobs ≡ some x
      → test x ≡ false
      → guarded_update test f id jobs ≡ (jobs, none)
  unfolding guarded_update
  update-rejected x n r = ground (arith, n, r)

  pub update-granted :
      (x : Job)
      → get_job id jobs ≡ some x
      → test x ≡ true
      → guarded_update test f id jobs ≡ (Table.modify job_id id f jobs, some (f x))
  unfolding guarded_update
  update-granted x n r = ground (arith, n, r)

module _ (f : Job → Job) (keeps : (x : Job) → (f x).id ≡ x.id) (id : ℕ) (jobs : List Job) (x : Job)
    (n : get_job id jobs ≡ some x) where
  written_id : (f x).id ≡ id
  unfolding get_job
  written_id = keeps x ∙ Table.key-get job_id id jobs x n

  written_row : get_job id (Table.modify job_id id f jobs) ≡ some (f x)
  unfolding get_job
  written_row = Table.get-modify job_id f keeps id id jobs ∙ ground (arith, n)

other_row :
    (f : Job → Job) (keeps : (x : Job) → (f x).id ≡ x.id) (id i : ℕ) (jobs : List Job)
    → (id == i) ≡ false
    → get_job i (Table.modify job_id id f jobs) ≡ get_job i jobs
unfolding get_job
other_row f keeps id i jobs m = Table.get-modify job_id f keeps i id jobs ∙ rw m refl

-- a row that the guard rejects is neither changed nor granted
guarded_update-kept :
    (test : Job → Bool) (f : Job → Job) (id i : ℕ) (jobs : List Job) (j : Job)
    → ((x : Job) → (f x).id ≡ x.id)
    → get_job i jobs ≡ some j
    → test j ≡ false
    → (get_job i (guarded_update test f id jobs).0 ≡ some j)
      × (grants_job i (guarded_update test f id jobs).1 ≡ false)
guarded_update-kept test f id i jobs j keeps p q = elim (Option-cases (get_job id jobs)) [
  | inl n ↦ rw (update-absent test f id jobs n) (p, refl)
  | inr (x, n) ↦ elim (Bool-cases (test x)) [
    | inr r ↦ rw (update-rejected test f id jobs x n r) (p, refl)
    | inl r ↦ elim (Bool-cases (id == i)) [
      | inl m ↦
          let same : id ≡ i = (==_iff id i).0 m in
          let found : get_job id jobs ≡ some j = rw same p in
          let x_is_j : x ≡ j = cc in
          let r' : test j ≡ true = rw (← x_is_j) r in absurd (ground (arith, q, r'))
      | inr m ↦
          rw (update-granted test f id jobs x n r)
            (other_row f keeps id i jobs m ∙ p, rw (written_id f keeps id jobs x n) m)
    ]
  ]
]

fresh_rejected :
    (now t : ℕ) (j : Job)
    → j.status ≡ running
    → 0 < t
    → j.claimed_at ≡ some t
    → now < t + stale_running_threshold_seconds * second
    → candidate_predicate now (stale_before_of now) j ≡ false
unfolding candidate_predicate
fresh_rejected now t j r z c lt = ground (arith, r, c)

module _ (worker_id : String) (now : ℕ) (seen jobs : List Job) where
  pub none_queued :
      oldest_candidate now (stale_before_of now) seen ≡ none
      → attempt (from_queue worker_id now seen) jobs ≡ (jobs, none)
  unfolding attempt claim_job
  none_queued n = ground (arith, n)

  pub some_queued :
      (k : Job)
      → oldest_candidate now (stale_before_of now) seen ≡ some k
      → attempt (from_queue worker_id now seen) jobs
        ≡ guarded_update
            (candidate_predicate now (stale_before_of now))
            (claimed worker_id now)
            k.id
            jobs
  unfolding attempt claim_job try_claim
  some_queued k n = ground (arith, n)

attempt-kept :
    (a : Attempt) (i t : ℕ) (jobs : List Job) (j : Job)
    → get_job i jobs ≡ some j
    → j.status ≡ running
    → 0 < t
    → j.claimed_at ≡ some t
    → time_of a < t + stale_running_threshold_seconds * second
    → (get_job i (attempt a jobs).0 ≡ some j) × (grants_job i (attempt a jobs).1 ≡ false)
unfolding attempt claim_specific_job
attempt-kept (of_job id worker_id now) i t jobs j p r z c lt =
    guarded_update-kept (λ x. is_pending x.status) (claimed worker_id now) id i jobs j (λ x. refl) p
      (ground (arith, r))
attempt-kept (from_queue worker_id now seen) i t jobs j p r z c lt =
    elim (Option-cases (oldest_candidate now (stale_before_of now) seen)) [
      | inl n ↦ rw (none_queued worker_id now seen jobs n) (p, refl)
      | inr (k, n) ↦ rw (some_queued worker_id now seen jobs k n) (
          guarded_update-kept (candidate_predicate now (stale_before_of now))
            (claimed worker_id now) k.id i jobs j (λ x. refl) p (fresh_rejected now t j r z c lt))
    ]

ended-id : (now : ℕ) (outcome : Outcome) (j : Job) → (ended now outcome (attempted j)).id ≡ j.id
unfolding ended
ended-id now (returned result) j = refl
ended-id now (raised text) j = ground arith

step-kept :
    (x : Step) (i t : ℕ) (jobs : List Job) (j : Job)
    → get_job i jobs ≡ some j
    → j.status ≡ running
    → 0 < t
    → j.claimed_at ≡ some t
    → IsWithin i t x
    → (get_job i (step x jobs).0 ≡ some j) × (grants_job i (step x jobs).1 ≡ false)
unfolding step
step-kept (tries a) i t jobs j p r z c lt = attempt-kept a i t jobs j p r z c lt
step-kept (ends id now outcome) i t jobs j p r z c ne =
    let other : (id == i) ≡ false = ground arith in
    (
      other_row (λ x. ended now outcome (attempted x)) (ended-id now outcome) id i jobs other ∙ p,
      refl,
    )

after-kept :
    (later : List Step) (i t : ℕ) (jobs : List Job) (j : Job)
    → get_job i jobs ≡ some j
    → j.status ≡ running
    → 0 < t
    → j.claimed_at ≡ some t
    → All (IsWithin i t) later
    → (get_job i (after later jobs) ≡ some j) × (granted i later jobs ≡ false)
unfolding after granted
after-kept [] i t jobs j p r z c h = (p, refl)
after-kept (x ∷ later) i t jobs j p r z c (within, h) =
    let (q, n) = step-kept x i t jobs j p r z c within in
    let (e, m) = after-kept later i t (step x jobs).0 j q r z c h in (e, ground (arith, n, m))

-- what a granted update found and left
pub record IsGranted (test : Job → Bool) (f : Job → Job) (id : ℕ) (jobs after : List Job) (j : Job)
    : Type 0 where
  pub row : Job
  pub found : get_job id jobs ≡ some row
  pub passed : test row ≡ true
  pub written : j ≡ f row
  pub table : after ≡ Table.modify job_id id f jobs
  pub stands : get_job j.id after ≡ some j
  pub names : j.id ≡ id

pub guarded_update-IsGranted :
    (test : Job → Bool) (f : Job → Job) (id : ℕ) (jobs : List Job) (j : Job)
    → ((x : Job) → (f x).id ≡ x.id)
    → (guarded_update test f id jobs).1 ≡ some j
    → IsGranted test f id jobs (guarded_update test f id jobs).0 j
guarded_update-IsGranted test f id jobs j keeps h = elim (Option-cases (get_job id jobs)) [
  | inl n ↦ absurd (ground (arith, update-absent test f id jobs n))
  | inr (x, n) ↦ elim (Bool-cases (test x)) [
    | inr r ↦ absurd (ground (arith, update-rejected test f id jobs x n r))
    | inl r ↦
        let e = update-granted test f id jobs x n r in
        let same : f x ≡ j = ground (arith, e) in
        let key : j.id ≡ id = rw (← same) (written_id f keeps id jobs x n) in
        record {
          row = x;
          found = n;
          passed = r;
          written = sym same;
          table = rw e refl;
          stands = rw e (
              subst (λ i. get_job i (Table.modify job_id id f jobs) ≡ some j) (sym key)
                (written_row f keeps id jobs x n ∙ ap some same));
          names = key;
        }
  ]
]

-- a claim through the queue is a granted update of a candidate
pub claim_job-IsGranted :
    (worker_id : String) (now : ℕ) (seen jobs : List Job) (j : Job)
    → (claim_job worker_id now seen jobs).1 ≡ some j
    → (k : Job) × (oldest_candidate now (stale_before_of now) seen ≡ some k)
      × IsGranted
          (candidate_predicate now (stale_before_of now))
          (claimed worker_id now)
          k.id
          jobs
          (claim_job worker_id now seen jobs).0
          j
unfolding attempt
claim_job-IsGranted worker_id now seen jobs j h =
    elim (Option-cases (oldest_candidate now (stale_before_of now) seen)) [
      | inl n ↦ absurd (ground (arith, none_queued worker_id now seen jobs n, h))
      | inr (k, n) ↦
          let e : claim_job worker_id now seen jobs ≡ _ = some_queued worker_id now seen jobs k n in
          (
            k,
            n,
            rw e (
                guarded_update-IsGranted (candidate_predicate now (stale_before_of now))
                  (claimed worker_id now) k.id jobs j (λ x. refl) (rw e at h)),
          )
    ]

guarded_update-none :
    (test : Job → Bool) (f : Job → Job) (id : ℕ) (jobs : List Job)
    → (guarded_update test f id jobs).1 ≡ none
    → (guarded_update test f id jobs).0 ≡ jobs
unfolding guarded_update
guarded_update-none test f id jobs h = elim (Option-cases (get_job id jobs)) [
  | inl n ↦ ground (arith, n)
  | inr (x, n) ↦ ground (arith, n)
]

-- a claim that is not granted writes nothing
pub claim_job-none :
    (worker_id : String) (now : ℕ) (seen jobs : List Job)
    → (claim_job worker_id now seen jobs).1 ≡ none
    → (claim_job worker_id now seen jobs).0 ≡ jobs
unfolding attempt
claim_job-none worker_id now seen jobs h =
    elim (Option-cases (oldest_candidate now (stale_before_of now) seen)) [
      | inl n ↦ ap (λ (p : List Job × Option Job). p.0) (none_queued worker_id now seen jobs n)
      | inr (k, n) ↦
          let e : claim_job worker_id now seen jobs ≡ _ = some_queued worker_id now seen jobs k n in
          rw e (
            guarded_update-none (candidate_predicate now (stale_before_of now))
              (claimed worker_id now) k.id jobs (rw e at h))
    ]

attempt-granted :
    (a : Attempt) (jobs : List Job) (j : Job)
    → (attempt a jobs).1 ≡ some j
    → (get_job j.id (attempt a jobs).0 ≡ some j)
      × (j.status ≡ running)
      × (j.claimed_at ≡ some (time_of a))
unfolding attempt claim_specific_job
attempt-granted (of_job id worker_id now) jobs j h =
    let g =
      guarded_update-IsGranted (λ x. is_pending x.status) (claimed worker_id now) id jobs j
        (λ x. refl) h in
    (g.stands, ap (λ (y : Job). y.status) g.written, ap (λ (y : Job). y.claimed_at) g.written)
attempt-granted (from_queue worker_id now seen) jobs j h =
    let (k, n, g) = claim_job-IsGranted worker_id now seen jobs j h in
    (g.stands, ap (λ (y : Job). y.status) g.written, ap (λ (y : Job). y.claimed_at) g.written)

-- A worker that has been granted a job, at any time after the epoch's first microsecond, holds it for
-- two minutes as long as no run of the job ends: no later attempt of any worker within that time,
-- through the queue (whatever its SELECT read) or by the job's id, is granted the job, and its row
-- stays as the claim wrote it, whatever runs of other jobs end in between. (A run of the job that
-- fails puts it back into the queue after a backoff that may be shorter.)
pub claim_excludes :
    (a : Attempt) (later : List Step) (jobs : List Job) (j : Job)
    → 0 < time_of a
    → (attempt a jobs).1 ≡ some j
    → All (IsWithin j.id (time_of a)) later
    → let left = (attempt a jobs).0 in
      (granted j.id later left ≡ false) × (get_job j.id (after later left) ≡ some j)
claim_excludes a later jobs j z h soon =
    let (p, r, c) = attempt-granted a jobs j h in
    let (e, m) = after-kept later j.id (time_of a) (attempt a jobs).0 j p r z c soon in (m, e)
