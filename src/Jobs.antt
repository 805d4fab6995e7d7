-- ===== src/Jobs.antt =====
-- app/jobs.py: the database-backed job queue.
--
-- Times are microseconds. A handler is a parameter: it reads the payload and may change every table
-- but `jobs` and `audit_events`, and what it wrote before it raised stays in the session. Of jobs
-- created at the same time the database may return any first; here it is the first of the table.
-- The JSON texts of payload and result are opaque.
mod Enqueue
pub mod Claims
pub mod Budget
pub mod Queue
mod Examples
use minigrc.Jobs.Enqueue.{
  enqueue_job, existing_job, job_with_key, get_job, job_id, backoff_base_seconds,
  stale_running_threshold_seconds, second, handler_of, Handlers, returned, JobSession, retrying_in,
  failed_permanently, succeeded_on_attempt, JobDetail, Job, failed, succeeded, running, JobStatus,
  Outcome, has_key, pending,
}
pub use Enqueue.*
unfoldable pub use Enqueue.{handler_of, get_job, has_key, job_with_key, existing_job, enqueue_job}
use Prim.Native.String.{◌++◌ as string_append}
use minigrc.Audit.{record_audit_event, AuditEvent}
use minigrc.Prelude.Table
use minigrc.Prelude.{
  ◌^◌, ◌>>=◌, ◌||◌, ◌*◌, ◌∷◌, ◌&&◌, ◌-◌, ◌+◌, leb, if◌then◌else◌, str_eq, opt_str_eq, Result, ok, ℕ,
  zero, suc, String, Bool, true, false, Option, none, some, List, [],
}

abbrev pub is_pending : JobStatus → Bool
is_pending pending = true
is_pending _ = false

abbrev pub is_running : JobStatus → Bool
is_running running = true
is_running _ = false

-- `claimed_at IS NOT NULL AND claimed_at <= stale_before`
abbrev pub claimed_by_then : ℕ → Option ℕ → Bool
claimed_by_then stale_before none = false
claimed_by_then stale_before (some at) = leb at stale_before

-- `_candidate_predicate`
unfoldable pub candidate_predicate : ℕ → ℕ → Job → Bool
candidate_predicate now stale_before j =
    (is_pending j.status && leb j.available_at now)
    || (is_running j.status && claimed_by_then stale_before j.claimed_at)

-- the columns that a claim writes
abbrev pub claimed : String → ℕ → Job → Job
claimed worker_id now j = record j {
  status = running;
  claimed_by = some worker_id;
  claimed_at = some now;
}

-- a guarded UPDATE of one row: what it leaves, and the row if it was updated
unfoldable pub guarded_update : (Job → Bool) → (Job → Job) → ℕ → List Job → List Job × Option Job
guarded_update test f id jobs = elim (get_job id jobs) [
  | none ↦ (jobs, none)
  | some j ↦ if test j then (Table.modify job_id id f jobs, some (f j)) else (jobs, none)
]

-- `_try_claim`
unfoldable pub try_claim : ℕ → String → ℕ → ℕ → List Job → List Job × Option Job
try_claim id worker_id now stale_before jobs =
    guarded_update (candidate_predicate now stale_before) (claimed worker_id now) id jobs

-- `.order_by(Job.created_at).limit(1)`
unfoldable pub first_created : Job → Option Job → Job
first_created j none = j
first_created j (some k) = if leb j.created_at k.created_at then j else k

unfoldable pub oldest_candidate : ℕ → ℕ → List Job → Option Job
oldest_candidate now stale_before [] = none
oldest_candidate now stale_before (j ∷ jobs) =
    let rest = oldest_candidate now stale_before jobs in
    if candidate_predicate now stale_before j then some (first_created j rest) else rest

-- `now - timedelta(seconds=STALE_RUNNING_THRESHOLD_SECONDS)`, for clocks past 1970
abbrev pub stale_before_of : ℕ → ℕ
stale_before_of now = now - stale_running_threshold_seconds * second

-- `claim_job`: `seen` is the table as its SELECT reads it, and `jobs` the table as its UPDATE finds
-- it, which other workers may have changed since.
unfoldable pub claim_job : String → ℕ → List Job → List Job → List Job × Option Job
claim_job worker_id now seen jobs = elim (oldest_candidate now (stale_before_of now) seen) [
  | none ↦ (jobs, none)
  | some candidate ↦ try_claim candidate.id worker_id now (stale_before_of now) jobs
]

-- `claim_specific_job`
unfoldable pub claim_specific_job : ℕ → String → ℕ → List Job → List Job × Option Job
claim_specific_job id worker_id now jobs =
    guarded_update (λ j. is_pending j.status) (claimed worker_id now) id jobs

-- `str(exc)[:2000]`
unfoldable pub first_chars : ℕ → String → String
first_chars zero text = ""
first_chars (suc n) String.[] = ""
first_chars (suc n) (String.◌∷◌ c text) = String.◌∷◌ c (first_chars n text)

-- the handler's run, a missing handler being an exception too
unfoldable pub call_handler : {W : Type 0} → Handlers W → Job → W → W × Outcome
call_handler handlers job other = elim (handler_of job.job_type handlers) [
  | none ↦ (
    other,
    raised (string_append "no handler registered for job_type '" (string_append job.job_type "'")),
  )
  | some handler ↦ handler job.payload_json other
]

-- `BACKOFF_BASE_SECONDS * (2 ** (attempts - 1))`, where at least one attempt was made
abbrev pub backoff_seconds : ℕ → ℕ
backoff_seconds attempts = backoff_base_seconds * 2 ^ (attempts - 1)

-- the row after its handler ended, `attempts` counting this run
unfoldable pub ended : ℕ → Outcome → Job → Job
ended now (returned result) j = record j {
  status = succeeded;
  result_json = some result;
  error_message = none;
}
ended now (raised text) j =
    if leb j.max_attempts j.attempts
    then record j { error_message = some (first_chars 2000 text); status = failed }
    else record j {
      error_message = some (first_chars 2000 text);
      status = pending;
      available_at = now + backoff_seconds j.attempts * second;
    }

unfoldable pub run_detail : Outcome → Job → JobDetail
run_detail (returned result) j = succeeded_on_attempt j.job_type j.attempts
run_detail (raised text) j =
    if leb j.max_attempts j.attempts
    then failed_permanently j.job_type j.attempts text
    else retrying_in j.job_type j.attempts (backoff_seconds j.attempts) text

-- `job.attempts += 1`
abbrev pub attempted : Job → Job
attempted j = record j { attempts = j.attempts + 1 }

-- the table after a run of job `id` has ended
abbrev pub job_ended : ℕ → ℕ → Outcome → List Job → List Job
job_ended id now outcome jobs = Table.modify job_id id (λ j. ended now outcome (attempted j)) jobs

-- `run_job` on the row that the session holds: `now` is the clock when a failed handler ends. A handler
-- is taken to leave the table of jobs alone and not to roll the session back: after a rollback, as in
-- the handler of imports (app/imports.py), the run would not be counted.
unfoldable pub run_job : {W : Type 0} → Handlers W → ℕ → Job → String → JobSession W → JobSession W
run_job handlers now job actor s =
    let (other, outcome) = call_handler handlers (attempted job) s.other in
    record {
      jobs = job_ended job.id now outcome s.jobs;
      audit =
          record_audit_event "job" job.id "run" (run_detail outcome (attempted job)) actor s.audit;
      other = other;
    }

-- `process_next_job`: `now` is the clock of the claim, `later` the one after the handler, `seen` what
-- the SELECT of the claim reads. The session commits after the claim and after the run.
unfoldable pub process_next_job :
    {W : Type 0}
    → Handlers W
    → String
    → String
    → ℕ
    → ℕ
    → List Job
    → JobSession W
    → JobSession W × Bool
process_next_job handlers worker_id actor now later seen s =
    let (jobs, job) = claim_job worker_id now seen s.jobs in
    elim job [
      | none ↦ (record s { jobs = jobs }, false)
      | some j ↦ (run_job handlers later j actor (record s { jobs = jobs }), true)
    ]

-- what a concrete run unfolds
jobs_machinery : Unit {0}
unfolding Table.get Table.modify handler_of get_job has_key job_with_key existing_job enqueue_job
    candidate_predicate guarded_update try_claim first_created oldest_candidate claim_job
    claim_specific_job first_chars call_handler ended run_detail run_job process_next_job
    record_audit_event
jobs_machinery = tt
