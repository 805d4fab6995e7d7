-- ===== src/Jobs/Enqueue.antt =====
-- The rows of the queue, the handlers and `enqueue_job` of app/jobs.py.
use minigrc.Audit.{record_audit_event, AuditEvent}
use minigrc.Prelude.Table
use minigrc.Prelude.{
  ◌>>=◌, ◌∷◌, if◌then◌else◌, str_eq, opt_str_eq, Result, ok, ℕ, String, Bool, Option, none, some,
  List, [],
}

-- `JOB_STATUSES`
pub data JobStatus : Type 0 where
  pending running succeeded failed : JobStatus

pub record Job : Type 0 where
  pub id : ℕ
  pub job_type : String
  pub status : JobStatus
  pub payload_json : String
  pub result_json : Option String
  pub error_message : Option String
  pub attempts : ℕ
  pub max_attempts : ℕ
  pub idempotency_key : Option String
  pub available_at : ℕ
  pub claimed_by : Option String
  pub claimed_at : Option ℕ
  pub created_by : String
  pub created_at : ℕ

-- the details that the module logs, with the values that each text shows
pub data JobDetail : Type 0 where
  enqueued : String → JobDetail
  succeeded_on_attempt : String → ℕ → JobDetail
  failed_permanently : String → ℕ → String → JobDetail
  retrying_in : String → ℕ → ℕ → String → JobDetail

-- `W` is all that handlers work on
pub record JobSession (W : Type 0) : Type 0 where
  pub jobs : List Job
  pub audit : List (AuditEvent JobDetail)
  pub other : W

-- a handler's result, or the text of the exception that it raises
pub data Outcome : Type 0 where
  returned raised : String → Outcome

abbrev pub JobHandler : Type 0 → Type 0
JobHandler W = String → W → W × Outcome

-- `_HANDLERS`
abbrev pub Handlers : Type 0 → Type 0
Handlers W = List (String × JobHandler W)

register_handler : {W : Type 0} → String → JobHandler W → Handlers W → Handlers W
register_handler job_type handler handlers = (job_type, handler) ∷ handlers

-- `_HANDLERS.get(job_type)`
unfoldable pub handler_of : {W : Type 0} → String → Handlers W → Option (JobHandler W)
handler_of job_type [] = none
handler_of job_type ((name, handler) ∷ rest) =
    if str_eq name job_type then some handler else handler_of job_type rest

abbrev pub second : ℕ
second = 1000000

abbrev pub stale_running_threshold_seconds : ℕ
stale_running_threshold_seconds = 120

abbrev pub backoff_base_seconds : ℕ
backoff_base_seconds = 5

abbrev pub job_id : Job → ℕ
job_id j = j.id

unfoldable pub get_job : ℕ → List Job → Option Job
get_job = Table.get job_id

unfoldable pub has_key : String → Job → Bool
has_key key j = opt_str_eq j.idempotency_key (some key)

-- `select(Job).where(Job.idempotency_key == key)`
unfoldable pub job_with_key : String → List Job → Option Job
job_with_key key [] = none
job_with_key key (j ∷ jobs) = if has_key key j then some j else job_with_key key jobs

unfoldable pub existing_job : Option String → List Job → Option Job
existing_job none jobs = none
existing_job (some key) jobs = job_with_key key jobs

abbrev pub new_job : ℕ → ℕ → String → String → String → Option String → ℕ → Job
new_job id now job_type payload actor key max_attempts = record {
  id = id;
  job_type = job_type;
  status = pending;
  payload_json = payload;
  result_json = none;
  error_message = none;
  attempts = 0;
  max_attempts = max_attempts;
  idempotency_key = key;
  available_at = now;
  claimed_by = none;
  claimed_at = none;
  created_by = actor;
  created_at = now;
}

-- `enqueue_job`: `id` is the row's `new_id()` and `now` its `utcnow()`.
unfoldable pub enqueue_job :
    {W : Type 0}
    → ℕ
    → ℕ
    → String
    → String
    → String
    → Option String
    → ℕ
    → JobSession W
    → Result (JobSession W × Job)
enqueue_job id now job_type payload actor key max_attempts s = elim (existing_job key s.jobs) [
  | some existing ↦ ok (s, existing)
  | none ↦
      let job = new_job id now job_type payload actor key max_attempts in
      Table.insert job_id job s.jobs >>= λ jobs. ok (
        record s {
          jobs = jobs;
          audit = record_audit_event "job" id "enqueue" (enqueued job_type) actor s.audit;
        },
        job,
      )
]
