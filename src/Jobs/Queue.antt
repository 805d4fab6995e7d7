-- ===== src/Jobs/Queue.antt =====
-- The queue's order, and enqueueing by an idempotency key.
use minigrc.Audit.{record_audit_event}
use minigrc.Prelude.Table
use minigrc.Jobs.Claims.{update-granted, some_queued, none_queued, attempt}
use minigrc.Prelude.{
  ◌>>=◌, Result, sym, >>=-eq-ok, ap, ◌∙◌, ◌++◌, ok, String, subst, Option, eq_refl, ◌∷◌, ◌≡◌, ◌≤◌,
  leb, Bool-cases, Option-cases, any, All, ℕ, refl, inl, inr, true, false, none, some, List, [],
  arith,
}
use minigrc.Jobs.{
  enqueued, claim_job, stale_before_of, first_created, claimed, enqueue_job, new_job, existing_job,
  job_with_key, has_key, get_job, job_id, JobSession, oldest_candidate, candidate_predicate, Job,
}

-- the oldest of the candidates: `candidate` finds none only if there is none
oldest-none :
    (now stale : ℕ) (jobs : List Job)
    → oldest_candidate now stale jobs ≡ none
    → any (candidate_predicate now stale) jobs ≡ false
unfolding oldest_candidate
oldest-none now stale [] h = refl
oldest-none now stale (j ∷ jobs) h = elim (Bool-cases (candidate_predicate now stale j)) [
  | inl p ↦ absurd (ground (arith, p))
  | inr p ↦ ground (arith, p, oldest-none now stale jobs (ground (arith, p)))
]

-- no candidate was created before `k`
abbrev pub IsOldest : ℕ → ℕ → List Job → Job → Type 0
IsOldest now stale jobs k =
    All (λ j. candidate_predicate now stale j ≡ true → k.created_at ≤ j.created_at) jobs

All-weaken :
    (now stale : ℕ) (jobs : List Job) (k l : Job)
    → l.created_at ≤ k.created_at
    → IsOldest now stale jobs k
    → IsOldest now stale jobs l
All-weaken now stale [] k l le h = tt
All-weaken now stale (j ∷ jobs) k l le h =
    ((λ c. omega (arith, le, h.0 c)), All-weaken now stale jobs k l le h.1)

All-none :
    (now stale : ℕ) (jobs : List Job) (k : Job)
    → any (candidate_predicate now stale) jobs ≡ false
    → IsOldest now stale jobs k
All-none now stale [] k h = tt
All-none now stale (j ∷ jobs) k h =
    ((λ c. absurd (ground (arith, c))), All-none now stale jobs k (ground arith))

-- what `oldest_candidate` returns
abbrev IsPicked : ℕ → ℕ → List Job → Job → Type 0
IsPicked now stale jobs k = (candidate_predicate now stale k ≡ true) × IsOldest now stale jobs k

first_created-some :
    (now stale : ℕ) (j l : Job) (jobs : List Job)
    → candidate_predicate now stale j ≡ true
    → IsPicked now stale jobs l
    → IsPicked now stale (j ∷ jobs) (first_created j (some l))
unfolding first_created
first_created-some now stale j l jobs p (c, o) = elim (Bool-cases (leb j.created_at l.created_at)) [
  | inl q ↦
      let same : j ≡ first_created j (some l) = ground (arith, q) in
      subst (IsPicked now stale (j ∷ jobs)) same
        (p, ((λ _. omega arith), All-weaken now stale jobs l j (ground (arith, q)) o))
  | inr q ↦
      let same : l ≡ first_created j (some l) = ground (arith, q) in
      subst (IsPicked now stale (j ∷ jobs)) same (c, ((λ _. ground (arith, q)), o))
]

oldest-some :
    (now stale : ℕ) (jobs : List Job) (k : Job)
    → oldest_candidate now stale jobs ≡ some k
    → IsPicked now stale jobs k
unfolding oldest_candidate first_created
oldest-some now stale [] k h = absurd (ground arith)
oldest-some now stale (j ∷ jobs) k h = elim (Bool-cases (candidate_predicate now stale j)) [
  | inr p ↦
      let (c, o) = oldest-some now stale jobs k (ground (arith, p)) in
      (c, ((λ q. absurd (ground (arith, p, q))), o))
  | inl p ↦ elim (Option-cases (oldest_candidate now stale jobs)) [
    | inl n ↦
        let same : j ≡ k = ground (arith, p, n) in
        subst (IsPicked now stale (j ∷ jobs)) same
          (p, ((λ _. omega arith), All-none now stale jobs j (oldest-none now stale jobs n)))
    | inr (l, n) ↦
        let same : first_created j (some l) ≡ k = ground (arith, p, n) in
        subst (IsPicked now stale (j ∷ jobs)) same
          (first_created-some now stale j l jobs p (oldest-some now stale jobs l n))
  ]
]

first_created-All :
    (P : Job → Type 0) (j : Job) (o : Option Job)
    → P j
    → ((l : Job) → o ≡ some l → P l)
    → P (first_created j o)
unfolding first_created
first_created-All P j none p h = p
first_created-All P j (some l) p h = elim (Bool-cases (leb j.created_at l.created_at)) [
  | inl q ↦ rw q p
  | inr q ↦ rw q (h l refl)
]

oldest-All :
    (P : Job → Type 0) (now stale : ℕ) (jobs : List Job) (k : Job)
    → All P jobs
    → oldest_candidate now stale jobs ≡ some k
    → P k
unfolding oldest_candidate
oldest-All P now stale [] k h e = absurd (ground arith)
oldest-All P now stale (j ∷ jobs) k h e = elim (Bool-cases (candidate_predicate now stale j)) [
  | inr p ↦ oldest-All P now stale jobs k h.1 (ground (arith, p))
  | inl p ↦
      let same : first_created j (oldest_candidate now stale jobs) ≡ k = ground (arith, p) in
      subst P same (
        first_created-All P j (oldest_candidate now stale jobs) h.0
          (λ l n. oldest-All P now stale jobs l h.1 n))
]

-- What a claim on an undisturbed table returns and leaves.
abbrev pub IsFairClaim : String → ℕ → List Job → List Job × Option Job → Type 0
IsFairClaim worker_id now jobs (left, none) =
    (left ≡ jobs) × (any (candidate_predicate now (stale_before_of now)) jobs ≡ false)
IsFairClaim worker_id now jobs (left, some j) =
    (k : Job) × (get_job k.id jobs ≡ some k)
    × (j ≡ claimed worker_id now k)
    × (left ≡ Table.modify job_id k.id (claimed worker_id now) jobs)
    × (candidate_predicate now (stale_before_of now) k ≡ true)
    × IsOldest now (stale_before_of now) jobs k

-- When no other worker interferes and ids are unique, `claim_job` claims a candidate (pending and
-- due, or running since two minutes or more) exactly if there is one; no candidate was created
-- before the claimed job, and no other row is written.
pub claim_is_fair :
    (worker_id : String) (now : ℕ) (jobs : List Job)
    → Table.IsKeyed job_id jobs
    → IsFairClaim worker_id now jobs (claim_job worker_id now jobs jobs)
unfolding attempt get_job
claim_is_fair worker_id now jobs keyed =
    elim (Option-cases (oldest_candidate now (stale_before_of now) jobs)) [
      | inl n ↦
          let e : claim_job worker_id now jobs jobs ≡ _ = none_queued worker_id now jobs jobs n in
          rw e (refl, oldest-none now (stale_before_of now) jobs n)
      | inr (k, n) ↦
          let found =
            oldest-All (λ x. Table.get job_id x.id jobs ≡ some x) now (stale_before_of now) jobs k
              (Table.IsKeyed-get job_id jobs keyed) n in
          let (c, o) = oldest-some now (stale_before_of now) jobs k n in
          let e : claim_job worker_id now jobs jobs ≡ _ = some_queued worker_id now jobs jobs k n in
          let u =
            update-granted (candidate_predicate now (stale_before_of now)) (claimed worker_id now)
              k.id jobs k found c in
          rw (e ∙ u) (k, found, refl, refl, c, o)
    ]

job_with_key-append :
    (key : String) (jobs : List Job) (j : Job)
    → has_key key j ≡ true
    → job_with_key key jobs ≡ none
    → job_with_key key (jobs ++ j ∷ []) ≡ some j
unfolding job_with_key
job_with_key-append key [] j h n = ground (arith, h)
job_with_key-append key (x ∷ jobs) j h n = elim (Bool-cases (has_key key x)) [
  | inl p ↦ absurd (ground (arith, p))
  | inr p ↦ rw p (job_with_key-append key jobs j h (ground (arith, p)))
]

new_job-has_key :
    (id now : ℕ) (job_type payload actor key : String) (max_attempts : ℕ)
    → has_key key (new_job id now job_type payload actor (some key) max_attempts) ≡ true
unfolding has_key
new_job-has_key id now job_type payload actor key max_attempts = eq_refl key

enqueue_job-found :
    {W : Type 0} (id now : ℕ) (job_type payload actor key : String) (max_attempts : ℕ)
    (s s' : JobSession W) (j : Job)
    → enqueue_job id now job_type payload actor (some key) max_attempts s ≡ ok (s', j)
    → job_with_key key s'.jobs ≡ some j
unfolding enqueue_job existing_job
enqueue_job-found {W = W} id now job_type payload actor key max_attempts s s' j h =
    elim (Option-cases (job_with_key key s.jobs)) [
      | inr (x, n) ↦
          let same : s ≡ s' = ground (arith, n) in
          let same_job : x ≡ j = ground (arith, n) in
          subst (λ y. job_with_key key y.jobs ≡ some j) same (n ∙ ap some same_job)
      | inl n ↦
          let job = new_job id now job_type payload actor (some key) max_attempts in
          let kept : List Job → Result (JobSession W × Job) = λ rows. ok (
            record s {
              jobs = rows;
              audit = record_audit_event "job" id "enqueue" (enqueued job_type) actor s.audit;
            },
            job,
          ) in
          let opened : enqueue_job id now job_type payload actor (some key) max_attempts s
              ≡ (Table.insert job_id job s.jobs >>= kept) =
            ground (arith, n) in
          let (rows, r, e) = >>=-eq-ok (Table.insert job_id job s.jobs) kept (sym opened ∙ h) in
          let (_, t) = Table.insert-ok job_id job s.jobs r in
          let same_job : job ≡ j = ground (arith, e) in
          let left : s'.jobs ≡ s.jobs ++ job ∷ [] = ground (arith, e, t) in
          ap (job_with_key key) left
          ∙ job_with_key-append key s.jobs job
              (new_job-has_key id now job_type payload actor key max_attempts) n
          ∙ ap some same_job
    ]

-- Enqueueing is idempotent: after a job was enqueued with a key, enqueueing anything under that key
-- (another id, type, payload, actor or limit, at another time) returns the same job and changes
-- nothing, neither the jobs nor the audit.
pub enqueue_idempotent :
    {W : Type 0} (id now : ℕ) (job_type payload actor key : String) (max_attempts : ℕ)
    (s s' : JobSession W) (j : Job) (id' now' : ℕ) (job_type' payload' actor' : String)
    (max_attempts' : ℕ)
    → enqueue_job id now job_type payload actor (some key) max_attempts s ≡ ok (s', j)
    → enqueue_job id' now' job_type' payload' actor' (some key) max_attempts' s' ≡ ok (s', j)
unfolding enqueue_job existing_job
enqueue_idempotent id now job_type payload actor key max_attempts s s' j id' now' job_type' payload'
      actor' max_attempts' h =
    let found = enqueue_job-found id now job_type payload actor key max_attempts s s' j h in
    ground (arith, found)
