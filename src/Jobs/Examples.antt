-- ===== src/Jobs/Examples.antt =====
-- A queue with one job whose handler fails, and two workers.
use minigrc.Prelude.Table
use minigrc.Prelude.{◌≡◌, ◌≤◌, ◌∷◌, ◌+◌, All, ok, String, refl, false, some, List, [], arith}
use minigrc.Jobs.Queue.{IsFairClaim, claim_is_fair}
use minigrc.Jobs.Claims.{
  tries, ends, Step, claim_excludes, granted, after, attempt, of_job, from_queue, Attempt,
}
use minigrc.Jobs.Budget.{runs_are_bounded, turns, Turn, IsWithinBudget, total_budget, budget}
use minigrc.Jobs.{
  jobs_machinery, enqueue_job, claim_job, claimed, new_job, get_job, Handlers, JobHandler, raised,
  JobSession, enqueued, Job,
}

abbrev broken : JobHandler (List String)
broken payload sent = (payload ∷ sent, raised "unreachable")

abbrev handlers : Handlers (List String)
handlers = ("connection_test", broken) ∷ []

abbrev empty : JobSession (List String)
empty = record { jobs = []; audit = []; other = [] }

abbrev first_job : Job
first_job = new_job 5 200000000 "connection_test" "{}" "ada" (some "once") 2

abbrev one_job : JobSession (List String)
one_job = record {
  jobs = first_job ∷ [];
  audit =
      record {
        entity_type = "job";
        entity_id = 5;
        action = "enqueue";
        detail = enqueued "connection_test";
        actor = "ada";
      }
      ∷ [];
  other = [];
}

enqueued_job :
    enqueue_job 5 200000000 "connection_test" "{}" "ada" (some "once") 2 empty
    ≡ ok (one_job, first_job)
unfolding jobs_machinery Table.insert
enqueued_job = refl

claim_is_fair_example :
    IsFairClaim "w1" 200000001 one_job.jobs (claim_job "w1" 200000001 one_job.jobs one_job.jobs)
claim_is_fair_example = claim_is_fair "w1" 200000001 one_job.jobs (tt, tt)

abbrev first_claim : Attempt
first_claim = from_queue "w1" 200000001 one_job.jobs

abbrev late_claims : List Step
late_claims =
    tries (from_queue "w2" 200000002 one_job.jobs)
    ∷ ends 6 250000000 (raised "unreachable")
    ∷ tries (of_job 5 "web" 300000000)
    ∷ []

claim_excludes_example :
    (granted 5 late_claims (attempt first_claim one_job.jobs).0 ≡ false)
    × (get_job 5 (after late_claims (attempt first_claim one_job.jobs).0)
        ≡ some (claimed "w1" 200000001 first_job))
unfolding jobs_machinery attempt
claim_excludes_example =
    claim_excludes first_claim late_claims one_job.jobs (claimed "w1" 200000001 first_job)
      (omega arith) refl (omega arith, ((λ e. absurd (omega (arith, e))), (omega arith, tt)))

abbrev three_turns : List Turn
three_turns =
    (200000001, 200000005, one_job.jobs)
    ∷ (300000000, 300000005, claimed "w1" 200000001 first_job ∷ [])
    ∷ (400000000, 400000005, one_job.jobs)
    ∷ []

runs_are_bounded_example :
    All IsWithinBudget (turns handlers "w1" "worker" three_turns one_job).0.jobs
    × (total_budget (turns handlers "w1" "worker" three_turns one_job).0.jobs
          + (turns handlers "w1" "worker" three_turns one_job).1
        ≤ 2)
unfolding total_budget budget
runs_are_bounded_example =
    runs_are_bounded handlers "w1" "worker" three_turns one_job
      ((omega arith, (λ _. omega arith)), tt)
