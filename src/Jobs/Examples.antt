-- ===== src/Jobs/Examples.antt =====
-- Concrete tables of jobs for the theorems on src/solver/host-worker.ts.
use gto_poker_daily_spots_ba.Prelude.{
  ℕ, ◌≤◌, ◌≡◌, refl, false, List, [], ◌∷◌, Option, none, some, Key, Time, ok, arith, find, update,
  DistinctKeys,
}
use gto_poker_daily_spots_ba.Prelude.Int.{pos}
use gto_poker_daily_spots_ba.Jobs.{
  Job, JobStatus, Worker, job_id, claimable, first_claimable, ahead, lease, lease_expiry,
  claim_solver_job, requeue, retry_job,
}
use gto_poker_daily_spots_ba.Jobs.Claim.{IsClaim, claim_solver_job-IsClaim}
use gto_poker_daily_spots_ba.Jobs.Steps.{Call, claims, fails, run}
use gto_poker_daily_spots_ba.Jobs.Exhausted.{run-stays, retry_exhausted}

abbrev job : Key → JobStatus → ℕ → Option Key → Option Time → Job
job id status attempts owner expires = record {
  id = id;
  template_id = 7;
  effective_seed = 77;
  pg_boss_job_id = none;
  status = status;
  priority = pos 0;
  attempt_count = attempts;
  max_attempts = 3;
  next_attempt_at = 1000;
  lease_owner = owner;
  lease_expires_at = expires;
  heartbeat_at = none;
  last_error_code = none;
  last_error_message = none;
  successful_run_id = none;
  created_at = 100;
  started_at = none;
  finished_at = none;
}

-- Job 1 runs on its third attempt, job 2 waits, job 3 has a lease that is over.
abbrev jobs : List Job
jobs =
    job 1 JobStatus.running 3 (some 6) (some 2000)
    ∷ job 2 JobStatus.queued 0 none none
    ∷ job 3 JobStatus.running 1 (some 6) (some 2000)
    ∷ []

jobs-DistinctKeys : DistinctKeys job_id jobs
jobs-DistinctKeys = ((ground arith, (ground arith, tt)), ((ground arith, tt), (tt, tt)))

abbrev worker : Worker
worker = record { name = 9; characters = 4 }

abbrev claimed : Job
claimed = lease worker 5000 65000 (job 2 JobStatus.queued 0 none none)

abbrev claimed_jobs : List Job
claimed_jobs =
    job 1 JobStatus.running 3 (some 6) (some 2000)
    ∷ claimed
    ∷ job 3 JobStatus.running 1 (some 6) (some 2000)
    ∷ []

jobs-claimed : claim_solver_job worker 5000 60000 false jobs ≡ ok (some claimed, claimed_jobs)
unfolding claim_solver_job first_claimable lease_expiry update claimable ahead
jobs-claimed = refl

claim_solver_job-IsClaim_example : IsClaim worker 5000 60000 jobs claimed_jobs claimed
claim_solver_job-IsClaim_example =
    claim_solver_job-IsClaim worker 5000 60000 false jobs claimed_jobs claimed jobs-DistinctKeys
      jobs-claimed

-- Before the lease of job 1 ends nothing can be claimed.
abbrev busy : List Job
busy = job 1 JobStatus.running 1 (some 6) (some 2000) ∷ []

busy-none : claim_solver_job worker 1500 60000 false busy ≡ ok (none, busy)
unfolding claim_solver_job first_claimable lease_expiry claimable
busy-none = refl

jobs-row : find job_id 1 jobs ≡ some (job 1 JobStatus.running 3 (some 6) (some 2000))
unfolding find
jobs-row = refl

three : 3 ≤ 3
three = omega arith

-- Another worker claims again and again, after the lease of job 1 has ended.
abbrev calls : List Call
calls =
    claims worker 5000 60000 false ∷ claims worker 900000 60000 false ∷ fails 3 9 1 1 900500 ∷ []

run-stays_example :
    find job_id 1 (run calls jobs) ≡ some (job 1 JobStatus.running 3 (some 6) (some 2000))
run-stays_example =
    run-stays calls jobs 1 (job 1 JobStatus.running 3 (some 6) (some 2000)) jobs-DistinctKeys
      jobs-row three (ground arith)

retry_exhausted_example :
    (jobs' : List Job) × (retry_job 1 8000 jobs ≡ ok jobs')
    × (find job_id 1 (run calls jobs')
        ≡ some (requeue 8000 (job 1 JobStatus.running 3 (some 6) (some 2000))))
retry_exhausted_example =
    retry_exhausted calls jobs 1 8000 (job 1 JobStatus.running 3 (some 6) (some 2000))
      jobs-DistinctKeys jobs-row three
