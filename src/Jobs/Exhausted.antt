-- ===== src/Jobs/Exhausted.antt =====
-- Jobs that have used up their attempts, under src/solver/host-worker.ts and src/admin.ts.
use gto_poker_daily_spots_ba.Prelude.{
  ◌≤◌, ◌==◌, ◌&&◌, ◌≡◌, refl, ◌∙◌, inl, inr, false, List, [], ◌∷◌, some, Key, Time, ok, arith, find,
  update, find-update, DistinctKeys, update-DistinctKeys, any, Bool-cases, ==_self, ==_iff, subst,
}
use gto_poker_daily_spots_ba.Jobs.{Job, job_id, is_running, requeue, retry_job}
use gto_poker_daily_spots_ba.Jobs.Steps.{
  Call, step, run, by_owner, StepShape, idle, moves, step-StepShape,
}

-- The owner of the job's lease, if it is running, makes none of the calls.
abbrev pub IsAbandoned : Job → List Call → Type 0
IsAbandoned j calls = (is_running j.status && any (by_owner j.lease_owner) calls) ≡ false

step-DistinctKeys :
    (c : Call) (jobs : List Job) → DistinctKeys job_id jobs → DistinctKeys job_id (step c jobs)
step-DistinctKeys c jobs d = kept (step-StepShape c jobs d)
  where
    kept : StepShape c jobs → DistinctKeys job_id (step c jobs)
    kept (idle e) = rw e d
    kept (moves id f i keep e row may) = rw e (update-DistinctKeys job_id id f jobs keep d)

step-stays :
    (c : Call) (jobs : List Job) (id : Key) (j : Job)
    → DistinctKeys job_id jobs
    → find job_id id jobs ≡ some j
    → 3 ≤ j.attempt_count
    → (is_running j.status && by_owner j.lease_owner c) ≡ false
    → find job_id id (step c jobs) ≡ some j
step-stays c jobs id j d e h a = kept (step-StepShape c jobs d)
  where
    kept : StepShape c jobs → find job_id id (step c jobs) ≡ some j
    kept (idle q) = rw q e
    kept (moves k f i keep q row may) = elim (Bool-cases (k == id)) [
      | inr n ↦ rw q (find-update job_id id k f jobs keep ∙ rw n e)
      | inl n ↦
          let same : find job_id id jobs ≡ some i =
            subst (λ t. find job_id t jobs ≡ some i) ((==_iff k id).0 n) row in
          absurd (ground (arith, same, e, h, a, may))
    ]

-- Where no two jobs have one key, a job that has used its three attempts is left alone by every
-- sequence of worker calls in which the owner of its lease, if it is running, makes no call: it is
-- never claimed, completed or failed.
pub run-stays :
    (calls : List Call) (jobs : List Job) (id : Key) (j : Job)
    → DistinctKeys job_id jobs
    → find job_id id jobs ≡ some j
    → 3 ≤ j.attempt_count
    → IsAbandoned j calls
    → find job_id id (run calls jobs) ≡ some j
unfolding run
run-stays [] jobs id j d e h a = e
run-stays (c ∷ cs) jobs id j d e h a =
    run-stays cs (step c jobs) id j (step-DistinctKeys c jobs d)
      (step-stays c jobs id j d e h (ground arith)) h (ground arith)

-- Where no two jobs have one key, retrying a job that has used its three attempts queues it, and
-- it stays queued: no sequence of worker calls ever claims it, since the attempts are not reset.
pub retry_exhausted :
    (calls : List Call) (jobs : List Job) (id : Key) (now : Time) (j : Job)
    → DistinctKeys job_id jobs
    → find job_id id jobs ≡ some j
    → 3 ≤ j.attempt_count
    → (jobs' : List Job) × (retry_job id now jobs ≡ ok jobs')
      × (find job_id id (run calls jobs') ≡ some (requeue now j))
unfolding retry_job
retry_exhausted calls jobs id now j d e h = (
  update job_id id (requeue now) jobs,
  ground arith,
  run-stays calls (update job_id id (requeue now) jobs) id (requeue now j)
      (update-DistinctKeys job_id id (requeue now) jobs (λ x. refl) d)
      (find-update job_id id id (requeue now) jobs (λ x. refl) ∙ rw (==_self id, e) refl) h refl,
)
