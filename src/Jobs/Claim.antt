-- ===== src/Jobs/Claim.antt =====
-- Which job `claimSolverJob` of src/solver/host-worker.ts takes, and what the claim excludes.
use gto_poker_daily_spots_ba.Prelude.{
  ℕ, ◌+◌, ◌<◌, ◌≤◌, ◌==◌, ◌≡◌, ◌≢◌, subst, suc, refl, inl, inr, Bool, true, false, List, [], ◌∷◌,
  none, some, Key, Time, ok, err, arith, find, find-update, All, All-map, DistinctKeys, find-cons,
  Bool-cases, Option-cases, ==_self, ==_iff, if◌then◌else◌,
}
use gto_poker_daily_spots_ba.Jobs.{
  Job, JobStatus, Worker, job_id, not_owned, claimable, ahead, first_claimable, lease,
  claim_solver_job, lease_expiry, find_owned,
}

ahead_asym : (a b : Job) → ahead a b ≡ true → ahead b a ≡ false
unfolding ahead
ahead_asym a b h = ground arith

-- Of three jobs, if `c` does not go before `b`, nor `b` before `a`, then `c` does not before `a`.
ahead_trans : (a b c : Job) → ahead b a ≡ false → ahead c b ≡ false → ahead c a ≡ false
unfolding ahead
ahead_trans a b c h k = ground arith

-- `j` can be claimed, and no job that can be claimed goes before it.
pub record IsBest (now : Time) (jobs : List Job) (j : Job) : Type 0 where
  pub row : find job_id j.id jobs ≡ some j
  pub can_claim : claimable now j ≡ true
  pub best : All (λ k. claimable now k ≡ true → ahead k j ≡ false) jobs

first_claimable-none :
    (now : Time) (jobs : List Job)
    → first_claimable now jobs ≡ none
    → All (λ k. claimable now k ≡ false) jobs
unfolding first_claimable
first_claimable-none now [] e = tt
first_claimable-none now (j ∷ rest) e = elim (Bool-cases (claimable now j)) [
  | inl q ↦ absurd (ground arith)
  | inr q ↦ (q, first_claimable-none now rest (rw q at e))
]

ahead_irrefl : (a : Job) → ahead a a ≡ false
unfolding ahead
ahead_irrefl a = ground arith

-- The first job is best if none of the others can be claimed, or if their best is not ahead of it.
IsBest-alone :
    (now : Time) (i : Job) (rest : List Job)
    → claimable now i ≡ true
    → All (λ k. claimable now k ≡ false) rest
    → IsBest now (i ∷ rest) i
unfolding find
IsBest-alone now i rest c h = record {
  row = rw (==_self i.id) refl;
  can_claim = c;
  best = (λ x. ahead_irrefl i, All-map _ _ rest (λ k q r. cc) h);
}

IsBest-first :
    (now : Time) (i k : Job) (rest : List Job)
    → claimable now i ≡ true
    → IsBest now rest k
    → ahead k i ≡ false
    → IsBest now (i ∷ rest) i
unfolding find
IsBest-first now i k rest c b a = record {
  row = rw (==_self i.id) refl;
  can_claim = c;
  best = (λ x. ahead_irrefl i, All-map _ _ rest (λ m q r. ahead_trans i k m a (q r)) b.best);
}

IsBest-later :
    (now : Time) (i k : Job) (rest : List Job)
    → All (λ m. m.id ≢ i.id) rest
    → IsBest now rest k
    → (claimable now i ≡ true → ahead k i ≡ true)
    → IsBest now (i ∷ rest) k
IsBest-later now i k rest d b a = record {
  row = find-cons job_id i rest k d b.row;
  can_claim = b.can_claim;
  best = (λ c. ahead_asym k i (a c), b.best);
}

pub first_claimable-IsBest :
    (now : Time) (jobs : List Job) (j : Job)
    → DistinctKeys job_id jobs
    → first_claimable now jobs ≡ some j
    → IsBest now jobs j
unfolding first_claimable
first_claimable-IsBest now [] j d e = absurd (cc)
first_claimable-IsBest now (i ∷ rest) j d e = elim (Bool-cases (claimable now i)) [
  | inr q ↦
      IsBest-later now i j rest d.0 (first_claimable-IsBest now rest j d.1 (rw q at e)) (λ c. cc)
  | inl q ↦ elim (Option-cases (first_claimable now rest)) [
    | inl n ↦
        subst (IsBest now (i ∷ rest)) (ground arith)
          (IsBest-alone now i rest q (first_claimable-none now rest n))
    | inr (k, n) ↦ elim (Bool-cases (ahead k i)) [
      | inl a ↦
          subst (IsBest now (i ∷ rest)) (ground arith)
            (IsBest-later now i k rest d.0 (first_claimable-IsBest now rest k d.1 n) (λ c. a))
      | inr a ↦
          subst (IsBest now (i ∷ rest)) (ground arith)
            (IsBest-first now i k rest q (first_claimable-IsBest now rest k d.1 n) a)
    ]
  ]
]

-- What a claim that returns the row `c` has done.
pub record IsClaim (w : Worker) (now : Time) (lease_ms : ℕ) (jobs jobs' : List Job) (c : Job)
    : Type 0 where
  pub job : Job
  pub best : IsBest now jobs job
  pub leased : c ≡ lease w now (now + lease_ms) job
  pub table : (k : Key) → find job_id k jobs' ≡ (if job.id == k then some c else find job_id k jobs)
  pub within : c.attempt_count ≤ 3
  pub lease_was_over :
      job.status ≡ JobStatus.running → (t : Time) × (job.lease_expires_at ≡ some t) × (t < now)

claimable_within : (now : Time) (j : Job) → claimable now j ≡ true → suc j.attempt_count ≤ 3
unfolding claimable
claimable_within now j h = ground arith

claimable_running :
    (now : Time) (j : Job)
    → claimable now j ≡ true
    → j.status ≡ JobStatus.running
    → (t : Time) × (j.lease_expires_at ≡ some t) × (t < now)
unfolding claimable
claimable_running now j h r = elim (Option-cases j.lease_expires_at) [
  | inl n ↦ absurd (ground arith)
  | inr (t, n) ↦ (t, n, ground arith)
]

-- Where no two jobs have one key, a claim that returns a job takes one that no other claimable job
-- goes before, leases it to the worker until `now + lease_ms`, counts the attempt, which is at
-- most the third, and changes no other job. A job that was running is taken only if its lease was
-- over.
pub claim_solver_job-IsClaim :
    (w : Worker) (now : Time) (lease_ms : ℕ) (conflict : Bool) (jobs jobs' : List Job) (c : Job)
    → DistinctKeys job_id jobs
    → claim_solver_job w now lease_ms conflict jobs ≡ ok (some c, jobs')
    → IsClaim w now lease_ms jobs jobs' c
unfolding claim_solver_job lease_expiry
claim_solver_job-IsClaim w now lease_ms conflict jobs jobs' c d h =
    elim (Option-cases (first_claimable now jobs)) [
      | inl n ↦ absurd (ground arith)
      | inr (j, n) ↦
          let b = first_claimable-IsBest now jobs j d n in
          record {
            job = j;
            best = b;
            leased = ground arith;
            table = λ k. ground (
              arith,
              b.row,
              ==_iff j.id k,
              find-update job_id k j.id (lease w now (now + lease_ms)) jobs (λ x. refl),
              moved_row j b.row k,
            );
            within = ground (arith, claimable_within now j b.can_claim);
            lease_was_over = claimable_running now j b.can_claim;
          }
    ]
  where
    moved_row :
        (j : Job)
        → find job_id j.id jobs ≡ some j
        → (k : Key) → (j.id == k) ≡ true
        → find job_id k jobs ≡ some j
    moved_row j e k q = subst (λ i. find job_id i jobs ≡ some j) ((==_iff j.id k).0 q) e

-- A claim that returns without a conflict and comes back empty has changed nothing, and no job could
-- be claimed.
pub claim-none :
    (w : Worker) (now : Time) (lease_ms : ℕ) (jobs jobs' : List Job)
    → claim_solver_job w now lease_ms false jobs ≡ ok (none, jobs')
    → All (λ k. claimable now k ≡ false) jobs × (jobs' ≡ jobs)
unfolding claim_solver_job lease_expiry
claim-none w now lease_ms jobs jobs' h = elim (Option-cases (first_claimable now jobs)) [
  | inl n ↦ (first_claimable-none now jobs n, ground arith)
  | inr (j, n) ↦ absurd (ground arith)
]

-- Where no two jobs have one key, after a claim that returns a job no other worker is found to own
-- it, so none can extend, complete or fail it.
pub claim_excludes :
    (w : Worker) (now : Time) (lease_ms : ℕ) (conflict : Bool) (jobs jobs' : List Job) (c : Job)
    (other : Key)
    → DistinctKeys job_id jobs
    → claim_solver_job w now lease_ms conflict jobs ≡ ok (some c, jobs')
    → other ≢ w.name
    → find_owned c.id other jobs' ≡ err not_owned
unfolding find_owned
claim_excludes w now lease_ms conflict jobs jobs' c other d h ne =
    let x = claim_solver_job-IsClaim w now lease_ms conflict jobs jobs' c d h in
    ground (arith, x.leased, x.table c.id)
