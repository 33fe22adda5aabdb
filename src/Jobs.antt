-- ===== src/Jobs.antt =====
-- src/solver/host-worker.ts: the leases of solver jobs, with `retryDelayMs` of
-- src/solver/template.ts, the job operations of src/admin.ts and `replenishmentPlan` of src/queue.ts.
pub mod Claim
pub mod Steps
pub mod Exhausted
mod Examples
use gto_poker_daily_spots_ba.Prelude.{
  ℕ, suc, ◌+◌, ◌-◌, ◌==◌, ltb, leb, not, ◌||◌, ◌&&◌, Bool, true, false, List, [], ◌∷◌, Option, none,
  some, Key, Time, Result, ok, err, guard, or_throw, ◌>>=◌, ◌>>◌, find, update, select, any,
  if◌then◌else◌,
}
use gto_poker_daily_spots_ba.Prelude.Int.{ℤ, ltb_ℤ}

pub data JobStatus : Type 0 where
  queued running retry_wait succeeded failed held cancelled : JobStatus

-- The columns of `SolverJob` that this code reads or writes.
pub record Job : Type 0 where
  pub id : Key
  pub template_id : Key
  pub effective_seed : Key
  pub pg_boss_job_id : Option Key
  pub status : JobStatus
  pub priority : ℤ
  pub attempt_count : ℕ
  pub max_attempts : ℕ
  pub next_attempt_at : Time
  pub lease_owner : Option Key
  pub lease_expires_at : Option Time
  pub heartbeat_at : Option Time
  pub last_error_code : Option Key
  pub last_error_message : Option Key
  pub successful_run_id : Option Key
  pub created_at : Time
  pub started_at : Option Time
  pub finished_at : Option Time

abbrev pub job_id : Job → Key
job_id j = j.id

pub data JobError : Type 0 where
  invalid_worker invalid_lease not_owned run_not_of_job job_not_found invalid_plan : JobError

-- A worker's identifier, with the number of its characters.
pub record Worker : Type 0 where
  pub name : Key
  pub characters : ℕ

pub lease_expiry : Time → ℕ → Result JobError Time
lease_expiry now lease_ms = if ltb lease_ms 1000 then err invalid_lease else ok (now + lease_ms)

-- `lt: now` is false of a missing value.
abbrev pub expired : Option Time → Time → Bool
expired none now = false
expired (some t) now = ltb t now

abbrev pub due : JobStatus → Time → Option Time → Time → Bool
due JobStatus.queued next lease now = leb next now
due JobStatus.retry_wait next lease now = leb next now
due JobStatus.running next lease now = expired lease now
due _ next lease now = false

-- The `where` of `claimSolverJob`.
unfoldable pub claimable : Time → Job → Bool
claimable now j = ltb j.attempt_count 3 && due j.status j.next_attempt_at j.lease_expires_at now

-- `orderBy: [{ priority: "desc" }, { nextAttemptAt: "asc" }, { createdAt: "asc" }]`.
pub ahead : Job → Job → Bool
ahead a b =
    ltb_ℤ b.priority a.priority
    || (not (ltb_ℤ a.priority b.priority)
        && (ltb a.next_attempt_at b.next_attempt_at
            || (a.next_attempt_at == b.next_attempt_at && ltb a.created_at b.created_at)))

-- `findFirst`; of rows that tie in the order the first one is taken.
pub first_claimable : Time → List Job → Option Job
first_claimable now [] = none
first_claimable now (j ∷ rest) =
    let later = first_claimable now rest in
    if claimable now j
    then elim later [ none ↦ some j | some k ↦ if ahead k j then some k else some j ]
    else later

abbrev pub or_now : Option Time → Time → Option Time
or_now none now = some now
or_now (some t) now = some t

-- The `data` of the update in `claimSolverJob`.
abbrev pub lease : Worker → Time → Time → Job → Job
lease w now expires j = record j {
  status = JobStatus.running;
  attempt_count = suc j.attempt_count;
  lease_owner = some w.name;
  lease_expires_at = some expires;
  heartbeat_at = some now;
  started_at = or_now j.started_at now;
  last_error_code = none;
  last_error_message = none;
}

-- `conflict` tells that the database aborted the transaction with P2034.
pub claim_solver_job : Worker → Time → ℕ → Bool → List Job → Result JobError (Option Job × List Job)
unfolding lease_expiry
claim_solver_job w now lease_ms conflict jobs = do
  guard (not (w.characters == 0) && leb w.characters 128) invalid_worker
  expires ← lease_expiry now lease_ms
  if conflict then ok (none, jobs) else elim (first_claimable now jobs) [
    | none ↦ ok (none, jobs)
    | some j ↦ ok (some (lease w now expires j), update job_id j.id (lease w now expires) jobs)
  ]

abbrev pub is_running : JobStatus → Bool
is_running JobStatus.running = true
is_running _ = false

abbrev pub owned_by : Option Key → Key → Bool
owned_by none w = false
owned_by (some o) w = o == w

-- `where: { id, status: RUNNING, leaseOwner: workerId }`, on the row with the primary key.
pub find_owned : Key → Key → List Job → Result JobError Job
find_owned id worker jobs = do
  j ← or_throw (find job_id id jobs) not_owned
  if is_running j.status && owned_by j.lease_owner worker then ok j else err not_owned

pub heartbeat_solver_job : Key → Key → Time → ℕ → List Job → Result JobError (List Job)
unfolding find_owned lease_expiry
heartbeat_solver_job id worker now lease_ms jobs = do
  expires ← lease_expiry now lease_ms
  j ← find_owned id worker jobs
  ok (
      update job_id id (λ x. record x { heartbeat_at = some now; lease_expires_at = some expires })
        jobs)

-- A solver run: its primary key and its job.
pub record Run : Type 0 where
  pub id : Key
  pub job_id : Key

abbrev pub finish : Key → Time → Job → Job
finish run_id now x = record x {
  status = JobStatus.succeeded;
  successful_run_id = some run_id;
  finished_at = some now;
  lease_owner = none;
  lease_expires_at = none;
  heartbeat_at = none;
}

pub complete_solver_job : Key → Key → Key → Time → List Run → List Job → Result JobError (List Job)
unfolding find_owned
complete_solver_job id worker run_id now runs jobs = do
  guard (any (λ (r : Run). r.id == run_id && r.job_id == id) runs) run_not_of_job
  j ← find_owned id worker jobs
  ok (update job_id id (finish run_id now) jobs)

pub retry_delay_ms : ℕ → ℕ
retry_delay_ms attempt_number = if leb attempt_number 1 then 60000 else 300000

abbrev pub give_up : Key → Key → Time → Job → Job
give_up code message now x = record x {
  status = JobStatus.failed;
  next_attempt_at = now;
  last_error_code = some code;
  last_error_message = some message;
  finished_at = some now;
  lease_owner = none;
  lease_expires_at = none;
  heartbeat_at = none;
}

abbrev pub back_off : Key → Key → Time → ℕ → Job → Job
back_off code message now delay x = record x {
  status = JobStatus.retry_wait;
  next_attempt_at = now + delay;
  last_error_code = some code;
  last_error_message = some message;
  finished_at = none;
  lease_owner = none;
  lease_expires_at = none;
  heartbeat_at = none;
}

pub fail_solver_job :
    Key → Key → Key → Key → Time → List Job → Result JobError (JobStatus × List Job)
unfolding find_owned
fail_solver_job id worker code message now jobs = do
  j ← find_owned id worker jobs
  if leb j.max_attempts j.attempt_count
      then ok (JobStatus.failed, update job_id id (give_up code message now) jobs)
      else ok (
        JobStatus.retry_wait,
        update job_id id (back_off code message now (retry_delay_ms j.attempt_count)) jobs,
      )

abbrev pub requeue : Time → Job → Job
requeue now x = record x {
  status = JobStatus.queued;
  next_attempt_at = now;
  last_error_code = none;
  last_error_message = none;
}

-- `POST /jobs/:jobId/retry`, `POST /jobs/:jobId/hold` and `DELETE /jobs/:jobId` of src/admin.ts.
pub retry_job : Key → Time → List Job → Result JobError (List Job)
retry_job id now jobs = do
  j ← or_throw (find job_id id jobs) job_not_found
  ok (update job_id id (requeue now) jobs)

pub hold_job : Key → List Job → Result JobError (List Job)
hold_job id jobs = do
  j ← or_throw (find job_id id jobs) job_not_found
  ok (update job_id id (λ x. record x { status = JobStatus.held }) jobs)

pub cancel_job : Key → List Job → Result JobError (List Job)
cancel_job id jobs = do
  j ← or_throw (find job_id id jobs) job_not_found
  ok (update job_id id (λ x. record x { status = JobStatus.cancelled }) jobs)

pub record Plan : Type 0 where
  pub coverage : ℕ
  pub deficit : ℕ
  pub alert : Bool

-- On natural numbers; `Math.max(0, target - coverage)` is truncated subtraction.
unfoldable pub replenishment_plan : ℕ → ℕ → ℕ → Result JobError Plan
replenishment_plan coverage target alert_threshold =
    if ltb target 1
    then err invalid_plan
    else ok (record {
      coverage = coverage;
      deficit = target - coverage;
      alert = ltb coverage alert_threshold;
    })
