-- ===== src/Jobs/Steps.antt =====
-- The calls of the workers of src/solver/host-worker.ts as steps on the table of jobs.
use gto_poker_daily_spots_ba.Prelude.{
  ℕ, ◌+◌, ◌<◌, ◌==◌, ◌&&◌, ltb, leb, ◌≡◌, refl, ◌∙◌, ◌⊎◌, inl, inr, Bool, true, false, List, [],
  ◌∷◌, Option, some, Key, Time, Result, ok, err, arith, find, update, DistinctKeys, any, Bool-cases,
  Option-cases, Result-cases,
}
use gto_poker_daily_spots_ba.Jobs.{
  Job, JobStatus, JobError, Worker, Run, job_id, not_owned, claimable, first_claimable, lease,
  lease_expiry, claim_solver_job, is_running, owned_by, find_owned, heartbeat_solver_job, finish,
  complete_solver_job, retry_delay_ms, give_up, back_off, fail_solver_job,
}
use gto_poker_daily_spots_ba.Jobs.Claim.{first_claimable-IsBest}

-- A call of a worker, at some time.
pub data Call : Type 0 where
  claims : Worker → Time → ℕ → Bool → Call
  heartbeats : Key → Key → Time → ℕ → Call
  completes : Key → Key → Key → Time → List Run → Call
  fails : Key → Key → Key → Key → Time → Call

-- The table after a call; a call that throws changes nothing.
abbrev pub after_claim : List Job → Result JobError (Option Job × List Job) → List Job
after_claim jobs (ok (c, jobs')) = jobs'
after_claim jobs (err e) = jobs

abbrev pub after_call : List Job → Result JobError (List Job) → List Job
after_call jobs (ok jobs') = jobs'
after_call jobs (err e) = jobs

abbrev pub after_fail : List Job → Result JobError (JobStatus × List Job) → List Job
after_fail jobs (ok (s, jobs')) = jobs'
after_fail jobs (err e) = jobs

unfoldable pub step : Call → List Job → List Job
step (claims w now ms conflict) jobs = after_claim jobs (claim_solver_job w now ms conflict jobs)
step (heartbeats id w now ms) jobs = after_call jobs (heartbeat_solver_job id w now ms jobs)
step (completes id w r now runs) jobs = after_call jobs (complete_solver_job id w r now runs jobs)
step (fails id w code msg now) jobs = after_fail jobs (fail_solver_job id w code msg now jobs)

unfoldable pub run : List Call → List Job → List Job
run [] jobs = jobs
run (c ∷ cs) jobs = run cs (step c jobs)

-- Whether a call is made by the owner of a lease.
abbrev pub by_owner : Option Key → Call → Bool
by_owner o (claims w now ms conflict) = false
by_owner o (heartbeats id w now ms) = owned_by o w
by_owner o (completes id w r now runs) = owned_by o w
by_owner o (fails id w code msg now) = owned_by o w

-- A call changes nothing, or it updates one row, which had an attempt left or is leased by the
-- worker that calls.
pub data StepShape (c : Call) (jobs : List Job) : Type 0 where
  idle : step c jobs ≡ jobs → StepShape c jobs
  moves :
      (id : Key) (f : Job → Job) (i : Job)
      → ((x : Job) → (f x).id ≡ x.id)
      → step c jobs ≡ update job_id id f jobs
      → find job_id id jobs ≡ some i
      → (i.attempt_count < 3) ⊎ ((is_running i.status && by_owner i.lease_owner c) ≡ true)
      → StepShape c jobs

has_attempt : (now : Time) (j : Job) → claimable now j ≡ true → j.attempt_count < 3
unfolding claimable
has_attempt now j h = ground arith

claim-StepShape :
    (w : Worker) (now : Time) (ms : ℕ) (conflict : Bool) (jobs : List Job)
    → DistinctKeys job_id jobs
    → StepShape (claims w now ms conflict) jobs
unfolding step claim_solver_job lease_expiry
claim-StepShape w now ms conflict jobs d =
    elim (Result-cases (claim_solver_job w now ms conflict jobs)) [
      | inr (x, q) ↦ idle (ground arith)
      | inl ((o, jobs'), q) ↦ elim (Option-cases (first_claimable now jobs)) [
        | inl n ↦ idle (ground arith)
        | inr (i, n) ↦ elim (Bool-cases conflict) [
          | inl t ↦ idle (ground arith)
          | inr t ↦
              let b = first_claimable-IsBest now jobs i d n in
              moves i.id (lease w now (now + ms)) i (λ x. refl) (ground arith) b.row
                (inl (has_attempt now i b.can_claim))
        ]
      ]
    ]

owned_update :
    (c : Call) (id w : Key) (jobs : List Job) (r : List Job) (f : Job → Job)
    → ((x : Job) → (f x).id ≡ x.id)
    → ((o : Option Key) → by_owner o c ≡ owned_by o w)
    → step c jobs ≡ r
    → ((i : Job) → find_owned id w jobs ≡ ok i → r ≡ update job_id id f jobs)
    → ((e : JobError) → find_owned id w jobs ≡ err e → r ≡ jobs)
    → StepShape c jobs
unfolding find_owned
owned_update c id w jobs r f keep same s on off = elim (Option-cases (find job_id id jobs)) [
  | inl n ↦ idle (s ∙ off not_owned (ground arith))
  | inr (i, n) ↦ elim (Bool-cases (is_running i.status && owned_by i.lease_owner w)) [
    | inl q ↦ moves id f i keep (s ∙ on i (ground arith)) n (inr (rw (same i.lease_owner) q))
    | inr q ↦ idle (s ∙ off not_owned (ground arith))
  ]
]

heartbeat-StepShape :
    (id w : Key) (now : Time) (ms : ℕ) (jobs : List Job) → StepShape (heartbeats id w now ms) jobs
unfolding step heartbeat_solver_job lease_expiry
heartbeat-StepShape id w now ms jobs = elim (Bool-cases (ltb ms 1000)) [
  | inl q ↦ idle (ground arith)
  | inr q ↦
      owned_update _ id w jobs _
        (λ x. record x { heartbeat_at = some now; lease_expires_at = some (now + ms) }) (λ x. refl)
        (λ o. refl) refl (λ i e. ground arith) (λ x e. ground arith)
]

complete-StepShape :
    (id w r : Key) (now : Time) (runs : List Run) (jobs : List Job)
    → StepShape (completes id w r now runs) jobs
unfolding step complete_solver_job
complete-StepShape id w r now runs jobs =
    elim (Bool-cases (any (λ (x : Run). x.id == r && x.job_id == id) runs)) [
      | inr q ↦ idle (ground arith)
      | inl q ↦
          owned_update _ id w jobs _ (finish r now) (λ x. refl) (λ o. refl) refl
            (λ i e. ground arith) (λ x e. ground arith)
    ]

fail-StepShape :
    (id w code msg : Key) (now : Time) (jobs : List Job) → StepShape (fails id w code msg now) jobs
unfolding step fail_solver_job
fail-StepShape id w code msg now jobs = elim (Result-cases (find_owned id w jobs)) [
  | inr (e, q) ↦ idle (ground arith)
  | inl (j, q) ↦ elim (Bool-cases (leb j.max_attempts j.attempt_count)) [
    | inl t ↦
        owned_update _ id w jobs _ (give_up code msg now) (λ x. refl) (λ o. refl) refl
          (λ i e. ground arith) (λ x e. ground arith)
    | inr t ↦
        owned_update _ id w jobs _ (back_off code msg now (retry_delay_ms j.attempt_count))
          (λ x. refl) (λ o. refl) refl (λ i e. ground arith) (λ x e. ground arith)
  ]
]

pub step-StepShape : (c : Call) (jobs : List Job) → DistinctKeys job_id jobs → StepShape c jobs
step-StepShape (claims w now ms conflict) jobs d = claim-StepShape w now ms conflict jobs d
step-StepShape (heartbeats id w now ms) jobs d = heartbeat-StepShape id w now ms jobs
step-StepShape (completes id w r now runs) jobs d = complete-StepShape id w r now runs jobs
step-StepShape (fails id w code msg now) jobs d = fail-StepShape id w code msg now jobs
