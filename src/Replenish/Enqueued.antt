-- ===== src/Replenish/Enqueued.antt =====
-- What `enqueueSolverJob` of src/solver/template.ts leaves, also when the queue throws.
use gto_poker_daily_spots_ba.Prelude.{
  suc, ◌<◌, Bool, true, false, ◌≡◌, refl, ◌∙◌, ap, sym, subst, List, [], ◌∷◌, ◌++◌, Option, some,
  Key, Time, Result, ok, err, find, update, All, All-map, All-append, arith,
}
use gto_poker_daily_spots_ba.Prelude.Int.{ℤ}
use gto_poker_daily_spots_ba.Jobs.{Job, JobStatus, job_id}
use gto_poker_daily_spots_ba.Replenish.{
  Template, ReplenishTables, ReplenishError, is_active, SendOutcome, throws, not_sent, sent_as,
  mark_failed, mark_sent, new_job, send_job, enqueue_for, enqueue_solver_job,
}

-- Identifiers below the next one are in use.
abbrev pub Below : ReplenishTables → Type 0
Below t = All (λ (j : Job). j.id < t.next_id) t.jobs

update-append :
    (k : Key) (f : Job → Job) (jobs : List Job) (j : Job)
    → All (λ (i : Job). i.id < k) jobs
    → j.id ≡ k
    → update job_id k f (jobs ++ j ∷ []) ≡ jobs ++ f j ∷ []
unfolding update
update-append k f [] j below e = ground arith
update-append k f (i ∷ jobs) j below e = ground (arith, update-append k f jobs j below.1 e, below.0)

abbrev pub is_queued : JobStatus → Bool
is_queued JobStatus.queued = true
is_queued _ = false

abbrev pub is_ok : {A : Type 0} → Result ReplenishError A → Bool
is_ok (ok a) = true
is_ok (err e) = false

-- One row is added, queued if the call returns, and no other row changes.
pub record IsEnqueued (template_id : Key) (returned : Bool) (t t' : ReplenishTables) : Type 0 where
  pub job : Job
  pub jobs : t'.jobs ≡ t.jobs ++ job ∷ []
  pub template : job.template_id ≡ template_id
  pub queued : is_queued job.status ≡ returned
  pub next : t'.next_id ≡ suc t.next_id
  pub id : job.id ≡ t.next_id
  pub templates : t'.templates ≡ t.templates

module _ (seed : Key → Option Key → Key) (failed_code : Key) where
  send_job-IsEnqueued :
      (outcome : SendOutcome) (job : Job) (t : ReplenishTables)
      → Below t
      → job.id ≡ t.next_id
      → is_queued job.status ≡ true
      → let created = record t { jobs = t.jobs ++ job ∷ []; next_id = suc t.next_id } in
        IsEnqueued job.template_id
          (is_ok (send_job seed failed_code outcome job created).0)
          t
          (send_job seed failed_code outcome job created).1
  unfolding send_job
  send_job-IsEnqueued (throws message) job t below e q = record {
    job = mark_failed failed_code message job;
    jobs =
        ap (λ i. update job_id i (mark_failed failed_code message) (t.jobs ++ job ∷ [])) e
        ∙ update-append t.next_id (mark_failed failed_code message) t.jobs job below e;
    template = refl;
    queued = refl;
    next = refl;
    id = e;
    templates = refl;
  }
  send_job-IsEnqueued not_sent job t below e q = record {
    job = job;
    jobs = refl;
    template = refl;
    queued = q;
    next = refl;
    id = e;
    templates = refl;
  }
  send_job-IsEnqueued (sent_as k) job t below e q = record {
    job = mark_sent k job;
    jobs =
        ap (λ i. update job_id i (mark_sent k) (t.jobs ++ job ∷ [])) e
        ∙ update-append t.next_id (mark_sent k) t.jobs job below e;
    template = refl;
    queued = q;
    next = refl;
    id = e;
    templates = refl;
  }

  -- A template that is found and active gets one new job: it is queued if the call returns, and
  -- marked as failed if the queue throws; no other job changes. The keys of the jobs are below the
  -- next one.
  pub enqueue_solver_job-IsEnqueued :
      (template_id : Key) (configured : Option Key) (priority : ℤ) (outcome : SendOutcome)
      (now : Time) (t : ReplenishTables) (template : Template)
      → Below t
      → find (λ (x : Template). x.id) template_id t.templates ≡ some template
      → is_active template.status ≡ true
      → IsEnqueued template.id
          (is_ok
            (enqueue_solver_job seed failed_code template_id configured priority outcome now t).0)
          t
          (enqueue_solver_job seed failed_code template_id configured priority outcome now t).1
  unfolding enqueue_solver_job enqueue_for new_job
  enqueue_solver_job-IsEnqueued template_id configured priority outcome now t template below f a =
      let is_sent : enqueue_solver_job seed failed_code template_id configured priority outcome now
            t
          ≡ send_job seed failed_code outcome
              (new_job seed failed_code template configured priority now t.next_id)
              (record t {
                jobs =
                    t.jobs
                    ++ new_job seed failed_code template configured priority now t.next_id ∷ [];
                next_id = suc t.next_id;
              }) =
        rw (enqueue_solver_job, f) (rw (enqueue_for, a) refl) in
      subst (λ r. IsEnqueued template.id (is_ok r.0) t r.1) (sym is_sent)
        (send_job-IsEnqueued outcome
          (new_job seed failed_code template configured priority now t.next_id) t below refl refl)

  -- The tables after a job has been added have their keys below the next one too.
  pub IsEnqueued-Below :
      (template_id : Key) (returned : Bool) (t t' : ReplenishTables)
      → Below t
      → IsEnqueued template_id returned t t'
      → Below t'
  IsEnqueued-Below template_id returned t t' below q =
      rw (q.jobs, q.next)
        (All-append (λ (j : Job). j.id < suc t.next_id) t.jobs (q.job ∷ [])
          (All-map (λ (j : Job). j.id < t.next_id) (λ (j : Job). j.id < suc t.next_id) t.jobs
            (λ j h. omega arith) below)
          (omega (arith, q.id), tt))
