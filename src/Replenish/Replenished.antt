-- ===== src/Replenish/Replenished.antt =====
-- What a completed run of the replenishment handler of src/jobs.ts has queued.
use gto_poker_daily_spots_ba.Prelude.{
  ℕ, ◌-◌, ltb, true, ◌≡◌, ◌⊎◌, refl, ◌∙◌, ap, sym, subst, inl, inr, List, [], ◌∷◌, ◌++◌, Option,
  none, some, Key, Time, Result, ok, err, find, id-find, map, All, arith, Bool-cases, Option-cases,
}
use gto_poker_daily_spots_ba.Prelude.Int.{pos}
use gto_poker_daily_spots_ba.Store.{Db}
use gto_poker_daily_spots_ba.Jobs.{Job, Plan, replenishment_plan}
use gto_poker_daily_spots_ba.Replenish.{
  Template, ReplenishTables, ReplenishError, is_active, SendOutcome, enqueue_solver_job,
  enqueue_for, enqueue_templates, active_templates, count_future_coverage, JobOutcome, completed,
  failed, carry_out, replenish,
}
use gto_poker_daily_spots_ba.Replenish.Enqueued.{
  Below, is_queued, is_ok, IsEnqueued, enqueue_solver_job-IsEnqueued, IsEnqueued-Below,
}
use gto_poker_daily_spots_ba.Replenish.Oldest.{AreOldest, active_templates-AreOldest}

append_assoc : (xs : List Job) (j : Job) (ys : List Job) → (xs ++ j ∷ []) ++ ys ≡ xs ++ j ∷ ys
append_assoc [] j ys = refl
append_assoc (x ∷ xs) j ys = ap (λ t. x ∷ t) (append_assoc xs j ys)

append_nil : (xs : List Job) → xs ≡ xs ++ []
append_nil [] = refl
append_nil (x ∷ xs) = ap (λ t. x ∷ t) (append_nil xs)

-- A call that returns or throws, with its tables.
call-cases :
    {A : Type 0} (r : Result ReplenishError A × ReplenishTables)
    → ((a : A) × (t : ReplenishTables) × (r ≡ (ok a, t)))
      ⊎ ((e : ReplenishError) × (t : ReplenishTables) × (r ≡ (err e, t)))
call-cases (ok a, t) = inl (a, t, refl)
call-cases (err e, t) = inr (e, t, refl)

no_return :
    {A : Type 0} (e : ReplenishError) (a : A) (t t' : ReplenishTables)
    → ◌≡◌ {A = Result ReplenishError A × ReplenishTables} (err e, t') (ok a, t)
    → ⊥
no_return {A} e a t t' q =
    let head : ◌≡◌ {A = Result ReplenishError A} (err e) (ok a) = ap (λ r. r.0) q in cc

-- The jobs that were added, one for each of the templates in their order, all of them queued.
pub record IsReplenished (chosen : List Template) (t t' : ReplenishTables) : Type 0 where
  pub added : List Job
  pub jobs : t'.jobs ≡ t.jobs ++ added
  pub for_chosen : map (λ (j : Job). j.template_id) added ≡ map (λ (x : Template). x.id) chosen
  pub queued : All (λ (j : Job). is_queued j.status ≡ true) added
  pub templates : t'.templates ≡ t.templates

module _ (seed : Key → Option Key → Key) (failed_code : Key) where
  -- A call that returns has found an active template.
  enqueue-active :
      (k : Key) (outcome : SendOutcome) (now : Time) (t t' : ReplenishTables) (job : Job)
      → enqueue_solver_job seed failed_code k none (pos 0) outcome now t ≡ (ok job, t')
      → (x : Template) × (find (λ (y : Template). y.id) k t.templates ≡ some x)
        × (is_active x.status ≡ true)
  unfolding enqueue_solver_job enqueue_for
  enqueue-active k outcome now t t' job e =
      elim (Option-cases (find (λ (y : Template). y.id) k t.templates)) [
        | inl n ↦ absurd (ground arith)
        | inr (x, n) ↦ elim (Bool-cases (is_active x.status)) [
          | inl a ↦ (x, n, a)
          | inr a ↦ absurd (ground arith)
        ]
      ]

  enqueue_templates-IsReplenished :
      (queue : Key → SendOutcome) (now : Time) (ts : List Template) (t t' : ReplenishTables)
      → Below t
      → enqueue_templates seed failed_code queue now ts t ≡ (ok tt, t')
      → IsReplenished ts t t'
  unfolding enqueue_templates
  enqueue_templates-IsReplenished queue now [] t t' below e =
      let same : t ≡ t' = ap (λ r. r.1) e in
      subst (IsReplenished [] t) same record {
        added = [];
        jobs = append_nil t.jobs;
        for_chosen = refl;
        queued = tt;
        templates = refl;
      }
  enqueue_templates-IsReplenished queue now (x ∷ rest) t t' below e =
      elim (call-cases
        (enqueue_solver_job seed failed_code x.id none (pos 0) (queue t.next_id) now t)) [
          | inr (thrown, t1, n) ↦
              absurd (no_return thrown tt t' t1 (rw (enqueue_templates, n) at e))
          | inl (job, t1, n) ↦
              let (y, f, a) = enqueue-active x.id (queue t.next_id) now t t1 job n in
              let i : IsEnqueued y.id true t t1 =
                subst (λ r. IsEnqueued y.id (is_ok r.0) t r.1) n
                  (enqueue_solver_job-IsEnqueued seed failed_code x.id none (pos 0)
                    (queue t.next_id) now t y below f a) in
              let others : enqueue_templates seed failed_code queue now rest t1 ≡ (ok tt, t') =
                rw (enqueue_templates, n) at e in
              let later =
                enqueue_templates-IsReplenished queue now rest t1 t'
                  (IsEnqueued-Below seed failed_code y.id true t t1 below i) others in
              record {
                added = i.job ∷ later.added;
                jobs =
                    later.jobs
                    ∙ ap (λ js. js ++ later.added) i.jobs
                    ∙ append_assoc t.jobs i.job later.added;
                for_chosen =
                    ap (λ k. k ∷ map (λ (j : Job). j.template_id) later.added)
                      (i.template ∙ id-find (λ (z : Template). z.id) x.id t.templates y f)
                    ∙ ap (λ ks. x.id ∷ ks) later.for_chosen;
                queued = (i.queued, later.queued);
                templates = later.templates ∙ i.templates;
              }
        ]

abbrev Outcome : Type 0
Outcome = JobOutcome Plan × ReplenishTables

no_completion :
    (plan : Plan) (t t' : ReplenishTables) → ◌≡◌ {A = Outcome} (failed, t') (completed plan, t) → ⊥
no_completion plan t t' q =
    let head : ◌≡◌ {A = JobOutcome Plan} failed (completed plan) = ap (λ r. r.0) q in cc

carried_out :
    (seed : Key → Option Key → Key) (failed_code : Key) (queue : Key → SendOutcome) (now : Time)
    (t t' : ReplenishTables) (p plan : Plan)
    → Below t
    → carry_out seed failed_code queue (ok p) now t ≡ (completed plan, t')
    → (plan ≡ p) × IsReplenished (active_templates p.deficit t.templates) t t'
unfolding carry_out
carried_out seed failed_code queue now t t' p plan below e =
    elim (call-cases
      (enqueue_templates seed failed_code queue now (active_templates p.deficit t.templates) t)) [
        | inr (thrown, t1, m) ↦ absurd (no_completion plan t' t1 (rw (carry_out, m) at e))
        | inl (u, t1, m) ↦
            let done : ◌≡◌ {A = Outcome} (completed p, t1) (completed plan, t') =
              rw (carry_out, m) at e in
            let plan_is : plan ≡ p =
              (let head : completed p ≡ completed plan = ap (λ r. r.0) done in cc) in
            let tables : t1 ≡ t' = ap (λ r. r.1) done in
            (
              plan_is,
              rw (← tables) (
                  enqueue_templates-IsReplenished seed failed_code queue now
                    (active_templates p.deficit t.templates) t t1 below m),
            )
      ]

-- A replenishment that completes has added one queued job for each of the oldest active templates, in
-- their order: as many as the plan's deficit, or all of them if there are fewer. The templates and every
-- other job are as they were. The keys of the jobs are below the next one.
pub replenish-IsReplenished :
    (seed : Key → Option Key → Key) (failed_code : Key) (queue : Key → SendOutcome) (today : ℕ)
    (now : Time) (db : Db) (t t' : ReplenishTables) (plan : Plan)
    → Below t
    → replenish seed failed_code queue today now db t ≡ (completed plan, t')
    → (plan.deficit ≡ 7 - count_future_coverage today db)
      × (chosen : List Template) × AreOldest plan.deficit t.templates chosen
      × IsReplenished chosen t t'
unfolding replenish replenishment_plan
replenish-IsReplenished seed failed_code queue today now db t t' plan below e =
    let plan_of : Plan = record {
      coverage = count_future_coverage today db;
      deficit = 7 - count_future_coverage today db;
      alert = ltb (count_future_coverage today db) 3;
    } in
    let (plan_is, done) = carried_out seed failed_code queue now t t' plan_of plan below e in
    subst
      (λ p.
        (p.deficit ≡ 7 - count_future_coverage today db)
        × (chosen : List Template) × AreOldest p.deficit t.templates chosen
        × IsReplenished chosen t t')
      (sym plan_is)
      (
        refl,
        active_templates plan_of.deficit t.templates,
        active_templates-AreOldest plan_of.deficit t.templates,
        done,
      )
