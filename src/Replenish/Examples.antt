-- ===== src/Replenish/Examples.antt =====
-- A replenishment with two active templates, and a queue that is down.
use gto_poker_daily_spots_ba.Prelude.{
  List, ℕ, ◌+◌, ◌-◌, ◌≡◌, refl, [], ◌∷◌, Option, none, Key, true, sort_by, insert_by, find, update,
}
use gto_poker_daily_spots_ba.Store.{Db}
use gto_poker_daily_spots_ba.Jobs.{replenishment_plan}
use gto_poker_daily_spots_ba.Replenish.{
  TemplateStatus, Template, ReplenishTables, SendOutcome, sent_as, send_job, enqueue_for,
  enqueue_solver_job, enqueue_templates, set_size, count_future_coverage, new_job, completed,
  carry_out, replenish,
}
use gto_poker_daily_spots_ba.Replenish.Oldest.{AreOldest}
use gto_poker_daily_spots_ba.Replenish.Replenished.{IsReplenished, replenish-IsReplenished}

abbrev template : Key → TemplateStatus → ℕ → Template
template id status created = record {
  id = id;
  family_id = id;
  version = 1;
  status = status;
  default_seed = none;
  created_at = created;
}

abbrev tables : ReplenishTables
tables = record {
  templates =
      template 1 TemplateStatus.active 30
      ∷ template 2 TemplateStatus.retired 10
      ∷ template 3 TemplateStatus.active 20
      ∷ [];
  jobs = [];
  sent = [];
  next_id = 50;
}

abbrev seed : Key → Option Key → Key
seed k configured = k

abbrev queue : Key → SendOutcome
queue k = sent_as (k + 100)

abbrev no_spots : Db
no_spots = record { spots = []; versions = []; slots = []; attempts = []; audits = []; next_id = 1 }

abbrev after : ReplenishTables
after = (replenish seed 9 queue 5 1000 no_spots tables).1

tables-replenished :
    replenish seed 9 queue 5 1000 no_spots tables
    ≡ (completed (record { coverage = 0; deficit = 7; alert = true }), after)
unfolding replenish carry_out replenishment_plan count_future_coverage set_size enqueue_templates
    enqueue_solver_job enqueue_for send_job new_job sort_by insert_by find update
tables-replenished = refl

replenish-IsReplenished_example :
    (7 ≡ 7 - count_future_coverage 5 no_spots)
    × (chosen : List Template) × AreOldest 7 tables.templates chosen
    × IsReplenished chosen tables after
replenish-IsReplenished_example =
    replenish-IsReplenished seed 9 queue 5 1000 no_spots tables after
      (record { coverage = 0; deficit = 7; alert = true }) tt tables-replenished
