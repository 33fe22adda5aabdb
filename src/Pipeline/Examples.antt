-- ===== src/Pipeline/Examples.antt =====
-- Concrete drafts for the theorems on src/solver/pipeline.ts.
use gto_poker_daily_spots_ba.Prelude.{
  ℕ, suc, ◌≡◌, refl, false, [], ◌∷◌, Option, none, some, Key, ok, find, update,
}
use gto_poker_daily_spots_ba.Prelude.Int.{pos}
use gto_poker_daily_spots_ba.Store.{SpotStatus}
use gto_poker_daily_spots_ba.Jobs.{Job, JobStatus}
use gto_poker_daily_spots_ba.Reach.{finite, is_active_combo_reach, effective_combo_reach}
use gto_poker_daily_spots_ba.Attempts.{Combo, entry}
use gto_poker_daily_spots_ba.Publication.Consistent.{Consistent}
use gto_poker_daily_spots_ba.Normalized.{
  Envelope, Actor, distinct_from, check_strategy, check_strategies, check_known, matches_count,
  validate_normalized_envelope,
}
use gto_poker_daily_spots_ba.Pipeline.{
  PipelineTables, PersistRunInput, Draft, finish_job, latest_version, ensure_run, ensure_spot,
  new_version, Persisted, persist_new, persist_validated_draft,
}
use gto_poker_daily_spots_ba.Pipeline.Immutable.{IsPersisted, persist-IsPersisted}

abbrev queens : Combo
queens = 81 ∷ 104 ∷ 81 ∷ 100 ∷ []

abbrev envelope : Envelope
envelope = record {
  source_hash = 77;
  manifest_source_hash = 77;
  legal_actions = record { id = 1; is_all_in = false } ∷ [];
  selectable_combos = queens ∷ [];
  preflop = none;
  positions = λ a. 3;
  dealer_actor = Actor.ip;
  solution = record {
    action_order = 1 ∷ [];
    by_combo =
        (
          queens,
          record {
            reach = record { raw_reach = none; reach_weight = finite 1000000000000 };
            frequencies = (1, 10000) ∷ [];
          },
        )
        ∷ [];
  };
  diversity_combo_count = none;
  fallback_used = some false;
}

abbrev job : Key → JobStatus → Option Key → ℕ → Option ℕ → Job
job id status run attempts finished = record {
  id = id;
  template_id = 7;
  effective_seed = 77;
  pg_boss_job_id = none;
  status = status;
  priority = pos 0;
  attempt_count = attempts;
  max_attempts = 3;
  next_attempt_at = 0;
  lease_owner = none;
  lease_expires_at = none;
  heartbeat_at = none;
  last_error_code = none;
  last_error_message = none;
  successful_run_id = run;
  created_at = 0;
  started_at = none;
  finished_at = finished;
}

abbrev tables : PipelineTables
tables = record {
  db = record { spots = []; versions = []; slots = []; attempts = []; audits = []; next_id = 1 };
  runs = [];
  jobs = job 1 JobStatus.queued none 0 none ∷ job 2 JobStatus.queued none 0 none ∷ [];
  next_run_id = 5;
}

abbrev input : Key → PersistRunInput
input j = record { job_id = j; attempt_number = 1; input_sha256 = some 8; output_sha256 = some 9 }

abbrev draft : Draft
draft = record {
  envelope = envelope;
  spot_id = 20;
  spot_version_id = 21;
  public_payload = 100;
  private_payload = 200;
}

-- A stand-in for the hash.
abbrev hash : Key → Key
hash k = suc k

abbrev persisted : Persisted
persisted = record {
  run = record {
    id = 5;
    job_id = 1;
    attempt_number = 1;
    source_hash = 77;
    input_sha256 = some 8;
    output_sha256 = some 9;
  };
  spot = record { id = 20; status = SpotStatus.draft; current_version_id = none };
  version = new_version hash draft 20 1 5 1000;
}

abbrev after : PipelineTables
after = record {
  db = record {
    spots = persisted.spot ∷ [];
    versions = persisted.version ∷ [];
    slots = [];
    attempts = [];
    audits = [];
    next_id = 1;
  };
  runs = persisted.run ∷ [];
  jobs = job 1 JobStatus.succeeded (some 5) 1 (some 1000) ∷ job 2 JobStatus.queued none 0 none ∷ [];
  next_run_id = 6;
}

draft-persisted : persist_validated_draft hash (input 1) draft 1000 tables ≡ ok (persisted, after)
unfolding persist_validated_draft persist_new finish_job latest_version ensure_run ensure_spot find
    update validate_normalized_envelope check_known check_strategies check_strategy distinct_from
    matches_count entry is_active_combo_reach effective_combo_reach
draft-persisted = refl

tables-Consistent : Consistent tables.db
unfolding find
tables-Consistent = record {
  scheduled_once = λ k. refl;
  published_once = λ k. refl;
  held_never = λ k. refl;
}

persist-IsPersisted_example : IsPersisted hash draft tables after persisted
persist-IsPersisted_example =
    persist-IsPersisted hash (input 1) draft 1000 tables after persisted tables-Consistent
      draft-persisted
