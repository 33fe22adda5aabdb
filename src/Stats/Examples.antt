-- ===== src/Stats/Examples.antt =====
-- Statistics of a visitor.
use gto_poker_daily_spots_ba.Prelude.{ℕ, true, List, [], ◌∷◌, none, Key, Time, arith}
use gto_poker_daily_spots_ba.Store.{valid, SlotStatus, Slot, Db}
use gto_poker_daily_spots_ba.Attempts.{guest, Attempt}
use gto_poker_daily_spots_ba.Stats.{Sample, summarize_breakdowns}
use gto_poker_daily_spots_ba.Stats.Completed.{OneOfficial}
use gto_poker_daily_spots_ba.Stats.Breakdowns.{IsSummary, summarize_breakdowns-IsSummary}

abbrev slot : Key → ℕ → Key → Slot
slot id date version_id = record {
  id = id;
  publication_date = date;
  slot_order = id;
  spot_version_id = version_id;
  status = SlotStatus.published;
  published_at = none;
  cancelled_at = none;
}

-- Two spots on day 5 and one on day 6.
abbrev db : Db
db = record {
  spots = [];
  versions = [];
  slots = slot 1 5 10 ∷ slot 2 6 12 ∷ slot 3 5 11 ∷ [];
  attempts = [];
  audits = [];
  next_id = 4;
}

abbrev attempt : Key → Key → Time → Attempt
attempt id version_id time = record {
  id = id;
  owner = guest 5;
  spot_id = 1;
  spot_version_id = version_id;
  created_at = time;
  validity = valid;
  invalidation_reason = none;
  replacement_spot_version_id = none;
  idempotency_key = id;
  payload_hash = 700;
  score = record { similarity_basis_points = 8000; points = 800 };
  official = true;
  practice_ordinal = 0;
}

-- The spot of day 6 is played a day late.
abbrev attempts : List Attempt
attempts = attempt 1 10 5 ∷ attempt 2 11 5 ∷ attempt 3 12 7 ∷ []

attempts-OneOfficial : OneOfficial (guest 5) attempts
attempts-OneOfficial k = ground arith

abbrev day : Time → ℕ
day t = t

abbrev sample : Key → ℕ → Sample
sample key n = record { key = key; label = key; similarity_basis_points = n }

-- Key 2 has three samples, key 1 has one.
abbrev samples : List Sample
samples = sample 2 9000 ∷ sample 1 4000 ∷ sample 2 8000 ∷ sample 2 8001 ∷ []

summarize_breakdowns-IsSummary_example : IsSummary samples (summarize_breakdowns samples)
summarize_breakdowns-IsSummary_example = summarize_breakdowns-IsSummary samples
