-- ===== src/History/Examples.antt =====
-- A history of three attempts, read in pages of one.
use gto_poker_daily_spots_ba.Prelude.{
  ℕ, ◌≡◌, true, List, [], ◌∷◌, map, none, Key, arith, length, select, sort_by,
}
use gto_poker_daily_spots_ba.Store.{valid, invalidated, Validity}
use gto_poker_daily_spots_ba.Attempts.{guest, Attempt}
use gto_poker_daily_spots_ba.History.{entry_of, latest_first, is_listed}
use gto_poker_daily_spots_ba.History.Descending.{DistinctIds}
use gto_poker_daily_spots_ba.History.Pages.{follow_pages, follow_pages-rows_after}

abbrev attempt : Key → ℕ → Validity → Attempt
attempt id time validity = record {
  id = id;
  owner = guest 5;
  spot_id = 1;
  spot_version_id = 10;
  created_at = time;
  validity = validity;
  invalidation_reason = none;
  replacement_spot_version_id = none;
  idempotency_key = id;
  payload_hash = 700;
  score = record { similarity_basis_points = 8000; points = 800 };
  official = true;
  practice_ordinal = 0;
}

-- Two of the three valid attempts have one time.
abbrev attempts : List Attempt
attempts =
    attempt 1 50 valid ∷ attempt 2 60 valid ∷ attempt 3 55 invalidated ∷ attempt 4 60 valid ∷ []

attempts-DistinctIds : DistinctIds attempts
attempts-DistinctIds k = ground arith

follow_pages-rows_after_example :
    follow_pages (length attempts) (guest 5) 1 none attempts
    ≡ map entry_of (sort_by latest_first (select (is_listed (guest 5)) attempts))
follow_pages-rows_after_example =
    follow_pages-rows_after (guest 5) 1 attempts (omega arith) attempts-DistinctIds
