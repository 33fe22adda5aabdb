-- ===== src/Games/Examples.antt =====
-- Concrete days for the theorems on the daily games of src/application/public-api.ts.
use gto_poker_daily_spots_ba.Prelude.{
  ℕ, ◌≡◌, refl, false, true, List, [], ◌∷◌, none, some, Key, Result, ok, arith, sort_by, insert_by,
  find, from_entries, map_set, map_has, map_get,
}
use gto_poker_daily_spots_ba.Store.{VersionStatus, SlotStatus, valid, Slot, SpotVersion, Db}
use gto_poker_daily_spots_ba.Attempts.{guest, Attempt}
use gto_poker_daily_spots_ba.PublicSpot.{
  ip, oop, generic, unknown, PublicSpot, SpotError, read_public_spot, served,
}
use gto_poker_daily_spots_ba.Games.{
  GameSlot, include_versions, slots_for, progress_for, in_progress, DailyGame, latest_before,
  fall_back, list_spot, list_spots, get_daily_game, RangeGame, RangeStatus, add_to_date, by_date,
  range_game, get_daily_game_range,
}
use gto_poker_daily_spots_ba.Games.Slots.{OncePublished}
use gto_poker_daily_spots_ba.Games.Served.{IsServed, get_daily_game-IsServed}

abbrev spot : PublicSpot
spot = record {
  schema_version = 3;
  spot_id = 1;
  spot_version_id = 10;
  street = 2;
  hero_actor = ip;
  dealer_actor = ip;
  positions = record { ip_position = generic ip; oop_position = generic oop };
  preflop = unknown;
}

abbrev payload : Key → PublicSpot
payload k = record spot { spot_version_id = k }

abbrev accept : PublicSpot → Result SpotError PublicSpot
accept s = ok s

abbrev version : Key → SpotVersion
version id = record {
  id = id;
  spot_id = 1;
  version = 1;
  schema_version = 3;
  solver_run_id = 30;
  public_payload = id;
  private_payload = 0;
  public_payload_sha256 = 0;
  private_payload_sha256 = 0;
  validated_at = none;
  status = VersionStatus.published;
  approved_at = none;
  scheduled_at = none;
  published_at = none;
  superseded_at = none;
}

abbrev slot : Key → ℕ → ℕ → Key → SlotStatus → Slot
slot id date order version_id status = record {
  id = id;
  publication_date = date;
  slot_order = order;
  spot_version_id = version_id;
  status = status;
  published_at = none;
  cancelled_at = none;
}

-- Day 4 has one spot, day 5 two, stored out of order, and day 7 is only scheduled.
abbrev db : Db
db = record {
  spots = [];
  versions = version 10 ∷ version 11 ∷ version 12 ∷ version 13 ∷ [];
  slots =
      slot 1 5 2 11 SlotStatus.published
      ∷ slot 2 4 1 12 SlotStatus.published
      ∷ slot 3 5 1 10 SlotStatus.published
      ∷ slot 4 7 1 13 SlotStatus.scheduled
      ∷ [];
  attempts = [];
  audits = [];
  next_id = 5;
}

abbrev attempts : List Attempt
attempts =
    record {
      id = 1;
      owner = guest 5;
      spot_id = 1;
      spot_version_id = 10;
      created_at = 1000;
      validity = valid;
      invalidation_reason = none;
      replacement_spot_version_id = none;
      idempotency_key = 70;
      payload_hash = 700;
      score = record { similarity_basis_points = 8000; points = 800 };
      official = true;
      practice_ordinal = 0;
    }
    ∷ []

db-OncePublished : OncePublished db
db-OncePublished k = ground arith

abbrev day5 : List GameSlot
day5 =
    record { slot = slot 3 5 1 10 SlotStatus.published; version = version 10 }
    ∷ record { slot = slot 1 5 2 11 SlotStatus.published; version = version 11 }
    ∷ []

-- What is served for day 7.
abbrev game : DailyGame
game = record {
  date = 5;
  requested_date = 7;
  fallback_active = true;
  spots =
      record {
        spot_id = 1;
        spot_version_id = 10;
        sequence = 1;
        street = 2;
        hero_position = generic ip;
        completed = true;
        official_score_points = some 800;
      }
      ∷ record {
        spot_id = 1;
        spot_version_id = 11;
        sequence = 2;
        street = 2;
        hero_position = generic ip;
        completed = false;
        official_score_points = none;
      }
      ∷ [];
  progress = record {
    completed_spots = 1;
    total_spots = 2;
    status = in_progress;
    next_spot = some (1, 2);
    score_points = 800;
    maximum_score_points = 2000;
  };
}

game-served : get_daily_game payload accept 7 (guest 5) true db attempts ≡ ok game
unfolding get_daily_game slots_for include_versions fall_back latest_before list_spots list_spot
    progress_for sort_by insert_by find from_entries map_set map_has map_get read_public_spot served
game-served = refl

get_daily_game-IsServed_example : IsServed payload accept 7 (guest 5) db attempts game
get_daily_game-IsServed_example =
    get_daily_game-IsServed payload accept 7 (guest 5) true db attempts game db-OncePublished
      game-served

abbrev games : List RangeGame
games =
    record {
      date = 4;
      spot_count = 1;
      completed_spots = 0;
      status = RangeStatus.available;
      official_score_points = 0;
      maximum_score_points = 1000;
    }
    ∷ record {
      date = 5;
      spot_count = 2;
      completed_spots = 1;
      status = RangeStatus.available;
      official_score_points = 800;
      maximum_score_points = 2000;
    }
    ∷ []

games-listed : get_daily_game_range 3 9 (guest 5) db attempts ≡ ok games
unfolding get_daily_game_range by_date add_to_date range_game sort_by insert_by from_entries map_set
    map_has map_get
games-listed = refl
