-- ===== src/Repair/Examples.antt =====
-- A published version, replaced by a validated one of the same spot.
use gto_poker_daily_spots_ba.Prelude.{◌*◌, Bool, false, ◌≡◌, refl, [], ◌∷◌, none, some, Key, err}
use gto_poker_daily_spots_ba.Store.{VersionStatus, SlotStatus, SpotStatus, SpotVersion, Slot, Db}
use gto_poker_daily_spots_ba.Normalized.{distinct_from}
use gto_poker_daily_spots_ba.Repair.{
  RepairOptions, RepairCall, RawStrategy, import_failed, uniform_candidate, one,
  raw_strategy_signatures, assert_not_uniform, repair_spot,
}
use gto_poker_daily_spots_ba.Repair.Performed.{IsRepair, repair_spot-IsRepair}

abbrev version : Key → VersionStatus → SpotVersion
version k status = record {
  id = k;
  spot_id = 2;
  version = 1;
  schema_version = 3;
  solver_run_id = 30;
  public_payload = 0;
  private_payload = 0;
  public_payload_sha256 = 0;
  private_payload_sha256 = 0;
  validated_at = some 400;
  status = status;
  approved_at = none;
  scheduled_at = none;
  published_at = none;
  superseded_at = none;
}

abbrev db : Db
db = record {
  spots = record { id = 2; status = SpotStatus.published; current_version_id = some 10 } ∷ [];
  versions = version 10 VersionStatus.published ∷ version 11 VersionStatus.validated ∷ [];
  slots =
      record {
        id = 50;
        publication_date = 5;
        slot_order = 1;
        spot_version_id = 10;
        status = SlotStatus.published;
        published_at = some 700;
        cancelled_at = none;
      }
      ∷ [];
  attempts = [];
  audits = [];
  next_id = 100;
}

abbrev options : RepairOptions
options = record { old_version_id = 10; new_version_id = 11; spot_id = none; reason = 1; actor = 2 }

abbrev fails : Slot → Db → RepairCall Key
fails slot tables = (err import_failed, tables)

-- Two combos that check half of the time, in fractions, and two that do so in basis points.
abbrev same_vectors : RawStrategy
same_vectors =
    some ((5000 * 100000000 ∷ 5000 * 100000000 ∷ []) ∷ (5000 * one ∷ 5000 * one ∷ []) ∷ [])

same_vectors-refused : assert_not_uniform same_vectors ≡ err uniform_candidate
unfolding assert_not_uniform raw_strategy_signatures distinct_from
same_vectors-refused = refl

abbrev differs : SpotVersion → Bool
differs v = false

repair_spot-IsRepair_example :
    IsRepair fails options same_vectors db (repair_spot differs fails options same_vectors 900 db).1
repair_spot-IsRepair_example = repair_spot-IsRepair differs fails options same_vectors 900 db
