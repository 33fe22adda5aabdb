-- ===== src/Synthetic/Examples.antt =====
-- The fixture spot, whose version is published, beside a spot with a scheduled version.
use gto_poker_daily_spots_ba.Prelude.{ℕ, ◌≡◌, refl, [], ◌∷◌, none, some, Key, ok, arith, find}
use gto_poker_daily_spots_ba.Store.{
  VersionStatus, SlotStatus, SpotStatus, Spot, SpotVersion, Slot, Db,
}
use gto_poker_daily_spots_ba.Publication.Consistent.{Consistent}
use gto_poker_daily_spots_ba.Synthetic.{retire_spot}
use gto_poker_daily_spots_ba.Synthetic.Retired.{IsRetired, retire_spot-IsRetired}

abbrev version : Key → Key → VersionStatus → SpotVersion
version k spot status = record {
  id = k;
  spot_id = spot;
  version = 1;
  schema_version = 3;
  solver_run_id = 30;
  public_payload = 0;
  private_payload = 0;
  public_payload_sha256 = 0;
  private_payload_sha256 = 0;
  validated_at = some 400;
  status = status;
  approved_at = none;
  scheduled_at = none;
  published_at = none;
  superseded_at = none;
}

abbrev slot : Key → Key → SlotStatus → Slot
slot k version_id status = record {
  id = k;
  publication_date = k;
  slot_order = 1;
  spot_version_id = version_id;
  status = status;
  published_at = none;
  cancelled_at = none;
}

abbrev fixture : Spot
fixture = record { id = 2; status = SpotStatus.published; current_version_id = some 10 }

abbrev db : Db
db = record {
  spots = fixture ∷ record { id = 3; status = SpotStatus.approved; current_version_id = none } ∷ [];
  versions = version 10 2 VersionStatus.published ∷ version 11 3 VersionStatus.scheduled ∷ [];
  slots = slot 50 10 SlotStatus.published ∷ slot 51 11 SlotStatus.scheduled ∷ [];
  attempts = [];
  audits = [];
  next_id = 100;
}

db-Consistent : Consistent db
unfolding find
db-Consistent = record {
  scheduled_once = λ k. ground arith;
  published_once = λ k. ground arith;
  held_never = λ k. ground arith;
}

fixture-found : find (λ (x : Spot). x.id) 2 db.spots ≡ some fixture
unfolding find
fixture-found = refl

retire_spot-IsRetired_example :
    (counts : ℕ × ℕ) × (db' : Db) × (retire_spot 2 900 db ≡ ok (some counts, db'))
    × IsRetired 2 900 db db'
retire_spot-IsRetired_example = retire_spot-IsRetired 2 900 db fixture db-Consistent fixture-found
