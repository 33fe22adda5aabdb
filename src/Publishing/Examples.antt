-- ===== src/Publishing/Examples.antt =====
-- A version that is validated, published on the day of the run.
use gto_poker_daily_spots_ba.Prelude.{
  Key, ℕ, false, ◌≡◌, refl, [], ◌∷◌, none, some, ok, err, find, update,
}
use gto_poker_daily_spots_ba.Store.{
  VersionStatus, SpotStatus, SpotVersion, Db, update_spot, update_version, update_slot, create_slot,
}
use gto_poker_daily_spots_ba.Publication.{
  approve_spot_version, schedule_spot_version, publish_pacific_date, publish_slots, publish_slot,
  sort_by_order, insert_by_order, assert_lifecycle_transition,
}
use gto_poker_daily_spots_ba.Publishing.{
  PublishOptions, imported_and_published, import_failed, PublishCall, choose_date, occupied_by,
  place_version, put_version, publish_on, publish_dated, publish_spot,
}
use gto_poker_daily_spots_ba.Calls.{approve_if_validated, find_or_import}
use gto_poker_daily_spots_ba.Publishing.Performed.{PublishComes, publish_spot-Comes}

abbrev version : SpotVersion
version = record {
  id = 11;
  spot_id = 2;
  version = 1;
  schema_version = 3;
  solver_run_id = 30;
  public_payload = 0;
  private_payload = 0;
  public_payload_sha256 = 0;
  private_payload_sha256 = 0;
  validated_at = some 400;
  status = VersionStatus.validated;
  approved_at = none;
  scheduled_at = none;
  published_at = none;
  superseded_at = none;
}

abbrev db : Db
db = record {
  spots = record { id = 2; status = SpotStatus.draft; current_version_id = none } ∷ [];
  versions = version ∷ [];
  slots = [];
  attempts = [];
  audits = [];
  next_id = 100;
}

abbrev options : PublishOptions
options = record {
  spot_version_id = 11;
  publication_date = some 5;
  replace_existing = false;
  reason = 1;
  actor = 2;
  payload_date = some 5;
}

abbrev fails : ℕ → Db → PublishCall Key
fails date tables = (err import_failed, tables)

published_today : (publish_spot fails options 5 1000 db).0 ≡ ok imported_and_published
unfolding publish_spot publish_dated publish_on find_or_import choose_date occupied_by put_version
    approve_if_validated place_version find update approve_spot_version schedule_spot_version
    publish_pacific_date publish_slots publish_slot sort_by_order insert_by_order
    assert_lifecycle_transition update_spot update_version update_slot create_slot
published_today = refl

publish_spot-Comes_example :
    (date : ℕ) × PublishComes fails options date db (publish_spot fails options 5 1000 db).1
publish_spot-Comes_example = publish_spot-Comes fails options 5 1000 db
