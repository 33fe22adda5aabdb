-- ===== src/Migration/Examples.antt =====
-- Two versions of schema 2 and one of schema 3, migrated.
use gto_poker_daily_spots_ba.Prelude.{
  ℕ, ◌+◌, ◌≡◌, refl, [], ◌∷◌, none, some, Key, Result, ok, sort_by, insert_by, find,
}
use gto_poker_daily_spots_ba.Store.{VersionStatus, SlotStatus, SpotStatus, SpotVersion, Db}
use gto_poker_daily_spots_ba.PublicSpot.{
  ip, oop, generic, unknown, PublicSpot, SpotError, served, read_public_spot,
}
use gto_poker_daily_spots_ba.Pipeline.{latest_version}
use gto_poker_daily_spots_ba.Migration.{
  forward_copy, migrate_version, migrate_versions, migrate_legacy_spot_versions,
}
use gto_poker_daily_spots_ba.Migration.Forward.{IsForward, migrate_again}

abbrev migrated_id : Key → Key
migrated_id k = k + 100

abbrev payload : Key → PublicSpot
payload k = record {
  schema_version = 2;
  spot_id = 1;
  spot_version_id = k;
  street = 2;
  hero_actor = ip;
  dealer_actor = ip;
  positions = record { ip_position = generic ip; oop_position = generic oop };
  preflop = unknown;
}

abbrev store : PublicSpot → Key
store spot = spot.spot_version_id

abbrev hash : Key → Key
hash k = k + 1000

abbrev accept : PublicSpot → Result SpotError PublicSpot
accept spot = ok spot

abbrev version : Key → ℕ → ℕ → SpotVersion
version id number schema = record {
  id = id;
  spot_id = 1;
  version = number;
  schema_version = schema;
  solver_run_id = 30;
  public_payload = id;
  private_payload = 0;
  public_payload_sha256 = 0;
  private_payload_sha256 = 0;
  validated_at = none;
  status = VersionStatus.published;
  approved_at = none;
  scheduled_at = none;
  published_at = none;
  superseded_at = none;
}

abbrev db : Db
db = record {
  spots = record { id = 1; status = SpotStatus.published; current_version_id = some 11 } ∷ [];
  versions = version 10 1 2 ∷ version 11 2 2 ∷ version 12 3 3 ∷ [];
  slots =
      record {
        id = 1;
        publication_date = 5;
        slot_order = 1;
        spot_version_id = 11;
        status = SlotStatus.published;
        published_at = none;
        cancelled_at = none;
      }
      ∷ [];
  attempts = [];
  audits = [];
  next_id = 2;
}

abbrev copy : Key → ℕ → SpotVersion
copy id number = record (version id number 3) { public_payload_sha256 = id + 1000 }

-- The slot and the spot refer to the copy.
abbrev migrated : Db
migrated = record db {
  spots = record { id = 1; status = SpotStatus.published; current_version_id = some 111 } ∷ [];
  versions = version 10 1 2 ∷ version 11 2 2 ∷ version 12 3 3 ∷ copy 110 4 ∷ copy 111 5 ∷ [];
  slots =
      record {
        id = 1;
        publication_date = 5;
        slot_order = 1;
        spot_version_id = 111;
        status = SlotStatus.published;
        published_at = none;
        cancelled_at = none;
      }
      ∷ [];
}

db-migrated :
    migrate_legacy_spot_versions migrated_id payload store hash accept none db
    ≡ ok (record { migrated = 2; already_migrated = 0 }, migrated)
unfolding migrate_legacy_spot_versions migrate_versions migrate_version forward_copy latest_version
    read_public_spot served find sort_by insert_by
db-migrated = refl

migrate_again_example :
    IsForward db migrated
    × (migrate_legacy_spot_versions migrated_id payload store hash accept none migrated
        ≡ ok (record { migrated = 0; already_migrated = 2 }, migrated))
migrate_again_example =
    migrate_again migrated_id payload store hash accept db migrated
      (record { migrated = 2; already_migrated = 0 }) db-migrated
