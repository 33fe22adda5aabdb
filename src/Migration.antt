-- ===== src/Migration.antt =====
-- src/solver/migrate-v3.ts: versions of schema 2 are copied forward to schema 3. The hash of keys
-- and payloads, the schema of the contracts and the values of JSON columns are parameters.
pub mod Forward
mod Examples
use gto_poker_daily_spots_ba.Prelude.{
  ℕ, suc, ◌==◌, not, ◌||◌, ◌&&◌, Bool, true, false, if◌then◌else◌, List, [], ◌∷◌, ◌++◌, Option,
  none, some, Key, Result, ok, err, ◌>>=◌, find, select, map, sort_by, has, ltb, leb, update_where,
}
use gto_poker_daily_spots_ba.Store.{Spot, SpotVersion, Slot, Db}
use gto_poker_daily_spots_ba.Pipeline.{version_key, latest_version}
use gto_poker_daily_spots_ba.PublicSpot.{PublicSpot, SpotError, read_public_spot}

pub record MigrationCounts : Type 0 where
  pub migrated : ℕ
  pub already_migrated : ℕ

-- `where` of the query: the versions that are named, or all.
abbrev pub is_chosen : Option (List Key) → SpotVersion → Bool
is_chosen none v = v.schema_version == 2
is_chosen (some ids) v = v.schema_version == 2 && has v.id ids

abbrev pub by_spot : SpotVersion → SpotVersion → Bool
by_spot a b = ltb a.spot_id b.spot_id || (a.spot_id == b.spot_id && leb a.version b.version)

abbrev pub move_slot : (old_id new_id : Key) → Slot → Slot
move_slot old_id new_id s =
    if s.spot_version_id == old_id then record s { spot_version_id = new_id } else s

abbrev pub move_spot : SpotVersion → Key → Spot → Spot
move_spot old new_id s = elim s.current_version_id [
  | none ↦ s
  | some c ↦
      if s.id == old.spot_id && c == old.id
      then record s { current_version_id = some new_id }
      else s
]

-- `migrated_id` is `migratedId`, `payload` the value of a column, `store` the column of a value and
-- `hash` the hash of a column.
module _ (migrated_id : Key → Key) (payload : Key → PublicSpot) (store : PublicSpot → Key)
    (hash : Key → Key) (parse : PublicSpot → Result SpotError PublicSpot) where
  unfoldable pub forward_copy : SpotVersion → PublicSpot → ℕ → SpotVersion
  forward_copy old spot number =
      let id = migrated_id old.id in
      let public_payload = store (record spot { spot_version_id = id }) in
      record old {
        id = id;
        version = number;
        schema_version = 3;
        public_payload = public_payload;
        public_payload_sha256 = hash public_payload;
      }

  -- The transaction for one version.
  unfoldable pub migrate_version : SpotVersion → Db → Result SpotError Db
  migrate_version old db = do
    spot ← read_public_spot parse (payload old.public_payload)
    let copy = forward_copy old spot (suc (latest_version old.spot_id db.versions))
    ok (record db {
      versions = db.versions ++ copy ∷ [];
      slots = map (move_slot old.id copy.id) db.slots;
      spots = map (move_spot old copy.id) db.spots;
    })

  unfoldable pub migrate_versions :
      List SpotVersion → MigrationCounts → Db → Result SpotError (MigrationCounts × Db)
  migrate_versions [] counts db = ok (counts, db)
  migrate_versions (old ∷ rest) counts db =
      elim (find version_key (migrated_id old.id) db.versions) [
        | some existing ↦
            migrate_versions rest (record counts { already_migrated = suc counts.already_migrated })
              db
        | none ↦ migrate_version old db >>= λ db1.
            migrate_versions rest (record counts { migrated = suc counts.migrated }) db1
      ]

  -- An error ends the loop after the transactions before it; only a complete run is returned.
  unfoldable pub migrate_legacy_spot_versions :
      Option (List Key) → Db → Result SpotError (MigrationCounts × Db)
  migrate_legacy_spot_versions ids db =
      migrate_versions (sort_by by_spot (select (is_chosen ids) db.versions))
        (record { migrated = 0; already_migrated = 0 }) db
