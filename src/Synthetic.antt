-- ===== src/Synthetic.antt =====
-- scripts/retire-synthetic-spot.mjs: one transaction takes a fixture spot out of the calendar and out
-- of serving, and keeps its rows.
pub mod Cancelled
pub mod Retired
mod Examples
use gto_poker_daily_spots_ba.Prelude.{
  ◌==◌, ◌&&◌, Bool, true, false, List, map, Option, none, some, Key, Time, Result, ok, ◌>>=◌, ◌>>◌,
  any, count, find, select, update_where, ℕ,
}
use gto_poker_daily_spots_ba.Store.{
  VersionStatus, SpotStatus, Spot, SpotVersion, Slot, Db, PublicationError, is_active, update_spot,
}
use gto_poker_daily_spots_ba.Publication.{mark_superseded, mark_cancelled}

-- `none` stands for the spot that is not found, else the numbers of versions and slots that changed.
abbrev pub Retirement : Type 0
Retirement = Option (ℕ × ℕ)

-- The statuses that are superseded.
abbrev pub is_live : VersionStatus → Bool
is_live VersionStatus.rejected = false
is_live VersionStatus.superseded = false
is_live _ = true

abbrev pub spot_version_ids : Key → Db → List Key
spot_version_ids spot_id db =
    map (λ (v : SpotVersion). v.id) (select (λ (v : SpotVersion). v.spot_id == spot_id) db.versions)

abbrev pub is_one_of : List Key → Key → Bool
is_one_of ids k = any (λ i. i == k) ids

abbrev pub is_slot_of : List Key → Slot → Bool
is_slot_of ids s = is_active s.status && is_one_of ids s.spot_version_id

abbrev pub is_live_of : List Key → SpotVersion → Bool
is_live_of ids v = is_live v.status && is_one_of ids v.id

unfoldable pub retire_versions :
    Key → List Key → Time → Db → Result PublicationError (Retirement × Db)
retire_versions spot_id ids now db = do
  let slots = count (is_slot_of ids) db.slots
  let versions = count (is_live_of ids) db.versions
  db1 ←
      update_spot spot_id
        (λ s. record s { status = SpotStatus.archived; current_version_id = none })
        (record db {
          slots = update_where (is_slot_of ids) (mark_cancelled now) db.slots;
          versions = update_where (is_live_of ids) (mark_superseded now) db.versions;
        })
  ok (some (versions, slots), db1)

unfoldable pub retire_spot : Key → Time → Db → Result PublicationError (Retirement × Db)
retire_spot spot_id now db = elim (find (λ (s : Spot). s.id) spot_id db.spots) [
  | none ↦ ok (none, db)
  | some s ↦ retire_versions spot_id (spot_version_ids spot_id db) now db
]
