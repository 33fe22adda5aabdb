-- ===== src/Repair.antt =====
-- scripts/repair-spot.mjs: a validated version takes the place of a published one that is bad, and
-- the attempts at the bad one are invalidated. The options and the envelope have been read; the import
-- (`ingestSpot`) and the diversity warning in a version's validation report are parameters.
pub mod Performed
mod Examples
use gto_poker_daily_spots_ba.Prelude.{
  ℕ, ◌+◌, ◌-◌, ◌*◌, ◌/◌, ◌==◌, ltb, leb, not, ◌&&◌, Bool, true, false, List, [], ◌∷◌, map, Option,
  none, some, Key, Time, Result, ok, err, length, sum, select, sort_by,
}
use gto_poker_daily_spots_ba.Store.{
  VersionStatus, SlotStatus, SpotVersion, Slot, Db, PublicationError,
}
use gto_poker_daily_spots_ba.Normalized.{distinct_from}
use gto_poker_daily_spots_ba.Publication.{
  Invalidation, Replacement, replace_published_slot, publish_pacific_date,
}
use gto_poker_daily_spots_ba.Calls.{
  Call, transact, only_tables, then_call, check, found_version, find_or_import,
  approve_if_validated,
}

-- `reason` and `actor` are those of the options or the defaults.
pub record RepairOptions : Type 0 where
  pub old_version_id : Key
  pub new_version_id : Key
  pub spot_id : Option Key
  pub reason : Key
  pub actor : Key

pub data RepairError : Type 0 where
  old_version_not_found spot_mismatch no_published_slot : RepairError
  no_strategy_data uniform_candidate import_failed version_not_found : RepairError
  uniform_version other_spot not_approved : RepairError
  failed : PublicationError → RepairError

abbrev pub RepairCall : Type 0 → Type 0
RepairCall A = Call RepairError A

-- Frequencies are multiples of 10 ^ -12, and basis points multiples of the same.
abbrev pub one : ℕ
one = 1000000000000

-- `Math.abs(total - 1) < 1e-6`.
abbrev pub is_near_one : ℕ → Bool
is_near_one total = ltb ((total - one) + (one - total)) 1000000

-- `Math.round(value * scale)`.
abbrev pub rounded : (scale value : ℕ) → ℕ
rounded scale value = (2 * (value * scale) + one) / (2 * one)

-- The values of one entry in the order of the actions, scaled to basis points.
abbrev pub signature : List ℕ → List ℕ
signature values = elim (is_near_one (sum values)) [
  | true ↦ map (rounded 10000) values
  | false ↦ map (rounded 1) values
]

-- The strategy of an envelope that has one: the values of each combo, in the order of the actions,
-- of which there is one at least. `none` is an envelope without such data.
abbrev pub RawStrategy : Type 0
RawStrategy = Option (List (List ℕ))

unfoldable pub raw_strategy_signatures : RawStrategy → Result RepairError (List (List ℕ))
raw_strategy_signatures none = err no_strategy_data
raw_strategy_signatures (some entries) = ok (map signature entries)

abbrev pub refuse_uniform : Result RepairError (List (List ℕ)) → Result RepairError (Unit {0})
refuse_uniform (err e) = err e
refuse_uniform (ok signatures) =
    elim (ltb 1 (length signatures) && length (distinct_from [] signatures) == 1) [
      | true ↦ err uniform_candidate
      | false ↦ ok tt
    ]

unfoldable pub assert_not_uniform : RawStrategy → Result RepairError (Unit {0})
assert_not_uniform candidate = refuse_uniform (raw_strategy_signatures candidate)

abbrev pub is_published_of : Key → Slot → Bool
is_published_of k s = s.spot_version_id == k && elim s.status [
  | SlotStatus.scheduled ↦ false
  | SlotStatus.held ↦ false
  | SlotStatus.published ↦ true
  | SlotStatus.cancelled ↦ false
]

-- `orderBy: { publicationDate: "desc" }`.
abbrev pub latest_slot_first : Slot → Slot → Bool
latest_slot_first a b = leb b.publication_date a.publication_date

unfoldable pub published_slots_of : Key → Db → List Slot
published_slots_of k db = sort_by latest_slot_first (select (is_published_of k) db.slots)

abbrev pub first_slot : List Slot → Db → RepairCall Slot
first_slot [] db = (err no_published_slot, db)
first_slot (s ∷ rest) db = (ok s, db)

abbrev pub is_of_spot : Option Key → Key → Bool
is_of_spot none spot = true
is_of_spot (some k) spot = spot == k

abbrev pub is_approved : VersionStatus → Bool
is_approved VersionStatus.approved = true
is_approved _ = false

-- The replacement and the publication of its day, for a version that is approved.
unfoldable pub replace_and_publish :
    RepairOptions → (old_id : Key) → Time → SpotVersion → Db → RepairCall Replacement
replace_and_publish o old_id now version db =
    then_call
      (transact failed
        (replace_published_slot o.actor old_id version.id
          (some (record { reason = o.reason; actor = some o.actor })) now db)
        db)
      (λ r db1.
        then_call
          (transact failed (only_tables (publish_pacific_date r.slot.publication_date now db1)) db1)
          (λ u db2. (ok r, db2)))

-- What is asked of the version, found or imported, before it replaces the old one.
unfoldable pub repair_with :
    (SpotVersion → Bool)
    → RepairOptions
    → SpotVersion
    → Time
    → SpotVersion
    → Db
    → RepairCall Replacement
repair_with is_uniform o old now version db = check (not (is_uniform version)) uniform_version db (
    check (version.spot_id == old.spot_id) other_spot db (
      then_call (approve_if_validated failed version now db) (λ v db1.
        check (is_approved v.status) not_approved db1 (replace_and_publish o old.id now v db1))))

-- A version that is missing is imported only if its strategies are not all the same.
unfoldable pub import_candidate : RawStrategy → (Db → RepairCall Key) → Db → RepairCall Key
import_candidate candidate imported db =
    then_call (assert_not_uniform candidate, db) (λ u db1. imported db1)

unfoldable pub repair_slot :
    (SpotVersion → Bool)
    → (Slot → Db → RepairCall Key)
    → RepairOptions
    → RawStrategy
    → SpotVersion
    → Time
    → Slot
    → Db
    → RepairCall Replacement
repair_slot is_uniform imported o candidate old now slot db =
    then_call
      (find_or_import version_not_found (import_candidate candidate (imported slot))
        o.new_version_id db)
      (λ version db1. repair_with is_uniform o old now version db1)

-- The imported version is given the date and the order of the old version's slot.
unfoldable pub repair_spot :
    (SpotVersion → Bool)
    → (Slot → Db → RepairCall Key)
    → RepairOptions
    → RawStrategy
    → Time
    → Db
    → RepairCall Replacement
repair_spot is_uniform imported o candidate now db =
    then_call (found_version old_version_not_found o.old_version_id db) (λ old db1.
      check (is_of_spot o.spot_id old.spot_id) spot_mismatch db1 (
        then_call (first_slot (published_slots_of old.id db1) db1)
          (λ slot db2. repair_slot is_uniform imported o candidate old now slot db2)))
