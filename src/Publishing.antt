-- ===== src/Publishing.antt =====
-- scripts/publish-spot.mjs: a version is imported, approved and put on a date, or put in the place
-- of the slot that holds it. Each transaction stands by itself: an error does not undo those before.
-- The import (`ingestSpot`) is a parameter, which leaves a version and returns its key; dates are day numbers, and one clock is read once.
pub mod Performed
mod Examples
use gto_poker_daily_spots_ba.Prelude.{
  ℕ, suc, ◌==◌, leb, not, ◌&&◌, Bool, true, false, if◌then◌else◌, List, map, Option, none, some,
  Key, Time, Result, ok, err, find, find_first, select,
}
use gto_poker_daily_spots_ba.Store.{
  VersionStatus, SlotStatus, SpotVersion, Slot, Db, PublicationError, is_active,
}
use gto_poker_daily_spots_ba.Dates.{DateError, next_available_pacific_date}
use gto_poker_daily_spots_ba.Calls.{
  Call, transact, only_tables, then_call, find_or_import, approve_if_validated,
}
use gto_poker_daily_spots_ba.Publication.{
  Invalidation, Replacement, approve_spot_version, schedule_spot_version, replace_published_slot,
  publish_pacific_date,
}

-- `reason` is that of the option or the default, `actor` likewise, and `payload_date` the date of
-- the payload of the version, if it has one.
pub record PublishOptions : Type 0 where
  pub spot_version_id : Key
  pub publication_date : Option ℕ
  pub replace_existing : Bool
  pub reason : Key
  pub actor : Key
  pub payload_date : Option ℕ

pub data PublishAction : Type 0 where
  replaced_and_published replaced_and_scheduled imported_and_published : PublishAction
  imported_and_scheduled recovered_and_published already_scheduled : PublishAction

pub data PublishError : Type 0 where
  date_required import_failed version_not_found not_approved not_schedulable : PublishError
  occupied_date : SlotStatus → Key → PublishError
  no_date : DateError → PublishError
  failed : PublicationError → PublishError

abbrev pub PublishCall : Type 0 → Type 0
PublishCall A = Call PublishError A

abbrev pub dated : {A : Type 0} → Result DateError A → Db → PublishCall A
dated (ok a) db = (ok a, db)
dated (err e) db = (err (no_date e), db)

-- The dates of the slots that are not cancelled.
abbrev pub occupied_publication_dates : Db → List ℕ
occupied_publication_dates db =
    map (λ (s : Slot). s.publication_date) (select (λ (s : Slot). is_active s.status) db.slots)

unfoldable pub choose_date : PublishOptions → (today : ℕ) → Db → Result DateError ℕ
choose_date o today db = elim o.publication_date [
  | some date ↦ ok date
  | none ↦ next_available_pacific_date (suc today) (occupied_publication_dates db)
]

abbrev pub is_first_on : ℕ → Slot → Bool
is_first_on date s = s.publication_date == date && (s.slot_order == 1 && is_active s.status)

-- `activeSlotOnDate`, for a date that is given.
unfoldable pub occupied_by : PublishOptions → Db → Option Slot
occupied_by o db = elim o.publication_date [
  | none ↦ none
  | some date ↦ find_first (is_first_on date) db.slots
]

abbrev pub is_published_slot : SlotStatus → Bool
is_published_slot SlotStatus.published = true
is_published_slot _ = false

abbrev pub version_slot : Key → Db → Option Slot
version_slot k db = find_first (λ (s : Slot). s.spot_version_id == k && is_active s.status) db.slots

abbrev pub publish_if :
    Bool → ℕ → Time → PublishAction → PublishAction → Db → PublishCall PublishAction
publish_if true date now published otherwise db =
    then_call (transact failed (only_tables (publish_pacific_date date now db)) db)
      (λ u db1. (ok published, db1))
publish_if false date now published otherwise db = (ok otherwise, db)

-- The branch that replaces the slot on the date.
unfoldable pub replace_slot :
    PublishOptions → Slot → ℕ → Time → SpotVersion → Db → PublishCall PublishAction
replace_slot o slot date now version db = elim version.status [
  | VersionStatus.draft ↦ (err not_approved, db)
  | VersionStatus.validated ↦ (err not_approved, db)
  | VersionStatus.approved ↦
      then_call
        (transact failed
          (replace_published_slot o.actor slot.spot_version_id version.id
            (some (record { reason = o.reason; actor = some o.actor })) now db)
          db)
        (λ r db1.
          publish_if (is_published_slot r.previous_slot_status) date now replaced_and_published
            replaced_and_scheduled db1)
  | VersionStatus.scheduled ↦ (err not_approved, db)
  | VersionStatus.published ↦ (err not_approved, db)
  | VersionStatus.rejected ↦ (err not_approved, db)
  | VersionStatus.superseded ↦ (err not_approved, db)
]

abbrev pub payload_or_chosen : PublishOptions → ℕ → Db → PublishCall ℕ
payload_or_chosen o today db = elim o.payload_date [
  | some date ↦ (ok date, db)
  | none ↦ dated (choose_date o today db) db
]

abbrev pub recover : Option Slot → Bool → ℕ → Time → Db → PublishCall PublishAction
recover none scheduled today now db = (ok already_scheduled, db)
recover (some s) scheduled today now db =
    publish_if (scheduled && leb s.publication_date today) s.publication_date now
      recovered_and_published already_scheduled db

-- The branches that go by the status of the version.
unfoldable pub place_version :
    PublishOptions → ℕ → Time → SpotVersion → Db → PublishCall PublishAction
place_version o today now version db = elim version.status [
  | VersionStatus.draft ↦ (err not_schedulable, db)
  | VersionStatus.validated ↦ (err not_schedulable, db)
  | VersionStatus.approved ↦ then_call (payload_or_chosen o today db) (λ date db1.
      then_call (transact failed (schedule_spot_version version.id date 1 now db1) db1) (λ slot db2.
        publish_if (leb date today) date now imported_and_published imported_and_scheduled db2))
  | VersionStatus.scheduled ↦ recover (version_slot version.id db) true today now db
  | VersionStatus.published ↦ recover (version_slot version.id db) false today now db
  | VersionStatus.rejected ↦ (err not_schedulable, db)
  | VersionStatus.superseded ↦ (err not_schedulable, db)
]

abbrev pub replaces_slot : PublishOptions → SpotVersion → Slot → Bool
replaces_slot o version s = o.replace_existing && not (s.spot_version_id == version.id)

abbrev pub place_or_replace :
    PublishOptions → Option Slot → ℕ → ℕ → Time → SpotVersion → Db → PublishCall PublishAction
place_or_replace o none date today now version db = place_version o today now version db
place_or_replace o (some s) date today now version db =
    let placed = place_version o today now version db in
    if replaces_slot o version s then replace_slot o s date now version db else placed

unfoldable pub put_version :
    PublishOptions → Option Slot → ℕ → ℕ → Time → SpotVersion → Db → PublishCall PublishAction
put_version o occupied date today now version db =
    then_call (approve_if_validated failed version now db)
      (λ v db1. place_or_replace o occupied date today now v db1)

-- `occupied && !options["replace-existing"] && occupied.spotVersionId !== …`.
abbrev pub refuses : PublishOptions → Option Slot → Option PublishError
refuses o none = none
refuses o (some s) =
    if not o.replace_existing && not (s.spot_version_id == o.spot_version_id)
    then some (occupied_date s.status s.spot_version_id)
    else none

unfoldable pub publish_on :
    (Db → PublishCall Key)
    → PublishOptions
    → Option Slot
    → ℕ
    → ℕ
    → Time
    → Db
    → PublishCall PublishAction
publish_on imported o occupied date today now db =
    then_call (find_or_import version_not_found imported o.spot_version_id db)
      (λ version db1. put_version o occupied date today now version db1)

unfoldable pub publish_dated :
    (Db → PublishCall Key) → PublishOptions → ℕ → ℕ → Time → Db → PublishCall PublishAction
publish_dated imported o date today now db = elim (refuses o (occupied_by o db)) [
  | some e ↦ (err e, db)
  | none ↦ publish_on imported o (occupied_by o db) date today now db
]

abbrev pub has_no_date : Option ℕ → Bool
has_no_date none = true
has_no_date (some date) = false

unfoldable pub publish_spot :
    (ℕ → Db → PublishCall Key) → PublishOptions → ℕ → Time → Db → PublishCall PublishAction
publish_spot imported o today now db =
    if o.replace_existing && has_no_date o.publication_date
    then (err date_required, db)
    else then_call (dated (choose_date o today db) db)
        (λ date db1. publish_dated (imported date) o date today now db1)
