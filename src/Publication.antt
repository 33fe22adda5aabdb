-- ===== src/Publication.antt =====
-- src/publication.ts, from `assertLifecycleTransition` on: the life of a spot version, and the slots
-- of the calendar. A transaction returns the new tables or throws; a throw rolls it back.
pub mod Moves
pub mod Consistent
pub mod Replace
pub mod Retire
pub mod Publish
pub mod Calendar
pub mod Reapproval
pub mod Lifecycle
mod Examples
use gto_poker_daily_spots_ba.Prelude.{
  ℕ, zero, suc, ◌==◌, ltb, leb, not, ◌||◌, ◌&&◌, Bool, true, false, List, [], ◌∷◌, ◌++◌, map,
  Option, none, some, Key, Time, Result, ok, err, guard, or_throw, ◌>>=◌, ◌>>◌, count, update_where,
  select, if◌then◌else◌,
}
use gto_poker_daily_spots_ba.Store.{
  VersionStatus, SlotStatus, SpotStatus, Validity, Spot, SpotVersion, Slot, AttemptRow, AdminAudit,
  replace_invalid_solver_version, quarantine_invalid_solver_version, Db, PublicationError,
  invalid_transition, invalid_slot, same_version, not_replaceable, not_approved, no_active_slot,
  reason_required, not_published, find_spot, find_version, update_spot, update_version, update_slot,
  is_active, create_slot,
}

-- The table `allowed` of `assertLifecycleTransition`.
unfoldable pub allowed : VersionStatus → VersionStatus → Bool
allowed VersionStatus.draft VersionStatus.validated = true
allowed VersionStatus.draft VersionStatus.rejected = true
allowed VersionStatus.validated VersionStatus.approved = true
allowed VersionStatus.validated VersionStatus.rejected = true
allowed VersionStatus.approved VersionStatus.scheduled = true
allowed VersionStatus.approved VersionStatus.rejected = true
allowed VersionStatus.scheduled VersionStatus.published = true
allowed VersionStatus.scheduled VersionStatus.approved = true
allowed VersionStatus.published VersionStatus.superseded = true
allowed _ _ = false

unfoldable pub assert_lifecycle_transition :
    VersionStatus → VersionStatus → Result PublicationError (Unit {0})
unfolding allowed
assert_lifecycle_transition from to = guard (allowed from to) (invalid_transition from to)

-- `now` stands for each `new Date()` of a call.
unfoldable pub approve_spot_version : Key → Time → Db → Result PublicationError Db
approve_spot_version version_id now db = do
  version ← find_version version_id db
  assert_lifecycle_transition version.status VersionStatus.approved
  db1 ←
      update_version version_id
        (λ v. record v { status = VersionStatus.approved; approved_at = some now }) db
  update_spot version.spot_id
      (λ s. record s { status = SpotStatus.approved; current_version_id = some version.id }) db1

abbrev pub mark_scheduled : Time → SpotVersion → SpotVersion
mark_scheduled now v = record v { status = VersionStatus.scheduled; scheduled_at = some now }

abbrev pub mark_superseded : Time → SpotVersion → SpotVersion
mark_superseded now v = record v { status = VersionStatus.superseded; superseded_at = some now }

-- The date is a day of the calendar already; the test on the order is left.
unfoldable pub schedule_spot_version : Key → ℕ → ℕ → Time → Db → Result PublicationError (Slot × Db)
schedule_spot_version version_id date slot_order now db = do
  guard (leb 1 slot_order) invalid_slot
  version ← find_version version_id db
  assert_lifecycle_transition version.status VersionStatus.scheduled
  (slot, db1) ← create_slot date slot_order version_id db
  db2 ← update_version version_id (mark_scheduled now) db1
  ok (slot, db2)

-- `findFirst` of the active slots of a version, latest date first.
pub latest_active_slot : Key → List Slot → Option Slot
latest_active_slot version_id [] = none
latest_active_slot version_id (s ∷ rest) =
    let later = latest_active_slot version_id rest in
    if is_active s.status && s.spot_version_id == version_id
    then elim later [
      | none ↦ some s
      | some t ↦ if ltb s.publication_date t.publication_date then some t else some s
    ]
    else later

pub record Invalidation : Type 0 where
  pub reason : Key
  pub actor : Option Key

abbrev pub is_valid : Validity → Bool
is_valid Validity.valid = true
is_valid Validity.invalidated = false

abbrev pub is_valid_attempt_of : Key → AttemptRow → Bool
is_valid_attempt_of version_id a = a.spot_version_id == version_id && is_valid a.validity

abbrev pub is_active_slot_of : Key → Slot → Bool
is_active_slot_of version_id s = is_active s.status && s.spot_version_id == version_id

abbrev pub is_current : Option Key → Key → Bool
is_current none k = false
is_current (some c) k = c == k

-- `currentVersionId` of the spot is reset when it is this version.
unfoldable pub archive_if_current : Key → SpotVersion → Db → Result PublicationError Db
archive_if_current version_id version db = do
  spot ← find_spot version.spot_id db
  if is_current spot.current_version_id version_id
      then update_spot spot.id
          (λ s. record s { status = SpotStatus.archived; current_version_id = none }) db
      else ok db

-- The spot of the old version, when the replacement belongs to another one.
unfoldable pub archive_old_spot : SpotVersion → SpotVersion → Db → Result PublicationError Db
archive_old_spot old_version new_version db =
    if old_version.spot_id == new_version.spot_id
    then ok db
    else archive_if_current old_version.id old_version db

-- The optional invalidation of the attempts of `replacePublishedSlot`, with its audit row.
unfoldable pub invalidate_attempts : Option Invalidation → Key → Key → Key → Time → Db → ℕ × Db
invalidate_attempts none local_repair old_id new_id now db = (0, db)
invalidate_attempts (some i) local_repair old_id new_id now db =
    let n = count (is_valid_attempt_of old_id) db.attempts in
    (
      n,
      record db {
        attempts =
            update_where (is_valid_attempt_of old_id)
              (λ a. record a {
                validity = Validity.invalidated;
                invalidated_at = some now;
                invalidation_reason = some i.reason;
                replacement_spot_version_id = some new_id;
              })
              db.attempts;
        audits =
            db.audits
            ++ record {
              actor = elim i.actor [ none ↦ local_repair | some a ↦ a ];
              operation = replace_invalid_solver_version;
              target_id = old_id;
              reason = i.reason;
              replacement = some new_id;
              slots = 0;
              count = n;
            }
              ∷ [];
      },
    )

pub is_replaceable : VersionStatus → Bool
is_replaceable VersionStatus.scheduled = true
is_replaceable VersionStatus.published = true
is_replaceable _ = false

pub is_approved : VersionStatus → Bool
is_approved VersionStatus.approved = true
is_approved _ = false

pub record Replacement : Type 0 where
  pub slot : Slot
  pub previous_slot_status : SlotStatus
  pub invalidated_attempts : ℕ

abbrev pub mark_cancelled : Time → Slot → Slot
mark_cancelled now s = record s { status = SlotStatus.cancelled; cancelled_at = some now }

-- `local_repair` is the default actor.
pub replace_published_slot :
    Key → Key → Key → Option Invalidation → Time → Db → Result PublicationError (Replacement × Db)
unfolding is_replaceable is_approved
replace_published_slot local_repair old_id new_id invalidation now db = do
  guard (not (old_id == new_id)) same_version
  old_version ← find_version old_id db
  new_version ← find_version new_id db
  guard (is_replaceable old_version.status) not_replaceable
  guard (is_approved new_version.status) not_approved
  old_slot ← or_throw (latest_active_slot old_id db.slots) no_active_slot
  db1 ← update_slot old_slot.id (mark_cancelled now) db
  db2 ← update_version old_id (mark_superseded now) db1
  db3 ← archive_old_spot old_version new_version db2
  let invalidated = invalidate_attempts invalidation local_repair old_id new_id now db3
  (slot, db5) ← create_slot old_slot.publication_date old_slot.slot_order new_id invalidated.1
  db6 ← update_version new_id (mark_scheduled now) db5
  ok (
    record {
      slot = slot;
      previous_slot_status = old_slot.status;
      invalidated_attempts = invalidated.0;
    },
    db6,
  )

pub record Quarantine : Type 0 where
  pub spot_id : Key
  pub cancelled_slots : ℕ
  pub invalidated_attempts : ℕ

unfoldable pub is_published : VersionStatus → Bool
is_published VersionStatus.published = true
is_published _ = false

-- `blank` tells whether the reason trims to the empty text.
pub quarantine_published_version :
    Key → Key → Bool → Key → Time → Db → Result PublicationError (Quarantine × Db)
unfolding is_published
quarantine_published_version version_id reason blank actor now db = do
  guard (not blank) reason_required
  version ← find_version version_id db
  guard (is_published version.status) not_published
  let slots = count (is_active_slot_of version_id) db.slots
  let db1 = record db {
    slots = update_where (is_active_slot_of version_id) (mark_cancelled now) db.slots;
  }
  db2 ← update_version version_id (mark_superseded now) db1
  let invalidated = count (is_valid_attempt_of version_id) db2.attempts
  let db3 = record db2 {
    attempts =
        update_where (is_valid_attempt_of version_id)
          (λ a. record a {
            validity = Validity.invalidated;
            invalidated_at = some now;
            invalidation_reason = some reason;
          })
          db2.attempts;
  }
  db4 ← archive_if_current version_id version db3
  ok (
    record {
      spot_id = version.spot_id;
      cancelled_slots = slots;
      invalidated_attempts = invalidated;
    },
    record db4 {
      audits =
          db4.audits
          ++ record {
            actor = actor;
            operation = quarantine_invalid_solver_version;
            target_id = version_id;
            reason = reason;
            replacement = none;
            slots = slots;
            count = invalidated;
          }
            ∷ [];
    },
  )

abbrev pub is_scheduled : SlotStatus → Bool
is_scheduled SlotStatus.scheduled = true
is_scheduled _ = false

abbrev pub is_scheduled_on : ℕ → Slot → Bool
is_scheduled_on date s = s.publication_date == date && is_scheduled s.status

unfoldable pub insert_by_order : Slot → List Slot → List Slot
insert_by_order s [] = s ∷ []
insert_by_order s (t ∷ rest) =
    if leb s.slot_order t.slot_order then s ∷ t ∷ rest else t ∷ insert_by_order s rest

-- `orderBy: { slotOrder: "asc" }`.
unfoldable pub sort_by_order : List Slot → List Slot
unfolding insert_by_order
sort_by_order [] = []
sort_by_order (s ∷ rest) = insert_by_order s (sort_by_order rest)

unfoldable pub publish_slot : Time → Slot → Db → Result PublicationError Db
publish_slot now slot db = do
  version ← find_version slot.spot_version_id db
  assert_lifecycle_transition version.status VersionStatus.published
  db1 ←
      update_version version.id
        (λ v. record v { status = VersionStatus.published; published_at = some now }) db
  db2 ←
      update_spot version.spot_id
        (λ s. record s { status = SpotStatus.published; current_version_id = some version.id }) db1
  update_slot slot.id (λ s. record s { status = SlotStatus.published; published_at = some now }) db2

unfoldable pub publish_slots : Time → List Slot → Db → Result PublicationError Db
publish_slots now [] db = ok db
publish_slots now (s ∷ rest) db = do db1 ← publish_slot now s db; publish_slots now rest db1

-- The slots are read once, at the start of the transaction.
unfoldable pub publish_pacific_date : ℕ → Time → Db → Result PublicationError Db
publish_pacific_date date now db =
    publish_slots now (sort_by_order (select (is_scheduled_on date) db.slots)) db

-- `POST /versions/:versionId/hold` of src/admin.ts.
pub hold_spot_version : Key → Db → Result PublicationError Db
hold_spot_version version_id db = do
  version ← find_version version_id db
  assert_lifecycle_transition version.status VersionStatus.rejected
  update_version version_id (λ v. record v { status = VersionStatus.rejected }) db
