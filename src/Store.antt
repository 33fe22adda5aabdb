-- ===== src/Store.antt =====
-- The tables of prisma/schema.prisma that src/publication.ts and src/admin.ts read and write.
-- A row has the columns that this code reads or writes. Identifiers and texts are keys.
use gto_poker_daily_spots_ba.Prelude.{
  ℕ, suc, ◌==◌, ◌||◌, ◌&&◌, Bool, true, false, List, [], ◌∷◌, ◌++◌, Option, none, Key, Time, Result,
  ok, err, or_throw, ◌>>=◌, find, update, any, if◌then◌else◌,
}

pub data VersionStatus : Type 0 where
  draft validated approved scheduled published rejected superseded : VersionStatus

pub data SlotStatus : Type 0 where
  scheduled held published cancelled : SlotStatus

pub data SpotStatus : Type 0 where
  draft approved published archived : SpotStatus

pub data Validity : Type 0 where
  valid invalidated : Validity

pub record Spot : Type 0 where
  pub id : Key
  pub status : SpotStatus
  pub current_version_id : Option Key

pub record SpotVersion : Type 0 where
  pub id : Key
  pub spot_id : Key
  pub version : ℕ
  pub schema_version : ℕ
  pub solver_run_id : Key
  pub public_payload : Key
  pub private_payload : Key
  pub public_payload_sha256 : Key
  pub private_payload_sha256 : Key
  pub validated_at : Option Time
  pub status : VersionStatus
  pub approved_at : Option Time
  pub scheduled_at : Option Time
  pub published_at : Option Time
  pub superseded_at : Option Time

-- `publication_date` is the number of a Pacific calendar day.
pub record Slot : Type 0 where
  pub id : Key
  pub publication_date : ℕ
  pub slot_order : ℕ
  pub spot_version_id : Key
  pub status : SlotStatus
  pub published_at : Option Time
  pub cancelled_at : Option Time

pub record AttemptRow : Type 0 where
  pub id : Key
  pub spot_version_id : Key
  pub validity : Validity
  pub invalidated_at : Option Time
  pub invalidation_reason : Option Key
  pub replacement_spot_version_id : Option Key

pub data Operation : Type 0 where
  replace_invalid_solver_version quarantine_invalid_solver_version : Operation

-- `count` is the number of invalidated attempts, `slots` of cancelled slots, in the metadata.
pub record AdminAudit : Type 0 where
  pub actor : Key
  pub operation : Operation
  pub target_id : Key
  pub reason : Key
  pub replacement : Option Key
  pub slots : ℕ
  pub count : ℕ

-- `next_id` supplies the generated primary keys of new slots.
pub record Db : Type 0 where
  pub spots : List Spot
  pub versions : List SpotVersion
  pub slots : List Slot
  pub attempts : List AttemptRow
  pub audits : List AdminAudit
  pub next_id : Key

pub data PublicationError : Type 0 where
  invalid_transition : VersionStatus → VersionStatus → PublicationError
  record_not_found unique_violation : PublicationError
  invalid_slot same_version not_replaceable not_approved no_active_slot : PublicationError
  reason_required not_published : PublicationError

abbrev pub find_spot : Key → Db → Result PublicationError Spot
find_spot k db = or_throw (find (λ (s : Spot). s.id) k db.spots) record_not_found

abbrev pub find_version : Key → Db → Result PublicationError SpotVersion
find_version k db = or_throw (find (λ (v : SpotVersion). v.id) k db.versions) record_not_found

-- `update` throws when the row is missing.
unfoldable pub update_spot : Key → (Spot → Spot) → Db → Result PublicationError Db
update_spot k f db = do
  s ← find_spot k db
  ok (record db { spots = update (λ (s : Spot). s.id) k f db.spots })

unfoldable pub update_version : Key → (SpotVersion → SpotVersion) → Db → Result PublicationError Db
update_version k f db = do
  v ← find_version k db
  ok (record db { versions = update (λ (v : SpotVersion). v.id) k f db.versions })

unfoldable pub update_slot : Key → (Slot → Slot) → Db → Result PublicationError Db
update_slot k f db = do
  s ← or_throw (find (λ (s : Slot). s.id) k db.slots) record_not_found
  ok (record db { slots = update (λ (s : Slot). s.id) k f db.slots })

-- The statuses of the partial unique indexes on slots.
abbrev pub is_active : SlotStatus → Bool
is_active cancelled = false
is_active _ = true

-- Whether an active slot stands against a new one, by either unique index.
abbrev pub clashes : ℕ → ℕ → Key → Slot → Bool
clashes date order version s =
    is_active s.status
    && ((s.publication_date == date && s.slot_order == order) || s.spot_version_id == version)

-- `publicationSlot.create` with status SCHEDULED.
unfoldable pub create_slot : ℕ → ℕ → Key → Db → Result PublicationError (Slot × Db)
create_slot date order version db =
    if any (clashes date order version) db.slots
    then err unique_violation
    else ok (slot, record db { slots = db.slots ++ slot ∷ []; next_id = suc db.next_id })
  where
    slot : Slot
    slot = record {
      id = db.next_id;
      publication_date = date;
      slot_order = order;
      spot_version_id = version;
      status = SlotStatus.scheduled;
      published_at = none;
      cancelled_at = none;
    }
