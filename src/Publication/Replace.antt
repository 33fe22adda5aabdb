-- ===== src/Publication/Replace.antt =====
-- `replacePublishedSlot` of src/publication.ts.
use gto_poker_daily_spots_ba.Prelude.{
  ◌+◌, ◌≤◌, ◌==◌, ◌&&◌, Bool, false, ◌≡◌, refl, inl, inr, [], ◌∷◌, ◌++◌, Option, some, Key, Time,
  ok, Option-cases, Result-cases, arith, bit, find, update, find-update, count-update,
  count-find-pos,
}
use gto_poker_daily_spots_ba.Store.{
  VersionStatus, SlotStatus, SpotVersion, Slot, Db, update_spot, update_version, update_slot,
  create_slot,
}
use gto_poker_daily_spots_ba.Publication.{
  mark_scheduled, mark_superseded, mark_cancelled, archive_if_current, archive_old_spot,
  invalidate_attempts, replace_published_slot, is_scheduled, latest_active_slot, Invalidation,
  Replacement,
}
use gto_poker_daily_spots_ba.Publication.Moves.{
  status_of, is_published_slot, is_held, tally, awaits, appears, Moves, append_slot-Moves,
  status_in-update,
}
use gto_poker_daily_spots_ba.Publication.Consistent.{
  Consistent, Moves-Consistent, Distinct, IsActiveRow, latest-IsActiveRow,
}

abbrev pub version_id : SpotVersion → Key
version_id v = v.id

-- In an agreeing calendar an active slot has the status that its version calls for.
record SlotFits (s : Slot) (a : VersionStatus) : Type 0 where
  scheduled_fits : is_scheduled s.status ≡ awaits a
  published_fits : is_published_slot s.status ≡ appears a
  held_fits : is_held s.status ≡ false

active-SlotFits :
    (db : Db) (k : Key) (a : VersionStatus) (s : Slot)
    → Consistent db
    → IsActiveRow k db.slots s
    → status_of k db ≡ some a
    → SlotFits s a
active-SlotFits db k a s c r e = fits s.status refl
  where
    at_least :
        (p : SlotStatus → Bool) → bit (p s.status && s.spot_version_id == k) ≤ tally p k db.slots
    at_least p = count-find-pos (λ (t : Slot). t.id) _ s.id db.slots s r.row

    fits : (t : SlotStatus) → s.status ≡ t → SlotFits s a
    fits SlotStatus.scheduled q =
        ground (arith, r.owner, at_least is_scheduled, c.scheduled_once k, c.published_once k)
    fits SlotStatus.published q =
        ground (arith, r.owner, at_least is_published_slot, c.published_once k, c.scheduled_once k)
    fits SlotStatus.held q = absurd (ground (arith, r.owner, at_least is_held, c.held_never k))
    fits SlotStatus.cancelled q = absurd (ground (arith, r.active))

-- The version is superseded, and its active slot is cancelled.
abbrev retired : Key → Key → Time → Db → Db
retired k slot_id now db = record db {
  versions = update version_id k (mark_superseded now) db.versions;
  slots = update (λ (t : Slot). t.id) slot_id (mark_cancelled now) db.slots;
}

retired-Moves :
    (db : Db) (k : Key) (now : Time) (v : SpotVersion) (s : Slot)
    → Consistent db
    → IsActiveRow k db.slots s
    → find version_id k db.versions ≡ some v
    → Moves db (retired k s.id now db) k v.status VersionStatus.superseded
retired-Moves db k now v s c r e = record {
  from_status = rw e;
  statuses = λ i. status_in-update i k (mark_superseded now) db.versions v (λ x. refl) e;
  scheduled_slots = λ i. ground (arith, f.scheduled_fits, r.owner, count_at is_scheduled i);
  published_slots = λ i. ground (arith, f.published_fits, r.owner, count_at is_published_slot i);
  held_slots = λ i. ground (arith, f.held_fits, r.owner, count_at is_held i);
}
  where
    f : SlotFits s v.status
    f = active-SlotFits db k v.status s c r (rw e)

    count_at :
        (p : SlotStatus → Bool) (i : Key)
        → tally p i (retired k s.id now db).slots + bit (p s.status && s.spot_version_id == i)
          ≡ tally p i db.slots + bit (p SlotStatus.cancelled && s.spot_version_id == i)
    count_at p i = count-update (λ (t : Slot). t.id) _ s.id (mark_cancelled now) db.slots s r.row

-- The tables after `replacePublishedSlot`: the old version is retired, and the new one has a new
-- slot at the date and the order of the old slot.
pub record Replaced (old_id new_id : Key) (now : Time) (db db' : Db) (r : Replacement)
    : Type 0 where
  pub old_slot : Slot
  pub old_version : SpotVersion
  pub new_version : SpotVersion
  pub old_row : find version_id old_id db.versions ≡ some old_version
  pub new_row : find version_id new_id db.versions ≡ some new_version
  pub distinct_ids : (old_id == new_id) ≡ false
  pub latest : latest_active_slot old_id db.slots ≡ some old_slot
  pub approved : new_version.status ≡ VersionStatus.approved
  pub versions :
      db'.versions
      ≡ update version_id new_id (mark_scheduled now) (retired old_id old_slot.id now db).versions
  pub slots : db'.slots ≡ (retired old_id old_slot.id now db).slots ++ r.slot ∷ []
  pub date : r.slot.publication_date ≡ old_slot.publication_date
  pub order : r.slot.slot_order ≡ old_slot.slot_order
  pub owner : r.slot.spot_version_id ≡ new_id
  pub status : r.slot.status ≡ SlotStatus.scheduled

pub archive_keeps :
    (k : Key) (v : SpotVersion) (db db' : Db)
    → archive_if_current k v db ≡ ok db'
    → (db'.versions ≡ db.versions) × (db'.slots ≡ db.slots) × (db'.attempts ≡ db.attempts)
unfolding archive_if_current update_spot
archive_keeps k v db db' h = ground arith

archive_old_spot_keeps :
    (v w : SpotVersion) (db db' : Db)
    → archive_old_spot v w db ≡ ok db'
    → (db'.versions ≡ db.versions) × (db'.slots ≡ db.slots) × (db'.attempts ≡ db.attempts)
unfolding archive_old_spot
archive_old_spot_keeps v w db db' h = ground (arith, archive_keeps v.id v db db')

invalidate_keeps :
    (i : Option Invalidation) (actor old_id new_id : Key) (now : Time) (db : Db)
    → let db' = (invalidate_attempts i actor old_id new_id now db).1 in
      (db'.versions ≡ db.versions) × (db'.slots ≡ db.slots)
unfolding invalidate_attempts
invalidate_keeps i actor old_id new_id now db = ground arith

pub replace-Replaced :
    (actor old_id new_id : Key) (i : Option Invalidation) (now : Time) (db db' : Db)
    (r : Replacement)
    → replace_published_slot actor old_id new_id i now db ≡ ok (r, db')
    → Replaced old_id new_id now db db' r
unfolding replace_published_slot update_version update_slot create_slot
replace-Replaced actor old_id new_id i now db db' r h =
    elim (Option-cases (find version_id old_id db.versions)) [
      | inl e ↦ absurd (ground arith)
      | inr (v, e) ↦ elim (Option-cases (find version_id new_id db.versions)) [
        | inl q ↦ absurd (ground arith)
        | inr (w, q) ↦ elim (Option-cases (latest_active_slot old_id db.slots)) [
          | inl l ↦ absurd (ground arith)
          | inr (s, l) ↦ elim (Result-cases (archive_old_spot v w (retired old_id s.id now db))) [
            | inr (x, a) ↦ absurd (ground arith)
            | inl (db3, a) ↦
                let kept = archive_old_spot_keeps v w (retired old_id s.id now db) db3 a in
                let same = invalidate_keeps i actor old_id new_id now db3 in
                record {
                  old_slot = s;
                  old_version = v;
                  new_version = w;
                  old_row = e;
                  new_row = q;
                  distinct_ids = ground arith;
                  latest = l;
                  approved = ground arith;
                  versions = ground (arith, kept, same);
                  slots = ground (arith, kept, same);
                  date = ground arith;
                  order = ground arith;
                  owner = ground arith;
                  status = ground arith;
                }
          ]
        ]
      ]
    ]

-- A replacement is two moves: the old version is superseded, then the new one is scheduled.
both-Moves :
    (old_id new_id : Key) (now : Time) (db db' : Db) (r : Replacement)
    (x : Replaced old_id new_id now db db' r)
    → Consistent db
    → Distinct db.slots
    → Moves db
        (retired old_id x.old_slot.id now db)
        old_id
        x.old_version.status
        VersionStatus.superseded
      × Moves
          (retired old_id x.old_slot.id now db)
          db'
          new_id
          VersionStatus.approved
          VersionStatus.scheduled
both-Moves old_id new_id now db db' r x c d = (
  retired-Moves db old_id now x.old_version x.old_slot c row x.old_row,
  append_slot-Moves (retired old_id x.old_slot.id now db) db' new_id x.new_version
      (mark_scheduled now) r.slot (λ v. refl) new_row x.approved refl x.status x.owner x.versions
      x.slots,
)
  where
    row : IsActiveRow old_id db.slots x.old_slot
    row = latest-IsActiveRow old_id db.slots x.old_slot d x.latest

    new_row :
        find version_id new_id (retired old_id x.old_slot.id now db).versions ≡ some x.new_version
    new_row =
        rw (find-update version_id new_id old_id (mark_superseded now) db.versions (λ v. refl))
          (rw x.distinct_ids x.new_row)

-- What a successful `replacePublishedSlot` leaves behind.
pub record IsReplaced (old_id new_id : Key) (db db' : Db) (r : Replacement) : Type 0 where
  pub agrees : Consistent db'
  pub old_status : status_of old_id db' ≡ some VersionStatus.superseded
  pub new_status : status_of new_id db' ≡ some VersionStatus.scheduled
  pub others :
      (k : Key) → (old_id == k) ≡ false → (new_id == k) ≡ false → status_of k db' ≡ status_of k db
  pub same_day :
      (s : Slot)
      → latest_active_slot old_id db.slots ≡ some s
      → (r.slot.publication_date ≡ s.publication_date) × (r.slot.slot_order ≡ s.slot_order)

-- On a calendar that agrees with the versions and where no two slots have one key, a replacement
-- that succeeds keeps the agreement. The old version is superseded, the new one is scheduled at
-- the same date and order, and no other version changes its status.
pub replace-IsReplaced :
    (actor old_id new_id : Key) (i : Option Invalidation) (now : Time) (db db' : Db)
    (r : Replacement)
    → Consistent db
    → Distinct db.slots
    → replace_published_slot actor old_id new_id i now db ≡ ok (r, db')
    → IsReplaced old_id new_id db db' r
replace-IsReplaced actor old_id new_id i now db db' r c d h =
    let x = replace-Replaced actor old_id new_id i now db db' r h in
    let (m, n) = both-Moves old_id new_id now db db' r x c d in
    record {
      agrees = Moves-Consistent n (Moves-Consistent m c);
      old_status = ground (arith, n.statuses old_id, m.statuses old_id, x.distinct_ids);
      new_status = ground (arith, n.statuses new_id);
      others = λ k p q. ground (arith, n.statuses k, m.statuses k);
      same_day = λ s e. ground (arith, x.latest, x.date, x.order);
    }
