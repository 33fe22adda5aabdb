-- ===== src/Publication/Lifecycle.antt =====
-- Every transaction of src/publication.ts, and the hold of src/admin.ts, on one calendar.
use gto_poker_daily_spots_ba.Prelude.{
  ℕ, ◌≡◌, subst, Bool, Option, some, Key, Time, Result, ok, err, arith,
}
use gto_poker_daily_spots_ba.Store.{VersionStatus, Db, PublicationError}
use gto_poker_daily_spots_ba.Publication.{
  Invalidation, approve_spot_version, schedule_spot_version, replace_published_slot,
  quarantine_published_version, publish_pacific_date, hold_spot_version,
}
use gto_poker_daily_spots_ba.Publication.Moves.{
  status_of, approve-Moves, schedule-Moves, hold-Moves,
}
use gto_poker_daily_spots_ba.Publication.Consistent.{Consistent, Distinct, Moves-Consistent}
use gto_poker_daily_spots_ba.Publication.Publish.{HasSpots}
use gto_poker_daily_spots_ba.Publication.Calendar.{publish_pacific_date_total}
use gto_poker_daily_spots_ba.Publication.Replace.{replace-IsReplaced}
use gto_poker_daily_spots_ba.Publication.Retire.{quarantine-IsQuarantined}

pub data Transaction : Type 0 where
  approves : Key → Time → Transaction
  schedules : Key → ℕ → ℕ → Time → Transaction
  replaces : Key → Key → Key → Option Invalidation → Time → Transaction
  quarantines : Key → Key → Bool → Key → Time → Transaction
  publishes : ℕ → Time → Transaction
  rejects : Key → Transaction

abbrev pub tables_of : {A : Type 0} → Result PublicationError (A × Db) → Result PublicationError Db
tables_of (ok (a, db)) = ok db
tables_of (err e) = err e

-- The tables after a transaction.
unfoldable pub perform : Transaction → Db → Result PublicationError Db
perform (approves k now) db = approve_spot_version k now db
perform (schedules k date order now) db = tables_of (schedule_spot_version k date order now db)
perform (replaces actor old_id new_id i now) db =
    tables_of (replace_published_slot actor old_id new_id i now db)
perform (quarantines k reason blank actor now) db =
    tables_of (quarantine_published_version k reason blank actor now db)
perform (publishes date now) db = publish_pacific_date date now db
perform (rejects k) db = hold_spot_version k db

-- The approval of a version that is scheduled already.
unfoldable pub IsReapproval : Transaction → Db → Type 0
IsReapproval (approves k now) db = status_of k db ≡ some VersionStatus.scheduled
IsReapproval _ db = ⊥

tables-ok :
    {A : Type 0} (r : Result PublicationError (A × Db)) (db' : Db)
    → tables_of r ≡ ok db'
    → (a : A) × (r ≡ ok (a, db'))
tables-ok (ok (a, db)) db' h = (a, ground arith)
tables-ok (err e) db' h = absurd (cc)

-- On a calendar that agrees with the versions, where every version's spot is there and no two
-- slots have one key, every transaction that succeeds keeps the agreement, but for the approval of
-- a version that is scheduled already.
pub perform-Consistent :
    (t : Transaction) (db db' : Db)
    → Consistent db
    → Distinct db.slots
    → HasSpots db
    → ¬ IsReapproval t db
    → perform t db ≡ ok db'
    → Consistent db'
unfolding perform IsReapproval
perform-Consistent (approves k now) db db' c d f n h =
    Moves-Consistent (approve-Moves k now db db' n h) c
perform-Consistent (schedules k date order now) db db' c d f n h =
    let (s, q) = tables-ok (schedule_spot_version k date order now db) db' h in
    Moves-Consistent (schedule-Moves k date order now db db' s q) c
perform-Consistent (replaces actor old_id new_id i now) db db' c d f n h =
    let (r, q) = tables-ok (replace_published_slot actor old_id new_id i now db) db' h in
    (replace-IsReplaced actor old_id new_id i now db db' r c d q).agrees
perform-Consistent (quarantines k reason blank actor now) db db' c d f n h =
    let (r, q) = tables-ok (quarantine_published_version k reason blank actor now db) db' h in
    (quarantine-IsQuarantined k reason actor blank now db db' r c q).agrees
perform-Consistent (publishes date now) db db' c d f n h =
    let (out, q, agrees, none_left, advances) = publish_pacific_date_total date now db c f d in
    subst Consistent (ground (arith, q, h)) agrees
perform-Consistent (rejects k) db db' c d f n h =
    let (a, m, q) = hold-Moves k db db' h in Moves-Consistent m c
