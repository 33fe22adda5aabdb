-- ===== src/Calls.antt =====
-- What the scripts of scripts/ do: transactions of the calendar, one after the other. Each stands by
-- itself: an error ends the script, and does not undo the transactions before it.
pub mod Performed
use gto_poker_daily_spots_ba.Prelude.{
  Bool, true, false, some, none, Key, Time, Result, ok, err, find,
}
use gto_poker_daily_spots_ba.Store.{VersionStatus, SpotVersion, Db, PublicationError}
use gto_poker_daily_spots_ba.Publication.{approve_spot_version}

-- A value or the error that is thrown, and the tables that are left.
abbrev pub Call : (E A : Type 0) → Type 0
Call E A = Result E A × Db

module _ {E : Type 0} (failed : PublicationError → E) where
  -- A transaction, which leaves the tables as they were when it throws.
  abbrev pub transact : {A : Type 0} → Result PublicationError (A × Db) → Db → Call E A
  transact (ok done) db = (ok done.0, done.1)
  transact (err e) db = (err (failed e), db)

abbrev pub only_tables : Result PublicationError Db → Result PublicationError (Unit {0} × Db)
only_tables (ok db) = ok (tt, db)
only_tables (err e) = err e

abbrev pub then_call : {E A B : Type 0} → Call E A → (A → Db → Call E B) → Call E B
then_call (ok a, db) next = next a db
then_call (err e, db) next = (err e, db)

abbrev pub check : {E B : Type 0} → (test : Bool) → (thrown : E) → Db → Call E B → Call E B
check true thrown db next = next
check false thrown db next = (err thrown, db)

abbrev pub found_version : {E : Type 0} → (missing : E) → Key → Db → Call E SpotVersion
found_version missing k db = elim (find (λ (v : SpotVersion). v.id) k db.versions) [
  | none ↦ (err missing, db)
  | some v ↦ (ok v, db)
]

-- `version.status === "VALIDATED"`: the version as it is after the approval.
unfoldable pub approve_if_validated :
    {E : Type 0} → (PublicationError → E) → SpotVersion → Time → Db → Call E SpotVersion
approve_if_validated failed version now db = elim version.status [
  | VersionStatus.draft ↦ (ok version, db)
  | VersionStatus.validated ↦
      then_call (transact failed (only_tables (approve_spot_version version.id now db)) db)
        (λ u db1.
          (ok (record version { status = VersionStatus.approved; approved_at = some now }), db1))
  | VersionStatus.approved ↦ (ok version, db)
  | VersionStatus.scheduled ↦ (ok version, db)
  | VersionStatus.published ↦ (ok version, db)
  | VersionStatus.rejected ↦ (ok version, db)
  | VersionStatus.superseded ↦ (ok version, db)
]

-- A version that is there, or else the one that `imported` (`ingestSpot`) leaves under the key
-- that it returns.
unfoldable pub find_or_import :
    {E : Type 0} → (missing : E) → (Db → Call E Key) → Key → Db → Call E SpotVersion
find_or_import missing imported k db = elim (find (λ (v : SpotVersion). v.id) k db.versions) [
  | some v ↦ (ok v, db)
  | none ↦ then_call (imported db) (λ new db1. found_version missing new db1)
]
