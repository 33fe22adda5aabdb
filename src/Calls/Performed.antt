-- ===== src/Calls/Performed.antt =====
-- Sequences of transactions, and what a call has performed when it ends, whatever it ends with.
use gto_poker_daily_spots_ba.Prelude.{
  Bool, true, ◌≡◌, refl, sym, subst, Option, some, none, Key, Time, Result, ok, err, find, id-find,
  inl, inr, Option-cases, arith,
}
use gto_poker_daily_spots_ba.Store.{VersionStatus, SpotVersion, Db, PublicationError}
use gto_poker_daily_spots_ba.Publication.{approve_spot_version}
use gto_poker_daily_spots_ba.Publication.Moves.{status_of}
use gto_poker_daily_spots_ba.Publication.Lifecycle.{
  Transaction, approves, perform, tables_of, IsReapproval,
}
use gto_poker_daily_spots_ba.Calls.{
  Call, transact, only_tables, then_call, found_version, approve_if_validated, find_or_import,
}

-- A sequence of the transactions that are allowed, none of which approves a version that is
-- scheduled.
pub data Performs (allowed : Transaction → Bool) : Db → Db → Type 0 where
  nothing : (db : Db) → Performs allowed db db
  step :
      (t : Transaction) (db db1 db2 : Db)
      → allowed t ≡ true
      → ¬ IsReapproval t db
      → perform t db ≡ ok db1
      → Performs allowed db1 db2
      → Performs allowed db db2

pub tables-only : (c : Result PublicationError Db) → tables_of (only_tables c) ≡ c
tables-only (ok db) = refl
tables-only (err e) = refl

pub join : (r : Transaction → Bool) (x y z : Db) → Performs r x y → Performs r y z → Performs r x z
join r _ _ z (nothing w) q = q
join r _ _ z (step t x x1 y m n e p) q = step t x x1 z m n e (join r x1 y z p q)

abbrev pub version_key : SpotVersion → Key
version_key v = v.id

pub found_none :
    {E : Type 0} (missing : E) (k : Key) (db : Db)
    → find version_key k db.versions ≡ none
    → found_version missing k db ≡ (err missing, db)
found_none missing k db e = rw (found_version, e) refl

pub found_some :
    {E : Type 0} (missing : E) (k : Key) (db : Db) (v : SpotVersion)
    → find version_key k db.versions ≡ some v
    → found_version missing k db ≡ (ok v, db)
found_some missing k db v e = rw (found_version, e) refl

pub status-found :
    (k : Key) (db : Db) (v : SpotVersion)
    → find version_key k db.versions ≡ some v
    → status_of v.id db ≡ some v.status
status-found k db v e = rw (id-find version_key k db.versions v e, e) refl

module _ {E : Type 0} (r : Transaction → Bool) where
  pub then-Performs :
      {A B : Type 0} (db : Db) (c : Call E A) (next : A → Db → Call E B)
      → Performs r db c.1
      → ((a : A) → c.0 ≡ ok a → Performs r c.1 (next a c.1).1)
      → Performs r db (then_call c next).1
  then-Performs db (err e, db1) next p f = p
  then-Performs db (ok a, db1) next p f = join r db db1 (next a db1).1 p (f a refl)

  pub transact-Performs :
      {A : Type 0} (failed : PublicationError → E) (t : Transaction) (db : Db)
      (call : Result PublicationError (A × Db))
      → r t ≡ true
      → ¬ IsReapproval t db
      → perform t db ≡ tables_of call
      → Performs r db (transact failed call db).1
  transact-Performs failed t db (err e) m n q = nothing db
  transact-Performs failed t db (ok (a, db1)) m n q = step t db db1 db1 m n q (nothing db1)

  pub approve-Performs :
      (failed : PublicationError → E) (version : SpotVersion) (now : Time) (db : Db)
      → r (approves version.id now) ≡ true
      → status_of version.id db ≡ some version.status
      → Performs r db (approve_if_validated failed version now db).1
  unfolding approve_if_validated perform IsReapproval
  approve-Performs failed version now db may h = by_status version.status h
    where
      by_status :
          (status : VersionStatus)
          → status_of version.id db ≡ some status
          → Performs r db
              (approve_if_validated failed (record version { status = status }) now db).1
      by_status VersionStatus.draft e = nothing db
      by_status VersionStatus.approved e = nothing db
      by_status VersionStatus.rejected e = nothing db
      by_status VersionStatus.superseded e = nothing db
      by_status VersionStatus.scheduled e = nothing db
      by_status VersionStatus.published e = nothing db
      by_status VersionStatus.validated e =
          then-Performs db
            (transact failed (only_tables (approve_spot_version version.id now db)) db) _
            (transact-Performs failed (approves version.id now) db
              (only_tables (approve_spot_version version.id now db)) may (λ n. ground (arith, e, n))
              (sym (tables-only (approve_spot_version version.id now db))))
            (λ u q. nothing _)

pub id-approve :
    {E : Type 0} (failed : PublicationError → E) (version : SpotVersion) (now : Time) (db : Db)
    (v : SpotVersion)
    → (approve_if_validated failed version now db).0 ≡ ok v
    → v.id ≡ version.id
unfolding approve_if_validated
id-approve {E} failed version now db v e = by_status version.status e
  where
    after :
        (c : Result PublicationError Db)
        → (then_call (transact failed (only_tables c) db) (λ u db1. (
          ok (record version { status = VersionStatus.approved; approved_at = some now }),
          db1,
        ))).0
          ≡ ok v
        → v.id ≡ version.id
    after (ok db1) h = ground arith
    after (err x) h = absurd (cc)

    by_status :
        (status : VersionStatus)
        → (approve_if_validated failed (record version { status = status }) now db).0 ≡ ok v
        → v.id ≡ version.id
    by_status VersionStatus.draft h = ground arith
    by_status VersionStatus.validated h = after (approve_spot_version version.id now db) h
    by_status VersionStatus.approved h = ground arith
    by_status VersionStatus.scheduled h = ground arith
    by_status VersionStatus.published h = ground arith
    by_status VersionStatus.rejected h = ground arith
    by_status VersionStatus.superseded h = ground arith

-- The key of the version that a script works on, and the tables that it works on: those that were
-- there, or those that the import has left.
pub data Start {E : Type 0} (imported : Call E Key) (k : Key) (db : Db) : Key → Db → Type 0 where
  as_is : Start imported k db k db
  import_failed : Start imported k db k imported.1
  after_import : (new : Key) → imported.0 ≡ ok new → Start imported k db new imported.1

-- What has become of the tables: transactions that are allowed for that version.
pub record Comes {E : Type 0} (allowed : Key → Transaction → Bool) (imported : Call E Key) (k : Key)
    (before after : Db) : Type 0 where
  pub version_id : Key
  pub tables : Db
  pub start : Start imported k before version_id tables
  pub performed : Performs (allowed version_id) tables after

pub nothing-Comes :
    {E : Type 0} (allowed : Key → Transaction → Bool) (imported : Call E Key) (k : Key) (db : Db)
    → Comes allowed imported k db db
nothing-Comes allowed imported k db = record {
  version_id = k;
  tables = db;
  start = as_is;
  performed = nothing db;
}

module _ {E A : Type 0} (allowed : Key → Transaction → Bool) (missing : E)
    (imported : Db → Call E Key) (next : SpotVersion → Db → Call E A)
    (f : (v : SpotVersion) (db1 : Db)
      → status_of v.id db1 ≡ some v.status
      → Performs (allowed v.id) db1 (next v db1).1) where
  found-Performs :
      (k : Key) (db : Db) → Performs (allowed k) db (then_call (found_version missing k db) next).1
  found-Performs k db = by_version (find version_key k db.versions) refl
    where
      by_version :
          (there : Option SpotVersion)
          → find version_key k db.versions ≡ there
          → Performs (allowed k) db (then_call (found_version missing k db) next).1
      by_version none e =
          subst (λ c. Performs (allowed k) db (then_call c next).1)
            (sym (found_none missing k db e)) (nothing db)
      by_version (some v) e =
          subst (λ c. Performs (allowed k) db (then_call c next).1)
            (sym (found_some missing k db v e))
            (subst (λ j. Performs (allowed j) db (next v db).1)
              (id-find version_key k db.versions v e) (f v db (status-found k db v e)))

  imported-Comes :
      (k : Key) (db : Db) (c : Call E Key)
      → imported db ≡ c
      → Comes allowed c k db
          (then_call (then_call c (λ new db1. found_version missing new db1)) next).1
  imported-Comes k db (err e, db1) q = record {
    version_id = k;
    tables = db1;
    start = import_failed;
    performed = nothing db1;
  }
  imported-Comes k db (ok new, db1) q = record {
    version_id = new;
    tables = db1;
    start = after_import new refl;
    performed = found-Performs new db1;
  }

  pub find_or_import-Comes :
      (k : Key) (db : Db)
      → Comes allowed (imported db) k db (then_call (find_or_import missing imported k db) next).1
  unfolding find_or_import
  find_or_import-Comes k db = elim (Option-cases (find version_key k db.versions)) [
    | inl e ↦ rw (find_or_import, e) (imported-Comes k db (imported db) refl)
    | inr (v, e) ↦
        rw (find_or_import, e)
          (record {
            version_id = v.id;
            tables = db;
            start =
                subst (λ j. Start (imported db) k db j db)
                  (sym (id-find version_key k db.versions v e)) as_is;
            performed = f v db (status-found k db v e);
          })
  ]
