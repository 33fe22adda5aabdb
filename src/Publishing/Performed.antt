-- ===== src/Publishing/Performed.antt =====
-- Which transactions scripts/publish-spot.mjs performs after its import, on every path.
use gto_poker_daily_spots_ba.Prelude.{
  ℕ, leb, ◌==◌, ==_self, ◌&&◌, Bool, true, false, ◌≡◌, refl, sym, subst, inl, inr, Option, none,
  some, Key, Time, Result, ok, err, arith, Bool-cases, Option-cases, Result-cases,
}
use gto_poker_daily_spots_ba.Dates.{DateError}
use gto_poker_daily_spots_ba.Store.{VersionStatus, SpotVersion, Slot, Db}
use gto_poker_daily_spots_ba.Publication.{
  schedule_spot_version, replace_published_slot, publish_pacific_date,
}
use gto_poker_daily_spots_ba.Publication.Moves.{status_of}
use gto_poker_daily_spots_ba.Publication.Lifecycle.{
  Transaction, approves, schedules, replaces, quarantines, publishes, rejects, perform,
  IsReapproval,
}
use gto_poker_daily_spots_ba.Calls.{transact, only_tables, then_call, approve_if_validated}
use gto_poker_daily_spots_ba.Calls.Performed.{
  Performs, nothing, then-Performs, transact-Performs, tables-only, find_or_import-Comes, Comes,
  nothing-Comes, id-approve, approve-Performs,
}
use gto_poker_daily_spots_ba.Publishing.{
  PublishCall, failed, PublishOptions, PublishAction, version_not_found, transact, only_tables,
  then_call, publish_if, replace_slot, place_version, approve_if_validated, place_or_replace,
  put_version, recover, payload_or_chosen, choose_date, dated, version_slot, replaces_slot,
  is_published_slot, publish_on, publish_dated, publish_spot, refuses, occupied_by, has_no_date,
}

-- What the script may do with the version `new`: it replaces a slot only if it is told to, and by
-- this version.
abbrev pub may_perform : (replacing : Bool) → (new : Key) → Transaction → Bool
may_perform replacing new (approves k now) = k == new
may_perform replacing new (schedules k date order now) = k == new
may_perform replacing new (replaces actor old_id new_id i now) = replacing && new_id == new
may_perform replacing new (quarantines k reason blank actor now) = false
may_perform replacing new (publishes date now) = true
may_perform replacing new (rejects k) = false

module _ (r : Bool) (new : Key) where
  publish_if-Performs :
      (test : Bool) (date : ℕ) (now : Time) (a b : PublishAction) (db : Db)
      → Performs (may_perform r new) db (publish_if test date now a b db).1
  unfolding perform IsReapproval
  publish_if-Performs false date now a b db = nothing db
  publish_if-Performs true date now a b db =
      then-Performs (may_perform r new) db
        (transact failed (only_tables (publish_pacific_date date now db)) db) (λ u db1. (ok a, db1))
        (transact-Performs (may_perform r new) failed (publishes date now) db
          (only_tables (publish_pacific_date date now db)) refl (λ n. n)
          (sym (tables-only (publish_pacific_date date now db))))
        (λ u e. nothing _)

  recover-Performs :
      (s : Option Slot) (scheduled : Bool) (today : ℕ) (now : Time) (db : Db)
      → Performs (may_perform r new) db (recover s scheduled today now db).1
  recover-Performs none scheduled today now db = nothing db
  recover-Performs (some s) scheduled today now db =
      publish_if-Performs _ s.publication_date now _ _ db

  payload-Performs :
      (o : PublishOptions) (today : ℕ) (db : Db)
      → Performs (may_perform r new) db (payload_or_chosen o today db).1
  unfolding choose_date
  payload-Performs o today db = elim (Option-cases o.payload_date) [
    | inr (date, e) ↦ rw e (nothing db)
    | inl e ↦ rw e (elim (Result-cases (choose_date o today db)) [
      | inl (date, q) ↦ rw q (nothing db)
      | inr (thrown, q) ↦ rw q (nothing db)
    ])
  ]

  place_version-Performs :
      (o : PublishOptions) (today : ℕ) (now : Time) (version : SpotVersion) (db : Db)
      → (version.id == new) ≡ true
      → Performs (may_perform r new) db (place_version o today now version db).1
  unfolding place_version perform IsReapproval
  place_version-Performs o today now version db same = by_status version.status
    where
      by_status :
          (status : VersionStatus)
          → Performs
              (may_perform r new)
              db
              (place_version o today now (record version { status = status }) db).1
      by_status VersionStatus.draft = nothing db
      by_status VersionStatus.validated = nothing db
      by_status VersionStatus.rejected = nothing db
      by_status VersionStatus.superseded = nothing db
      by_status VersionStatus.scheduled =
          recover-Performs (version_slot version.id db) true today now db
      by_status VersionStatus.published =
          recover-Performs (version_slot version.id db) false today now db
      by_status VersionStatus.approved =
          then-Performs (may_perform r new) db (payload_or_chosen o today db) _
            (payload-Performs o today db)
            (λ date e.
              then-Performs (may_perform r new) _
                (transact failed
                  (schedule_spot_version version.id date 1 now (payload_or_chosen o today db).1)
                  (payload_or_chosen o today db).1)
                _
                (transact-Performs (may_perform r new) failed (schedules version.id date 1 now) _ _
                  same (λ n. n) refl)
                (λ slot q. publish_if-Performs (leb date today) date now _ _ _))

  replace_slot-Performs :
      (o : PublishOptions) (s : Slot) (date : ℕ) (now : Time) (version : SpotVersion) (db : Db)
      → r ≡ true
      → (version.id == new) ≡ true
      → Performs (may_perform r new) db (replace_slot o s date now version db).1
  unfolding replace_slot perform IsReapproval
  replace_slot-Performs o s date now version db on same = by_status version.status
    where
      by_status :
          (status : VersionStatus)
          → Performs
              (may_perform r new)
              db
              (replace_slot o s date now (record version { status = status }) db).1
      by_status VersionStatus.draft = nothing db
      by_status VersionStatus.validated = nothing db
      by_status VersionStatus.rejected = nothing db
      by_status VersionStatus.superseded = nothing db
      by_status VersionStatus.scheduled = nothing db
      by_status VersionStatus.published = nothing db
      by_status VersionStatus.approved =
          then-Performs (may_perform r new) db
            (transact failed
              (replace_published_slot o.actor s.spot_version_id version.id
                (some (record { reason = o.reason; actor = some o.actor })) now db)
              db)
            _
            (transact-Performs (may_perform r new) failed
              (replaces o.actor s.spot_version_id version.id
                (some (record { reason = o.reason; actor = some o.actor })) now)
              db _ (rw (on, same) refl) (λ n. n) refl)
            (λ done q.
              publish_if-Performs (is_published_slot done.previous_slot_status) date now _ _ _)

  place_or_replace-Performs :
      (o : PublishOptions) (occupied : Option Slot) (date today : ℕ) (now : Time)
      (version : SpotVersion) (db : Db)
      → o.replace_existing ≡ r
      → (version.id == new) ≡ true
      → Performs (may_perform r new) db (place_or_replace o occupied date today now version db).1
  place_or_replace-Performs o none date today now version db q same =
      place_version-Performs o today now version db same
  place_or_replace-Performs o (some s) date today now version db q same =
      elim (Bool-cases (replaces_slot o version s)) [
        | inl e ↦
            let on : r ≡ true = ground arith in
            rw e (replace_slot-Performs o s date now version db on same)
        | inr e ↦ rw e (place_version-Performs o today now version db same)
      ]

  put_version-Performs :
      (o : PublishOptions) (occupied : Option Slot) (date today : ℕ) (now : Time)
      (version : SpotVersion) (db : Db)
      → o.replace_existing ≡ r
      → (version.id == new) ≡ true
      → status_of version.id db ≡ some version.status
      → Performs (may_perform r new) db (put_version o occupied date today now version db).1
  unfolding put_version
  put_version-Performs o occupied date today now version db q same h =
      then-Performs (may_perform r new) db (approve_if_validated failed version now db) _
        (approve-Performs (may_perform r new) failed version now db same h)
        (λ v e.
          place_or_replace-Performs o occupied date today now v _ q
            (subst (λ k. (k == new) ≡ true) (sym (id-approve failed version now db v e)) same))

-- What the script comes to, for the date that it imports for.
abbrev pub PublishComes :
    (ℕ → Db → PublishCall Key) → PublishOptions → (date : ℕ) → (before after : Db) → Type 0
PublishComes imported o date db after =
    Comes (may_perform o.replace_existing) (imported date db) o.spot_version_id db after

publish_dated-Comes :
    (imported : ℕ → Db → PublishCall Key) (o : PublishOptions) (date today : ℕ) (now : Time)
    (db : Db)
    → PublishComes imported o date db (publish_dated (imported date) o date today now db).1
unfolding publish_dated publish_on
publish_dated-Comes imported o date today now db =
    elim (Option-cases (refuses o (occupied_by o db))) [
      | inr (thrown, f) ↦
          rw (publish_dated, f) (nothing-Comes _ (imported date db) o.spot_version_id db)
      | inl f ↦
          rw (publish_dated, f)
            (find_or_import-Comes (may_perform o.replace_existing) version_not_found (imported date)
              _
              (λ v db1 h.
                put_version-Performs o.replace_existing v.id o (occupied_by o db) date today now v
                  db1 refl (==_self v.id) h)
              o.spot_version_id db)
    ]

dated-Comes :
    (imported : ℕ → Db → PublishCall Key) (o : PublishOptions) (db : Db) (day : Result DateError ℕ)
    (next : ℕ → Db → PublishCall PublishAction)
    → ((date : ℕ) → PublishComes imported o date db (next date db).1)
    → (date : ℕ) × PublishComes imported o date db (then_call (dated day db) next).1
dated-Comes imported o db (ok date) next f = (date, f date)
dated-Comes imported o db (err e) next f = (0, nothing-Comes _ (imported 0 db) o.spot_version_id db)

-- Whatever the script ends with, an error included, it has performed a sequence of transactions of
-- the calendar on the tables as they were or as the import left them: approvals, none of a version
-- that is scheduled already, schedulings, publications of a day, and replacements of a slot only if
-- it was told to replace. All but the publications are about the one version that it was given or
-- that the import returned, and nothing else has changed.
pub publish_spot-Comes :
    (imported : ℕ → Db → PublishCall Key) (o : PublishOptions) (today : ℕ) (now : Time) (db : Db)
    → (date : ℕ) × PublishComes imported o date db (publish_spot imported o today now db).1
unfolding publish_spot
publish_spot-Comes imported o today now db =
    elim (Bool-cases (o.replace_existing && has_no_date o.publication_date)) [
      | inl e ↦ rw e (0, nothing-Comes _ (imported 0 db) o.spot_version_id db)
      | inr e ↦ rw e (
          dated-Comes imported o db (choose_date o today db) _
            (λ date. publish_dated-Comes imported o date today now db))
    ]
