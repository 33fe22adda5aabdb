-- ===== src/Repair/Performed.antt =====
-- Which transactions scripts/repair-spot.mjs performs after its import, on every path.
use gto_poker_daily_spots_ba.Prelude.{
  ◌==◌, ◌&&◌, not, Bool, true, false, ◌≡◌, ◌⊎◌, refl, sym, subst, inl, inr, Option, none, some,
  List, [], ◌∷◌, Key, Time, ok, find, id-find, ==_self,
}
use gto_poker_daily_spots_ba.Store.{SpotVersion, Slot, Db}
use gto_poker_daily_spots_ba.Publication.{Replacement, replace_published_slot, publish_pacific_date}
use gto_poker_daily_spots_ba.Publication.Moves.{status_of}
use gto_poker_daily_spots_ba.Publication.Lifecycle.{
  Transaction, approves, schedules, replaces, quarantines, publishes, rejects, perform,
  IsReapproval,
}
use gto_poker_daily_spots_ba.Calls.{transact, only_tables, then_call, check, approve_if_validated}
use gto_poker_daily_spots_ba.Calls.Performed.{
  Performs, nothing, Comes, then-Performs, transact-Performs, tables-only, find_or_import-Comes,
  id-approve, approve-Performs, version_key, found_none, found_some,
}
use gto_poker_daily_spots_ba.Repair.{
  RepairCall, RepairOptions, RepairError, uniform_version, other_spot, not_approved, spot_mismatch,
  failed, RawStrategy, version_not_found, old_version_not_found, is_approved, replace_and_publish,
  repair_with, import_candidate, repair_slot, repair_spot, first_slot, published_slots_of,
  is_of_spot,
}

-- What the script may do with the version `new`.
abbrev pub repairs : (old new : Key) → Transaction → Bool
repairs old new (approves k now) = k == new
repairs old new (schedules k date order now) = false
repairs old new (replaces actor old_id new_id i now) = old_id == old && new_id == new
repairs old new (quarantines k reason blank actor now) = false
repairs old new (publishes date now) = true
repairs old new (rejects k) = false

abbrev approved_then :
    RepairOptions → (old_id : Key) → Time → SpotVersion → Db → RepairCall Replacement
approved_then o old_id now v db =
    check (is_approved v.status) not_approved db (replace_and_publish o old_id now v db)

module _ (old_id : Key) (new : Key) where
  check-Performs :
      {A : Type 0} (test : Bool) (e : RepairError) (db db1 : Db) (next : RepairCall A)
      → Performs (repairs old_id new) db db1
      → Performs (repairs old_id new) db next.1
      → Performs (repairs old_id new) db (check test e db1 next).1
  check-Performs true e db db1 next p q = q
  check-Performs false e db db1 next p q = p

  publish-Performs :
      (r : Replacement) (now : Time) (db : Db)
      → Performs
          (repairs old_id new)
          db
          (then_call
            (transact failed (only_tables (publish_pacific_date r.slot.publication_date now db)) db)
            (λ u db2. (ok r, db2))).1
  unfolding perform IsReapproval
  publish-Performs r now db =
      then-Performs (repairs old_id new) db
        (transact failed (only_tables (publish_pacific_date r.slot.publication_date now db)) db) _
        (transact-Performs (repairs old_id new) failed (publishes r.slot.publication_date now) db
          (only_tables (publish_pacific_date r.slot.publication_date now db)) refl (λ n. n)
          (sym (tables-only (publish_pacific_date r.slot.publication_date now db))))
        (λ u e. nothing _)

  replace-Performs :
      (o : RepairOptions) (now : Time) (version : SpotVersion) (db : Db)
      → (version.id == new) ≡ true
      → Performs (repairs old_id new) db (replace_and_publish o old_id now version db).1
  unfolding replace_and_publish perform IsReapproval
  replace-Performs o now version db same =
      then-Performs (repairs old_id new) db
        (transact failed
          (replace_published_slot o.actor old_id version.id
            (some (record { reason = o.reason; actor = some o.actor })) now db)
          db)
        _
        (transact-Performs (repairs old_id new) failed
          (replaces o.actor old_id version.id
            (some (record { reason = o.reason; actor = some o.actor })) now)
          db _ (rw (==_self old_id, same) refl) (λ n. n) refl)
        (λ r e. publish-Performs r now _)

approved-Performs :
    (new : Key) (o : RepairOptions) (old_id : Key) (now : Time) (v : SpotVersion) (db : Db)
    → (v.id == new) ≡ true
    → Performs
        (repairs old_id new)
        db
        (check (is_approved v.status) not_approved db (replace_and_publish o old_id now v db)).1
approved-Performs new o old_id now v db same =
    check-Performs old_id new (is_approved v.status) not_approved db db
      (replace_and_publish o old_id now v db) (nothing db)
      (replace-Performs old_id new o now v db same)

repair_with-Performs :
    (new : Key) (o : RepairOptions) (is_uniform : SpotVersion → Bool) (old : SpotVersion)
    (now : Time) (version : SpotVersion) (db : Db)
    → (version.id == new) ≡ true
    → status_of version.id db ≡ some version.status
    → Performs (repairs old.id new) db (repair_with is_uniform o old now version db).1
unfolding repair_with
repair_with-Performs new o is_uniform old now version db same h =
    check-Performs old.id new (not (is_uniform version)) uniform_version db db
      (check (version.spot_id == old.spot_id) other_spot db
        (then_call (approve_if_validated failed version now db) (approved_then o old.id now)))
      (nothing db)
      (check-Performs old.id new (version.spot_id == old.spot_id) other_spot db db
        (then_call (approve_if_validated failed version now db) (approved_then o old.id now))
        (nothing db)
        (then-Performs (repairs old.id new) db (approve_if_validated failed version now db)
          (approved_then o old.id now)
          (approve-Performs (repairs old.id new) failed version now db same h)
          (λ v e.
            approved-Performs new o old.id now v _
              (subst (λ j. (j == new) ≡ true) (sym (id-approve failed version now db v e)) same))))

-- What the script comes to, for the slot whose date and order it imports for.
abbrev pub RepairComes :
    (Slot → Db → RepairCall Key) → RepairOptions → RawStrategy → Slot → (before after : Db) → Type 0
RepairComes imported o candidate slot db after =
    Comes (repairs o.old_version_id) (import_candidate candidate (imported slot) db)
      o.new_version_id db after

repair_slot-Comes :
    (is_uniform : SpotVersion → Bool) (imported : Slot → Db → RepairCall Key) (o : RepairOptions)
    (candidate : RawStrategy) (old : SpotVersion) (now : Time) (slot : Slot) (db : Db)
    → old.id ≡ o.old_version_id
    → RepairComes imported o candidate slot db
        (repair_slot is_uniform imported o candidate old now slot db).1
unfolding repair_slot
repair_slot-Comes is_uniform imported o candidate old now slot db k =
    subst
      (λ j.
        Comes (repairs j) (import_candidate candidate (imported slot) db) o.new_version_id db
          (repair_slot is_uniform imported o candidate old now slot db).1)
      k
      (find_or_import-Comes (repairs old.id) version_not_found
        (import_candidate candidate (imported slot)) (repair_with is_uniform o old now)
        (λ v db1 h. repair_with-Performs v.id o is_uniform old now v db1 (==_self v.id) h)
        o.new_version_id db)

-- The slot whose date an import would get, if the version has a published slot.
abbrev pub IsRepair :
    (Slot → Db → RepairCall Key) → RepairOptions → RawStrategy → (before after : Db) → Type 0
IsRepair imported o candidate db after =
    (after ≡ db) ⊎ ((slot : Slot) × RepairComes imported o candidate slot db after)

slots-IsRepair :
    (is_uniform : SpotVersion → Bool) (imported : Slot → Db → RepairCall Key) (o : RepairOptions)
    (candidate : RawStrategy) (old : SpotVersion) (now : Time) (db : Db) (slots : List Slot)
    → old.id ≡ o.old_version_id
    → IsRepair imported o candidate db
        (then_call
          (first_slot slots db)
          (λ slot db1. repair_slot is_uniform imported o candidate old now slot db1)).1
slots-IsRepair is_uniform imported o candidate old now db [] k = inl refl
slots-IsRepair is_uniform imported o candidate old now db (slot ∷ rest) k =
    inr (slot, repair_slot-Comes is_uniform imported o candidate old now slot db k)

abbrev with_old :
    (SpotVersion → Bool)
    → (Slot → Db → RepairCall Key)
    → RepairOptions
    → RawStrategy
    → Time
    → SpotVersion
    → Db
    → RepairCall Replacement
with_old is_uniform imported o candidate now old db =
    check (is_of_spot o.spot_id old.spot_id) spot_mismatch db (
      then_call (first_slot (published_slots_of old.id db) db)
        (λ slot db2. repair_slot is_uniform imported o candidate old now slot db2))

-- Whatever the script ends with, an error included, it has changed nothing, or it has worked on the
-- tables as they were or as the import left them, and has performed a sequence of transactions there:
-- approvals of the version that it was given or that the import returned, none of it when it is
-- scheduled already, replacements of the old version it was given by that version, and publications
-- of a day.
pub repair_spot-IsRepair :
    (is_uniform : SpotVersion → Bool) (imported : Slot → Db → RepairCall Key) (o : RepairOptions)
    (candidate : RawStrategy) (now : Time) (db : Db)
    → IsRepair imported o candidate db (repair_spot is_uniform imported o candidate now db).1
unfolding repair_spot
repair_spot-IsRepair is_uniform imported o candidate now db =
    by_version (find version_key o.old_version_id db.versions) refl
  where
    checked :
        (old : SpotVersion) (test : Bool)
        → old.id ≡ o.old_version_id
        → IsRepair imported o candidate db
            (check test spot_mismatch db (
              then_call
                (first_slot (published_slots_of old.id db) db)
                (λ slot db2. repair_slot is_uniform imported o candidate old now slot db2))).1
    checked old true k =
        slots-IsRepair is_uniform imported o candidate old now db (published_slots_of old.id db) k
    checked old false k = inl refl

    by_version :
        (there : Option SpotVersion)
        → find version_key o.old_version_id db.versions ≡ there
        → IsRepair imported o candidate db (repair_spot is_uniform imported o candidate now db).1
    by_version none e =
        subst
          (λ c.
            IsRepair imported o candidate db
              (then_call c (with_old is_uniform imported o candidate now)).1)
          (sym (found_none old_version_not_found o.old_version_id db e)) (inl refl)
    by_version (some old) e =
        subst
          (λ c.
            IsRepair imported o candidate db
              (then_call c (with_old is_uniform imported o candidate now)).1)
          (sym (found_some old_version_not_found o.old_version_id db old e))
          (checked old (is_of_spot o.spot_id old.spot_id)
            (id-find version_key o.old_version_id db.versions old e))
