-- ===== src/Publication/Retire.antt =====
-- `quarantinePublishedVersion` of src/publication.ts.
use gto_poker_daily_spots_ba.Prelude.{
  ◌+◌, ◌==◌, Bool, true, false, ◌≡◌, refl, inl, inr, List, [], ◌∷◌, some, Key, Time, ok,
  Option-cases, Result-cases, arith, if◌then◌else◌, count, find, update, update_where,
}
use gto_poker_daily_spots_ba.Store.{
  VersionStatus, SlotStatus, SpotVersion, Slot, AttemptRow, Db, Validity, update_version, is_active,
}
use gto_poker_daily_spots_ba.Publication.{
  is_active_slot_of, is_valid_attempt_of, mark_superseded, mark_cancelled, archive_if_current,
  quarantine_published_version, Quarantine, is_scheduled,
}
use gto_poker_daily_spots_ba.Publication.Moves.{
  status_of, is_published_slot, is_held, tally, Moves, status_in-update,
}
use gto_poker_daily_spots_ba.Publication.Consistent.{Consistent, Moves-Consistent}
use gto_poker_daily_spots_ba.Publication.Replace.{version_id, archive_keeps}

abbrev cancel_all : Key → Time → List Slot → List Slot
cancel_all k now = update_where (is_active_slot_of k) (mark_cancelled now)

tally-cancel_all :
    (p : SlotStatus → Bool) (k i : Key) (now : Time) (slots : List Slot)
    → p SlotStatus.cancelled ≡ false
    → ((t : SlotStatus) → p t ≡ true → is_active t ≡ true)
    → tally p i (cancel_all k now slots) + (if k == i then tally p i slots else 0) ≡ tally p i slots
tally-cancel_all p k i now [] off on = ground arith
tally-cancel_all p k i now (s ∷ rest) off on =
    ground (arith, on s.status, tally-cancel_all p k i now rest off on, off)

-- The tables after the transaction, but for the spots and the audit row.
pub record Quarantined (k : Key) (reason : Key) (now : Time) (db db' : Db) (q : Quarantine)
    : Type 0 where
  pub version : SpotVersion
  pub row : find version_id k db.versions ≡ some version
  pub was : version.status ≡ VersionStatus.published
  pub versions : db'.versions ≡ update version_id k (mark_superseded now) db.versions
  pub slots : db'.slots ≡ cancel_all k now db.slots
  pub counted : q.cancelled_slots ≡ count (is_active_slot_of k) db.slots
  pub attempts :
      db'.attempts
      ≡ update_where
          (is_valid_attempt_of k)
          (λ a. record a {
            validity = Validity.invalidated;
            invalidated_at = some now;
            invalidation_reason = some reason;
          })
          db.attempts

quarantine-Quarantined :
    (k reason actor : Key) (blank : Bool) (now : Time) (db db' : Db) (q : Quarantine)
    → quarantine_published_version k reason blank actor now db ≡ ok (q, db')
    → Quarantined k reason now db db' q
unfolding quarantine_published_version update_version
quarantine-Quarantined k reason actor blank now db db' q h =
    elim (Option-cases (find version_id k db.versions)) [
      | inl e ↦ absurd (ground arith)
      | inr (v, e) ↦ elim (Result-cases (archive_if_current k v (middle v))) [
        | inr (x, a) ↦ absurd (ground arith)
        | inl (db4, a) ↦
            let kept = archive_keeps k v (middle v) db4 a in
            record {
              version = v;
              row = e;
              was = ground arith;
              versions = ground (arith, kept);
              slots = ground (arith, kept);
              counted = ground arith;
              attempts = ground (arith, kept);
            }
      ]
    ]
  where
    middle : SpotVersion → Db
    middle v = record db {
      slots = cancel_all k now db.slots;
      versions = update version_id k (mark_superseded now) db.versions;
      attempts =
          update_where (is_valid_attempt_of k)
            (λ a. record a {
              validity = Validity.invalidated;
              invalidated_at = some now;
              invalidation_reason = some reason;
            })
            db.attempts;
    }

quarantine-Moves :
    (k reason actor : Key) (blank : Bool) (now : Time) (db db' : Db) (q : Quarantine)
    → Consistent db
    → quarantine_published_version k reason blank actor now db ≡ ok (q, db')
    → Moves db db' k VersionStatus.published VersionStatus.superseded
quarantine-Moves k reason actor blank now db db' q c h =
    let x = quarantine-Quarantined k reason actor blank now db db' q h in moves x
  where
    moves :
        Quarantined k reason now db db' q
        → Moves db db' k VersionStatus.published VersionStatus.superseded
    moves x = record {
      from_status = rw x.row (rw x.was refl);
      statuses = λ i.
          rw x.versions
            (status_in-update i k (mark_superseded now) db.versions x.version (λ v. refl) x.row);
      scheduled_slots = λ i. ground (
        arith,
        x.slots,
        c.scheduled_once k,
        x.row,
        x.was,
        tally-cancel_all is_scheduled k i now db.slots refl (λ t e. ground arith),
      );
      published_slots = λ i. ground (
        arith,
        x.slots,
        c.published_once k,
        x.row,
        x.was,
        tally-cancel_all is_published_slot k i now db.slots refl (λ t e. ground arith),
      );
      held_slots = λ i. ground (
        arith,
        x.slots,
        c.held_never k,
        c.held_never i,
        tally-cancel_all is_held k i now db.slots refl (λ t e. ground arith),
      );
    }

abbrev invalidate_all : Key → Key → Time → List AttemptRow → List AttemptRow
invalidate_all k reason now = update_where (is_valid_attempt_of k) (λ a. record a {
  validity = Validity.invalidated;
  invalidated_at = some now;
  invalidation_reason = some reason;
})

count-invalidate_all :
    (k reason j : Key) (now : Time) (attempts : List AttemptRow)
    → count (is_valid_attempt_of j) (invalidate_all k reason now attempts)
      ≡ (if k == j then 0 else count (is_valid_attempt_of j) attempts)
count-invalidate_all k reason j now [] = ground arith
count-invalidate_all k reason j now (a ∷ rest) =
    ground (arith, count-invalidate_all k reason j now rest)

-- Nothing of version `k` is left in the calendar or among the attempts that count.
pub record IsQuarantined (k : Key) (db db' : Db) (q : Quarantine) : Type 0 where
  pub agrees : Consistent db'
  pub was : status_of k db ≡ some VersionStatus.published
  pub now_is : status_of k db' ≡ some VersionStatus.superseded
  pub others : (j : Key) → (k == j) ≡ false → status_of j db' ≡ status_of j db
  pub no_slot : count (is_active_slot_of k) db'.slots ≡ 0
  pub one_slot : q.cancelled_slots ≡ 1
  pub no_attempt : count (is_valid_attempt_of k) db'.attempts ≡ 0
  pub other_attempts :
      (j : Key)
      → (k == j) ≡ false
      → count (is_valid_attempt_of j) db'.attempts ≡ count (is_valid_attempt_of j) db.attempts

active-tallies :
    (k : Key) (slots : List Slot)
    → count (is_active_slot_of k) slots
      ≡ tally is_scheduled k slots + tally is_published_slot k slots + tally is_held k slots
active-tallies k [] = refl
active-tallies k (s ∷ rest) = ground (arith, active-tallies k rest)

-- On a calendar that agrees with the versions, a quarantine that succeeds keeps the agreement. The
-- version was published and is superseded now, no other version changes its status, its one slot
-- is cancelled, none of its attempts is valid any more, and those of other versions stay as they
-- were.
pub quarantine-IsQuarantined :
    (k reason actor : Key) (blank : Bool) (now : Time) (db db' : Db) (q : Quarantine)
    → Consistent db
    → quarantine_published_version k reason blank actor now db ≡ ok (q, db')
    → IsQuarantined k db db' q
quarantine-IsQuarantined k reason actor blank now db db' q c h =
    let x = quarantine-Quarantined k reason actor blank now db db' q h in
    let m = quarantine-Moves k reason actor blank now db db' q c h in
    let after = Moves-Consistent m c in
    record {
      agrees = after;
      was = m.from_status;
      now_is = ground (arith, m.statuses k);
      others = λ j e. ground (arith, m.statuses j);
      no_slot = ground (
        arith,
        active-tallies k db'.slots,
        after.scheduled_once k,
        after.published_once k,
        after.held_never k,
        m.statuses k,
      );
      one_slot = ground (
        arith,
        x.counted,
        active-tallies k db.slots,
        c.scheduled_once k,
        c.published_once k,
        c.held_never k,
        m.from_status,
      );
      no_attempt = ground (arith, x.attempts, count-invalidate_all k reason k now db.attempts);
      other_attempts =
          λ j e. ground (arith, x.attempts, count-invalidate_all k reason j now db.attempts);
    }
