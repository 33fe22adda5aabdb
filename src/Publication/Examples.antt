-- ===== src/Publication/Examples.antt =====
-- Concrete calendars for the theorems on src/publication.ts.
use gto_poker_daily_spots_ba.Prelude.{
  ℕ, ◌==◌, false, ◌≡◌, refl, inl, inr, List, [], ◌∷◌, Option, none, some, Key, ok, err, arith,
  count, find, update, Bool-cases, ◌<◌,
}
use gto_poker_daily_spots_ba.Store.{
  VersionStatus, SlotStatus, SpotStatus, Validity, Spot, SpotVersion, Slot, AttemptRow,
  quarantine_invalid_solver_version, Db, PublicationError, update_spot, update_version, update_slot,
  create_slot,
}
use gto_poker_daily_spots_ba.Publication.{
  Replacement, Quarantine, approve_spot_version, replace_published_slot,
  quarantine_published_version, publish_pacific_date, is_scheduled_on, archive_old_spot,
  archive_if_current, invalidate_attempts, latest_active_slot,
}
use gto_poker_daily_spots_ba.Publication.Moves.{status_of}
use gto_poker_daily_spots_ba.Publication.Consistent.{Consistent, Distinct}
use gto_poker_daily_spots_ba.Publication.Publish.{HasSpots}
use gto_poker_daily_spots_ba.Publication.Calendar.{Advances, publish_pacific_date_total}
use gto_poker_daily_spots_ba.Publication.Replace.{IsReplaced, replace-IsReplaced}
use gto_poker_daily_spots_ba.Publication.Reapproval.{waits_on, reapproval_blocks_day}
use gto_poker_daily_spots_ba.Publication.Retire.{IsQuarantined, quarantine-IsQuarantined}
use gto_poker_daily_spots_ba.Publication.Lifecycle.{
  replaces, perform, IsReapproval, perform-Consistent,
}

abbrev version : Key → Key → VersionStatus → SpotVersion
version id spot status = record {
  id = id;
  spot_id = spot;
  version = 1;
  schema_version = 3;
  solver_run_id = 30;
  public_payload = 0;
  private_payload = 0;
  public_payload_sha256 = 0;
  private_payload_sha256 = 0;
  validated_at = none;
  status = status;
  approved_at = none;
  scheduled_at = none;
  published_at = none;
  superseded_at = none;
}

abbrev slot : Key → ℕ → Key → SlotStatus → Slot
slot id order version_id status = record {
  id = id;
  publication_date = 5;
  slot_order = order;
  spot_version_id = version_id;
  status = status;
  published_at = none;
  cancelled_at = none;
}

abbrev attempt : Validity → Option ℕ → Option Key → AttemptRow
attempt validity at why = record {
  id = 50;
  spot_version_id = 10;
  validity = validity;
  invalidated_at = at;
  invalidation_reason = why;
  replacement_spot_version_id = none;
}

abbrev two_spots : List Spot
two_spots =
    record { id = 1; status = SpotStatus.approved; current_version_id = some 10 }
    ∷ record { id = 2; status = SpotStatus.approved; current_version_id = some 11 }
    ∷ []

-- Version 10 is scheduled on day 5, version 11 is approved.
abbrev day_db : Db
day_db = record {
  spots = two_spots;
  versions = version 10 1 VersionStatus.scheduled ∷ version 11 2 VersionStatus.approved ∷ [];
  slots = slot 100 1 10 SlotStatus.scheduled ∷ [];
  attempts = [];
  audits = [];
  next_id = 101;
}

day_db-Consistent : Consistent day_db
unfolding find
day_db-Consistent = record {
  scheduled_once = λ k. ground arith;
  published_once = λ k. ground arith;
  held_never = λ k. ground arith;
}

day_db-HasSpots : HasSpots day_db
unfolding find
day_db-HasSpots k v e = elim (Bool-cases (10 == k)) [
  | inl q ↦
      (record { id = 1; status = SpotStatus.approved; current_version_id = some 10 }, ground arith)
  | inr q ↦
      (record { id = 2; status = SpotStatus.approved; current_version_id = some 11 }, ground arith)
]

day_db-Distinct : Distinct day_db.slots
day_db-Distinct = (tt, tt)

publish_pacific_date_total_example :
    (db' : Db) × (publish_pacific_date 5 1000 day_db ≡ ok db')
    × Consistent db'
    × (count (is_scheduled_on 5) db'.slots ≡ 0)
    × ((k : Key) → Advances day_db db' k)
publish_pacific_date_total_example =
    publish_pacific_date_total 5 1000 day_db day_db-Consistent day_db-HasSpots day_db-Distinct

-- Version 10 goes, and version 11 takes its place.
abbrev replaced_db : Db
replaced_db = record {
  spots =
      record { id = 1; status = SpotStatus.archived; current_version_id = none }
      ∷ record { id = 2; status = SpotStatus.approved; current_version_id = some 11 }
      ∷ [];
  versions =
      record (version 10 1 VersionStatus.superseded) { superseded_at = some 2000 }
      ∷ record (version 11 2 VersionStatus.scheduled) { scheduled_at = some 2000 }
      ∷ [];
  slots =
      record (slot 100 1 10 SlotStatus.cancelled) { cancelled_at = some 2000 }
      ∷ slot 101 1 11 SlotStatus.scheduled
      ∷ [];
  attempts = [];
  audits = [];
  next_id = 102;
}

abbrev day_replacement : Replacement
day_replacement = record {
  slot = slot 101 1 11 SlotStatus.scheduled;
  previous_slot_status = SlotStatus.scheduled;
  invalidated_attempts = 0;
}

day_db-replaced :
    replace_published_slot 7 10 11 none 2000 day_db ≡ ok (day_replacement, replaced_db)
unfolding replace_published_slot update_spot update_version update_slot create_slot archive_old_spot
    archive_if_current invalidate_attempts latest_active_slot find update
day_db-replaced = refl

replace-IsReplaced_example : IsReplaced 10 11 day_db replaced_db day_replacement
replace-IsReplaced_example =
    replace-IsReplaced 7 10 11 none 2000 day_db replaced_db day_replacement day_db-Consistent
      day_db-Distinct day_db-replaced

day_db-scheduled : status_of 10 day_db ≡ some VersionStatus.scheduled
unfolding find
day_db-scheduled = refl

day_db-waits : 0 < count (waits_on 5 10) day_db.slots
day_db-waits = omega arith

reapproval_blocks_day_example :
    (db' : Db) × (approve_spot_version 10 2000 day_db ≡ ok db')
    × (db'.slots ≡ day_db.slots)
    × (e : PublicationError) × (publish_pacific_date 5 3000 db' ≡ err e)
reapproval_blocks_day_example =
    reapproval_blocks_day 10 5 2000 3000 day_db day_db-HasSpots day_db-scheduled day_db-waits

-- Version 10 is published on day 5, with an attempt.
abbrev live_db : Db
live_db = record {
  spots = record { id = 1; status = SpotStatus.published; current_version_id = some 10 } ∷ [];
  versions = version 10 1 VersionStatus.published ∷ [];
  slots = slot 100 1 10 SlotStatus.published ∷ [];
  attempts = attempt Validity.valid none none ∷ [];
  audits = [];
  next_id = 101;
}

live_db-Consistent : Consistent live_db
unfolding find
live_db-Consistent = record {
  scheduled_once = λ k. ground arith;
  published_once = λ k. ground arith;
  held_never = λ k. ground arith;
}

abbrev quarantined_db : Db
quarantined_db = record {
  spots = record { id = 1; status = SpotStatus.archived; current_version_id = none } ∷ [];
  versions = record (version 10 1 VersionStatus.superseded) { superseded_at = some 2000 } ∷ [];
  slots = record (slot 100 1 10 SlotStatus.cancelled) { cancelled_at = some 2000 } ∷ [];
  attempts = attempt Validity.invalidated (some 2000) (some 8) ∷ [];
  audits =
      record {
        actor = 7;
        operation = quarantine_invalid_solver_version;
        target_id = 10;
        reason = 8;
        replacement = none;
        slots = 1;
        count = 1;
      }
      ∷ [];
  next_id = 101;
}

abbrev live_quarantine : Quarantine
live_quarantine = record { spot_id = 1; cancelled_slots = 1; invalidated_attempts = 1 }

live_db-quarantined :
    quarantine_published_version 10 8 false 7 2000 live_db ≡ ok (live_quarantine, quarantined_db)
unfolding quarantine_published_version update_spot update_version archive_if_current find update
live_db-quarantined = refl

quarantine-IsQuarantined_example : IsQuarantined 10 live_db quarantined_db live_quarantine
quarantine-IsQuarantined_example =
    quarantine-IsQuarantined 10 8 7 false 2000 live_db quarantined_db live_quarantine
      live_db-Consistent live_db-quarantined

not_again : ¬ IsReapproval (replaces 7 10 11 none 2000) day_db
unfolding IsReapproval
not_again n = n

performed : perform (replaces 7 10 11 none 2000) day_db ≡ ok replaced_db
unfolding perform
performed = rw day_db-replaced refl

perform-Consistent_example : Consistent replaced_db
perform-Consistent_example =
    perform-Consistent (replaces 7 10 11 none 2000) day_db replaced_db day_db-Consistent
      day_db-Distinct day_db-HasSpots not_again performed
