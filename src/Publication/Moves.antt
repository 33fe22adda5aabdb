-- ===== src/Publication/Moves.antt =====
-- What the transactions of src/publication.ts do to the versions and to the slots of the calendar.
use mathlib.Core.Option
use gto_poker_daily_spots_ba.Prelude.{
  ℕ, ◌+◌, ◌==◌, ◌&&◌, Bool, true, false, ◌≡◌, ◌≢◌, refl, ◌⊎◌, inl, inr, List, [], ◌∷◌, ◌++◌, Option,
  none, some, Key, Time, ok, Option-cases, arith, if◌then◌else◌, bit, count, find, update,
  find-update, count-append,
}
use gto_poker_daily_spots_ba.Store.{
  VersionStatus, SlotStatus, SpotVersion, Slot, Db, update_spot, update_version, create_slot,
}
use gto_poker_daily_spots_ba.Publication.{
  mark_scheduled, allowed, assert_lifecycle_transition, approve_spot_version, schedule_spot_version,
  is_scheduled, hold_spot_version,
}

-- The status of a version, if there is such a version.
abbrev pub status_in : Key → List SpotVersion → Option VersionStatus
status_in k versions = Option.map (λ v. v.status) (find (λ (v : SpotVersion). v.id) k versions)

abbrev pub status_of : Key → Db → Option VersionStatus
status_of k db = status_in k db.versions

abbrev pub is_published_slot : SlotStatus → Bool
is_published_slot SlotStatus.published = true
is_published_slot _ = false

abbrev pub is_held : SlotStatus → Bool
is_held SlotStatus.held = true
is_held _ = false

-- How many slots of version `k` have a status that passes `p`.
abbrev pub tally : (SlotStatus → Bool) → Key → List Slot → ℕ
tally p k = count (λ (s : Slot). p s.status && s.spot_version_id == k)

abbrev pub awaits : VersionStatus → Bool
awaits VersionStatus.scheduled = true
awaits _ = false

abbrev pub appears : VersionStatus → Bool
appears VersionStatus.published = true
appears _ = false

abbrev pub holds : (VersionStatus → Bool) → Option VersionStatus → Bool
holds p none = false
holds p (some a) = p a

-- Version `j` goes from status `a` to `b`, no other version changes its status, and the slots of
-- `j` follow it: it gains or loses the scheduled or published slot that its status calls for.
pub record Moves (db db' : Db) (j : Key) (a b : VersionStatus) : Type 0 where
  pub from_status : status_of j db ≡ some a
  pub statuses : (k : Key) → status_of k db' ≡ (if j == k then some b else status_of k db)
  pub scheduled_slots :
      (k : Key)
      → tally is_scheduled k db'.slots + bit (j == k && awaits a)
        ≡ tally is_scheduled k db.slots + bit (j == k && awaits b)
  pub published_slots :
      (k : Key)
      → tally is_published_slot k db'.slots + bit (j == k && appears a)
        ≡ tally is_published_slot k db.slots + bit (j == k && appears b)
  pub held_slots : (k : Key) → tally is_held k db'.slots ≡ tally is_held k db.slots

pub status_in-update :
    (k j : Key) (f : SpotVersion → SpotVersion) (vs : List SpotVersion) (v : SpotVersion)
    → ((x : SpotVersion) → (f x).id ≡ x.id)
    → find (λ (x : SpotVersion). x.id) j vs ≡ some v
    → status_in k (update (λ (x : SpotVersion). x.id) j f vs)
      ≡ (if j == k then some (f v).status else status_in k vs)
status_in-update k j f vs v e h = ground (arith, find-update (λ (x : SpotVersion). x.id) k j f vs e)

-- A step that changes one version's status and leaves the slots alone.
pub update_version-Moves :
    (db db' : Db) (j : Key) (v : SpotVersion) (f : SpotVersion → SpotVersion)
    → ((x : SpotVersion) → (f x).id ≡ x.id)
    → find (λ (x : SpotVersion). x.id) j db.versions ≡ some v
    → db'.versions ≡ update (λ (x : SpotVersion). x.id) j f db.versions
    → db'.slots ≡ db.slots
    → bit (awaits v.status) ≡ bit (awaits (f v).status)
    → bit (appears v.status) ≡ bit (appears (f v).status)
    → Moves db db' j v.status (f v).status
update_version-Moves db db' j v f keep e versions slots same_a same_b = record {
  from_status = rw e;
  statuses = λ k. rw versions (status_in-update k j f db.versions v keep e);
  scheduled_slots = λ k. ground arith;
  published_slots = λ k. ground arith;
  held_slots = λ k. rw slots;
}

from_approved :
    (a : VersionStatus)
    → allowed a VersionStatus.approved ≡ true
    → (a ≡ VersionStatus.validated) ⊎ (a ≡ VersionStatus.scheduled)
unfolding allowed
from_approved a h = ground arith

from_scheduled :
    (a : VersionStatus) → allowed a VersionStatus.scheduled ≡ true → a ≡ VersionStatus.approved
unfolding allowed
from_scheduled a h = ground arith

pub from_published :
    (a : VersionStatus) → allowed a VersionStatus.published ≡ true → a ≡ VersionStatus.scheduled
unfolding allowed
from_published a h = ground arith

-- `approveSpotVersion` moves a version that is not scheduled from validated to approved.
pub approve-Moves :
    (k : Key) (now : Time) (db db' : Db)
    → status_of k db ≢ some VersionStatus.scheduled
    → approve_spot_version k now db ≡ ok db'
    → Moves db db' k VersionStatus.validated VersionStatus.approved
unfolding approve_spot_version update_version update_spot assert_lifecycle_transition
approve-Moves k now db db' free h =
    elim (Option-cases (find (λ (x : SpotVersion). x.id) k db.versions)) [
      | inl e ↦ absurd (ground arith)
      | inr (v, e) ↦ rw (validated_of v e) at (
          update_version-Moves db db' k v
            (λ v. record v { status = VersionStatus.approved; approved_at = some now }) (λ x. refl)
            e (ground arith) (ground arith) (rw (validated_of v e) refl)
            (rw (validated_of v e) refl))
    ]
  where
    validated_of :
        (v : SpotVersion)
        → find (λ (x : SpotVersion). x.id) k db.versions ≡ some v
        → v.status ≡ VersionStatus.validated
    validated_of v e = ground (arith, from_approved v.status, rw e at free)

pub hold-Moves :
    (k : Key) (db db' : Db)
    → hold_spot_version k db ≡ ok db'
    → (a : VersionStatus) × Moves db db' k a VersionStatus.rejected
      × (allowed a VersionStatus.rejected ≡ true)
unfolding hold_spot_version update_version assert_lifecycle_transition
hold-Moves k db db' h = elim (Option-cases (find (λ (x : SpotVersion). x.id) k db.versions)) [
  | inl e ↦ absurd (ground arith)
  | inr (v, e) ↦ (
    v.status,
    update_version-Moves db db' k v (λ v. record v { status = VersionStatus.rejected }) (λ x. refl)
        e (ground arith) (ground arith) (ground arith) (ground arith),
    ground arith,
  )
]

-- A new scheduled slot for version `j`, which goes from approved to scheduled.
pub append_slot-Moves :
    (db db' : Db) (j : Key) (v : SpotVersion) (f : SpotVersion → SpotVersion) (s : Slot)
    → ((x : SpotVersion) → (f x).id ≡ x.id)
    → find (λ (x : SpotVersion). x.id) j db.versions ≡ some v
    → v.status ≡ VersionStatus.approved
    → (f v).status ≡ VersionStatus.scheduled
    → s.status ≡ SlotStatus.scheduled
    → s.spot_version_id ≡ j
    → db'.versions ≡ update (λ (x : SpotVersion). x.id) j f db.versions
    → db'.slots ≡ db.slots ++ s ∷ []
    → Moves db db' j VersionStatus.approved VersionStatus.scheduled
append_slot-Moves db db' j v f s keep e was now st sv versions slots = record {
  from_status = ground arith;
  statuses = λ k. rw versions (rw now at (status_in-update k j f db.versions v keep e));
  scheduled_slots = λ k. ground (arith, tail is_scheduled k);
  published_slots = λ k. ground (arith, tail is_published_slot k);
  held_slots = λ k. ground (arith, tail is_held k);
}
  where
    tail :
        (p : SlotStatus → Bool) (k : Key)
        → tally p k db'.slots
          ≡ tally p k db.slots + (bit (p s.status && s.spot_version_id == k) + 0)
    tail p k = rw slots (count-append _ db.slots (s ∷ []))

pub schedule-Moves :
    (k : Key) (date order : ℕ) (now : Time) (db db' : Db) (s : Slot)
    → schedule_spot_version k date order now db ≡ ok (s, db')
    → Moves db db' k VersionStatus.approved VersionStatus.scheduled
unfolding schedule_spot_version update_version create_slot assert_lifecycle_transition
schedule-Moves k date order now db db' s h =
    elim (Option-cases (find (λ (x : SpotVersion). x.id) k db.versions)) [
      | inl e ↦ absurd (ground arith)
      | inr (v, e) ↦
          append_slot-Moves db db' k v (mark_scheduled now) s (λ x. refl) e
            (ground (arith, from_scheduled v.status)) refl (ground arith) (ground arith)
            (ground arith) (ground arith)
    ]
