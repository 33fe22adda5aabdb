-- ===== src/Synthetic/Retired.antt =====
-- The calendar after scripts/retire-synthetic-spot.mjs.
use gto_poker_daily_spots_ba.Prelude.{
  ℕ, Bool, true, false, ◌≡◌, refl, ◌∙◌, ap, sym, inl, inr, List, none, some, Key, Time, ok, arith,
  bit, count, find, update, find-update, Bool-cases, ==_self, ◌==◌, if◌then◌else◌,
}
use gto_poker_daily_spots_ba.Store.{
  VersionStatus, SlotStatus, SpotStatus, Spot, SpotVersion, Db, is_active, update_spot,
}
use gto_poker_daily_spots_ba.Publication.{is_scheduled}
use gto_poker_daily_spots_ba.Publication.Moves.{
  status_of, is_published_slot, is_held, tally, awaits, appears, holds,
}
use gto_poker_daily_spots_ba.Publication.Consistent.{Consistent}
use gto_poker_daily_spots_ba.Synthetic.{
  is_live, spot_version_ids, is_one_of, is_slot_of, is_live_of, retire_versions, retire_spot,
}
use gto_poker_daily_spots_ba.Synthetic.Cancelled.{
  cancelled_slots, superseded_versions, tally-cancelled, tally-kept, retired_status,
  find-superseded, other_slots, other_slots-cancelled, retired-live, status-superseded,
  retired-kept, retired-idle,
}

module _ (spot_id : Key) (now : Time) (db : Db) where
  abbrev ids : List Key
  ids = spot_version_ids spot_id db

  abbrev archive : Spot → Spot
  archive s = record s { status = SpotStatus.archived; current_version_id = none }

  abbrev retired : Db
  retired = record db {
    slots = cancelled_slots ids now db.slots;
    versions = superseded_versions ids now db.versions;
    spots = update (λ (s : Spot). s.id) spot_id archive db.spots;
  }

  -- Nothing of the spot is on the calendar or can be put there, its attempts are kept, the other
  -- versions and their slots stay, and the calendar agrees with the versions.
  pub record IsRetired (db' : Db) : Type 0 where
    pub agrees : Consistent db'
    pub off_calendar : (k : Key) → is_one_of ids k ≡ true → tally is_active k db'.slots ≡ 0
    pub superseded :
        (k : Key) (a : VersionStatus)
        → is_one_of ids k ≡ true
        → status_of k db ≡ some a
        → status_of k db' ≡ (if is_live a then some VersionStatus.superseded else some a)
    pub other_versions :
        (k : Key)
        → is_one_of ids k ≡ false
        → find (λ (v : SpotVersion). v.id) k db'.versions
          ≡ find (λ (v : SpotVersion). v.id) k db.versions
    pub slots_of_others : other_slots ids db'.slots ≡ other_slots ids db.slots
    pub other_spots :
        (k : Key)
        → spot_id == k ≡ false
        → find (λ (x : Spot). x.id) k db'.spots ≡ find (λ (x : Spot). x.id) k db.spots
    pub archived :
        (s : Spot)
        → find (λ (x : Spot). x.id) spot_id db.spots ≡ some s
        → find (λ (x : Spot). x.id) spot_id db'.spots ≡ some (archive s)
    pub attempts_kept : db'.attempts ≡ db.attempts

  status-retired :
      (k : Key) → status_of k retired ≡ retired_status (is_one_of ids k) (status_of k db)
  status-retired k = status-superseded ids k now db.versions

  follows_version :
      (p : SlotStatus → Bool) (q : VersionStatus → Bool) (k : Key)
      → p SlotStatus.cancelled ≡ false
      → ((t : SlotStatus) → p t ≡ true → is_active t ≡ true)
      → ((a : VersionStatus) → is_live a ≡ false → q a ≡ false)
      → tally p k db.slots ≡ bit (holds q (status_of k db))
      → tally p k retired.slots ≡ bit (holds q (status_of k retired))
  follows_version p q k off on dead before = elim (Bool-cases (is_one_of ids k)) [
    | inl one ↦
        tally-cancelled p ids k now off on db.slots one
        ∙ sym (
            ap (λ o. bit (holds q o))
              (status-retired k ∙ ap (λ b. retired_status b (status_of k db)) one)
            ∙ retired-idle q (status_of k db) dead)
    | inr other ↦
        tally-kept p ids k now off on db.slots other
        ∙ before
        ∙ sym (
            ap (λ o. bit (holds q o))
              (status-retired k
                ∙ ap (λ b. retired_status b (status_of k db)) other
                ∙ retired-kept (status_of k db)))
  ]

  held-retired : (k : Key) → tally is_held k db.slots ≡ 0 → tally is_held k retired.slots ≡ 0
  held-retired k none_held = elim (Bool-cases (is_one_of ids k)) [
    | inl one ↦ tally-cancelled is_held ids k now refl (λ t e. ground arith) db.slots one
    | inr other ↦ tally-kept is_held ids k now refl (λ t e. ground arith) db.slots other ∙ none_held
  ]

  retired-IsRetired : Consistent db → IsRetired retired
  retired-IsRetired c = record {
    agrees = record {
      scheduled_once = λ k.
          follows_version is_scheduled awaits k refl (λ t e. ground arith) (λ a e. ground arith)
            (c.scheduled_once k);
      published_once = λ k.
          follows_version is_published_slot appears k refl (λ t e. ground arith)
            (λ a e. ground arith) (c.published_once k);
      held_never = λ k. held-retired k (c.held_never k);
    };
    off_calendar = λ k one. tally-cancelled is_active ids k now refl (λ t e. e) db.slots one;
    superseded = λ k a one e.
        status-retired k
        ∙ ap (λ b. retired_status b (status_of k db)) one
        ∙ retired-live (status_of k db) a e;
    other_versions = λ k other. find-superseded ids k now db.versions other;
    slots_of_others = other_slots-cancelled ids now db.slots;
    other_spots = λ k other.
        ground
          (arith, find-update (λ (x : Spot). x.id) k spot_id archive db.spots (λ x. refl), other);
    archived = λ s e. ground (
      arith,
      find-update (λ (x : Spot). x.id) spot_id spot_id archive db.spots (λ x. refl),
      ==_self spot_id,
      e,
    );
    attempts_kept = refl;
  }

-- A spot that is there is retired, whatever the state of its versions: the transaction succeeds. None of
-- the spot's versions has an active slot then, each that was neither rejected nor superseded is
-- superseded, and the others keep their status; the spot is archived without a current version. The
-- other spots, the other versions with all their slots, and the attempts are as before. A calendar that
-- agrees with its versions still does.
pub retire_spot-IsRetired :
    (spot_id : Key) (now : Time) (db : Db) (s : Spot)
    → Consistent db
    → find (λ (x : Spot). x.id) spot_id db.spots ≡ some s
    → (counts : ℕ × ℕ) × (db' : Db) × (retire_spot spot_id now db ≡ ok (some counts, db'))
      × IsRetired spot_id now db db'
unfolding retire_spot retire_versions update_spot
retire_spot-IsRetired spot_id now db s c e =
    let ids = spot_version_ids spot_id db in
    (
      (count (is_live_of ids) db.versions, count (is_slot_of ids) db.slots),
      retired spot_id now db,
      rw (retire_spot, e, retire_versions, update_spot, e) refl,
      retired-IsRetired spot_id now db c,
    )
