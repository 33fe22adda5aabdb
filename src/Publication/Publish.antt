-- ===== src/Publication/Publish.antt =====
-- `publishPacificDate` of src/publication.ts.
use mathlib.Core.Option
use gto_poker_daily_spots_ba.Prelude.{
  ◌+◌, ◌≤◌, ◌==◌, ◌&&◌, Bool, true, ◌≡◌, subst, refl, sym, ◌∙◌, ap, ◌⊎◌, inl, inr, List, Option,
  none, some, Key, Time, ok, Option-cases, arith, if◌then◌else◌, bit, find, update, find-update,
  count-update, id-find, count-find-pos, Bool-cases,
}
use gto_poker_daily_spots_ba.Store.{
  VersionStatus, SlotStatus, SpotVersion, Slot, Spot, SpotStatus, Db, update_spot, update_version,
  update_slot,
}
use gto_poker_daily_spots_ba.Publication.{
  allowed, assert_lifecycle_transition, is_scheduled, publish_slot,
}
use gto_poker_daily_spots_ba.Publication.Moves.{
  status_of, is_published_slot, is_held, tally, Moves, status_in-update,
}
use gto_poker_daily_spots_ba.Publication.Consistent.{Consistent}
use gto_poker_daily_spots_ba.Publication.Replace.{version_id}

-- The versions' spots exist, as the foreign key says.
abbrev pub HasSpots : Db → Type 0
HasSpots db =
    (k : Key) (v : SpotVersion)
    → find version_id k db.versions ≡ some v
    → (s : Spot) × (find (λ (s : Spot). s.id) v.spot_id db.spots ≡ some s)

-- The row that the loop is about to publish.
pub record IsPending (db : Db) (s : Slot) : Type 0 where
  pub row : find (λ (t : Slot). t.id) s.id db.slots ≡ some s
  pub waiting : s.status ≡ SlotStatus.scheduled

abbrev pub mark_published : Time → Slot → Slot
mark_published now s = record s { status = SlotStatus.published; published_at = some now }

abbrev pub publish_version : Time → SpotVersion → SpotVersion
publish_version now v = record v { status = VersionStatus.published; published_at = some now }

-- A pending slot of an agreeing calendar belongs to a scheduled version.
pending_status :
    (db : Db) (s : Slot)
    → Consistent db
    → IsPending db s
    → status_of s.spot_version_id db ≡ some VersionStatus.scheduled
pending_status db s c p = awaited (status_of s.spot_version_id db) refl
  where
    at_least : 1 ≤ tally is_scheduled s.spot_version_id db.slots
    at_least = ground (
      arith,
      count-find-pos (λ (t : Slot). t.id)
          (λ (t : Slot). is_scheduled t.status && t.spot_version_id == s.spot_version_id) s.id
          db.slots s p.row,
      p.waiting,
    )

    awaited :
        (o : Option VersionStatus)
        → status_of s.spot_version_id db ≡ o
        → o ≡ some VersionStatus.scheduled
    awaited o e = ground (arith, at_least, c.scheduled_once s.spot_version_id)

-- One round of the loop succeeds on an agreeing calendar: the version and its slot are published.
pub record Published (now : Time) (s : Slot) (db db' : Db) : Type 0 where
  pub returns : publish_slot now s db ≡ ok db'
  pub moves : Moves db db' s.spot_version_id VersionStatus.scheduled VersionStatus.published
  pub slots : db'.slots ≡ update (λ (t : Slot). t.id) s.id (mark_published now) db.slots
  pub has_spots : HasSpots db'

abbrev spot_key : Spot → Key
spot_key s = s.id

abbrev show_spot : Key → Spot → Spot
show_spot k s = record s { status = SpotStatus.published; current_version_id = some k }

-- The tables after one round, for the version `v` of the slot `s`.
abbrev round_of : Time → Slot → SpotVersion → Db → Db
round_of now s v db = record db {
  versions = update version_id v.id (publish_version now) db.versions;
  spots = update spot_key v.spot_id (show_spot v.id) db.spots;
  slots = update (λ (t : Slot). t.id) s.id (mark_published now) db.slots;
}

find_spot-update :
    (i j : Key) (f : Spot → Spot) (spots : List Spot) (x : Spot)
    → ((s : Spot) → (f s).id ≡ s.id)
    → find spot_key i spots ≡ some x
    → (y : Spot) × (find spot_key i (update spot_key j f spots) ≡ some y)
find_spot-update i j f spots x keep e = elim (Bool-cases (j == i)) [
  | inl q ↦ (f x, find-update spot_key i j f spots keep ∙ rw (q, e) refl)
  | inr q ↦ (x, find-update spot_key i j f spots keep ∙ rw (q, e) refl)
]

round-HasSpots :
    (now : Time) (s : Slot) (v : SpotVersion) (db : Db)
    → HasSpots db
    → HasSpots (round_of now s v db)
round-HasSpots now s v db spots k w e = kept (Option-cases (find version_id k db.versions))
  where
    seen : find version_id k (update version_id v.id (publish_version now) db.versions) ≡ (
        if v.id == k
        then Option.map (publish_version now) (find version_id k db.versions)
        else find version_id k db.versions)
    seen = find-update version_id k v.id (publish_version now) db.versions (λ x. refl)

    kept :
        (find version_id k db.versions ≡ none)
          ⊎ ((u : SpotVersion) × (find version_id k db.versions ≡ some u))
        → (y : Spot) × (find spot_key w.spot_id
              (update spot_key v.spot_id (show_spot v.id) db.spots)
            ≡ some y)
    kept (inl n) = absurd (ground (arith, seen))
    kept (inr (u, n)) =
        let same : u.spot_id ≡ w.spot_id = ground (arith, seen) in
        let (x, found) = spots k u n in
        rw same at
          (find_spot-update u.spot_id v.spot_id (show_spot v.id) db.spots x (λ t. refl) found)

round-Moves :
    (now : Time) (s : Slot) (v : SpotVersion) (db : Db)
    → IsPending db s
    → find version_id v.id db.versions ≡ some v
    → v.status ≡ VersionStatus.scheduled
    → s.spot_version_id ≡ v.id
    → Moves db (round_of now s v db) v.id VersionStatus.scheduled VersionStatus.published
round-Moves now s v db p e was owner = record {
  from_status = rw e (ap some was);
  statuses = λ i. status_in-update i v.id (publish_version now) db.versions v (λ x. refl) e;
  scheduled_slots = λ i. ground (arith, p.waiting, count_at is_scheduled i);
  published_slots = λ i. ground (arith, p.waiting, count_at is_published_slot i);
  held_slots = λ i. ground (arith, p.waiting, count_at is_held i);
}
  where
    count_at :
        (q : SlotStatus → Bool) (i : Key)
        → tally q i (round_of now s v db).slots + bit (q s.status && s.spot_version_id == i)
          ≡ tally q i db.slots + bit (q SlotStatus.published && s.spot_version_id == i)
    count_at q i = count-update (λ (t : Slot). t.id) _ s.id (mark_published now) db.slots s p.row

scheduled_to_published : allowed VersionStatus.scheduled VersionStatus.published ≡ true
unfolding allowed
scheduled_to_published = refl

publish_slot_returns :
    (now : Time) (s : Slot) (v : SpotVersion) (x : Spot) (db : Db)
    → IsPending db s
    → find version_id s.spot_version_id db.versions ≡ some v
    → find version_id v.id db.versions ≡ some v
    → v.status ≡ VersionStatus.scheduled
    → find spot_key v.spot_id db.spots ≡ some x
    → publish_slot now s db ≡ ok (round_of now s v db)
unfolding publish_slot update_version update_spot update_slot assert_lifecycle_transition
publish_slot_returns now s v x db p e f was found = ground (arith, scheduled_to_published, p.row)

pub publish_slot-Published :
    (now : Time) (s : Slot) (db : Db)
    → Consistent db
    → HasSpots db
    → IsPending db s
    → (db' : Db) × Published now s db db'
publish_slot-Published now s db c spots p =
    elim (Option-cases (find version_id s.spot_version_id db.versions)) [
      | inl e ↦ absurd (ground (arith, pending_status db s c p))
      | inr (v, e) ↦ found v e (id-find version_id s.spot_version_id db.versions v e)
    ]
  where
    found :
        (v : SpotVersion)
        → find version_id s.spot_version_id db.versions ≡ some v
        → v.id ≡ s.spot_version_id
        → (db' : Db) × Published now s db db'
    found v e i =
        let own : find version_id v.id db.versions ≡ some v =
          subst (λ k. find version_id k db.versions ≡ some v) (sym i) e in
        let was : v.status ≡ VersionStatus.scheduled = ground (arith, pending_status db s c p) in
        let (x, there) = spots s.spot_version_id v e in
        (
          round_of now s v db,
          record {
            returns = publish_slot_returns now s v x db p e own was there;
            moves =
                subst
                  (λ k.
                    Moves db (round_of now s v db) k VersionStatus.scheduled
                      VersionStatus.published)
                  i (round-Moves now s v db p own was (sym i));
            slots = refl;
            has_spots = round-HasSpots now s v db spots;
          },
        )
