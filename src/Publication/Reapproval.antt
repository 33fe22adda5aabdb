-- ===== src/Publication/Reapproval.antt =====
-- `approveSpotVersion` of src/publication.ts on a version that is scheduled already.
use gto_poker_daily_spots_ba.Prelude.{
  ℕ, ◌+◌, ◌<◌, ◌==◌, ◌&&◌, Bool, true, false, ◌≡◌, leb, subst, ==_self, select, refl, sym, ◌∙◌, inl,
  inr, List, [], ◌∷◌, some, Key, Time, ok, Option-cases, Result-cases, err, id-find, Result-cases,
  arith, bit, count, find, update, id-find, Bool-cases, ==_iff,
}
use gto_poker_daily_spots_ba.Store.{
  VersionStatus, SpotVersion, Slot, Spot, SpotStatus, PublicationError, Spot, SpotStatus, Db,
  update_spot, update_version, update_slot,
}
use gto_poker_daily_spots_ba.Publication.{
  allowed, assert_lifecycle_transition, approve_spot_version, publish_slot, insert_by_order,
  sort_by_order, is_scheduled_on, publish_slots, publish_pacific_date,
}
use gto_poker_daily_spots_ba.Publication.Moves.{from_published, status_of, status_in-update}
use gto_poker_daily_spots_ba.Publication.Publish.{HasSpots, publish_version}
use gto_poker_daily_spots_ba.Publication.Replace.{version_id}

-- A slot of version `k` that is scheduled on a day.
abbrev pub waits_on : ℕ → Key → Slot → Bool
waits_on date k s = is_scheduled_on date s && s.spot_version_id == k

abbrev of_version : Key → Slot → Bool
of_version k s = s.spot_version_id == k

count-insert_by_order :
    (p : Slot → Bool) (s : Slot) (ts : List Slot)
    → count p (insert_by_order s ts) ≡ bit (p s) + count p ts
unfolding insert_by_order
count-insert_by_order p s [] = refl
count-insert_by_order p s (t ∷ ts) = elim (Bool-cases (leb s.slot_order t.slot_order)) [
  | inl e ↦ rw e refl
  | inr e ↦ rw e (omega (arith, count-insert_by_order p s ts))
]

count-sort_by_order : (p : Slot → Bool) (ts : List Slot) → count p (sort_by_order ts) ≡ count p ts
unfolding sort_by_order
count-sort_by_order p [] = refl
count-sort_by_order p (t ∷ ts) =
    omega (arith, count-insert_by_order p t (sort_by_order ts), count-sort_by_order p ts)

count-select :
    (p q : Slot → Bool) (ts : List Slot) → count q (select p ts) ≡ count (λ t. p t && q t) ts
count-select p q [] = refl
count-select p q (t ∷ ts) = elim (Bool-cases (p t)) [
  | inl e ↦ rw e (omega (arith, count-select p q ts))
  | inr e ↦ rw e (omega (arith, count-select p q ts))
]

-- A round that succeeds is not for a version that is approved, and leaves it approved.
publish_slot-passes :
    (now : Time) (s : Slot) (db db1 : Db) (k : Key)
    → publish_slot now s db ≡ ok db1
    → status_of k db ≡ some VersionStatus.approved
    → (of_version k s ≡ false) × (status_of k db1 ≡ some VersionStatus.approved)
unfolding publish_slot update_version update_spot update_slot assert_lifecycle_transition
publish_slot-passes now s db db1 k h a =
    elim (Option-cases (find version_id s.spot_version_id db.versions)) [
      | inl e ↦ absurd (ground arith)
      | inr (v, e) ↦ passes v e (id-find version_id s.spot_version_id db.versions v e)
    ]
  where
    other_version :
        (v : SpotVersion)
        → find version_id s.spot_version_id db.versions ≡ some v
        → v.status ≡ VersionStatus.scheduled
        → of_version k s ≡ false
    other_version v e was = elim (Bool-cases (of_version k s)) [
      | inr q ↦ q
      | inl q ↦
          let there : find version_id k db.versions ≡ some v =
            subst (λ j. find version_id j db.versions ≡ some v) ((==_iff s.spot_version_id k).0 q)
              e in
          absurd (ground (arith, there, was, a))
    ]

    passes :
        (v : SpotVersion)
        → find version_id s.spot_version_id db.versions ≡ some v
        → v.id ≡ s.spot_version_id
        → (of_version k s ≡ false) × (status_of k db1 ≡ some VersionStatus.approved)
    passes v e i =
        let was : v.status ≡ VersionStatus.scheduled = ground (arith, from_published v.status) in
        let other : of_version k s ≡ false = other_version v e was in
        let own : find version_id v.id db.versions ≡ some v =
          subst (λ j. find version_id j db.versions ≡ some v) (sym i) e in
        (
          other,
          ground (
            arith,
            i,
            other,
            status_in-update k v.id (publish_version now) db.versions v (λ x. refl) own,
          ),
        )

publish_slots-passes :
    (now : Time) (todo : List Slot) (db db' : Db) (k : Key)
    → publish_slots now todo db ≡ ok db'
    → status_of k db ≡ some VersionStatus.approved
    → count (of_version k) todo ≡ 0
unfolding publish_slots
publish_slots-passes now [] db db' k h a = refl
publish_slots-passes now (s ∷ rest) db db' k h a = elim (Result-cases (publish_slot now s db)) [
  | inl (db1, e) ↦
      let passes = publish_slot-passes now s db db1 k e a in
      rw passes.0 (omega (arith, publish_slots-passes now rest db1 db' k (rw e at h) passes.1))
  | inr (x, e) ↦ absurd (ground arith)
]

blocked :
    (k : Key) (date : ℕ) (later : Time) (db : Db)
    → status_of k db ≡ some VersionStatus.approved
    → 0 < count (waits_on date k) db.slots
    → (e : PublicationError) × (publish_pacific_date date later db ≡ err e)
unfolding publish_pacific_date
blocked k date later db a waiting = elim (Result-cases (publish_pacific_date date later db)) [
  | inr (e, q) ↦ (e, q)
  | inl (db', q) ↦ absurd (
      omega (
        arith,
        waiting,
        publish_slots-passes later (sort_by_order (select (is_scheduled_on date) db.slots)) db db' k
            q a,
        count-sort_by_order (of_version k) (select (is_scheduled_on date) db.slots),
        count-select (is_scheduled_on date) (of_version k) db.slots,
      ))
]

abbrev spot_key : Spot → Key
spot_key s = s.id

abbrev approve_version : Time → SpotVersion → SpotVersion
approve_version now v = record v { status = VersionStatus.approved; approved_at = some now }

abbrev reapproved_tables : Key → Time → SpotVersion → Db → Db
reapproved_tables k now v db = record db {
  versions = update version_id k (approve_version now) db.versions;
  spots =
      update spot_key v.spot_id
        (λ s. record s { status = SpotStatus.approved; current_version_id = some v.id }) db.spots;
}

scheduled_to_approved : allowed VersionStatus.scheduled VersionStatus.approved ≡ true
unfolding allowed
scheduled_to_approved = refl

approve_returns :
    (k : Key) (now : Time) (v : SpotVersion) (x : Spot) (db : Db)
    → find version_id k db.versions ≡ some v
    → v.status ≡ VersionStatus.scheduled
    → find spot_key v.spot_id db.spots ≡ some x
    → approve_spot_version k now db ≡ ok (reapproved_tables k now v db)
unfolding approve_spot_version update_version update_spot assert_lifecycle_transition
approve_returns k now v x db e s found = ground (arith, scheduled_to_approved)

-- A scheduled version can be approved again if its spot is there, since the table of transitions
-- has SCHEDULED to APPROVED. The slots stay as they are. If one of the version's slots is
-- scheduled for a day, `publishPacificDate` throws for that day from then on: none of the slots of
-- that day is published.
pub reapproval_blocks_day :
    (k : Key) (date : ℕ) (now later : Time) (db : Db)
    → HasSpots db
    → status_of k db ≡ some VersionStatus.scheduled
    → 0 < count (waits_on date k) db.slots
    → (db' : Db) × (approve_spot_version k now db ≡ ok db')
      × (db'.slots ≡ db.slots)
      × (e : PublicationError) × (publish_pacific_date date later db' ≡ err e)
reapproval_blocks_day k date now later db f was waiting =
    elim (Option-cases (find version_id k db.versions)) [
      | inl e ↦ absurd (ground arith)
      | inr (v, e) ↦ (let (x, there) = f k v e in reapproved v x e (ground arith) there)
    ]
  where
    reapproved :
        (v : SpotVersion) (x : Spot)
        → find version_id k db.versions ≡ some v
        → v.status ≡ VersionStatus.scheduled
        → find spot_key v.spot_id db.spots ≡ some x
        → (db' : Db) × (approve_spot_version k now db ≡ ok db')
          × (db'.slots ≡ db.slots)
          × (e : PublicationError) × (publish_pacific_date date later db' ≡ err e)
    reapproved v x e s found =
        let db' = reapproved_tables k now v db in
        let (p, q) =
          blocked k date later db'
            (status_in-update k k (approve_version now) db.versions v (λ y. refl) e
              ∙ rw (==_self k) refl)
            waiting in
        (db', approve_returns k now v x db e s found, refl, p, q)
