-- ===== src/Publication/Calendar.antt =====
-- The loop of `publishPacificDate` of src/publication.ts over the slots of a day.
use gto_poker_daily_spots_ba.Prelude.{
  ℕ, suc, ◌+◌, ◌==◌, Bool, true, ◌≡◌, ◌≢◌, All, leb, subst, ==_self, select, All-select, length,
  refl, sym, ◌⊎◌, inl, inr, List, [], ◌∷◌, some, Key, Time, ok, arith, count, find, update,
  find-update, count-update, Bool-cases, ==_iff,
}
use gto_poker_daily_spots_ba.Store.{VersionStatus, Slot, Db}
use gto_poker_daily_spots_ba.Publication.{
  insert_by_order, sort_by_order, is_scheduled_on, publish_slots, publish_pacific_date,
}
use gto_poker_daily_spots_ba.Publication.Moves.{status_of, Moves}
use gto_poker_daily_spots_ba.Publication.Consistent.{Consistent, Moves-Consistent, Distinct}
use gto_poker_daily_spots_ba.Publication.Publish.{HasSpots, mark_published, publish_slot-Published}

abbrev slot_id : Slot → Key
slot_id s = s.id

-- Each row of a table with distinct keys is found under its key.
rows-found :
    (slots : List Slot) → Distinct slots → All (λ s. find slot_id s.id slots ≡ some s) slots
unfolding find
rows-found [] d = tt
rows-found (s ∷ rest) d = (rw (==_self s.id) refl, later rest d.0 (rows-found rest d.1))
  where
    later :
        (ts : List Slot)
        → All (λ t. t.id ≢ s.id) ts
        → All (λ t. find slot_id t.id rest ≡ some t) ts
        → All (λ t. find slot_id t.id (s ∷ rest) ≡ some t) ts
    later = elim [ [] ↦ λ a b. tt | t ∷ (ts → ih) ↦ λ a b. (ground (arith, a.0, b.0), ih a.1 b.1) ]

module _ (P : Slot → Type 0) where
  All-insert_by_order : (s : Slot) (ts : List Slot) → P s → All P ts → All P (insert_by_order s ts)
  unfolding insert_by_order
  All-insert_by_order s [] p h = (p, tt)
  All-insert_by_order s (t ∷ ts) p h = elim (Bool-cases (leb s.slot_order t.slot_order)) [
    | inl e ↦ rw e (p, h)
    | inr e ↦ rw e (h.0, All-insert_by_order s ts p h.1)
  ]

  All-sort_by_order : (ts : List Slot) → All P ts → All P (sort_by_order ts)
  unfolding sort_by_order
  All-sort_by_order [] h = tt
  All-sort_by_order (t ∷ ts) h =
      All-insert_by_order t (sort_by_order ts) h.0 (All-sort_by_order ts h.1)

Distinct-insert_by_order :
    (s : Slot) (ts : List Slot)
    → All (λ t. t.id ≢ s.id) ts
    → Distinct ts
    → Distinct (insert_by_order s ts)
unfolding insert_by_order
Distinct-insert_by_order s [] h d = (tt, tt)
Distinct-insert_by_order s (t ∷ ts) h d = elim (Bool-cases (leb s.slot_order t.slot_order)) [
  | inl e ↦ rw e (h, d)
  | inr e ↦
      rw e
        (All-insert_by_order _ s ts (λ q. h.0 (sym q)) d.0, Distinct-insert_by_order s ts h.1 d.1)
]

Distinct-sort_by_order : (ts : List Slot) → Distinct ts → Distinct (sort_by_order ts)
unfolding sort_by_order
Distinct-sort_by_order [] d = tt
Distinct-sort_by_order (t ∷ ts) d =
    Distinct-insert_by_order t (sort_by_order ts) (All-sort_by_order _ ts d.0)
      (Distinct-sort_by_order ts d.1)

Distinct-select : (p : Slot → Bool) (ts : List Slot) → Distinct ts → Distinct (select p ts)
Distinct-select p [] d = tt
Distinct-select p (t ∷ ts) d = elim (Bool-cases (p t)) [
  | inl e ↦ rw e (All-select _ p ts d.0, Distinct-select p ts d.1)
  | inr e ↦ rw e (Distinct-select p ts d.1)
]

length-insert_by_order :
    (s : Slot) (ts : List Slot) → length (insert_by_order s ts) ≡ suc (length ts)
unfolding insert_by_order
length-insert_by_order s [] = refl
length-insert_by_order s (t ∷ ts) = ground (arith, length-insert_by_order s ts)

length-sort_by_order : (ts : List Slot) → length (sort_by_order ts) ≡ length ts
unfolding sort_by_order
length-sort_by_order [] = refl
length-sort_by_order (t ∷ ts) =
    omega (arith, length-insert_by_order t (sort_by_order ts), length-sort_by_order ts)

length-select_count : (p : Slot → Bool) (ts : List Slot) → length (select p ts) ≡ count p ts
length-select_count p [] = refl
length-select_count p (t ∷ ts) = ground (arith, length-select_count p ts)

select-passes : (p : Slot → Bool) (ts : List Slot) → All (λ t. p t ≡ true) (select p ts)
select-passes p [] = tt
select-passes p (t ∷ ts) = elim (Bool-cases (p t)) [
  | inl e ↦ rw e (e, select-passes p ts)
  | inr e ↦ rw e (select-passes p ts)
]

-- A version that changes goes from scheduled to published.
abbrev pub Advances : Db → Db → Key → Type 0
Advances db db' k =
    (status_of k db' ≡ status_of k db)
    ⊎ ((status_of k db ≡ some VersionStatus.scheduled)
        × (status_of k db' ≡ some VersionStatus.published))

-- What the loop leaves behind.
pub record IsPublished (date : ℕ) (now : Time) (todo : List Slot) (db db' : Db) : Type 0 where
  pub returns : publish_slots now todo db ≡ ok db'
  pub agrees : Consistent db'
  pub left :
      count (is_scheduled_on date) db'.slots + length todo ≡ count (is_scheduled_on date) db.slots
  pub advances : (k : Key) → Advances db db' k

still_pending :
    (date : ℕ) (now : Time) (s : Slot) (db db' : Db) (ts : List Slot)
    → db'.slots ≡ update slot_id s.id (mark_published now) db.slots
    → All (λ t. t.id ≢ s.id) ts
    → All (λ t. (find slot_id t.id db.slots ≡ some t) × (is_scheduled_on date t ≡ true)) ts
    → All (λ t. (find slot_id t.id db'.slots ≡ some t) × (is_scheduled_on date t ≡ true)) ts
still_pending date now s db db' [] e n h = tt
still_pending date now s db db' (t ∷ ts) e n h = (
  (
    ground (
      arith,
      e,
      h.0,
      n.0,
      find-update slot_id t.id s.id (mark_published now) db.slots (λ x. refl),
    ),
    h.0.1,
  ),
  still_pending date now s db db' ts e n.1 h.1,
)

round_count :
    (date : ℕ) (now : Time) (s : Slot) (db db' : Db)
    → db'.slots ≡ update slot_id s.id (mark_published now) db.slots
    → find slot_id s.id db.slots ≡ some s
    → is_scheduled_on date s ≡ true
    → count (is_scheduled_on date) db'.slots + 1 ≡ count (is_scheduled_on date) db.slots
round_count date now s db db' e f h = ground (
  arith,
  e,
  h,
  count-update slot_id (is_scheduled_on date) s.id (mark_published now) db.slots s f,
)

Advances-step :
    (db db1 db2 : Db) (j k : Key)
    → Moves db db1 j VersionStatus.scheduled VersionStatus.published
    → Advances db1 db2 k
    → Advances db db2 k
Advances-step db db1 db2 j k m a = elim (Bool-cases (j == k)) [
  | inl q ↦
      let here : status_of k db ≡ some VersionStatus.scheduled =
        subst (λ i. status_of i db ≡ some VersionStatus.scheduled) ((==_iff j k).0 q)
          m.from_status in
      ground (arith, rw q at (m.statuses k), here, a)
  | inr q ↦ ground (arith, rw q at (m.statuses k), a)
]

publish_slots-IsPublished :
    (date : ℕ) (now : Time) (todo : List Slot) (db : Db)
    → Consistent db
    → HasSpots db
    → Distinct todo
    → All (λ t. (find slot_id t.id db.slots ≡ some t) × (is_scheduled_on date t ≡ true)) todo
    → (db' : Db) × IsPublished date now todo db db'
unfolding publish_slots
publish_slots-IsPublished date now [] db c f d h =
    (db, record { returns = refl; agrees = c; left = omega arith; advances = λ k. inl refl })
publish_slots-IsPublished date now (s ∷ rest) db c f d h =
    let (db1, p) =
      publish_slot-Published now s db c f
        (record { row = h.0.0; waiting = ground (arith, h.0.1) }) in
    let (db2, q) =
      publish_slots-IsPublished date now rest db1 (Moves-Consistent p.moves c) p.has_spots d.1
        (still_pending date now s db db1 rest p.slots d.0 h.1) in
    (
      db2,
      record {
        returns = rw p.returns q.returns;
        agrees = q.agrees;
        left = omega (arith, q.left, round_count date now s db db1 p.slots h.0.0 h.0.1);
        advances = λ k. Advances-step db db1 db2 s.spot_version_id k p.moves (q.advances k);
      },
    )

-- On a calendar that agrees with the versions, where every version's spot is there and no two
-- slots have one key, `publishPacificDate` never throws. After it no slot of the day is left
-- scheduled, the calendar still agrees, and a version either keeps its status or goes from
-- scheduled to published.
pub publish_pacific_date_total :
    (date : ℕ) (now : Time) (db : Db)
    → Consistent db
    → HasSpots db
    → Distinct db.slots
    → (db' : Db) × (publish_pacific_date date now db ≡ ok db')
      × Consistent db'
      × (count (is_scheduled_on date) db'.slots ≡ 0)
      × ((k : Key) → Advances db db' k)
unfolding publish_pacific_date
publish_pacific_date_total date now db c f d =
    let (db', q) =
      publish_slots-IsPublished date now (sort_by_order (select (is_scheduled_on date) db.slots)) db
        c f (Distinct-sort_by_order _ (Distinct-select _ db.slots d))
        (All-sort_by_order _ _ chosen) in
    (db', q.returns, q.agrees, none_left db' q, q.advances)
  where
    both :
        (ts : List Slot)
        → All (λ t. find slot_id t.id db.slots ≡ some t) ts
        → All (λ t. is_scheduled_on date t ≡ true) ts
        → All (λ t. (find slot_id t.id db.slots ≡ some t) × (is_scheduled_on date t ≡ true)) ts
    both = elim [ [] ↦ λ a b. tt | t ∷ (ts → ih) ↦ λ a b. ((a.0, b.0), ih a.1 b.1) ]

    chosen :
        All
          (λ t. (find slot_id t.id db.slots ≡ some t) × (is_scheduled_on date t ≡ true))
          (select (is_scheduled_on date) db.slots)
    chosen = both _ (All-select _ _ db.slots (rows-found db.slots d)) (select-passes _ db.slots)

    none_left :
        (db' : Db)
        → IsPublished date now (sort_by_order (select (is_scheduled_on date) db.slots)) db db'
        → count (is_scheduled_on date) db'.slots ≡ 0
    none_left db' q = omega (
      arith,
      q.left,
      length-sort_by_order (select (is_scheduled_on date) db.slots),
      length-select_count (is_scheduled_on date) db.slots,
    )
