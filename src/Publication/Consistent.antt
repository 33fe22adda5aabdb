-- ===== src/Publication/Consistent.antt =====
-- The agreement of the calendar with the versions, under src/publication.ts.
use gto_poker_daily_spots_ba.Prelude.{
  ℕ, ◌+◌, ◌==◌, ◌&&◌, Bool, true, false, ◌≡◌, ◌≢◌, All, ltb, subst, ◌∙◌, ap, inl, inr, List, [],
  ◌∷◌, Option, some, Key, Option-cases, arith, if◌then◌else◌, bit, count, find, Bool-cases, ==_iff,
}
use gto_poker_daily_spots_ba.Store.{VersionStatus, Slot, Db, is_active}
use gto_poker_daily_spots_ba.Publication.{is_scheduled, latest_active_slot}
use gto_poker_daily_spots_ba.Publication.Moves.{
  status_of, is_published_slot, is_held, tally, awaits, appears, holds, Moves,
}

-- The calendar and the versions agree: a version has one scheduled slot if it is scheduled, one
-- published slot if it is published, and no other active slot.
pub record Consistent (db : Db) : Type 0 where
  pub scheduled_once :
      (k : Key) → tally is_scheduled k db.slots ≡ bit (holds awaits (status_of k db))
  pub published_once :
      (k : Key) → tally is_published_slot k db.slots ≡ bit (holds appears (status_of k db))
  pub held_never : (k : Key) → tally is_held k db.slots ≡ 0

moved :
    (p : VersionStatus → Bool) (t t' j k : ℕ) (o o' : Option VersionStatus) (a b : VersionStatus)
    → t' + bit (j == k && p a) ≡ t + bit (j == k && p b)
    → o' ≡ (if j == k then some b else o)
    → (j ≡ k → o ≡ some a)
    → t ≡ bit (holds p o)
    → t' ≡ bit (holds p o')
moved p t t' j k o o' a b count status was before = elim (Bool-cases (j == k)) [
  | inl q ↦
      rw (rw q at status)
        (omega (arith, rw q at count, before, ap (λ x. bit (holds p x)) (was ((==_iff j k).0 q))))
  | inr q ↦ rw (rw q at status) (omega (arith, rw q at count, before))
]

pub Moves-Consistent :
    {db db' : Db} {j : Key} {a b : VersionStatus}
    → Moves db db' j a b
    → Consistent db
    → Consistent db'
Moves-Consistent {db} {db'} {j} {a} {b} m c = record {
  scheduled_once = λ k.
      moved awaits _ _ j k (status_of k db) (status_of k db') a b (m.scheduled_slots k)
        (m.statuses k) (was k) (c.scheduled_once k);
  published_once = λ k.
      moved appears _ _ j k (status_of k db) (status_of k db') a b (m.published_slots k)
        (m.statuses k) (was k) (c.published_once k);
  held_never = λ k. m.held_slots k ∙ c.held_never k;
}
  where
    was : (k : Key) → j ≡ k → status_of k db ≡ some a
    was k e = rw (← e) m.from_status

-- No two slots have one primary key.
abbrev pub Distinct : List Slot → Type 0
Distinct [] = Unit {0}
Distinct (s ∷ rest) = All (λ t. t.id ≢ s.id) rest × Distinct rest

find-ne :
    (k j : Key) (rest : List Slot) (s : Slot)
    → find (λ (t : Slot). t.id) k rest ≡ some s
    → All (λ t. t.id ≢ j) rest
    → (j == k) ≡ false
unfolding find
find-ne k j [] s e h = cc
find-ne k j (t ∷ rest) s e h = elim (Bool-cases (t.id == k)) [
  | inl q ↦ ground (arith, h.0)
  | inr q ↦ find-ne k j rest s (rw q at e) h.1
]

-- The slot that `findFirst` returns is the row with its primary key.
pub record IsActiveRow (k : Key) (slots : List Slot) (s : Slot) : Type 0 where
  pub row : find (λ (t : Slot). t.id) s.id slots ≡ some s
  pub active : is_active s.status ≡ true
  pub owner : s.spot_version_id ≡ k

IsActiveRow-cons :
    (k : Key) (t : Slot) (rest : List Slot) (s : Slot)
    → Distinct (t ∷ rest)
    → IsActiveRow k rest s
    → IsActiveRow k (t ∷ rest) s
unfolding find
IsActiveRow-cons k t rest s d r = record {
  row = rw (find-ne s.id t.id rest s r.row d.0) r.row;
  active = r.active;
  owner = r.owner;
}

IsActiveRow-head :
    (k : Key) (t : Slot) (rest : List Slot)
    → (is_active t.status && t.spot_version_id == k) ≡ true
    → IsActiveRow k (t ∷ rest) t
unfolding find
IsActiveRow-head k t rest h = record {
  row = ground arith;
  active = ground arith;
  owner = ground arith;
}

pub latest-IsActiveRow :
    (k : Key) (slots : List Slot) (s : Slot)
    → Distinct slots
    → latest_active_slot k slots ≡ some s
    → IsActiveRow k slots s
unfolding latest_active_slot
latest-IsActiveRow k [] s d e = absurd (cc)
latest-IsActiveRow k (t ∷ rest) s d e =
    elim (Bool-cases (is_active t.status && t.spot_version_id == k)) [
      | inl q ↦ elim (Option-cases (latest_active_slot k rest)) [
        | inl n ↦ subst (IsActiveRow k (t ∷ rest)) (ground arith) (IsActiveRow-head k t rest q)
        | inr (u, n) ↦ elim (Bool-cases (ltb t.publication_date u.publication_date)) [
          | inl l ↦
              subst (IsActiveRow k (t ∷ rest)) (ground arith)
                (IsActiveRow-cons k t rest u d (latest-IsActiveRow k rest u d.1 n))
          | inr l ↦ subst (IsActiveRow k (t ∷ rest)) (ground arith) (IsActiveRow-head k t rest q)
        ]
      ]
      | inr q ↦ IsActiveRow-cons k t rest s d (latest-IsActiveRow k rest s d.1 (rw q at e))
    ]
