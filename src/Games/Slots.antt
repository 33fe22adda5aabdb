-- ===== src/Games/Slots.antt =====
-- The slots of one date: `slotsFor` of src/application/public-api.ts.
use gto_poker_daily_spots_ba.Prelude.{
  ℕ, suc, ◌≤◌, ◌==◌, ◌&&◌, Bool, false, ◌≡◌, refl, ◌∙◌, sym, ap, inl, inr, List, [], ◌∷◌, map, Key,
  ok, find, select, has, count, length, sort_by, count-sort_by, length-sort_by, NoRepeats, arith,
  Option-cases, Result-cases, ==_self,
}
use gto_poker_daily_spots_ba.Store.{Slot, SpotVersion, Db}
use gto_poker_daily_spots_ba.Games.{
  GameSlot, is_published, is_on, in_order, include_versions, slots_for, version_ids,
}

-- The versions of the published slots are different ones.
abbrev pub OncePublished : Db → Type 0
OncePublished db =
    (k : Key) → count (λ (s : Slot). is_published s.status && s.spot_version_id == k) db.slots ≤ 1

slots-include_versions :
    (ss : List Slot) (db : Db) (gs : List GameSlot)
    → include_versions ss db ≡ ok gs
    → map (λ (g : GameSlot). g.slot) gs ≡ ss
unfolding include_versions
slots-include_versions [] db gs e = ground arith
slots-include_versions (s ∷ rest) db gs e =
    elim (Option-cases (find (λ (v : SpotVersion). v.id) s.spot_version_id db.versions)) [
      | inl n ↦ absurd (ground arith)
      | inr (v, n) ↦ elim (Result-cases (include_versions rest db)) [
        | inr (thrown, m) ↦ absurd (ground arith)
        | inl (later, m) ↦ ground (arith, slots-include_versions rest db later m)
      ]
    ]

pub slots-slots_for :
    (date : ℕ) (db : Db) (gs : List GameSlot)
    → slots_for date db ≡ ok gs
    → map (λ (g : GameSlot). g.slot) gs ≡ sort_by in_order (select (is_on date) db.slots)
unfolding slots_for
slots-slots_for date db gs e = slots-include_versions _ db gs e

length-select : (p : Slot → Bool) (ss : List Slot) → length (select p ss) ≡ count p ss
length-select p [] = refl
length-select p (s ∷ ss) = ground (arith, length-select p ss)

length-slots : (gs : List GameSlot) → length (map (λ (g : GameSlot). g.slot) gs) ≡ length gs
length-slots [] = refl
length-slots (g ∷ gs) = ap suc (length-slots gs)

pub length-slots_for :
    (date : ℕ) (db : Db) (gs : List GameSlot)
    → slots_for date db ≡ ok gs
    → length gs ≡ count (is_on date) db.slots
length-slots_for date db gs e =
    sym (length-slots gs)
    ∙ ap length (slots-slots_for date db gs e)
    ∙ length-sort_by in_order (select (is_on date) db.slots)
    ∙ length-select (is_on date) db.slots

abbrev of_version : Key → Slot → Bool
of_version k s = s.spot_version_id == k

has-count :
    (k : Key) (ss : List Slot)
    → count (of_version k) ss ≡ 0
    → has k (map (λ (s : Slot). s.spot_version_id) ss) ≡ false
has-count k [] e = refl
has-count k (s ∷ ss) e = ground (arith, has-count k ss)

NoRepeats-count :
    (ss : List Slot)
    → ((k : Key) → count (of_version k) ss ≤ 1)
    → NoRepeats (map (λ (s : Slot). s.spot_version_id) ss)
NoRepeats-count [] once = tt
NoRepeats-count (s ∷ ss) once = (
  has-count s.spot_version_id ss
      (ground (arith, once s.spot_version_id, ==_self s.spot_version_id)),
  NoRepeats-count ss (λ k. ground (arith, once k)),
)

count-is_on :
    (date : ℕ) (k : Key) (ss : List Slot)
    → count (of_version k) (select (is_on date) ss)
      ≤ count (λ (s : Slot). is_published s.status && s.spot_version_id == k) ss
count-is_on date k [] = omega arith
count-is_on date k (s ∷ ss) = ground (arith, count-is_on date k ss)

version_ids-map :
    (gs : List GameSlot)
    → map (λ (s : Slot). s.spot_version_id) (map (λ (g : GameSlot). g.slot) gs) ≡ version_ids gs
version_ids-map [] = refl
version_ids-map (g ∷ gs) = rw (version_ids-map gs) refl

pub slots_for-NoRepeats :
    (date : ℕ) (db : Db) (gs : List GameSlot)
    → OncePublished db
    → slots_for date db ≡ ok gs
    → NoRepeats (version_ids gs)
slots_for-NoRepeats date db gs once e =
    rw (← version_ids-map gs, slots-slots_for date db gs e)
      (NoRepeats-count (sort_by in_order (select (is_on date) db.slots)) (λ k. omega (
        arith,
        count-sort_by in_order (of_version k) (select (is_on date) db.slots),
        count-is_on date k db.slots,
        once k,
      )))
