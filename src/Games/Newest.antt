-- ===== src/Games/Newest.antt =====
-- The day that `getDailyGame` of src/application/public-api.ts falls back to.
use gto_poker_daily_spots_ba.Prelude.{
  All-unselected, All-count, All-selected, All-apply, ℕ, ltb, leb, ◌&&◌, true, false, ◌≡◌, List, [],
  ◌∷◌, some, select, count, sort_by, Sorted, sort_by-Sorted, All, All-map, All-sort_by, All-unsort,
  subst, arith,
}
use gto_poker_daily_spots_ba.Store.{Slot, Db}
use gto_poker_daily_spots_ba.Games.{
  is_published, is_on, is_before, newest_first, first_of, latest_before,
}

-- No published slot stands on a day after `date`, up to the day that was asked for.
abbrev pub Newest : (date requested : ℕ) → List Slot → Type 0
Newest date requested slots =
    All
      (λ (s : Slot).
        is_published s.status && ltb date s.publication_date && leb s.publication_date requested
        ≡ false)
      slots

newest_total : (a b : Slot) → newest_first a b ≡ false → newest_first b a ≡ true
newest_total a b e = ground arith

newest_trans :
    (a b c : Slot) → newest_first a b ≡ true → newest_first b c ≡ true → newest_first a c ≡ true
newest_trans a b c e h = ground arith

first_of-least :
    (ss : List Slot) (l : Slot)
    → first_of ss ≡ some l
    → Sorted newest_first ss
    → All (λ (s : Slot). newest_first l s ≡ true) ss
first_of-least [] l e sorted = tt
first_of-least (s ∷ ss) l e sorted =
    let same : s ≡ l = ground arith in
    (ground arith, subst (λ x. All (λ (t : Slot). newest_first x t ≡ true) ss) same sorted.0)

first_of-All :
    (P : Slot → Type 0) (ss : List Slot) (l : Slot) → first_of ss ≡ some l → All P ss → P l
first_of-All P [] l e all = absurd (cc)
first_of-All P (s ∷ ss) l e all = let same : s ≡ l = ground arith in subst P same all.0

pub latest_before-Newest :
    (requested : ℕ) (db : Db) (l : Slot)
    → latest_before requested db ≡ some l
    → count (is_on requested) db.slots ≡ 0
    → Newest l.publication_date requested db.slots × (is_before requested l ≡ true)
unfolding latest_before
latest_before-Newest requested db l e none_on =
    let sorted = first_of-least (sort_by newest_first (select (is_before requested) db.slots)) l e (
      sort_by-Sorted newest_first newest_total newest_trans
        (select (is_before requested) db.slots)) in
    let least =
      All-unsort newest_first (λ (s : Slot). newest_first l s ≡ true)
        (select (is_before requested) db.slots) sorted in
    let before =
      first_of-All (λ (s : Slot). is_before requested s ≡ true)
        (sort_by newest_first (select (is_before requested) db.slots)) l e
        (All-sort_by newest_first (λ (s : Slot). is_before requested s ≡ true)
          (select (is_before requested) db.slots) (All-selected (is_before requested) db.slots)) in
    (
      All-apply (λ (s : Slot). is_on requested s ≡ false) _ db.slots
          (All-unselected _ (is_before requested) db.slots (λ s q on. ground arith)
            (All-map (λ (s : Slot). newest_first l s ≡ true) _
              (select (is_before requested) db.slots) (λ s q on. ground arith) least))
          (All-count (is_on requested) db.slots none_on),
      before,
    )
