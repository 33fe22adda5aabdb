-- ===== src/Dates/Examples.antt =====
-- Concrete dates for the theorem on `nextAvailablePacificDate` of src/publication.ts.
use gto_poker_daily_spots_ba.Prelude.{
  ℕ, ◌≤◌, ◌<◌, ◌≡◌, true, false, List, [], ◌∷◌, ok, has, length, arith,
}
use gto_poker_daily_spots_ba.Dates.{next_available_pacific_date}
use gto_poker_daily_spots_ba.Dates.FirstFree.{next_available_first}

abbrev occupied : List ℕ
occupied = 21 ∷ 20 ∷ 25 ∷ []

occupied-le : length occupied ≤ 3660
occupied-le = omega arith

next_available_first_example :
    (date : ℕ) × (next_available_pacific_date 20 occupied ≡ ok date)
    × (20 ≤ date)
    × (has date occupied ≡ false)
    × ((k : ℕ) → 20 ≤ k → k < date → has k occupied ≡ true)
next_available_first_example = next_available_first 20 occupied occupied-le
