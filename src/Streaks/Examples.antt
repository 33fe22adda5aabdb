-- ===== src/Streaks/Examples.antt =====
-- Concrete dates for the theorem on the streaks of src/application/public-api.ts.
use gto_poker_daily_spots_ba.Prelude.{ℕ, ◌≤◌, List, [], ◌∷◌, none, arith}
use gto_poker_daily_spots_ba.Streaks.{best_streak, current_streak}
use gto_poker_daily_spots_ba.Streaks.Longest.{Rising, IsRun, streaks_longest}

abbrev dates : List ℕ
dates = 100 ∷ 101 ∷ 102 ∷ 105 ∷ 106 ∷ []

dates-Rising : Rising none dates
dates-Rising = (tt, (omega arith, (omega arith, (omega arith, (omega arith, tt)))))

streaks_longest_example :
    ((start : ℕ) × IsRun dates start (best_streak dates))
    × ((start n : ℕ) → IsRun dates start n → n ≤ best_streak dates)
    × (current_streak dates 107 ≤ best_streak dates)
streaks_longest_example = streaks_longest dates 107 dates-Rising
