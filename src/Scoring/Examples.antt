-- ===== src/Scoring/Examples.antt =====
-- A concrete solution for the theorem on src/scoring.ts.
use gto_poker_daily_spots_ba.Prelude.{◌≢◌, ℕ, List, [], ◌∷◌, length}
use gto_poker_daily_spots_ba.Scoring.{majority_index}
use gto_poker_daily_spots_ba.Scoring.Majority.{IsFirstMax, majority_index-IsFirstMax}

-- The second and the third action have the highest frequency.
abbrev solution : List ℕ
solution = 1000 ∷ 4500 ∷ 4500 ∷ []

solution_filled : solution ≢ []
solution_filled e = absurd (cc)

majority_index-IsFirstMax_example : IsFirstMax solution (length solution) (majority_index solution)
majority_index-IsFirstMax_example = majority_index-IsFirstMax solution solution_filled
