-- ===== src/Streaks.antt =====
-- The streaks of `getStats` in src/application/public-api.ts. A date is the number of a Pacific day,
-- so `addPacificDays` adds; day 0 lies before every game.
pub mod Longest
mod Examples
use gto_poker_daily_spots_ba.Prelude.{
  ℕ, zero, suc, ◌+◌, ◌-◌, max, ◌==◌, Bool, false, if◌then◌else◌, List, [], ◌∷◌, Option, none, some,
  has,
}

-- `previous && addPacificDays(previous, 1) === date`.
abbrev pub follows : Option ℕ → ℕ → Bool
follows none date = false
follows (some p) date = suc p == date

-- The loop over the completed dates, with `bestStreak`, `running` and `previous`.
unfoldable pub best_from : ℕ → ℕ → Option ℕ → List ℕ → ℕ
best_from best running previous [] = best
best_from best running previous (date ∷ rest) =
    let running' = if follows previous date then suc running else 1 in
    best_from (max best running') running' (some date) rest

unfoldable pub best_streak : List ℕ → ℕ
best_streak dates = best_from 0 0 none dates

-- The `while` loop, from the cursor back.
unfoldable pub streak_back : List ℕ → ℕ → ℕ
streak_back dates zero = if has zero dates then 1 else 0
streak_back dates (suc cursor) =
    let before = streak_back dates cursor in if has (suc cursor) dates then suc before else 0

-- A day on which only yesterday's game is done still counts.
unfoldable pub current_streak : List ℕ → ℕ → ℕ
current_streak dates today = streak_back dates (if has today dates then today else today - 1)
