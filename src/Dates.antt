-- ===== src/Dates.antt =====
-- The choice of a free day in src/publication.ts. A date is the number of a Pacific day, so
-- `addPacificDays` adds.
pub mod FirstFree
mod Examples
use gto_poker_daily_spots_ba.Prelude.{ℕ, zero, suc, Bool, if◌then◌else◌, List, Result, ok, err, has}

pub data DateError : Type 0 where
  no_free_date : DateError

-- The loop, with the number of the candidates that are left.
unfoldable pub free_from : ℕ → ℕ → List ℕ → Result DateError ℕ
free_from zero candidate occupied = err no_free_date
free_from (suc left) candidate occupied =
    let later = free_from left (suc candidate) occupied in
    if has candidate occupied then later else ok candidate

-- Offsets from 0 to 3660.
unfoldable pub next_available_pacific_date : ℕ → List ℕ → Result DateError ℕ
next_available_pacific_date start occupied = free_from 3661 start occupied
