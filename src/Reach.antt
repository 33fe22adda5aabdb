-- ===== src/Reach.antt =====
-- src/solver/reach.ts. A reach is a float; here it is a multiple of 10 ^ -12, or not finite.
use gto_poker_daily_spots_ba.Prelude.{ℕ, leb, Bool, false, Option, none, some}

pub data Number : Type 0 where
  finite : ℕ → Number
  not_finite : Number

-- `ACTIVE_COMBO_MIN_REACH`, 1e-9.
abbrev pub active_combo_min_reach : ℕ
active_combo_min_reach = 1000

pub record ComboReach : Type 0 where
  pub raw_reach : Option Number
  pub reach_weight : Number

abbrev pub or_else : Option Number → Number → Number
or_else none n = n
or_else (some m) n = m

unfoldable pub effective_combo_reach : ComboReach → Number
effective_combo_reach r = or_else r.raw_reach r.reach_weight

abbrev pub is_at_least : ℕ → Number → Bool
is_at_least m (finite n) = leb m n
is_at_least m not_finite = false

unfoldable pub is_active_combo_reach : ComboReach → Bool
unfolding effective_combo_reach
is_active_combo_reach r = is_at_least active_combo_min_reach (effective_combo_reach r)
