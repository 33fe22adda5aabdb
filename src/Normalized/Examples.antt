-- ===== src/Normalized/Examples.antt =====
-- A concrete envelope for the theorems on src/solver/normalized.ts.
use gto_poker_daily_spots_ba.Prelude.{
  ℕ, ◌≡◌, ◌<◌, ◌↔◌, refl, true, false, List, [], ◌∷◌, none, some, ok,
}
use gto_poker_daily_spots_ba.Reach.{finite, is_active_combo_reach, effective_combo_reach}
use gto_poker_daily_spots_ba.Attempts.{Combo, ComboStrategy, entry}
use gto_poker_daily_spots_ba.Normalized.{
  Envelope, Actor, authored, authored_position, check_preflop, distinct_from, check_strategy,
  check_strategies, check_known, matches_count, validate_normalized_envelope,
}
use gto_poker_daily_spots_ba.Normalized.Servable.{IsServable, validate-IsServable}
use gto_poker_daily_spots_ba.Normalized.Diversity.{strategy_diversity_report}
use gto_poker_daily_spots_ba.Normalized.Uniform.{uniform_iff}

abbrev strategy : ℕ → ℕ → ComboStrategy
strategy check bet = record {
  reach = record { raw_reach = none; reach_weight = finite 1000000000000 };
  frequencies = (1, check) ∷ (2, bet) ∷ [];
}

abbrev ace_king : Combo
ace_king = 65 ∷ 104 ∷ 75 ∷ 100 ∷ []

abbrev queens : Combo
queens = 81 ∷ 104 ∷ 81 ∷ 100 ∷ []

abbrev rows : List (Combo × ComboStrategy)
rows = (ace_king, strategy 4000 6000) ∷ (queens, strategy 10000 0) ∷ []

abbrev envelope : Envelope
envelope = record {
  source_hash = 77;
  manifest_source_hash = 77;
  legal_actions = record { id = 1; is_all_in = false } ∷ record { id = 2; is_all_in = false } ∷ [];
  selectable_combos = queens ∷ ace_king ∷ [];
  preflop =
      some (
        record { actor = Actor.ip; position = 0 }
        ∷ record { actor = Actor.oop; position = 3 }
        ∷ []);
  positions = λ a. elim a [ Actor.ip ↦ 0 | Actor.oop ↦ 3 ];
  dealer_actor = Actor.ip;
  solution = record { action_order = 1 ∷ 2 ∷ []; by_combo = rows };
  diversity_combo_count = some 2;
  fallback_used = none;
}

abbrev filled : Envelope
filled = record envelope { fallback_used = some false }

envelope-valid : validate_normalized_envelope envelope ≡ ok filled
unfolding validate_normalized_envelope check_known check_preflop authored_position authored
    check_strategies check_strategy distinct_from matches_count entry is_active_combo_reach
    effective_combo_reach
envelope-valid = refl

validate-IsServable_example :
    (filled ≡ record envelope { fallback_used = filled.fallback_used })
    × (filled.fallback_used ≡ some false)
    × IsServable filled
validate-IsServable_example = validate-IsServable envelope filled envelope-valid

uniform_iff_example :
    let report = strategy_diversity_report (1 ∷ 2 ∷ []) rows in
    (report.uniform_across_combos ≡ true)
    ↔ ((1 < report.combo_count) × (report.max_pairwise_l1 ≡ 0))
uniform_iff_example = uniform_iff (1 ∷ 2 ∷ []) rows
