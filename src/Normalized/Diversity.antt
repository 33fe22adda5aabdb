-- ===== src/Normalized/Diversity.antt =====
-- `strategyDiversityReport` and `assertPublishableStrategyQuality` of src/solver/normalized.ts.
use gto_poker_daily_spots_ba.Prelude.{
  ℕ, max, ◌==◌, ltb, leb, not, ◌||◌, ◌&&◌, Bool, false, if◌then◌else◌, List, [], ◌∷◌, map, Option,
  none, some, Key, Result, ok, guard, or_throw, ◌>>=◌, length, sum, find_first,
}
use gto_poker_daily_spots_ba.Prelude.Int.{abs}
use gto_poker_daily_spots_ba.Scoring.{frequency_of, signed_from}
use gto_poker_daily_spots_ba.Attempts.{Combo, ComboStrategy, entry}
use gto_poker_daily_spots_ba.Normalized.{
  Envelope, LegalAction, EnvelopeError, no_strategy_combo, uniform_all_in, distinct_from,
}

-- A vector of basis points; `vector.join(",")` tells two of them apart like `same_text`.
unfoldable pub vector_of : List Key → ComboStrategy → List ℕ
vector_of order s = map (frequency_of s.frequencies) order

unfoldable pub vectors_of : List Key → List (Combo × ComboStrategy) → List (List ℕ)
vectors_of order rows = map (λ b. vector_of order b.1) rows

abbrev pub l1_distance : List ℕ → List ℕ → ℕ
l1_distance left right = sum (map abs (signed_from left right))

-- The inner loop, over the vectors to the right of `left`.
unfoldable pub max_against : ℕ → List ℕ → List (List ℕ) → ℕ
max_against best left [] = best
max_against best left (right ∷ rest) = max_against (max best (l1_distance left right)) left rest

-- The outer loop.
unfoldable pub max_pairwise : ℕ → List (List ℕ) → ℕ
max_pairwise best [] = best
max_pairwise best (left ∷ rest) = max_pairwise (max_against best left rest) rest

-- `distinctVectorRatio` is the quotient of the two counts.
pub record DiversityReport : Type 0 where
  pub combo_count : ℕ
  pub distinct_vector_count : ℕ
  pub max_pairwise_l1 : ℕ
  pub uniform_across_combos : Bool

unfoldable pub strategy_diversity_report : List Key → List (Combo × ComboStrategy) → DiversityReport
strategy_diversity_report order rows =
    let vectors = vectors_of order rows in
    let distinct_count = length (distinct_from [] vectors) in
    record {
      combo_count = length vectors;
      distinct_vector_count = distinct_count;
      max_pairwise_l1 = max_pairwise 0 vectors;
      uniform_across_combos = ltb 1 (length vectors) && distinct_count == 1;
    }

-- `actionOrder.find((id) => first.frequencies[id] === 10_000)`.
unfoldable pub dominant_action : List Key → ComboStrategy → Option Key
dominant_action order s = find_first (λ k. frequency_of s.frequencies k == 10000) order

unfoldable pub is_all_in_action : Option Key → List LegalAction → Bool
is_all_in_action none actions = false
is_all_in_action (some k) actions = elim (find_first (λ (a : LegalAction). a.id == k) actions) [
  | none ↦ false
  | some a ↦ a.is_all_in
]

unfoldable pub first_strategy : Envelope → Option ComboStrategy
first_strategy e = elim e.selectable_combos [ [] ↦ none | c ∷ cs ↦ entry c e.solution.by_combo ]

unfoldable pub assert_publishable_strategy_quality : Envelope → Result EnvelopeError (Unit {0})
assert_publishable_strategy_quality e =
    let report = strategy_diversity_report e.solution.action_order e.solution.by_combo in
    if report.uniform_across_combos
    then (do
      first ← or_throw (first_strategy e) no_strategy_combo
      let all_in = is_all_in_action (dominant_action e.solution.action_order first) e.legal_actions
      guard (not (all_in && (leb 3 (length e.legal_actions) || leb 20 report.combo_count)))
          uniform_all_in)
    else ok tt
