-- ===== src/Scoring.antt =====
-- src/scoring.ts: the L1 similarity of an allocation with the solution. The code computes with
-- floats. Here a similarity is exact, in half basis points: 20,000 of them are 100 percent.
pub mod Distance
pub mod Majority
mod Examples
use gto_poker_daily_spots_ba.Prelude.{
  ℕ, zero, suc, ◌+◌, ◌-◌, ◌/◌, min, ◌==◌, ltb, not, ◌||◌, ◌&&◌, Bool, true, if◌then◌else◌, List, [],
  ◌∷◌, map, length, get_or, get_elem?, sum, Option, none, some, Key, Result, ok, err, ◌>>=◌,
}
use gto_poker_daily_spots_ba.Prelude.Int.{ℤ, sub_ℕ, abs}

pub record MetricResult : Type 0 where
  pub similarity : ℕ
  pub signed_differences : List ℤ
  pub absolute_differences : List ℕ

pub data ScoreError : Type 0 where
  unequal_vectors unknown_metric : ScoreError

-- `predicted.map((value, index) => value - gto[index]!)`, on vectors of one length.
unfoldable pub signed_from : List ℕ → List ℕ → List ℤ
signed_from [] gs = []
signed_from (p ∷ ps) [] = []
signed_from (p ∷ ps) (g ∷ gs) = sub_ℕ p g ∷ signed_from ps gs

-- `Math.max(0, …)` is the stop of `-` at 0.
unfoldable pub score : List ℕ → List ℕ → Result ScoreError MetricResult
score predicted gto =
    if not (length predicted == length gto) || length predicted == 0
    then err unequal_vectors
    else ok (record {
      similarity = min 20000 (20000 - sum (map abs (signed_from predicted gto)));
      signed_differences = signed_from predicted gto;
      absolute_differences = map abs (signed_from predicted gto);
    })

-- The registry holds one metric, `l1` in version 1.
abbrev pub l1_key : Key
l1_key = 1

pub get_similarity_metric :
    Key → ℕ → Result ScoreError (List ℕ → List ℕ → Result ScoreError MetricResult)
get_similarity_metric key version =
    if key == l1_key && version == 1 then ok score else err unknown_metric

-- `record[action] ?? 0`.
unfoldable pub frequency_of : List (Key × ℕ) → Key → ℕ
frequency_of [] a = 0
frequency_of ((k, v) ∷ rest) a = if k == a then v else frequency_of rest a

-- The `reduce` at `index`, with the best index so far.
pub majority_from : List ℕ → ℕ → ℕ → List ℕ → ℕ
majority_from solution best index [] = best
majority_from solution best index (value ∷ rest) =
    majority_from solution (if ltb (get_or solution best 0) value then index else best) (suc index)
      rest

pub majority_index : List ℕ → ℕ
majority_index solution = majority_from solution 0 0 solution

pub record ActionScore : Type 0 where
  pub action_id : Key
  pub submitted : ℕ
  pub gto : ℕ
  pub signed_difference : ℤ
  pub absolute_difference : ℕ

pub action_rows : List Key → List ℕ → List ℕ → List ℤ → List ℕ → List ActionScore
action_rows (a ∷ as') (p ∷ ps) (g ∷ gs) (s ∷ ss) (d ∷ ds) =
    record { action_id = a; submitted = p; gto = g; signed_difference = s; absolute_difference = d }
    ∷ action_rows as' ps gs ss ds
action_rows _ _ _ _ _ = []

pub record HandScore : Type 0 where
  pub similarity : ℕ
  pub gto_majority_action_id : Option Key
  pub actions : List ActionScore

unfoldable pub score_hands :
    List Key → List (Key × ℕ) → List (Key × ℕ) → Result ScoreError HandScore
score_hands action_order submitted gto = do
  let predicted = map (frequency_of submitted) action_order
  let solution = map (frequency_of gto) action_order
  result ← score predicted solution
  ok (record {
    similarity = result.similarity;
    gto_majority_action_id = get_elem? action_order (majority_index solution);
    actions =
        action_rows action_order predicted solution result.signed_differences
          result.absolute_differences;
  })

-- `Math.round(similarity * 100)`, from half basis points to basis points.
unfoldable pub round_half : ℕ → ℕ
round_half h = (h + 1) / 2
