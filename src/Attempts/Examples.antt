-- ===== src/Attempts/Examples.antt =====
-- Concrete submissions for the theorems on src/application/public-api.ts.
use gto_poker_daily_spots_ba.Prelude.{
  ◌≤◌, ◌≡◌, refl, true, List, [], ◌∷◌, none, ok, err, ◌⊎◌, arith, All,
}
use gto_poker_daily_spots_ba.Store.{valid}
use gto_poker_daily_spots_ba.Scoring.{score, signed_from, score_hands, frequency_of, round_half}
use gto_poker_daily_spots_ba.Reach.{finite, is_active_combo_reach, effective_combo_reach}
use gto_poker_daily_spots_ba.Attempts.{
  Combo, PrivateSolution, Hand, Score, guest, Attempt, Submission, entry, reversed,
  resolve_exact_combo_strategy, grade_hand, grade_hands, rounded_average, score_from_similarity,
  grade, submit, commits, aborts, transaction_failed,
}
use gto_poker_daily_spots_ba.Attempts.Submit.{Sequential, submit-Sequential}
use gto_poker_daily_spots_ba.Attempts.Grade.{IsPlayable, grade-bounds}

-- "AhKd", as character codes.
abbrev ace_king : Combo
ace_king = 65 ∷ 104 ∷ 75 ∷ 100 ∷ []

abbrev solution : PrivateSolution
solution = record {
  action_order = 1 ∷ 2 ∷ [];
  by_combo =
      (
        ace_king,
        record {
          reach = record { raw_reach = none; reach_weight = finite 1000000000000 };
          frequencies = (1, 7000) ∷ (2, 3000) ∷ [];
        },
      )
      ∷ [];
}

solution-one : entry (reversed ace_king) solution.by_combo ≡ none
unfolding entry reversed
solution-one = refl

abbrev hands : List Hand
hands = record { combo = 75 ∷ 100 ∷ 65 ∷ 104 ∷ []; allocations = (1, 5000) ∷ (2, 5000) ∷ [] } ∷ []

abbrev graded : Score
graded = record { similarity_basis_points = 8000; points = 800 }

hands-graded : grade solution hands ≡ ok graded
unfolding grade grade_hands grade_hand resolve_exact_combo_strategy entry reversed signed_from
    is_active_combo_reach effective_combo_reach score_hands score frequency_of round_half
    rounded_average score_from_similarity
hands-graded = refl

grade-bounds_example :
    All (IsPlayable solution) hands
    × (graded.similarity_basis_points ≤ 10000)
    × (graded.points ≤ 1000)
grade-bounds_example = grade-bounds solution hands graded (omega arith) hands-graded

abbrev first_attempt : Attempt
first_attempt = record {
  id = 1;
  owner = guest 5;
  spot_id = 1;
  created_at = 1000;
  validity = valid;
  invalidation_reason = none;
  replacement_spot_version_id = none;
  spot_version_id = 10;
  idempotency_key = 70;
  payload_hash = 700;
  score = graded;
  official = true;
  practice_ordinal = 0;
}

abbrev second_submission : Submission
second_submission = record {
  attempt_id = 2;
  owner = guest 5;
  spot_id = 1;
  created_at = 1001;
  spot_version_id = 10;
  idempotency_key = 71;
  payload_hash = 701;
  score = graded;
}

-- Another request stores the official attempt after this one has looked.
submit-Sequential_example :
    let r = submit second_submission commits commits [] [] (first_attempt ∷ []) in
    ((r ≡ err transaction_failed) × ((commits ≡ aborts) ⊎ (commits ≡ aborts)))
    ⊎ Sequential second_submission (first_attempt ∷ []) r
submit-Sequential_example =
    submit-Sequential second_submission commits commits [] [] (first_attempt ∷ [])
