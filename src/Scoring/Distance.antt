-- ===== src/Scoring/Distance.antt =====
-- The distance of two vectors in src/scoring.ts, and the similarity that comes of it.
use gto_poker_daily_spots_ba.Prelude.{
  ℕ, ◌≤◌, ◌≡◌, refl, ◌≢◌, ◌↔◌, ◌⊎◌, List, [], ◌∷◌, map, length, sum, ok, err, arith,
}
use gto_poker_daily_spots_ba.Prelude.Int.{abs, abs-sub_ℕ}
use gto_poker_daily_spots_ba.Scoring.{MetricResult, unequal_vectors, signed_from, score}

abbrev pub distance : List ℕ → List ℕ → ℕ
distance ps gs = sum (map abs (signed_from ps gs))

pub distance_zero : (ps gs : List ℕ) → length ps ≡ length gs → distance ps gs ≡ 0 → ps ≡ gs
unfolding signed_from
distance_zero [] [] e z = refl
distance_zero [] (g ∷ gs) e z = absurd (omega arith)
distance_zero (p ∷ ps) [] e z = absurd (omega arith)
distance_zero (p ∷ ps) (g ∷ gs) e z =
    let same : p ≡ g = omega (arith, abs-sub_ℕ p g) in
    let rest : ps ≡ gs = distance_zero ps gs (omega arith) (omega arith) in cc

pub distance_self : (ps : List ℕ) → distance ps ps ≡ 0
unfolding signed_from
distance_self [] = refl
distance_self (p ∷ ps) = omega (arith, abs-sub_ℕ p p, distance_self ps)

distance_comm : (ps gs : List ℕ) → distance ps gs ≡ distance gs ps
unfolding signed_from
distance_comm [] [] = refl
distance_comm [] (g ∷ gs) = refl
distance_comm (p ∷ ps) [] = refl
distance_comm (p ∷ ps) (g ∷ gs) = omega (arith, abs-sub_ℕ p g, abs-sub_ℕ g p, distance_comm ps gs)

-- The score does not depend on which of the two vectors is the prediction.
score_comm :
    (ps gs : List ℕ) {r s : MetricResult}
    → score ps gs ≡ ok r
    → score gs ps ≡ ok s
    → r.similarity ≡ s.similarity
unfolding score
score_comm ps gs h k = ground (arith, distance_comm ps gs)

equal_of_full :
    (ps gs : List ℕ) (r : MetricResult) → score ps gs ≡ ok r → r.similarity ≡ 20000 → ps ≡ gs
unfolding score
equal_of_full ps gs r h full = distance_zero ps gs (ground arith) (ground arith)

-- `score` returns a result exactly on non-empty vectors of one length. The result is at most 100
-- percent, and it is 100 percent exactly when the two vectors are equal.
pub score_perfect :
    (ps gs : List ℕ)
    → ((score ps gs ≡ err unequal_vectors) ↔ ((length ps ≢ length gs) ⊎ (length ps ≡ 0)))
      × ((r : MetricResult)
          → score ps gs ≡ ok r
          → (r.similarity ≤ 20000) × ((r.similarity ≡ 20000) ↔ (ps ≡ gs)))
unfolding score
score_perfect ps gs = (
  (λ h. ground arith, λ h. ground arith),
  λ r h.
      (ground arith, (λ full. equal_of_full ps gs r h full, λ e. ground (arith, distance_self ps))),
)
