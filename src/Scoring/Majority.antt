-- ===== src/Scoring/Majority.antt =====
-- The majority action of src/scoring.ts.
use native.Mathlib.Nat.{add-zero, add-suc, suc-add}
use gto_poker_daily_spots_ba.Prelude.{
  ◌≢◌, ℕ, suc, ◌+◌, ◌≤◌, ◌<◌, ◌≡◌, refl, ltb, ltb→lt, Bool-cases, inl, inr, List, [], ◌∷◌, length,
  get_or, arith, if◌then◌else◌,
}
use gto_poker_daily_spots_ba.Scoring.{majority_from, majority_index}

-- `best` is the first index below `n` at which `l` is largest.
pub record IsFirstMax (l : List ℕ) (n best : ℕ) : Type 0 where
  pub below : best < n
  pub largest : (i : ℕ) → i < n → get_or l i 0 ≤ get_or l best 0
  pub first : (i : ℕ) → i < best → get_or l i 0 < get_or l best 0

IsFirstMax-next :
    (l : List ℕ) (n best v : ℕ)
    → get_or l n 0 ≡ v
    → IsFirstMax l n best
    → IsFirstMax l (suc n) (if ltb (get_or l best 0) v then n else best)
IsFirstMax-next l n best v e h = elim (Bool-cases (ltb (get_or l best 0) v)) [
  | inl up ↦ rw up (record {
    below = omega arith;
    largest = λ i lt. grind (arith, h.largest);
    first = λ i lt. grind (arith, h.largest);
  })
  | inr stay ↦ rw stay (record {
    below = omega (arith, h.below);
    largest = λ i lt. grind (arith, h.largest);
    first = h.first;
  })
]

majority_from-IsFirstMax :
    (l : List ℕ) (best n : ℕ) (rest : List ℕ)
    → ((i : ℕ) → get_or l (n + i) 0 ≡ get_or rest i 0)
    → IsFirstMax l n best
    → IsFirstMax l (n + length rest) (majority_from l best n rest)
unfolding majority_from
majority_from-IsFirstMax l best n [] suffix h = rw add-zero h
majority_from-IsFirstMax l best n (v ∷ rest) suffix h =
    rw (add-suc, ← suc-add)
      (majority_from-IsFirstMax l (if ltb (get_or l best 0) v then n else best) (suc n) rest
        (λ i. rw (suc-add, ← add-suc) (suffix (suc i)))
        (IsFirstMax-next l n best v (rw add-zero at (suffix 0)) h))

-- The loop over a list that is not empty, from the second entry on.
from_second :
    (v : ℕ) (rest : List ℕ)
    → IsFirstMax (v ∷ rest) (suc (length rest)) (majority_from (v ∷ rest) 0 1 rest)
from_second v rest = rw (suc_eq (length rest)) (
    majority_from-IsFirstMax (v ∷ rest) 0 1 rest (λ i. rw (← suc_eq i))
      (record {
        below = omega arith;
        largest = λ i lt. (let e : i ≡ 0 = omega arith in rw e (omega arith));
        first = λ i lt. absurd (omega arith);
      }))
  where
    suc_eq : (n : ℕ) → suc n ≡ 1 + n
    suc_eq n = omega arith

-- On a solution that is not empty, the majority action is the first of the actions with the
-- highest frequency.
pub majority_index-IsFirstMax : (l : List ℕ) → l ≢ [] → IsFirstMax l (length l) (majority_index l)
unfolding majority_index majority_from
majority_index-IsFirstMax [] h = absurd (h refl)
majority_index-IsFirstMax (v ∷ rest) h = elim (Bool-cases (ltb v v)) [
  | inl e ↦ absurd (omega (arith, ltb→lt v v e))
  | inr e ↦ rw (e, majority_from) (from_second v rest)
]
