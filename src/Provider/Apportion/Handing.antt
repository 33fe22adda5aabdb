-- ===== src/Provider/Apportion/Handing.antt =====
-- The loop of `basisPointFrequencies` of src/solver/provider.ts that hands out the points left.
use gto_poker_daily_spots_ba.Prelude.{
  ℕ, zero, suc, ◌+◌, ◌≤◌, ◌<◌, ◌==◌, ◌≡◌, refl, ap, if◌then◌else◌, List, [], ◌∷◌, length, get_or,
  take, All, sum, arith, ok, All-map,
}
use gto_poker_daily_spots_ba.Provider.Apportion.{Remainder, increment, distribute}
use gto_poker_daily_spots_ba.Provider.Apportion.Sorted.{times}

pub length-increment : (i : ℕ) (xs : List ℕ) → length (increment i xs) ≡ length xs
unfolding increment
length-increment i [] = refl
length-increment zero (x ∷ xs) = refl
length-increment (suc i) (x ∷ xs) = ap suc (length-increment i xs)

pub sum-increment : (i : ℕ) (xs : List ℕ) → i < length xs → sum (increment i xs) ≡ sum xs + 1
unfolding increment
sum-increment i [] h = absurd (omega arith)
sum-increment zero (x ∷ xs) h = omega arith
sum-increment (suc i) (x ∷ xs) h = omega (arith, sum-increment i xs (omega arith))

pub get_or-increment :
    (i j : ℕ) (xs : List ℕ)
    → i < length xs
    → get_or (increment i xs) j 0 ≡ get_or xs j 0 + (if i == j then 1 else 0)
unfolding increment
get_or-increment i j [] h = absurd (omega arith)
get_or-increment zero zero (x ∷ xs) h = ground arith
get_or-increment zero (suc j) (x ∷ xs) h = ground arith
get_or-increment (suc i) zero (x ∷ xs) h = ground arith
get_or-increment (suc i) (suc j) (x ∷ xs) h = ground (arith, get_or-increment i j xs (omega arith))

-- The loop returns, hands out `left` points, and gives each index one for each time that it
-- stands among the first `left` entries of the order.
pub record Handed (order : List Remainder) (left : ℕ) (acc res : List ℕ) : Type 0 where
  pub returns : distribute order left acc ≡ ok res
  pub total : sum res ≡ sum acc + left
  pub size : length res ≡ length acc
  pub entry : (i : ℕ) → get_or res i 0 ≡ get_or acc i 0 + times i (take left order)

pub distribute-Handed :
    (order : List Remainder) (left : ℕ) (acc : List ℕ)
    → All (λ r. r.index < length acc) order
    → left ≤ length order
    → (res : List ℕ) × Handed order left acc res
unfolding distribute
distribute-Handed order zero acc lt h =
    (acc, record { returns = refl; total = omega arith; size = refl; entry = λ i. omega arith })
distribute-Handed [] (suc left) acc lt h = absurd (omega arith)
distribute-Handed (r ∷ rest) (suc left) acc lt h =
    let (res, d) =
      distribute-Handed rest left (increment r.index acc)
        (All-map _ _ rest (λ s q. rw (length-increment r.index acc) q) lt.1) (omega arith) in
    (
      res,
      record {
        returns = d.returns;
        total = omega (arith, d.total, sum-increment r.index acc lt.0);
        size = omega (arith, d.size, length-increment r.index acc);
        entry = λ i. omega (arith, d.entry i, get_or-increment r.index i acc lt.0);
      },
    )
