-- ===== src/Provider/Apportion.antt =====
-- `basisPointFrequencies` of src/solver/provider.ts. The provider's frequencies are floats. Here
-- they are whole multiples of one small unit, so that quotas and fractions are exact; a fraction is
-- kept as its numerator over `total`.
pub mod Sorted
pub mod Remainders
pub mod Handing
pub mod Quota
pub mod Total
use gto_poker_daily_spots_ba.Prelude.{
  ℕ, zero, suc, ◌+◌, ◌-◌, ◌*◌, ◌/◌, ◌%◌, ltb, ◌==◌, ◌||◌, ◌&&◌, Bool, if◌then◌else◌, List, [], ◌∷◌,
  map, sum, Option, none, some, Key, Result, ok, err, or_throw, ◌>>=◌,
}

-- `missing_rank` is the fault of reading past the end of `remainderOrder`.
pub data FrequencyError : Type 0 where
  invalid_frequency invalid_total missing_rank : FrequencyError

-- An entry of `remainderOrder`.
pub record Remainder : Type 0 where
  pub index : ℕ
  pub fraction : ℕ

unfoldable pub floors : ℕ → List ℕ → List ℕ
floors total values = map (λ v. v * 10000 / total) values

-- `quotas.map((quota, index) => ({ index, fraction }))`, from `index` on.
unfoldable pub remainders_from : ℕ → ℕ → List ℕ → List Remainder
remainders_from total index [] = []
remainders_from total index (v ∷ vs) =
    record { index = index; fraction = v * 10000 % total } ∷ remainders_from total (suc index) vs

-- Whether the comparison of the sort puts `a` before `b`.
unfoldable pub goes_before : Remainder → Remainder → Bool
goes_before a b = ltb b.fraction a.fraction || (a.fraction == b.fraction && ltb a.index b.index)

unfoldable pub insert : Remainder → List Remainder → List Remainder
insert a [] = a ∷ []
insert a (b ∷ rest) = if goes_before b a then b ∷ insert a rest else a ∷ b ∷ rest

unfoldable pub sort : List Remainder → List Remainder
sort [] = []
sort (a ∷ rest) = insert a (sort rest)

unfoldable pub increment : ℕ → List ℕ → List ℕ
increment i [] = []
increment zero (x ∷ xs) = suc x ∷ xs
increment (suc i) (x ∷ xs) = x ∷ increment i xs

-- The loop that hands out the remaining points.
unfoldable pub distribute : List Remainder → ℕ → List ℕ → Result FrequencyError (List ℕ)
distribute order zero acc = ok acc
distribute [] (suc left) acc = err missing_rank
distribute (r ∷ rest) (suc left) acc = distribute rest left (increment r.index acc)

-- The frequencies that the provider gives for the actions of `action_order`; a missing or invalid
-- one throws.
unfoldable pub read_values : (Key → Option ℕ) → List Key → Result FrequencyError (List ℕ)
read_values value [] = ok []
read_values value (id ∷ ids) = do
  v ← or_throw (value id) invalid_frequency
  rest ← read_values value ids
  ok (v ∷ rest)

unfoldable pub remaining : ℕ → List ℕ → ℕ
remaining total values = 10000 - sum (floors total values)

-- From the values on. The result lists the basis points in the order of the actions.
unfoldable pub apportion : List ℕ → Result FrequencyError (List ℕ)
apportion values =
    let total = sum values in
    if total == 0
    then err invalid_total
    else distribute (sort (remainders_from total 0 values)) (remaining total values)
        (floors total values)

unfoldable pub basis_point_frequencies :
    (Key → Option ℕ) → List Key → Result FrequencyError (List ℕ)
basis_point_frequencies value action_order = do
  values ← read_values value action_order
  apportion values
