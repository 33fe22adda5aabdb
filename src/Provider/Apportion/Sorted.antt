-- ===== src/Provider/Apportion/Sorted.antt =====
-- The order in which `basisPointFrequencies` of src/solver/provider.ts hands out points.
use native.Mathlib.Nat.{le_trans}
use gto_poker_daily_spots_ba.Prelude.{
  ℕ, zero, suc, ◌+◌, ◌*◌, ◌≤◌, ◌<◌, ◌==◌, ◌≡◌, refl, inl, inr, if◌then◌else◌, Bool-cases, true,
  false, List, [], ◌∷◌, length, take, All, arith, All-map,
}
use gto_poker_daily_spots_ba.Provider.Apportion.{Remainder, goes_before, insert, sort}

abbrev pub fractions : List Remainder → ℕ
fractions [] = 0
fractions (r ∷ rs) = r.fraction + fractions rs

-- How often index `i` stands in the list.
abbrev pub times : ℕ → List Remainder → ℕ
times i [] = 0
times i (r ∷ rs) = (if r.index == i then 1 else 0) + times i rs

fractions-insert :
    (a : Remainder) (rs : List Remainder) → fractions (insert a rs) ≡ a.fraction + fractions rs
unfolding insert
fractions-insert a [] = refl
fractions-insert a (r ∷ rs) = ground (arith, fractions-insert a rs)

pub fractions-sort : (rs : List Remainder) → fractions (sort rs) ≡ fractions rs
unfolding sort
fractions-sort [] = refl
fractions-sort (r ∷ rs) = omega (arith, fractions-insert r (sort rs), fractions-sort rs)

times-insert :
    (i : ℕ) (a : Remainder) (rs : List Remainder) → times i (insert a rs) ≡ times i (a ∷ rs)
unfolding insert
times-insert i a [] = refl
times-insert i a (r ∷ rs) = ground (arith, times-insert i a rs)

pub times-sort : (i : ℕ) (rs : List Remainder) → times i (sort rs) ≡ times i rs
unfolding sort
times-sort i [] = refl
times-sort i (r ∷ rs) = ground (arith, times-insert i r (sort rs), times-sort i rs)

pub times-take-le : (i k : ℕ) (rs : List Remainder) → times i (take k rs) ≤ times i rs
times-take-le i zero rs = omega arith
times-take-le i (suc k) [] = omega arith
times-take-le i (suc k) (r ∷ rs) = omega (arith, times-take-le i k rs)

length-insert : (a : Remainder) (rs : List Remainder) → length (insert a rs) ≡ suc (length rs)
unfolding insert
length-insert a [] = refl
length-insert a (r ∷ rs) = ground (arith, length-insert a rs)

pub length-sort : (rs : List Remainder) → length (sort rs) ≡ length rs
unfolding sort
length-sort [] = refl
length-sort (r ∷ rs) = omega (arith, length-insert r (sort rs), length-sort rs)

module _ (P : Remainder → Type 0) where
  All-insert : (a : Remainder) (rs : List Remainder) → P a → All P rs → All P (insert a rs)
  unfolding insert
  All-insert a [] p h = (p, tt)
  All-insert a (r ∷ rs) p h = elim (Bool-cases (goes_before r a)) [
    | inl e ↦ rw e (h.0, All-insert a rs p h.1)
    | inr e ↦ rw e (p, h)
  ]

  pub All-sort : (rs : List Remainder) → All P rs → All P (sort rs)
  unfolding sort
  All-sort [] h = tt
  All-sort (r ∷ rs) h = All-insert r (sort rs) h.0 (All-sort rs h.1)

  pub All-take : (k : ℕ) (rs : List Remainder) → All P rs → All P (take k rs)
  All-take zero rs h = tt
  All-take (suc k) [] h = tt
  All-take (suc k) (r ∷ rs) h = (h.0, All-take k rs h.1)

-- The fractions fall along the list.
abbrev pub Falls : List Remainder → Type 0
Falls [] = Unit {0}
Falls (r ∷ rs) = All (λ s. s.fraction ≤ r.fraction) rs × Falls rs

not_before : (a b : Remainder) → goes_before b a ≡ false → b.fraction ≤ a.fraction
unfolding goes_before
not_before a b h = ground arith

before : (a b : Remainder) → goes_before b a ≡ true → a.fraction ≤ b.fraction
unfolding goes_before
before a b h = ground arith

Falls-insert : (a : Remainder) (rs : List Remainder) → Falls rs → Falls (insert a rs)
unfolding insert
Falls-insert a [] h = (tt, tt)
Falls-insert a (r ∷ rs) h = elim (Bool-cases (goes_before r a)) [
  | inl e ↦ rw e (All-insert _ a rs (before a r e) h.0, Falls-insert a rs h.1)
  | inr e ↦
      rw e ((not_before a r e, All-map _ _ rs (λ s le. le_trans le (not_before a r e)) h.0), h)
]

pub Falls-sort : (rs : List Remainder) → Falls (sort rs)
unfolding sort
Falls-sort [] = tt
Falls-sort (r ∷ rs) = Falls-insert r (sort rs) (Falls-sort rs)

fractions_zero : (rs : List Remainder) → All (λ s. s.fraction ≤ 0) rs → fractions rs ≡ 0
fractions_zero [] h = refl
fractions_zero (r ∷ rs) h = omega (arith, fractions_zero rs h.1)

-- Fractions below `total` that add up to `k * total`: the first `k` of them are not 0.
pub take-pos :
    (total k : ℕ) (rs : List Remainder)
    → All (λ s. s.fraction < total) rs
    → Falls rs
    → k * total ≤ fractions rs
    → All (λ s. 0 < s.fraction) (take k rs)
take-pos total zero rs lt f h = tt
take-pos total (suc k) [] lt f h = tt
take-pos total (suc k) (r ∷ rs) lt f h =
    (first r.fraction refl, take-pos total k rs lt.1 f.1 (grind arith))
  where
    first : (n : ℕ) → r.fraction ≡ n → 0 < r.fraction
    first zero e = absurd (grind (arith, lt, fractions_zero rs (rw e at f.0)))
    first (suc n) e = omega arith
