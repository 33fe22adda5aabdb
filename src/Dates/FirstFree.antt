-- ===== src/Dates/FirstFree.antt =====
-- `nextAvailablePacificDate` of src/publication.ts finds the first free day.
use gto_poker_daily_spots_ba.Prelude.{
  ℕ, zero, suc, ◌≤◌, ◌<◌, ◌==◌, not, true, false, ◌≡◌, refl, ◌⊎◌, inl, inr, List, [], ◌∷◌, ok, has,
  length, select, length-select-le, Bool-cases, ==_iff, arith,
}
use gto_poker_daily_spots_ba.Streaks.Longest.{IsRun}
use gto_poker_daily_spots_ba.Dates.{free_from, next_available_pacific_date}

abbrev without : ℕ → List ℕ → List ℕ
without s xs = select (λ x. not (x == s)) xs

has-without :
    (s k : ℕ) (xs : List ℕ) → has k xs ≡ true → (s == k) ≡ false → has k (without s xs) ≡ true
has-without s k [] h ne = cc
has-without s k (x ∷ xs) h ne = elim (Bool-cases (x == s)) [
  | inl e ↦ ground (arith, has-without s k xs)
  | inr e ↦ elim (Bool-cases (x == k)) [
    | inl q ↦ ground arith
    | inr q ↦ ground (arith, has-without s k xs)
  ]
]

length-without-lt : (s : ℕ) (xs : List ℕ) → has s xs ≡ true → length (without s xs) < length xs
length-without-lt s [] h = absurd (cc)
length-without-lt s (x ∷ xs) h = elim (Bool-cases (x == s)) [
  | inl e ↦ rw e (omega (arith, length-select-le (λ y. not (y == s)) xs))
  | inr e ↦ rw e (omega (arith, length-without-lt s xs (rw e at h)))
]

-- A list that holds `n` days in a row has at least `n` entries.
run-le-length : (n start : ℕ) (xs : List ℕ) → IsRun xs start n → n ≤ length xs
run-le-length zero start xs h = omega arith
run-le-length (suc n) start xs h = omega (
  arith,
  length-without-lt start xs (h start (omega arith) (omega arith)),
  run-le-length n (suc start) (without start xs)
      (λ k lo hi. has-without start k xs (h k (omega arith) (omega arith)) (ground arith)),
)

-- Of `n` candidates from `start` on, the loop returns the first free one, or all are occupied.
free_from_first :
    (n start : ℕ) (occupied : List ℕ)
    → ((date : ℕ) × (free_from n start occupied ≡ ok date)
        × (start ≤ date)
        × (has date occupied ≡ false)
        × ((k : ℕ) → start ≤ k → k < date → has k occupied ≡ true))
      ⊎ IsRun occupied start n
unfolding free_from
free_from_first zero start occupied = inr (λ k lo hi. absurd (omega arith))
free_from_first (suc n) start occupied = elim (Bool-cases (has start occupied)) [
  | inr free ↦ inl (start, rw free refl, omega arith, free, λ k lo hi. absurd (omega arith))
  | inl taken ↦ elim (free_from_first n (suc start) occupied) [
    | inl (date, returns, le, free, before) ↦ inl (
      date,
      rw taken returns,
      omega arith,
      free,
      λ k lo hi. elim (Bool-cases (start == k)) [
        | inl e ↦ (let same : start ≡ k = (==_iff start k).0 e in rw (← same) taken)
        | inr e ↦ before k (ground arith) hi
      ],
    )
    | inr run ↦ inr (λ k lo hi. elim (Bool-cases (start == k)) [
      | inl e ↦ (let same : start ≡ k = (==_iff start k).0 e in rw (← same) taken)
      | inr e ↦ run k (ground arith) (omega arith)
    ])
  ]
]

-- With at most 3,660 occupied dates `nextAvailablePacificDate` always returns. The date is free, not
-- before the start, and every date from the start up to it is occupied.
pub next_available_first :
    (start : ℕ) (occupied : List ℕ)
    → length occupied ≤ 3660
    → (date : ℕ) × (next_available_pacific_date start occupied ≡ ok date)
      × (start ≤ date)
      × (has date occupied ≡ false)
      × ((k : ℕ) → start ≤ k → k < date → has k occupied ≡ true)
unfolding next_available_pacific_date
next_available_first start occupied h = elim (free_from_first 3661 start occupied) [
  | inl found ↦ found
  | inr run ↦ absurd (omega (arith, run-le-length 3661 start occupied run))
]
