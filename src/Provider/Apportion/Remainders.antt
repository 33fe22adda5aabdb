-- ===== src/Provider/Apportion/Remainders.antt =====
-- The remainders that `basisPointFrequencies` of src/solver/provider.ts sorts.
use native.Mathlib.Nat.{
  div-add-mod', add-mul, mod-lt, mod-eq_of_lt, add-zero, suc-add, add-suc, le_of_mul-le-mul_right,
}
use gto_poker_daily_spots_ba.Prelude.{
  ℕ, zero, suc, ◌+◌, ◌-◌, ◌*◌, ◌/◌, ◌%◌, ◌≤◌, ◌<◌, ◌==◌, ◌≡◌, refl, subst, ◌∙◌, ap, inl, inr, true,
  Bool-cases, List, [], ◌∷◌, length, get_or, take, All, sum, arith, All-map, ==_iff,
}
use gto_poker_daily_spots_ba.Provider.Apportion.{Remainder, floors, remainders_from, remaining}
use gto_poker_daily_spots_ba.Provider.Apportion.Sorted.{fractions, times, Falls}

pub floors_total :
    (total i : ℕ) (vs : List ℕ)
    → sum (floors total vs) * total + fractions (remainders_from total i vs) ≡ sum vs * 10000
unfolding floors remainders_from
floors_total total i [] = omega arith
floors_total total i (v ∷ vs) = omega (
  arith,
  floors_total total (suc i) vs,
  div-add-mod' (v * 10000) total,
  add-mul (v * 10000 / total) (sum (floors total vs)) total,
)

pub floors_fit : (vs : List ℕ) → 0 < sum vs → sum (floors (sum vs) vs) ≤ 10000
floors_fit vs h = le_of_mul-le-mul_right {k = sum vs} (omega (arith, floors_total (sum vs) 0 vs)) h

-- The points that are left are the fractions together.
pub remaining_total :
    (vs : List ℕ)
    → 0 < sum vs
    → remaining (sum vs) vs * sum vs ≡ fractions (remainders_from (sum vs) 0 vs)
unfolding remaining
remaining_total vs h =
    let whole : 10000 - sum (floors (sum vs) vs) + sum (floors (sum vs) vs) ≡ 10000 =
      omega (arith, floors_fit vs h) in
    omega (
      arith,
      floors_total (sum vs) 0 vs,
      ap (λ (t : ℕ). t * sum vs) whole,
      add-mul (10000 - sum (floors (sum vs) vs)) (sum (floors (sum vs) vs)) (sum vs),
    )

pub length-remainders :
    (total i : ℕ) (vs : List ℕ) → length (remainders_from total i vs) ≡ length vs
unfolding remainders_from
length-remainders total i [] = refl
length-remainders total i (v ∷ vs) = ap suc (length-remainders total (suc i) vs)

pub remainders-index :
    (total i : ℕ) (vs : List ℕ)
    → All (λ r. (i ≤ r.index) × (r.index < i + length vs)) (remainders_from total i vs)
unfolding remainders_from
remainders-index total i [] = tt
remainders-index total i (v ∷ vs) = (
  (omega arith, omega arith),
  All-map _ _ (remainders_from total (suc i) vs) (λ r q. (omega arith, omega arith))
      (remainders-index total (suc i) vs),
)

-- An entry records the fraction of the value at its index.
pub remainders-entry :
    (total i : ℕ) (vs : List ℕ) (value : ℕ → ℕ)
    → ((j : ℕ) → value (i + j) ≡ get_or vs j 0)
    → All (λ r. r.fraction ≡ value r.index * 10000 % total) (remainders_from total i vs)
unfolding remainders_from
remainders-entry total i [] value e = tt
remainders-entry total i (v ∷ vs) value e = (
  rw (← (rw add-zero at (e 0))) refl,
  remainders-entry total (suc i) vs value (λ j. rw (suc-add, ← add-suc) (e (suc j))),
)

pub times_outside : (i : ℕ) (rs : List Remainder) → All (λ r. i < r.index) rs → times i rs ≡ 0
times_outside i [] h = refl
times_outside i (r ∷ rs) h = ground (arith, times_outside i rs h.1)

pub times-remainders : (i total k : ℕ) (vs : List ℕ) → times i (remainders_from total k vs) ≤ 1
unfolding remainders_from
times-remainders i total k [] = omega arith
times-remainders i total k (v ∷ vs) = elim (Bool-cases (k == i)) [
  | inl e ↦ rw e (omega (arith, times_outside i (remainders_from total (suc k) vs) (later e)))
  | inr e ↦ rw e (omega (arith, times-remainders i total (suc k) vs))
]
  where
    later : (k == i) ≡ true → All (λ r. i < r.index) (remainders_from total (suc k) vs)
    later e =
        All-map _ _ (remainders_from total (suc k) vs) (λ r q. ground arith)
          (remainders-index total (suc k) vs)

pub times_zero :
    (total i : ℕ) (value : ℕ → ℕ) (rs : List Remainder)
    → All (λ r. 0 < r.fraction) rs
    → All (λ r. r.fraction ≡ value r.index * 10000 % total) rs
    → value i ≡ 0
    → 0 < total
    → times i rs ≡ 0
times_zero total i value [] p e z t = refl
times_zero total i value (r ∷ rs) p e z t = elim (Bool-cases (r.index == i)) [
  | inl q ↦ absurd (none_at ((==_iff r.index i).0 q))
  | inr q ↦ rw q (omega (arith, times_zero total i value rs p.1 e.1 z t))
]
  where
    none_at : r.index ≡ i → ⊥
    none_at q =
        let v : value r.index ≡ 0 = rw q z in
        let f : r.fraction ≡ 0 * 10000 % total = e.0 ∙ ap (λ (t : ℕ). t * 10000 % total) v in
        omega (arith, p.0, mod-eq_of_lt {n = 0} {m = total} t)

pub remainders-fractions :
    (total i : ℕ) (vs : List ℕ)
    → 0 < total
    → All (λ r. r.fraction < total) (remainders_from total i vs)
unfolding remainders_from
remainders-fractions total i [] h = tt
remainders-fractions total i (v ∷ vs) h =
    (mod-lt (v * 10000) h, remainders-fractions total (suc i) vs h)

pub fractions-le :
    (total : ℕ) (rs : List Remainder)
    → All (λ r. r.fraction < total) rs
    → fractions rs ≤ length rs * total
fractions-le total [] lt = omega arith
fractions-le total (r ∷ rs) lt = grind (arith, lt.0, fractions-le total rs lt.1)

pub get_or-floors :
    (total i : ℕ) (vs : List ℕ) → get_or (floors total vs) i 0 ≡ get_or vs i 0 * 10000 / total
unfolding floors
get_or-floors total i [] = omega arith
get_or-floors total zero (v ∷ vs) = refl
get_or-floors total (suc i) (v ∷ vs) = get_or-floors total i vs

pub times-remainders_pos :
    (i j total k : ℕ) (vs : List ℕ)
    → k + j ≡ i
    → j < length vs
    → 0 < times i (remainders_from total k vs)
unfolding remainders_from
times-remainders_pos i j total k [] e h = absurd (omega arith)
times-remainders_pos i zero total k (v ∷ vs) e h = ground arith
times-remainders_pos i (suc j) total k (v ∷ vs) e h =
    omega (arith, times-remainders_pos i j total (suc k) vs (omega arith) (omega arith))

pub fraction_below :
    (F : ℕ → ℕ) (n j : ℕ) (rs : List Remainder)
    → All (λ s. s.fraction ≤ n) rs
    → All (λ r. r.fraction ≡ F r.index) rs
    → 0 < times j rs
    → F j ≤ n
fraction_below F n j [] le e h = absurd (omega arith)
fraction_below F n j (r ∷ rs) le e h = elim (Bool-cases (r.index == j)) [
  | inl q ↦ subst (λ t. F t ≤ n) ((==_iff r.index j).0 q) (rw e.0 at le.0)
  | inr q ↦ fraction_below F n j rs le.1 e.1 (omega (arith, rw q at h))
]

-- An entry outside the first `k` has no larger fraction than one among them.
pub served_first :
    (F : ℕ → ℕ) (i j k : ℕ) (rs : List Remainder)
    → Falls rs
    → All (λ r. r.fraction ≡ F r.index) rs
    → 0 < times i (take k rs)
    → times j (take k rs) ≡ 0
    → 0 < times j rs
    → F j ≤ F i
served_first F i j zero rs f e hi hj h = absurd (omega arith)
served_first F i j (suc k) [] f e hi hj h = absurd (omega arith)
served_first F i j (suc k) (r ∷ rs) f e hi hj h = elim (Bool-cases (r.index == j)) [
  | inl q ↦ absurd (omega (arith, rw q at hj))
  | inr q ↦ elim (Bool-cases (r.index == i)) [
    | inl p ↦
        subst (λ t. F j ≤ F t) ((==_iff r.index i).0 p)
          (rw e.0 at (fraction_below F r.fraction j rs f.0 e.1 (omega (arith, rw q at h))))
    | inr p ↦
        served_first F i j k rs f.1 e.1 (omega (arith, rw p at hi)) (omega (arith, rw q at hj))
          (omega (arith, rw q at h))
  ]
]
