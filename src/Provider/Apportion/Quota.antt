-- ===== src/Provider/Apportion/Quota.antt =====
-- What `basisPointFrequencies` of src/solver/provider.ts returns.
use native.Mathlib.Nat.{zero-add, zero-div, le_of_mul-le-mul_right}
use gto_poker_daily_spots_ba.Prelude.{
  ℕ, zero, suc, ◌+◌, ◌-◌, ◌*◌, ◌/◌, ◌%◌, ◌≤◌, ◌<◌, ◌≡◌, refl, sym, ◌∙◌, ◌⊎◌, ap, inl, inr, List,
  length, get_or, take, All, sum, arith, ok, length-map, All-map,
}
use gto_poker_daily_spots_ba.Provider.Apportion.{
  Remainder, floors, remainders_from, sort, remaining, apportion,
}
use gto_poker_daily_spots_ba.Provider.Apportion.Sorted.{
  fractions, fractions-sort, times, times-sort, times-take-le, All-sort, All-take, Falls-sort,
  take-pos,
}
use gto_poker_daily_spots_ba.Provider.Apportion.Remainders.{
  floors_fit, remaining_total, remainders-index, remainders-entry, times-remainders, times_zero,
  remainders-fractions, fractions-le, get_or-floors, times-remainders_pos, served_first,
}
use gto_poker_daily_spots_ba.Provider.Apportion.Handing.{Handed, distribute-Handed}

pub zero_or_pos : (n : ℕ) → (n ≡ 0) ⊎ (0 < n)
zero_or_pos zero = inl refl
zero_or_pos (suc n) = inr (omega arith)

-- The exact share of the value at `i` is `share / total` basis points.
abbrev pub share : List ℕ → ℕ → ℕ
share vs i = get_or vs i 0 * 10000

pub record IsApportioned (vs res : List ℕ) : Type 0 where
  pub total : sum res ≡ 10000
  pub size : length res ≡ length vs
  pub quota :
      (i : ℕ) → (get_or res i 0 ≡ share vs i / sum vs) ⊎ (get_or res i 0 ≡ share vs i / sum vs + 1)
  pub zero_stays : (i : ℕ) → get_or vs i 0 ≡ 0 → get_or res i 0 ≡ 0
  pub largest_first :
      (i j : ℕ)
      → j < length vs
      → get_or res i 0 ≡ share vs i / sum vs + 1
      → get_or res j 0 ≡ share vs j / sum vs
      → share vs j % sum vs ≤ share vs i % sum vs

module _ (vs : List ℕ) (h : 0 < sum vs) where
  abbrev order : List Remainder
  order = sort (remainders_from (sum vs) 0 vs)

  abbrev left : ℕ
  left = remaining (sum vs) vs

  abbrev value : ℕ → ℕ
  value i = get_or vs i 0

  order-index : All (λ r. r.index < length (floors (sum vs) vs)) order
  unfolding floors
  order-index = All-sort _ _ (
      All-map _ _ (remainders_from (sum vs) 0 vs)
        (λ r q. rw (length-map vs (λ v. v * 10000 / sum vs)) (omega (arith, q.1)))
        (remainders-index (sum vs) 0 vs))

  order-entry : All (λ r. r.fraction ≡ value r.index * 10000 % sum vs) order
  order-entry = All-sort _ _ (remainders-entry (sum vs) 0 vs value (λ j. rw zero-add))

  order-lt : All (λ r. r.fraction < sum vs) order
  order-lt = All-sort _ _ (remainders-fractions (sum vs) 0 vs h)

  order-fractions : left * sum vs ≡ fractions order
  order-fractions = remaining_total vs h ∙ sym (fractions-sort (remainders_from (sum vs) 0 vs))

  -- So reading the order never runs past its end.
  left-le-length : left ≤ length order
  left-le-length =
      le_of_mul-le-mul_right {k = sum vs}
        (omega (arith, order-fractions, fractions-le (sum vs) order order-lt)) h

  once : (i : ℕ) → times i (take left order) ≤ 1
  once i = omega (
    arith,
    times-take-le i left order,
    times-sort i (remainders_from (sum vs) 0 vs),
    times-remainders i (sum vs) 0 vs,
  )

  served-pos : All (λ r. 0 < r.fraction) (take left order)
  served-pos = take-pos (sum vs) left order order-lt (Falls-sort _) (omega (arith, order-fractions))

  listed : (j : ℕ) → j < length vs → 0 < times j order
  listed j lt = omega (
    arith,
    times-sort j (remainders_from (sum vs) 0 vs),
    times-remainders_pos j j (sum vs) 0 vs (omega arith) lt,
  )

  Handed-IsApportioned :
      (res : List ℕ) → Handed order left (floors (sum vs) vs) res → IsApportioned vs res
  unfolding floors remaining
  Handed-IsApportioned res d = record {
    total = omega (arith, d.total, floors_fit vs h, left_lem);
    size = d.size ∙ floors_length;
    quota = λ i. elim (zero_or_pos (times i (take left order))) [
      | inl e ↦ inl (omega (arith, d.entry i, get_or-floors (sum vs) i vs))
      | inr p ↦ inr (omega (arith, d.entry i, get_or-floors (sum vs) i vs, once i))
    ];
    zero_stays = λ i z. omega (
      arith,
      d.entry i,
      get_or-floors (sum vs) i vs,
      times_zero (sum vs) i value (take left order) served-pos (All-take _ left order order-entry) z
          h,
      ap (λ (t : ℕ). t * 10000 / sum vs) z,
      zero-div (sum vs),
    );
    largest_first = λ i j lt up stay.
        served_first (λ t. value t * 10000 % sum vs) i j left order (Falls-sort _) order-entry
          (omega (arith, d.entry i, get_or-floors (sum vs) i vs))
          (omega (arith, d.entry j, get_or-floors (sum vs) j vs)) (listed j lt);
  }
    where
      floors_length : length (floors (sum vs) vs) ≡ length vs
      floors_length = length-map vs (λ v. v * 10000 / sum vs)

      left_lem : left ≡ 10000 - sum (floors (sum vs) vs)
      left_lem = refl

-- Values with a positive sum are always apportioned: the result adds up to exactly 10,000 basis
-- points, each action gets its quota rounded down or up, an action with no weight gets none, and
-- an action that is rounded up has no smaller remainder than one that is not.
pub apportion-IsApportioned :
    (vs : List ℕ) → 0 < sum vs → (res : List ℕ) × (apportion vs ≡ ok res) × IsApportioned vs res
unfolding apportion
apportion-IsApportioned vs h =
    let (res, d) =
      distribute-Handed (order vs h) (left vs h) (floors (sum vs) vs) (order-index vs h)
        (left-le-length vs h) in
    (res, ground (arith, d.returns), Handed-IsApportioned vs h res d)
