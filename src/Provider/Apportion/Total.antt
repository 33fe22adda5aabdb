-- ===== src/Provider/Apportion/Total.antt =====
-- What `basisPointFrequencies` of src/solver/provider.ts returns adds up.
use gto_poker_daily_spots_ba.Prelude.{
  ℕ, ◌<◌, ◌≡◌, subst, ◌∙◌, ◌⊎◌, inl, inr, List, [], ◌∷◌, Option, Key, ok, length, sum, arith,
  or_throw-ok, bind-ok,
}
use gto_poker_daily_spots_ba.Provider.Apportion.{
  invalid_frequency, read_values, apportion, basis_point_frequencies,
}
use gto_poker_daily_spots_ba.Provider.Apportion.Quota.{zero_or_pos, apportion-IsApportioned}

zero-apportion : (vs res : List ℕ) → sum vs ≡ 0 → apportion vs ≡ ok res → ⊥
unfolding apportion
zero-apportion vs res z h = ground (arith, z, h)

read_values-length :
    (value : Key → Option ℕ) (ids : List Key) (vs : List ℕ)
    → read_values value ids ≡ ok vs
    → length vs ≡ length ids
unfolding read_values
read_values-length value [] vs h = ground arith
read_values-length value (id ∷ ids) vs h =
    let (v, there, h1) = or_throw-ok (value id) invalid_frequency _ vs h in
    let (rest, read, same) = bind-ok (read_values value ids) _ vs h1 in
    ground (arith, same, read_values-length value ids rest read)

-- Frequencies that are read and apportioned are as many as the actions, and add up.
pub basis_point_frequencies-total :
    (value : Key → Option ℕ) (ids : List Key) (res : List ℕ)
    → basis_point_frequencies value ids ≡ ok res
    → (sum res ≡ 10000) × (length res ≡ length ids)
unfolding basis_point_frequencies
basis_point_frequencies-total value ids res h =
    let (vs, read, apportioned) = bind-ok (read_values value ids) apportion res h in
    by_sum vs read apportioned (zero_or_pos (sum vs))
  where
    by_sum :
        (vs : List ℕ)
        → read_values value ids ≡ ok vs
        → apportion vs ≡ ok res
        → (sum vs ≡ 0) ⊎ (0 < sum vs)
        → (sum res ≡ 10000) × (length res ≡ length ids)
    by_sum vs read apportioned (inl z) = absurd (zero-apportion vs res z apportioned)
    by_sum vs read apportioned (inr p) =
        let (out, returned, is) = apportion-IsApportioned vs p in
        let same : out ≡ res = ground (arith, returned, apportioned) in
        (
          subst (λ r. sum r ≡ 10000) same is.total,
          subst (λ r. length r ≡ length vs) same is.size ∙ read_values-length value ids vs read,
        )
