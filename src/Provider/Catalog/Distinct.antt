-- ===== src/Provider/Catalog/Distinct.antt =====
-- `Array.from(new Set(combos))` leaves no repeats.
use gto_poker_daily_spots_ba.Prelude.{false, ◌≡◌, refl, inl, inr, List, [], ◌∷◌, All, Bool-cases}
use gto_poker_daily_spots_ba.Normalized.{contains, distinct_from}
use gto_poker_daily_spots_ba.Attempts.{Combo}

-- A list without repeats, none of which is in `seen`.
abbrev pub Fresh : List Combo → List Combo → Type 0
Fresh seen [] = Unit {0}
Fresh seen (c ∷ cs) = (contains c seen ≡ false) × Fresh (c ∷ seen) cs

pub Fresh-distinct : (seen cs : List Combo) → Fresh seen (distinct_from seen cs)
unfolding distinct_from
Fresh-distinct seen [] = tt
Fresh-distinct seen (c ∷ cs) = elim (Bool-cases (contains c seen)) [
  | inl e ↦ rw e (Fresh-distinct seen cs)
  | inr e ↦ rw e (e, Fresh-distinct (c ∷ seen) cs)
]

pub distinct-Fresh : (seen cs : List Combo) → Fresh seen cs → distinct_from seen cs ≡ cs
unfolding distinct_from
distinct-Fresh seen [] h = refl
distinct-Fresh seen (c ∷ cs) h = rw (h.0, distinct-Fresh (c ∷ seen) cs h.1) refl

pub All-distinct :
    (P : Combo → Type 0) (seen cs : List Combo) → All P cs → All P (distinct_from seen cs)
unfolding distinct_from
All-distinct P seen [] h = tt
All-distinct P seen (c ∷ cs) h = elim (Bool-cases (contains c seen)) [
  | inl e ↦ rw e (All-distinct P seen cs h.1)
  | inr e ↦ rw e (h.0, All-distinct P (c ∷ seen) cs h.1)
]
