-- ===== src/Provider/Reached.antt =====
-- The reached ranges of the native solver's envelope, as src/solver/provider.ts reads them from JSON,
-- with the errors of the reading. An array in place of an object is refused here.
use gto_poker_daily_spots_ba.Prelude.{
  ℕ, leb, ◌==◌, ◌||◌, ◌&&◌, Bool, false, if◌then◌else◌, List, [], ◌∷◌, Option, none, some, Result,
  ok, err, or_throw, ◌>>=◌, Text, same_text, any,
}
use gto_poker_daily_spots_ba.Json.{Json, number, object, Fields, end, field, get}
use gto_poker_daily_spots_ba.Normalized.{Actor}
use gto_poker_daily_spots_ba.Attempts.{Combo, reversed}
use gto_poker_daily_spots_ba.Provider.Apportion.{FrequencyError}

pub data ProviderError : Type 0 where
  no_ranges no_strategies empty_catalog no_featured_combo featured_missing : ProviderError
  no_range : Actor → ProviderError
  bad_reached_combo bad_normalized_reach bad_raw_reach bad_strategy no_frequencies :
      Combo → ProviderError
  invalid_combo no_exact_entry inactive_combo : Combo → ProviderError
  bad_frequencies : FrequencyError → ProviderError

-- In multiples of 10 ^ -12.
pub record ProviderReach : Type 0 where
  pub raw_reach : Option ℕ
  pub normalized_reach : ℕ

-- The keys of the values that are read, as character codes.
abbrev pub ip_key : Text
ip_key = 105 ∷ 112 ∷ []

abbrev pub oop_key : Text
oop_key = 111 ∷ 111 ∷ 112 ∷ []

abbrev pub combos_key : Text
combos_key = 99 ∷ 111 ∷ 109 ∷ 98 ∷ 111 ∷ 115 ∷ []

abbrev pub normalized_reach_key : Text
normalized_reach_key =
    110 ∷ 111 ∷ 114 ∷ 109 ∷ 97 ∷ 108 ∷ 105 ∷ 122 ∷ 101 ∷ 100 ∷ 82 ∷ 101 ∷ 97 ∷ 99 ∷ 104 ∷ []

abbrev pub raw_reach_key : Text
raw_reach_key = 114 ∷ 97 ∷ 119 ∷ 82 ∷ 101 ∷ 97 ∷ 99 ∷ 104 ∷ []

abbrev pub reach_weight_key : Text
reach_weight_key = 114 ∷ 101 ∷ 97 ∷ 99 ∷ 104 ∷ 87 ∷ 101 ∷ 105 ∷ 103 ∷ 104 ∷ 116 ∷ []

abbrev pub frequencies_key : Text
frequencies_key = 102 ∷ 114 ∷ 101 ∷ 113 ∷ 117 ∷ 101 ∷ 110 ∷ 99 ∷ 105 ∷ 101 ∷ 115 ∷ []

abbrev pub combo_key : Text
combo_key = 99 ∷ 111 ∷ 109 ∷ 98 ∷ 111 ∷ []

abbrev pub actor_key : Actor → Text
actor_key Actor.ip = ip_key
actor_key Actor.oop = oop_key

-- A value that is an object.
abbrev pub fields_of : Option Json → Option Fields
fields_of (some (object fs)) = some fs
fields_of _ = none

abbrev pub get_of : Text → Option Json → Option Json
get_of k none = none
get_of k (some j) = get k j

abbrev pub with_default : Option ℕ → Option ℕ → Option ℕ
with_default (some a) b = some a
with_default none b = b

abbrev pub or_zero : Option ℕ → ℕ
or_zero none = 0
or_zero (some n) = n

abbrev pub raw_of : Option ProviderReach → Option ℕ
raw_of none = none
raw_of (some r) = r.raw_reach

abbrev pub normalized_of : Option ProviderReach → Option ℕ
normalized_of none = none
normalized_of (some r) = some r.normalized_reach

-- `/^[2-9TJQKA][cdhs]$/`.
abbrev pub is_rank : ℕ → Bool
is_rank c = leb 50 c && leb c 57 || any (λ r. r == c) (84 ∷ 74 ∷ 81 ∷ 75 ∷ 65 ∷ [])

abbrev pub is_suit : ℕ → Bool
is_suit c = any (λ s. s == c) (99 ∷ 100 ∷ 104 ∷ 115 ∷ [])

-- `comboPattern`.
abbrev pub is_combo : Combo → Bool
is_combo (a ∷ b ∷ c ∷ d ∷ []) = is_rank a && is_suit b && is_rank c && is_suit d
is_combo _ = false

unfoldable pub reach_at : Combo → List (Combo × ProviderReach) → Option ProviderReach
reach_at c [] = none
reach_at c ((d, r) ∷ rest) = if same_text d c then some r else reach_at c rest

-- `findReach`, over both orders of the two cards.
unfoldable pub find_reach : List (Combo × ProviderReach) → Combo → Option ProviderReach
find_reach records c = elim (reach_at c records) [
  | some r ↦ some r
  | none ↦ reach_at (reversed c) records
]

-- `value_of` is the value of a number, if it is finite and not negative.
module _ (value_of : Text → Option ℕ) where
  abbrev pub optional_number : Option Json → Option ℕ
  optional_number (some (number t)) = value_of t
  optional_number _ = none

  -- `raw !== undefined && (…)`.
  abbrev pub raw_reach_of : Combo → Option Json → Result ProviderError (Option ℕ)
  raw_reach_of c none = ok none
  raw_reach_of c (some j) = elim (optional_number (some j)) [
    | none ↦ err (bad_raw_reach c)
    | some n ↦ ok (some n)
  ]

  unfoldable pub reached_combo : Combo → Json → Result ProviderError ProviderReach
  reached_combo c weight = do
    fields ← or_throw (fields_of (some weight)) (bad_reached_combo c)
    normalized ←
        or_throw (optional_number (get normalized_reach_key weight)) (bad_normalized_reach c)
    raw ← raw_reach_of c (get raw_reach_key weight)
    ok (record { raw_reach = raw; normalized_reach = normalized })

  unfoldable pub reached_from : Fields → Result ProviderError (List (Combo × ProviderReach))
  reached_from end = ok []
  reached_from (field c weight fs) = do
    reach ← reached_combo c weight
    rest ← reached_from fs
    ok ((c, reach) ∷ rest)

  unfoldable pub reached_combo_records :
      Option Json → Actor → Result ProviderError (List (Combo × ProviderReach))
  reached_combo_records raw_ranges actor = do
    ranges ← or_throw (fields_of raw_ranges) no_ranges
    combos ←
        or_throw (fields_of (get_of combos_key (get (actor_key actor) (object ranges))))
          (no_range actor)
    reached_from combos
