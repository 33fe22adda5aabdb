-- ===== src/Provider/Catalog.antt =====
-- The strategies and the selectable combos of the native solver's envelope, as
-- src/solver/provider.ts reads them from JSON. An array in place of an object is refused here.
pub mod Distinct
pub mod Rows
pub mod Checked
use gto_poker_daily_spots_ba.Prelude.{
  ℕ, not, leb, ◌==◌, ◌||◌, ◌&&◌, Bool, true, false, if◌then◌else◌, List, [], ◌∷◌, map, Option, none,
  some, Key, Result, ok, err, from_entries, guard, or_throw, ◌>>=◌, ◌>>◌, Text, same_text, any,
  find_first,
}
use gto_poker_daily_spots_ba.Json.{
  Json, number, text, array, object, Items, nil, cons, Fields, end, field, get,
}
use gto_poker_daily_spots_ba.Reach.{finite, is_active_combo_reach}
use gto_poker_daily_spots_ba.Normalized.{Actor, contains, distinct_from}
use gto_poker_daily_spots_ba.Attempts.{Combo, ComboStrategy, PrivateSolution, entry, reversed}
use gto_poker_daily_spots_ba.Provider.Apportion.{FrequencyError, basis_point_frequencies}
use gto_poker_daily_spots_ba.Provider.Reached.{
  ProviderError, ProviderReach, actor_key, bad_frequencies, bad_normalized_reach, bad_raw_reach,
  bad_reached_combo, bad_strategy, combo_key, combos_key, empty_catalog, featured_missing,
  fields_of, find_reach, frequencies_key, get_of, inactive_combo, invalid_combo, ip_key, is_combo,
  is_rank, is_suit, no_exact_entry, no_featured_combo, no_frequencies, no_range, no_ranges,
  no_strategies, normalized_of, normalized_reach_key, oop_key, optional_number, or_zero, raw_of,
  raw_reach_key, raw_reach_of, reach_at, reach_weight_key, reached_combo, reached_combo_records,
  reached_from, with_default,
}

pub record Catalog : Type 0 where
  pub selectable : List Combo
  pub featured : Combo
  pub strategies : List (Combo × ComboStrategy)

abbrev pub pairs : List Key → List ℕ → List (Key × ℕ)
pairs [] vs = []
pairs (k ∷ ks) [] = []
pairs (k ∷ ks) (v ∷ vs) = (k, v) ∷ pairs ks vs

abbrev pub points_of : Result FrequencyError (List ℕ) → Result ProviderError (List ℕ)
points_of (ok vs) = ok vs
points_of (err e) = err (bad_frequencies e)

-- `value_of` is the value of a number, if it is finite and not negative; `name_of` is the text of an
-- action's identifier.
module _ (value_of : Text → Option ℕ) (name_of : Key → Text) where
  -- The frequencies of one combo, in basis points: `Object.fromEntries` keeps one entry of an action
  -- that stands twice.
  unfoldable pub frequencies_from :
      List Key → Combo → Option Json → Result ProviderError (List (Key × ℕ))
  frequencies_from order c value = do
    fields ← or_throw (fields_of value) (no_frequencies c)
    points ← points_of (
        basis_point_frequencies (λ id. optional_number value_of (get (name_of id) (object fields)))
          order)
    ok (from_entries [] (pairs order points))

  unfoldable pub strategy_from :
      List Key → List (Combo × ProviderReach) → Combo → Json → Result ProviderError ComboStrategy
  strategy_from order reached c raw = do
    item ← or_throw (fields_of (some raw)) (bad_strategy c)
    let range_reach = find_reach reached c
    let raw_reach =
        with_default (optional_number value_of (get raw_reach_key raw)) (raw_of range_reach)
    let weight =
        with_default (optional_number value_of (get reach_weight_key raw))
          (normalized_of range_reach)
    frequencies ← frequencies_from order c (get frequencies_key raw)
    ok (record {
      reach = record {
        raw_reach = elim raw_reach [ none ↦ none | some n ↦ some (finite n) ];
        reach_weight = finite (or_zero weight);
      };
      frequencies = frequencies;
    })

  unfoldable pub strategies_from :
      List Key
      → List (Combo × ProviderReach)
      → Fields
      → Result ProviderError (List (Combo × ComboStrategy))
  strategies_from order reached end = ok []
  strategies_from order reached (field c raw fs) = do
    strategy ← strategy_from order reached c raw
    rest ← strategies_from order reached fs
    ok ((c, strategy) ∷ rest)

abbrev pub keys_of : List (Combo × ComboStrategy) → List Combo
keys_of rows = map (λ r. r.0) rows

abbrev pub text_or_empty : Option Json → Text
text_or_empty (some (text t)) = t
text_or_empty _ = []

-- An entry of `selectableCombos`: a text, or an object with one.
abbrev pub selectable_entry : Json → Combo
selectable_entry (text t) = t
selectable_entry j = text_or_empty (get combo_key j)

abbrev pub selectable_entries : Items → List Combo
selectable_entries nil = []
selectable_entries (cons j js) = selectable_entry j ∷ selectable_entries js

unfoldable pub raw_selectable : Option Json → List (Combo × ComboStrategy) → List Combo
raw_selectable (some (array items)) rows = selectable_entries items
raw_selectable _ rows = keys_of rows

-- The first of the two spellings of a combo that has an entry, with the entry.
unfoldable pub find_variant : List (Combo × ComboStrategy) → Combo → Option (Combo × ComboStrategy)
find_variant rows c = elim (entry c rows) [
  | some s ↦ some (c, s)
  | none ↦ elim (entry (reversed c) rows) [ none ↦ none | some s ↦ some (reversed c, s) ]
]

unfoldable pub resolve_combo : List (Combo × ComboStrategy) → Combo → Result ProviderError Combo
resolve_combo rows c = do
  guard (is_combo c) (invalid_combo c)
  (resolved, exact) ← or_throw (find_variant rows c) (no_exact_entry c)
  guard (is_active_combo_reach exact.reach) (inactive_combo c)
  ok resolved

unfoldable pub resolve_combos :
    List (Combo × ComboStrategy) → List Combo → Result ProviderError (List Combo)
resolve_combos rows [] = ok []
resolve_combos rows (c ∷ cs) = do
  resolved ← resolve_combo rows c
  rest ← resolve_combos rows cs
  ok (resolved ∷ rest)

-- `selectableStrategies`: each selectable combo has an entry.
unfoldable pub strategies_for :
    List (Combo × ComboStrategy) → List Combo → List (Combo × ComboStrategy)
strategies_for rows [] = []
strategies_for rows (c ∷ cs) =
    let rest = strategies_for rows cs in
    elim (entry c rows) [ none ↦ rest | some s ↦ (c, s) ∷ rest ]

abbrev pub is_empty : List Combo → Bool
is_empty [] = true
is_empty (c ∷ cs) = false

abbrev pub featured_in : List Combo → Combo → Option Combo
featured_in selectable c = find_first (λ v. contains v selectable) (c ∷ reversed c ∷ [])

-- `requested` is the featured combo that is asked for.
unfoldable pub catalog_of :
    Combo → List Combo → List (Combo × ComboStrategy) → Result ProviderError Catalog
catalog_of requested raw rows = do
  resolved ← resolve_combos rows (distinct_from [] (requested ∷ raw))
  let selectable = distinct_from [] resolved
  guard (not (is_empty selectable)) empty_catalog
  featured ← or_throw (featured_in selectable requested) featured_missing
  ok (record {
    selectable = selectable;
    featured = featured;
    strategies = strategies_for rows selectable;
  })

abbrev pub other_actor : Actor → Actor
other_actor Actor.ip = Actor.oop
other_actor Actor.oop = Actor.ip

abbrev pub filled : Combo → Option Combo
filled [] = none
filled (c ∷ cs) = some (c ∷ cs)

abbrev pub first_key : Fields → Option Combo
first_key end = none
first_key (field c raw fs) = filled c

-- `requestedFeaturedCombo`, which may not be the empty text.
abbrev pub requested_combo : Option Json → Fields → Option Combo
requested_combo (some (text t)) rows = filled t
requested_combo _ rows = first_key rows

module _ (value_of : Text → Option ℕ) (name_of : Key → Text) where
  -- The reached range of the opponent is read for its errors here.
  unfoldable pub read_catalog :
      List Key
      → Actor
      → (featured selectable by_combo ranges : Option Json) → Result ProviderError Catalog
  read_catalog order hero featured selectable by_combo ranges = do
    raw_rows ← or_throw (fields_of by_combo) no_strategies
    reached ← reached_combo_records value_of ranges hero
    opponent ← reached_combo_records value_of ranges (other_actor hero)
    requested ← or_throw (requested_combo featured raw_rows) no_featured_combo
    rows ← strategies_from value_of name_of order reached raw_rows
    catalog_of requested (raw_selectable selectable rows) rows
