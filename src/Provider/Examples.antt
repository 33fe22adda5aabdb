-- ===== src/Provider/Examples.antt =====
-- Concrete frequencies for the theorems on src/solver/provider.ts.
use gto_poker_daily_spots_ba.Prelude.{
  ℕ, ◌+◌, ◌*◌, ◌≡◌, refl, ◌<◌, List, [], ◌∷◌, Option, none, some, Key, Text, ok, sum, length, All,
  from_entries, map_set, arith,
}
use gto_poker_daily_spots_ba.Json.{Json, number, text, object, end, field, get_field}
use gto_poker_daily_spots_ba.Reach.{finite, effective_combo_reach, is_active_combo_reach}
use gto_poker_daily_spots_ba.Normalized.{Actor, distinct_from}
use gto_poker_daily_spots_ba.Attempts.{entry, reversed}
use gto_poker_daily_spots_ba.Provenance.{trim_start, trim_end}
use gto_poker_daily_spots_ba.PublicSpot.{
  ip, oop, generic, btn, PreflopAction, known, PublicSpot, without_repeats,
}
use gto_poker_daily_spots_ba.Provider.Positions.{
  positions_key, position_from_preflop, raw_position, resolve_position, seat_dealer, seat,
}
use gto_poker_daily_spots_ba.Provider.Positions.Seated.{IsSeated, seat-IsSeated}
use gto_poker_daily_spots_ba.Provider.Positions.Readable.{
  IsWellWritten, IsReadable, reconciled-seat,
}
use gto_poker_daily_spots_ba.Provider.Catalog.{
  Catalog, frequencies_from, strategy_from, strategies_from, raw_selectable, find_variant,
  resolve_combo, resolve_combos, strategies_for, catalog_of, read_catalog,
}
use gto_poker_daily_spots_ba.Provider.Reached.{
  frequencies_key, ip_key, oop_key, combos_key, normalized_reach_key, reach_at, find_reach,
  reached_combo, reached_from, reached_combo_records,
}
use gto_poker_daily_spots_ba.Provider.Catalog.Checked.{IsServable, read_catalog-IsServable}
use gto_poker_daily_spots_ba.Provider.Apportion.{
  apportion, basis_point_frequencies, read_values, floors, remainders_from, remaining, sort, insert,
  distribute, increment, goes_before,
}
use gto_poker_daily_spots_ba.Provider.Apportion.Quota.{IsApportioned, apportion-IsApportioned}

-- Three equal weights, and an action without any.
abbrev thirds : List ℕ
thirds = 7 ∷ 0 ∷ 7 ∷ 7 ∷ []

thirds_pos : 0 < sum thirds
thirds_pos = omega arith

apportion-IsApportioned_example :
    (res : List ℕ) × (apportion thirds ≡ ok res) × IsApportioned thirds res
apportion-IsApportioned_example = apportion-IsApportioned thirds thirds_pos

-- A number's value is a thousand times the length of its text here.
abbrev value_of : Text → Option ℕ
value_of t = some (length t * 1000)

abbrev name_of : Key → Text
name_of k = 97 ∷ (48 + k) ∷ []

abbrev three : Json
three = number (0 ∷ 0 ∷ 0 ∷ [])

-- "AhKd", whose range is given as "KdAh".
abbrev ace_king : Text
ace_king = 65 ∷ 104 ∷ 75 ∷ 100 ∷ []

abbrev king_ace : Text
king_ace = 75 ∷ 100 ∷ 65 ∷ 104 ∷ []

abbrev by_combo : Json
by_combo = object (
    field ace_king
      (object (
        field frequencies_key (object (field (name_of 0) three (field (name_of 1) three end))) end))
      end)

abbrev ranges : Json
ranges = object (
    field ip_key
      (object (
        field combos_key
          (object (field king_ace (object (field normalized_reach_key three end)) end)) end))
      (field oop_key (object (field combos_key (object end) end)) end))

abbrev catalog : Catalog
catalog = record {
  selectable = ace_king ∷ [];
  featured = ace_king;
  strategies =
      (
        ace_king,
        record {
          reach = record { raw_reach = none; reach_weight = finite 3000 };
          frequencies = (0, 5000) ∷ (1, 5000) ∷ [];
        },
      )
      ∷ [];
}

catalog-read :
    read_catalog value_of name_of (0 ∷ 1 ∷ []) Actor.ip none none (some by_combo) (some ranges)
    ≡ ok catalog
unfolding read_catalog reached_combo_records reached_from reached_combo get_field strategies_from
    strategy_from from_entries map_set find_reach reach_at reversed frequencies_from
    basis_point_frequencies read_values apportion floors remainders_from remaining sort insert
    distribute increment goes_before raw_selectable catalog_of resolve_combos resolve_combo
    find_variant entry distinct_from is_active_combo_reach effective_combo_reach strategies_for
catalog-read = refl

names_differ : (i j : Key) → name_of i ≡ name_of j → i ≡ j
names_differ i j e = ground (arith, e)

read_catalog-IsServable_example : IsServable (0 ∷ 1 ∷ []) catalog
read_catalog-IsServable_example =
    read_catalog-IsServable value_of name_of (0 ∷ 1 ∷ []) Actor.ip none none (some by_combo)
      (some ranges) catalog (refl, (refl, tt)) names_differ catalog-read

-- The button is in position in one preflop action and the big blind in another; the presentation
-- names the generic positions.
abbrev raises : List PreflopAction
raises =
    record { actor = ip; position = btn }
    ∷ record { actor = oop; position = 66 ∷ 98 ∷ [] }
    ∷ record { actor = ip; position = btn }
    ∷ []

abbrev generic_presentation : Json
generic_presentation =
    object (field positions_key (object (field ip_key (text (generic ip)) end)) end)

abbrev seated_spot : PublicSpot
seated_spot = record {
  schema_version = 3;
  spot_id = 1;
  spot_version_id = 10;
  street = 2;
  hero_actor = oop;
  dealer_actor = ip;
  positions = record { ip_position = btn; oop_position = 66 ∷ 98 ∷ [] };
  preflop = known 5 6 raises;
}

seated :
    seat (some generic_presentation) (known 5 6 raises) oop
    ≡ ok (seated_spot.positions, seated_spot.dealer_actor)
unfolding seat position_from_preflop resolve_position raw_position seat_dealer without_repeats
    trim_start trim_end get_field
seated = refl

seat-IsSeated_example :
    IsSeated
      (some generic_presentation)
      (known 5 6 raises)
      oop
      (seated_spot.positions, seated_spot.dealer_actor)
seat-IsSeated_example =
    seat-IsSeated (some generic_presentation) (known 5 6 raises) oop
      (seated_spot.positions, seated_spot.dealer_actor) seated

well_written : All IsWellWritten raises
unfolding trim_start trim_end
well_written = (
  record { trimmed = refl; filled = refl },
  (record { trimmed = refl; filled = refl }, (record { trimmed = refl; filled = refl }, tt)),
)

reconciled-seat_example : IsReadable ok seated_spot raises
reconciled-seat_example =
    reconciled-seat ok seated_spot (some generic_presentation) 5 6 raises oop seated well_written
