-- ===== src/Provenance/Examples.antt =====
-- An input whose ranges are spaced and ordered otherwise than the resolved ones.
use gto_poker_daily_spots_ba.Prelude.{
  ◌≡◌, refl, [], ◌∷◌, ◌++◌, ok, Text, leb_text, sort_by, insert_by,
}
use gto_poker_daily_spots_ba.Json.{Json, text, object, end, field, get_field, join, canonical}
use gto_poker_daily_spots_ba.Normalized.{Actor}
use gto_poker_daily_spots_ba.Provenance.{
  trim_start, trim_end, split, tokens, normalize_solver_range, after_prefix, range_of_line,
  range_command, input_range, check_range, configuration_hash, public_payload, source_key,
  resolved_ranges, ip_key, oop_key, assert_import_provenance,
}
use gto_poker_daily_spots_ba.Provenance.Agrees.{Agrees, assert_import_provenance-Agrees}

abbrev quote : Text → Text
quote t = 34 ∷ t ++ 34 ∷ []

abbrev hash : Json
hash = text (104 ∷ [])

abbrev envelope : Json
envelope = object (
    field public_payload
      (object (field source_key (object (field configuration_hash hash end)) end)) end)

-- "AA,KK" and "QQ".
abbrev provenance : Json
provenance = object (
    field configuration_hash hash (
      field resolved_ranges
        (object (
          field ip_key (text (65 ∷ 65 ∷ 44 ∷ 75 ∷ 75 ∷ []))
            (field oop_key (text (81 ∷ 81 ∷ [])) end)))
        end))

-- A line that sets another range first, then " KK, AA " and "QQ".
abbrev input : Text
input =
    range_command Actor.ip
    ++ (32 ∷ 50 ∷ 50 ∷ 13 ∷ 10 ∷ [])
    ++ range_command Actor.ip
    ++ (32 ∷ 32 ∷ 75 ∷ 75 ∷ 44 ∷ 32 ∷ 65 ∷ 65 ∷ 32 ∷ 10 ∷ [])
    ++ range_command Actor.oop
    ++ (32 ∷ 81 ∷ 81 ∷ [])

let_through : assert_import_provenance leb_text quote envelope provenance input ≡ ok tt
unfolding assert_import_provenance get_field canonical check_range input_range range_of_line
    after_prefix normalize_solver_range tokens split trim_start trim_end join sort_by insert_by
let_through = refl

assert_import_provenance-Agrees_example : Agrees leb_text quote envelope provenance input
assert_import_provenance-Agrees_example =
    assert_import_provenance-Agrees leb_text quote envelope provenance input let_through
