-- ===== src/Json/Examples.antt =====
-- A value whose fields are swapped below another field.
use gto_poker_daily_spots_ba.Prelude.{
  true, ◌≡◌, refl, [], ◌∷◌, ◌++◌, Text, leb_text, leb_text_total, leb_text_trans, to_upper, Bool,
  false, sort_by, insert_by,
}
use gto_poker_daily_spots_ba.Json.{Json, boolean, number, object, end, field, join, canonical}
use gto_poker_daily_spots_ba.Json.Canonical.{
  same_object, no_fields, same_field, swapped, canonical-Same,
}

abbrev quote : Text → Text
quote t = 34 ∷ t ++ 34 ∷ []

abbrev one : Json
one = number (49 ∷ [])

abbrev inner : Json
inner = object (field (98 ∷ []) one (field (97 ∷ []) (boolean true) end))

abbrev inner_swapped : Json
inner_swapped = object (field (97 ∷ []) (boolean true) (field (98 ∷ []) one end))

abbrev outer : Json → Json
outer j = object (field (99 ∷ []) j end)

-- An order that takes the two cases of a letter for one, so that "a" and "A" are before each other.
abbrev caseless : Text → Text → Bool
caseless a b = leb_text (to_upper a) (to_upper b)

caseless_total : (a b : Text) → caseless a b ≡ false → caseless b a ≡ true
caseless_total a b = leb_text_total (to_upper a) (to_upper b)

caseless_trans : (a b c : Text) → caseless a b ≡ true → caseless b c ≡ true → caseless a c ≡ true
caseless_trans a b c = leb_text_trans (to_upper a) (to_upper b) (to_upper c)

canonical-Same_example :
    canonical caseless quote (outer inner) ≡ canonical caseless quote (outer inner_swapped)
canonical-Same_example =
    canonical-Same caseless quote caseless_total caseless_trans (outer inner) (outer inner_swapped)
      (same_object _ _ (
        same_field (99 ∷ []) inner inner_swapped end end
          (same_object _ _ (swapped (98 ∷ []) (97 ∷ []) one (boolean true) end refl)) no_fields))

-- {"a":true,"b":1}
inner-canonical :
    canonical leb_text quote inner
    ≡ 123 ∷ 34 ∷ 97 ∷ 34 ∷ 58 ∷ 116 ∷ 114 ∷ 117 ∷ 101 ∷ 44 ∷ 34 ∷ 98 ∷ 34 ∷ 58 ∷ 49 ∷ 125 ∷ []
unfolding canonical join sort_by insert_by
inner-canonical = refl
