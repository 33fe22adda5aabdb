-- ===== src/PrivateFields/Examples.antt =====
-- A private field inside an array.
use gto_poker_daily_spots_ba.Prelude.{◌≡◌, refl, [], ◌∷◌, err}
use gto_poker_daily_spots_ba.Json.{Json, null, array, object, nil, cons, end, field}
use gto_poker_daily_spots_ba.PrivateFields.{key, index, private_field, assert_no_private_fields}
use gto_poker_daily_spots_ba.PrivateFields.Found.{IsScanned, assert_no_private_fields-IsScanned}

-- {"a":[null,{"solution":null}]}
abbrev payload : Json
payload = object (
    field (97 ∷ [])
      (array (
        cons null (
          cons (object (field (115 ∷ 111 ∷ 108 ∷ 117 ∷ 116 ∷ 105 ∷ 111 ∷ 110 ∷ []) null end)) nil)))
      end)

payload-refused :
    assert_no_private_fields payload
    ≡ err (key (97 ∷ []) ∷ index 1 ∷ key (115 ∷ 111 ∷ 108 ∷ 117 ∷ 116 ∷ 105 ∷ 111 ∷ 110 ∷ []) ∷ [])
unfolding assert_no_private_fields private_field
payload-refused = refl

assert_no_private_fields-IsScanned_example : IsScanned payload (assert_no_private_fields payload)
assert_no_private_fields-IsScanned_example = assert_no_private_fields-IsScanned payload
