-- ===== src/PublicSpot/Examples.antt =====
-- A stored spot of the early third schema, for the theorems on src/application/public-api.ts.
use gto_poker_daily_spots_ba.Prelude.{◌≡◌, refl, List, [], ◌∷◌, Result, ok}
use gto_poker_daily_spots_ba.PublicSpot.{
  ip, oop, generic, btn, PreflopAction, known, PublicSpot, SpotError, without_repeats, settle,
  reconcile, dealer_of, reconciled, served, read_public_spot,
}
use gto_poker_daily_spots_ba.PublicSpot.Reconciled.{IsReconciled, read_public_spot-IsReconciled}

-- A schema that accepts every value.
abbrev accept : PublicSpot → Result SpotError PublicSpot
accept spot = ok spot

accept-pure : (x y : PublicSpot) → accept x ≡ ok y → y ≡ x
accept-pure x y e = cc

-- The in-position player opened on the "btn", the other called in the "bb".
abbrev actions : List PreflopAction
actions =
    record { actor = ip; position = 98 ∷ 116 ∷ 110 ∷ [] }
    ∷ record { actor = oop; position = 98 ∷ 98 ∷ [] }
    ∷ record { actor = ip; position = btn }
    ∷ []

abbrev stored : PublicSpot
stored = record {
  schema_version = 3;
  spot_id = 1;
  spot_version_id = 10;
  street = 2;
  hero_actor = oop;
  dealer_actor = oop;
  positions = record { ip_position = generic ip; oop_position = generic oop };
  preflop = known 5 6 actions;
}

abbrev read_spot : PublicSpot
read_spot = record stored {
  dealer_actor = ip;
  positions = record { ip_position = btn; oop_position = 66 ∷ 66 ∷ [] };
}

stored-read : read_public_spot accept stored ≡ ok read_spot
unfolding read_public_spot served reconciled reconcile settle without_repeats dealer_of
stored-read = refl

read_public_spot-IsReconciled_example : IsReconciled read_spot actions
read_public_spot-IsReconciled_example =
    read_public_spot-IsReconciled accept accept-pure stored read_spot 5 6 actions stored-read refl
