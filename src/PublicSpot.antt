-- ===== src/PublicSpot.antt =====
-- `readPublicSpot` of src/application/public-api.ts: a stored payload, brought to what is served.
-- A payload has the fields that this code reads; texts are ASCII.
pub mod Seats
pub mod Reconciled
mod Examples
use gto_poker_daily_spots_ba.Prelude.{
  ℕ, ◌==◌, not, ◌&&◌, Bool, true, false, if◌then◌else◌, List, [], ◌∷◌, map, Key, Result, ok, err,
  guard, ◌>>=◌, ◌>>◌, select, Text, same_text, to_upper, ◌||◌,
}

pub data Actor : Type 0 where
  ip oop : Actor

-- `actor.toUpperCase()`, and the button's position.
abbrev pub generic : Actor → Text
generic ip = 73 ∷ 80 ∷ []
generic oop = 79 ∷ 79 ∷ 80 ∷ []

abbrev pub btn : Text
btn = 66 ∷ 84 ∷ 78 ∷ []

abbrev pub same_actor : Actor → Actor → Bool
same_actor ip ip = true
same_actor oop oop = true
same_actor _ _ = false

pub record PreflopAction : Type 0 where
  pub actor : Actor
  pub position : Text

pub data Preflop : Type 0 where
  unknown : Preflop
  known : (scenario_id label : Key) (actions : List PreflopAction) → Preflop

pub record Positions : Type 0 where
  pub ip_position : Text
  pub oop_position : Text

pub record PublicSpot : Type 0 where
  pub schema_version : ℕ
  pub spot_id : Key
  pub spot_version_id : Key
  pub street : Key
  pub hero_actor : Actor
  pub dealer_actor : Actor
  pub positions : Positions
  pub preflop : Preflop

pub data SpotError : Type 0 where
  schema_violation : SpotError
  conflicting_actions conflicting_presentation : Actor → SpotError
  two_buttons : SpotError

abbrev pub position_of : Actor → Positions → Text
position_of ip p = p.ip_position
position_of oop p = p.oop_position

abbrev pub with_position : Actor → Text → Positions → Positions
with_position ip t p = record p { ip_position = t }
with_position oop t p = record p { oop_position = t }

-- `[...new Set(texts)]`.
unfoldable pub without_repeats : List Text → List Text
without_repeats [] = []
without_repeats (t ∷ ts) = t ∷ select (λ u. not (same_text u t)) (without_repeats ts)

abbrev pub acted_positions : Actor → List PreflopAction → List Text
acted_positions actor actions =
    map (λ (a : PreflopAction). to_upper a.position)
      (select (λ (a : PreflopAction). same_actor a.actor actor) actions)

-- The body of the loop over the actors; an empty text is falsy.
unfoldable pub settle : Actor → Positions → List Text → Result SpotError Positions
settle actor positions [] = ok positions
settle actor positions (first ∷ []) =
    if same_text first []
    then ok positions
    else (let stored = to_upper (position_of actor positions) in
        if not (same_text stored (generic actor)) && not (same_text stored first)
        then err (conflicting_presentation actor)
        else ok (with_position actor first positions))
settle actor positions (first ∷ second ∷ more) = err (conflicting_actions actor)

unfoldable pub reconcile : Actor → List PreflopAction → Positions → Result SpotError Positions
reconcile actor actions positions =
    settle actor positions (without_repeats (acted_positions actor actions))

abbrev pub is_button : Actor → Positions → Bool
is_button actor positions = same_text (to_upper (position_of actor positions)) btn

-- `buttonActors[0] ?? dealerActor`.
unfoldable pub dealer_of : Positions → Actor → Actor
dealer_of positions dealer =
    if is_button ip positions then ip else if is_button oop positions then oop else dealer

-- `parse` is `publicSpotSchema.parse` of the shared contracts.
module _ (parse : PublicSpot → Result SpotError PublicSpot) where
  unfoldable pub reconciled : PublicSpot → List PreflopAction → Result SpotError PublicSpot
  reconciled spot actions = do
    first ← reconcile ip actions spot.positions
    positions ← reconcile oop actions first
    guard (not (is_button ip positions && is_button oop positions)) two_buttons
    parse (record spot {
      positions = positions;
      dealer_actor = dealer_of positions spot.dealer_actor;
    })

  abbrev pub upgraded : PublicSpot → PublicSpot
  upgraded stored =
      if stored.schema_version == 2
      then record stored { schema_version = 3; preflop = unknown }
      else stored

  unfoldable pub served : PublicSpot → Preflop → Result SpotError PublicSpot
  served spot unknown = ok spot
  served spot (known scenario label actions) = reconciled spot actions

  unfoldable pub read_public_spot : PublicSpot → Result SpotError PublicSpot
  read_public_spot stored = do spot ← parse (upgraded stored); served spot spot.preflop
