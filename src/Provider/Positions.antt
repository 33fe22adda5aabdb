-- ===== src/Provider/Positions.antt =====
-- The table positions and the dealer of a spot, as src/solver/provider.ts settles them from the
-- preflop actions and the presentation of the native envelope. Texts are ASCII.
pub mod Seated
pub mod Readable
use gto_poker_daily_spots_ba.Prelude.{
  not, ◌&&◌, Bool, false, if◌then◌else◌, List, [], ◌∷◌, map, Option, none, some, Result, ok, err,
  guard, ◌>>=◌, ◌>>◌, select, Text, same_text, to_upper,
}
use gto_poker_daily_spots_ba.Json.{Json, text}
use gto_poker_daily_spots_ba.Provenance.{trim, is_filled}
use gto_poker_daily_spots_ba.PublicSpot.{
  Actor, ip, oop, same_actor, generic, PreflopAction, Preflop, unknown, known, Positions,
  without_repeats, is_button,
}
use gto_poker_daily_spots_ba.Provider.Reached.{ip_key, oop_key, get_of}

pub data PositionError : Type 0 where
  conflicting_actions conflicting_presentation : Actor → PositionError
  two_buttons conflicting_dealer : PositionError

abbrev pub lane_key : Actor → Text
lane_key ip = ip_key
lane_key oop = oop_key

abbrev pub positions_key : Text
positions_key = 112 ∷ 111 ∷ 115 ∷ 105 ∷ 116 ∷ 105 ∷ 111 ∷ 110 ∷ 115 ∷ []

abbrev pub dealer_actor_key : Text
dealer_actor_key = 100 ∷ 101 ∷ 97 ∷ 108 ∷ 101 ∷ 114 ∷ 65 ∷ 99 ∷ 116 ∷ 111 ∷ 114 ∷ []

-- The positions that an actor's preflop actions name, trimmed.
abbrev pub trimmed_positions : Actor → List PreflopAction → List Text
trimmed_positions actor actions = select is_filled (
    map (λ (a : PreflopAction). trim a.position)
      (select (λ (a : PreflopAction). same_actor a.actor actor) actions))

abbrev pub single : Actor → List Text → Result PositionError (Option Text)
single actor [] = ok none
single actor (t ∷ []) = ok (some t)
single actor (t ∷ u ∷ more) = err (conflicting_actions actor)

-- `positionsFromPreflop`, for one actor.
unfoldable pub position_from_preflop : Preflop → Actor → Result PositionError (Option Text)
position_from_preflop unknown actor = ok none
position_from_preflop (known scenario label actions) actor =
    single actor (without_repeats (trimmed_positions actor actions))

abbrev pub is_generic_lane_position : Text → Actor → Bool
is_generic_lane_position value actor = same_text (to_upper value) (generic actor)

-- A position that the presentation names; the empty text is none.
abbrev pub filled_text : Option Json → Option Text
filled_text (some (text t)) = if is_filled t then some t else none
filled_text _ = none

unfoldable pub raw_position : Option Json → Actor → Option Text
raw_position presentation actor =
    filled_text (get_of (lane_key actor) (get_of positions_key presentation))

abbrev pub is_conflict : Actor → (raw authored : Option Text) → Bool
is_conflict actor (some raw) (some authored) =
    not (is_generic_lane_position raw actor) && not (same_text (to_upper raw) (to_upper authored))
is_conflict actor raw authored = false

-- `authored ?? raw ?? laneActor.toUpperCase()`.
abbrev pub first_position : Actor → (raw authored : Option Text) → Text
first_position actor raw (some t) = t
first_position actor (some t) none = t
first_position actor none none = generic actor

unfoldable pub resolve_position : Actor → (raw authored : Option Text) → Result PositionError Text
resolve_position actor raw authored =
    if is_conflict actor raw authored
    then err (conflicting_presentation actor)
    else ok (first_position actor raw authored)

-- `rawPresentation.dealerActor`, when it is an actor.
abbrev pub actor_of : Option Json → Option Actor
actor_of (some (text t)) =
    if same_text t ip_key then some ip else if same_text t oop_key then some oop else none
actor_of _ = none

-- `buttonActors[0]`.
abbrev pub button_of : Positions → Option Actor
button_of positions =
    if is_button ip positions then some ip else if is_button oop positions then some oop else none

abbrev pub is_other_dealer : (button dealer : Option Actor) → Bool
is_other_dealer (some b) (some d) = not (same_actor d b)
is_other_dealer button dealer = false

-- `buttonActors[0] ?? rawDealer ?? initialActor`.
abbrev pub first_actor : (button dealer : Option Actor) → Actor → Actor
first_actor (some b) dealer initial = b
first_actor none (some d) initial = d
first_actor none none initial = initial

unfoldable pub seat_dealer :
    Option Json → Actor → Positions → Result PositionError (Positions × Actor)
seat_dealer presentation initial positions = do
  guard (not (is_button ip positions && is_button oop positions)) two_buttons
  let dealer = actor_of (get_of dealer_actor_key presentation)
  guard (not (is_other_dealer (button_of positions) dealer)) conflicting_dealer
  ok (positions, first_actor (button_of positions) dealer initial)

-- The positions and the dealer of the normalized presentation; `initial` is the initial actor.
unfoldable pub seat : Option Json → Preflop → Actor → Result PositionError (Positions × Actor)
seat presentation preflop initial = do
  ip_authored ← position_from_preflop preflop ip
  oop_authored ← position_from_preflop preflop oop
  ip_position ← resolve_position ip (raw_position presentation ip) ip_authored
  oop_position ← resolve_position oop (raw_position presentation oop) oop_authored
  seat_dealer presentation initial
      (record { ip_position = ip_position; oop_position = oop_position })
