-- ===== src/Provider/Positions/Seated.antt =====
-- The positions and the dealer that are settled agree with the preflop actions, the presentation and
-- the button.
use gto_poker_daily_spots_ba.Prelude.{
  ◌⊎◌, ◌&&◌, ◌||◌, not, true, false, ◌≡◌, refl, ◌∙◌, ap, sym, subst, inl, inr, List, [], ◌∷◌,
  Option, none, some, ok, Text, same_text, same_text_self, to_upper, All, All-map, arith,
  Bool-cases, guard-ok, bind-ok, ok-injective,
}
use gto_poker_daily_spots_ba.Json.{Json}
use gto_poker_daily_spots_ba.Provenance.{trim, is_filled}
use gto_poker_daily_spots_ba.PublicSpot.{
  Actor, ip, oop, same_actor, PreflopAction, Preflop, unknown, known, Positions, position_of,
  without_repeats, is_button,
}
use gto_poker_daily_spots_ba.PublicSpot.Seats.{All-with_repeats}
use gto_poker_daily_spots_ba.Provider.Reached.{get_of}
use gto_poker_daily_spots_ba.Provider.Positions.{
  two_buttons, conflicting_dealer, dealer_actor_key, trimmed_positions, single,
  position_from_preflop, is_generic_lane_position, raw_position, is_conflict, first_position,
  resolve_position, actor_of, button_of, is_other_dealer, first_actor, seat_dealer, seat,
}

abbrev pub actions_of : Preflop → List PreflopAction
actions_of unknown = []
actions_of (known scenario label actions) = actions

-- An action of the actor that names a position names this one.
abbrev pub Names : Actor → Option Text → PreflopAction → Type 0
Names actor position a =
    (same_actor a.actor actor ≡ false)
    ⊎ (is_filled (trim a.position) ≡ false)
    ⊎ (position ≡ some (trim a.position))

single-All :
    (actor : Actor) (ts : List Text) (authored : Option Text)
    → single actor ts ≡ ok authored
    → All (λ t. authored ≡ some t) ts
single-All actor [] authored e = tt
single-All actor (t ∷ []) authored e = (ground arith, tt)
single-All actor (t ∷ u ∷ more) authored e = absurd (cc)

trimmed-Names :
    (actor : Actor) (authored : Option Text) (actions : List PreflopAction)
    → All (λ t. authored ≡ some t) (trimmed_positions actor actions)
    → All (Names actor authored) actions
trimmed-Names actor authored [] all = tt
trimmed-Names actor authored (a ∷ actions) all = elim (Bool-cases (same_actor a.actor actor)) [
  | inr other ↦ (inl other, trimmed-Names actor authored actions (rw other at all))
  | inl own ↦ elim (Bool-cases (is_filled (trim a.position))) [
    | inr blank ↦ (inr (inl blank), trimmed-Names actor authored actions (rw (own, blank) at all))
    | inl full ↦
        let both = rw (own, full) at all in
        (inr (inr both.0), trimmed-Names actor authored actions both.1)
  ]
]

pub position_from_preflop-Names :
    (preflop : Preflop) (actor : Actor) (authored : Option Text)
    → position_from_preflop preflop actor ≡ ok authored
    → All (Names actor authored) (actions_of preflop)
unfolding position_from_preflop
position_from_preflop-Names unknown actor authored e = tt
position_from_preflop-Names (known scenario label actions) actor authored e =
    trimmed-Names actor authored actions (
      All-with_repeats (λ t. authored ≡ some t) (trimmed_positions actor actions)
        (single-All actor (without_repeats (trimmed_positions actor actions)) authored e))

-- The presentation names no other position: it names none, the actor's generic one, or this one but
-- for the letters' case.
abbrev pub Presented : Actor → Option Text → Text → Type 0
Presented actor raw t =
    (raw ≡ none)
    ⊎ ((r : Text) × (raw ≡ some r)
        × (is_generic_lane_position r actor || same_text (to_upper r) (to_upper t) ≡ true))

pub record IsPlaced (actor : Actor) (preflop : Preflop) (presentation : Option Json) (t : Text)
    : Type 0 where
  pub acted : All (Names actor (some t)) (actions_of preflop)
  pub presented : Presented actor (raw_position presentation actor) t

Names-first :
    (actor : Actor) (raw authored : Option Text) (a : PreflopAction)
    → Names actor authored a
    → Names actor (some (first_position actor raw authored)) a
Names-first actor raw authored a (inl other) = inl other
Names-first actor raw authored a (inr (inl blank)) = inr (inl blank)
Names-first actor raw (some t) a (inr (inr same)) = inr (inr same)
Names-first actor raw none a (inr (inr same)) = absurd (cc)

first-Presented :
    (actor : Actor) (raw authored : Option Text)
    → is_conflict actor raw authored ≡ false
    → Presented actor raw (first_position actor raw authored)
first-Presented actor none authored e = inl refl
first-Presented actor (some r) none e =
    inr (r, refl, rw (same_text_self (to_upper r)) (ground arith))
first-Presented actor (some r) (some t) e = inr (r, refl, ground (arith, e))

resolve_position-IsPlaced :
    (presentation : Option Json) (preflop : Preflop) (actor : Actor) (authored : Option Text)
    (t : Text)
    → position_from_preflop preflop actor ≡ ok authored
    → resolve_position actor (raw_position presentation actor) authored ≡ ok t
    → IsPlaced actor preflop presentation t
unfolding resolve_position
resolve_position-IsPlaced presentation preflop actor authored t acted e =
    let raw = raw_position presentation actor in
    elim (Bool-cases (is_conflict actor raw authored)) [
      | inl q ↦ absurd (cc (rw q at e))
      | inr q ↦ subst (IsPlaced actor preflop presentation) (ok-injective _ t (rw q at e)) (record {
        acted =
            All-map (Names actor authored) (Names actor (some (first_position actor raw authored)))
              (actions_of preflop) (Names-first actor raw authored)
              (position_from_preflop-Names preflop actor authored acted);
        presented = first-Presented actor raw authored q;
      })
    ]

-- The dealer is the player on the button, if one is; else the one that the presentation names, or the
-- initial actor.
pub record IsDealer (presentation : Option Json) (initial : Actor) (positions : Positions)
    (dealer : Actor) : Type 0 where
  pub one_button : is_button ip positions && is_button oop positions ≡ false
  pub on_button : (actor : Actor) → is_button actor positions ≡ true → dealer ≡ actor
  pub named : (d : Actor) → actor_of (get_of dealer_actor_key presentation) ≡ some d → dealer ≡ d
  pub otherwise :
      button_of positions ≡ none
      → actor_of (get_of dealer_actor_key presentation) ≡ none
      → dealer ≡ initial

same_actor-eq : (a b : Actor) → same_actor a b ≡ true → a ≡ b
same_actor-eq ip ip e = refl
same_actor-eq oop oop e = refl
same_actor-eq ip oop e = absurd (cc)
same_actor-eq oop ip e = absurd (cc)

first_actor-button :
    (positions : Positions) (dealer : Option Actor) (initial actor : Actor)
    → is_button ip positions && is_button oop positions ≡ false
    → is_button actor positions ≡ true
    → first_actor (button_of positions) dealer initial ≡ actor
first_actor-button positions dealer initial ip one e = rw e refl
first_actor-button positions dealer initial oop one e = elim (Bool-cases (is_button ip positions)) [
  | inl q ↦ absurd (cc (rw (q, e) at one))
  | inr q ↦ rw (q, e) refl
]

first_actor-named :
    (button : Option Actor) (d initial : Actor)
    → is_other_dealer button (some d) ≡ false
    → first_actor button (some d) initial ≡ d
first_actor-named none d initial e = refl
first_actor-named (some b) d initial e = sym (same_actor-eq d b (ground (arith, e)))

seat_dealer-IsDealer :
    (presentation : Option Json) (initial : Actor) (positions : Positions)
    (seats : Positions × Actor)
    → seat_dealer presentation initial positions ≡ ok seats
    → (seats.0 ≡ positions) × IsDealer presentation initial positions seats.1
unfolding seat_dealer
seat_dealer-IsDealer presentation initial positions seats e =
    let raw = actor_of (get_of dealer_actor_key presentation) in
    let (one, e1) =
      guard-ok (not (is_button ip positions && is_button oop positions)) two_buttons _ seats e in
    let (same, e2) =
      guard-ok (not (is_other_dealer (button_of positions) raw)) conflicting_dealer _ seats e1 in
    let single_button : is_button ip positions && is_button oop positions ≡ false =
      ground (arith, one) in
    let agrees : is_other_dealer (button_of positions) raw ≡ false = ground (arith, same) in
    subst
      (λ (s : Positions × Actor). (s.0 ≡ positions) × IsDealer presentation initial positions s.1)
      (ok-injective (positions, first_actor (button_of positions) raw initial) seats e2)
      (
        refl,
        record {
          one_button = single_button;
          on_button = λ actor q. first_actor-button positions raw initial actor single_button q;
          named = λ d q.
              ap (λ r. first_actor (button_of positions) r initial) q
              ∙ first_actor-named (button_of positions) d initial (rw q at agrees);
          otherwise = λ p q. rw (p, q) refl;
        },
      )

-- The positions of both players, and the dealer.
pub record IsSeated (presentation : Option Json) (preflop : Preflop) (initial : Actor)
    (seats : Positions × Actor) : Type 0 where
  pub placed : (actor : Actor) → IsPlaced actor preflop presentation (position_of actor seats.0)
  pub dealt : IsDealer presentation initial seats.0 seats.1

-- Positions and a dealer that are settled agree with what they are taken from: every preflop action that
-- names a position names that of its actor, but for the blanks around it; a position that the
-- presentation names is the generic one or the player's, but for the letters' case; at most one player
-- is on the button, and deals then; a dealer that the presentation names is the dealer; with no button
-- and no such dealer it is the initial actor.
pub seat-IsSeated :
    (presentation : Option Json) (preflop : Preflop) (initial : Actor) (seats : Positions × Actor)
    → seat presentation preflop initial ≡ ok seats
    → IsSeated presentation preflop initial seats
unfolding seat
seat-IsSeated presentation preflop initial seats e =
    let (ip_authored, ip_acted, e1) = bind-ok (position_from_preflop preflop ip) _ seats e in
    let (oop_authored, oop_acted, e2) = bind-ok (position_from_preflop preflop oop) _ seats e1 in
    let (ip_position, ip_placed, e3) =
      bind-ok (resolve_position ip (raw_position presentation ip) ip_authored) _ seats e2 in
    let (oop_position, oop_placed, e4) =
      bind-ok (resolve_position oop (raw_position presentation oop) oop_authored) _ seats e3 in
    let (there, dealt) = seat_dealer-IsDealer presentation initial _ seats e4 in
    record {
      placed = elim [
        | ip ↦
            subst (λ p. IsPlaced ip preflop presentation (position_of ip p)) (sym there)
              (resolve_position-IsPlaced presentation preflop ip ip_authored ip_position ip_acted
                ip_placed)
        | oop ↦
            subst (λ p. IsPlaced oop preflop presentation (position_of oop p)) (sym there)
              (resolve_position-IsPlaced presentation preflop oop oop_authored oop_position
                oop_acted oop_placed)
      ];
      dealt = subst (λ p. IsDealer presentation initial p seats.1) (sym there) dealt;
    }
