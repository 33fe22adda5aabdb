-- ===== src/Provider/Positions/Readable.antt =====
-- What the import has seated, `readPublicSpot` of src/application/public-api.ts reads without an error.
use gto_poker_daily_spots_ba.Prelude.{
  ◌⊎◌, ◌&&◌, true, false, ◌≡◌, refl, ◌∙◌, ap, sym, subst, inl, inr, List, [], ◌∷◌, Option, some,
  Key, Result, ok, Text, same_text, same_text-eq, same_text_self, to_upper, to_upper_again, All,
  arith, Bool-cases, not, select,
}
use gto_poker_daily_spots_ba.Json.{Json}
use gto_poker_daily_spots_ba.Provenance.{trim, is_filled}
use gto_poker_daily_spots_ba.PublicSpot.{
  Actor, ip, oop, same_actor, PreflopAction, known, Positions, PublicSpot, SpotError, position_of,
  with_position, without_repeats, acted_positions, settle, reconcile, is_button, dealer_of,
  reconciled, btn,
}
use gto_poker_daily_spots_ba.Provider.Positions.{seat}
use gto_poker_daily_spots_ba.Provider.Positions.Seated.{Names, IsDealer, seat-IsSeated}

-- A position with no blanks around it, that is not empty.
pub record IsWellWritten (a : PreflopAction) : Type 0 where
  pub trimmed : trim a.position ≡ a.position
  pub filled : is_filled a.position ≡ true

-- An action of the actor names this position, which is in upper case.
abbrev Writes : Actor → Text → PreflopAction → Type 0
Writes actor u a =
    (same_actor a.actor actor ≡ false)
    ⊎ ((to_upper a.position ≡ u) × (is_filled (to_upper a.position) ≡ true))

filled-upper : (t : Text) → is_filled t ≡ true → is_filled (to_upper t) ≡ true
filled-upper [] h = absurd (cc)
filled-upper (c ∷ cs) h = refl

Names-Writes :
    (actor : Actor) (t : Text) (a : PreflopAction)
    → IsWellWritten a
    → Names actor (some t) a
    → Writes actor (to_upper t) a
Names-Writes actor t a w (inl other) = inl other
Names-Writes actor t a w (inr (inl blank)) = absurd (cc (w.trimmed, w.filled, blank))
Names-Writes actor t a w (inr (inr same)) =
    let here : t ≡ a.position = ground (arith, same, w.trimmed) in
    inr (ap to_upper (sym here), filled-upper a.position w.filled)

-- The same positions, but for the letters' case.
abbrev pub SameSeats : Positions → Positions → Type 0
SameSeats p q = (actor : Actor) → to_upper (position_of actor p) ≡ to_upper (position_of actor q)

abbrev IsOne : Text → List Text → Type 0
IsOne u ts = (ts ≡ []) ⊎ ((ts ≡ u ∷ []) × (is_filled u ≡ true))

select-one : (u : Text) (ts : List Text) → IsOne u ts → select (λ v. not (same_text v u)) ts ≡ []
select-one u ts (inl e) = rw e refl
select-one u ts (inr (one, full)) = rw (one, same_text_self u) refl

without_repeats-IsOne :
    (actor : Actor) (u : Text) (actions : List PreflopAction)
    → All (Writes actor u) actions
    → IsOne u (without_repeats (acted_positions actor actions))
unfolding without_repeats
without_repeats-IsOne actor u [] all = inl refl
without_repeats-IsOne actor u (a ∷ actions) (inl other, later) =
    rw other (without_repeats-IsOne actor u actions later)
without_repeats-IsOne actor u (a ∷ actions) (inr (same, full), later) =
    elim (Bool-cases (same_actor a.actor actor)) [
      | inr other ↦ rw other (without_repeats-IsOne actor u actions later)
      | inl own ↦
          let rest =
            select-one u (without_repeats (acted_positions actor actions))
              (without_repeats-IsOne actor u actions later) in
          rw (own, same, rest) (inr (refl, subst (λ t. is_filled t ≡ true) same full))
    ]

position_of-with_position :
    (actor : Actor) (t : Text) (p : Positions) → position_of actor (with_position actor t p) ≡ t
position_of-with_position ip t p = refl
position_of-with_position oop t p = refl

with_position-SameSeats :
    (actor : Actor) (p : Positions)
    → SameSeats (with_position actor (to_upper (position_of actor p)) p) p
with_position-SameSeats ip p ip = to_upper_again p.ip_position
with_position-SameSeats ip p oop = refl
with_position-SameSeats oop p ip = refl
with_position-SameSeats oop p oop = to_upper_again p.oop_position

-- A step of the reader, on a position that the actions write.
abbrev IsRead : Actor → List PreflopAction → Positions → Type 0
IsRead actor actions p = (q : Positions) × (reconcile actor actions p ≡ ok q) × SameSeats q p

settle-one :
    (actor : Actor) (p : Positions) (ts : List Text)
    → IsOne (to_upper (position_of actor p)) ts
    → (q : Positions) × (settle actor p ts ≡ ok q) × SameSeats q p
unfolding settle
settle-one actor p ts (inl e) = (p, rw e refl, λ a. refl)
settle-one actor p ts (inr (e, full)) =
    let u = to_upper (position_of actor p) in
    elim (Bool-cases (same_text u [])) [
      | inl empty ↦ absurd (cc (rw (same_text-eq u [] empty) at full))
      | inr there ↦ (
        with_position actor u p,
        rw (e, there, same_text_self u) (ground arith),
        with_position-SameSeats actor p,
      )
    ]

reconcile-IsRead :
    (actor : Actor) (p : Positions) (actions : List PreflopAction)
    → All (Writes actor (to_upper (position_of actor p))) actions
    → IsRead actor actions p
unfolding reconcile
reconcile-IsRead actor p actions all =
    settle-one actor p (without_repeats (acted_positions actor actions))
      (without_repeats-IsOne actor (to_upper (position_of actor p)) actions all)

button-SameSeats :
    (p q : Positions) (actor : Actor) → SameSeats p q → is_button actor p ≡ is_button actor q
button-SameSeats p q actor same = ap (λ t. same_text t btn) (same actor)

dealer_of-IsDealer :
    (presentation : Option Json) (initial : Actor) (p q : Positions) (dealer : Actor)
    → SameSeats q p
    → IsDealer presentation initial p dealer
    → dealer_of q dealer ≡ dealer
unfolding dealer_of
dealer_of-IsDealer presentation initial p q dealer same dealt = elim (Bool-cases (is_button ip q)) [
  | inl e ↦ rw e (sym (dealt.on_button ip (sym (button-SameSeats q p ip same) ∙ e)))
  | inr f ↦ elim (Bool-cases (is_button oop q)) [
    | inl e ↦ rw (f, e) (sym (dealt.on_button oop (sym (button-SameSeats q p oop same) ∙ e)))
    | inr g ↦ rw (f, g) refl
  ]
]

seated-Writes :
    (actor : Actor) (p : Positions) (actions : List PreflopAction)
    → All IsWellWritten actions
    → All (Names actor (some (position_of actor p))) actions
    → All (Writes actor (to_upper (position_of actor p))) actions
seated-Writes actor p [] written named = tt
seated-Writes actor p (a ∷ actions) written named = (
  Names-Writes actor (position_of actor p) a written.0 named.0,
  seated-Writes actor p actions written.1 named.1,
)

module _ (parse : PublicSpot → Result SpotError PublicSpot) where
  -- The reader comes to its last step, the contracts' schema, with the same seats and the dealer.
  abbrev pub IsReadable : PublicSpot → List PreflopAction → Type 0
  IsReadable spot actions =
      (p : Positions) × SameSeats p spot.positions
      × (reconciled parse spot actions ≡ parse (record spot { positions = p }))

  dealt-IsReadable :
      (spot : PublicSpot) (actions : List PreflopAction) (presentation : Option Json)
      (initial : Actor)
      → All (Writes ip (to_upper (position_of ip spot.positions))) actions
      → All (Writes oop (to_upper (position_of oop spot.positions))) actions
      → IsDealer presentation initial spot.positions spot.dealer_actor
      → IsReadable spot actions
  unfolding reconciled
  dealt-IsReadable spot actions presentation initial ip_written oop_written dealt =
      let seats = spot.positions in
      let (p, ip_read, ip_same) = reconcile-IsRead ip seats actions ip_written in
      let (q, oop_read, oop_same) =
        reconcile-IsRead oop p actions
          (subst (λ u. All (Writes oop u) actions) (sym (ip_same oop)) oop_written) in
      let same : SameSeats q seats = λ a. oop_same a ∙ ip_same a in
      let one : is_button ip q && is_button oop q ≡ false = ground (
        arith,
        button-SameSeats q seats ip same,
        button-SameSeats q seats oop same,
        dealt.one_button,
      ) in
      let dealer = dealer_of-IsDealer presentation initial seats q spot.dealer_actor same dealt in
      (q, same, rw (ip_read, oop_read, one, dealer) refl)

-- A spot with known preflop actions whose positions and dealer the import has settled is read without an
-- error of the reader's own: `readPublicSpot` keeps the seats but for the letters' case, keeps the
-- dealer, and returns what the contracts' schema makes of that. The actions' positions are not empty and
-- have no blanks around them.
pub reconciled-seat :
    (parse : PublicSpot → Result SpotError PublicSpot) (spot : PublicSpot)
    (presentation : Option Json) (scenario label : Key) (actions : List PreflopAction)
    (initial : Actor)
    → seat presentation (known scenario label actions) initial
      ≡ ok (spot.positions, spot.dealer_actor)
    → All IsWellWritten actions
    → IsReadable parse spot actions
reconciled-seat parse spot presentation scenario label actions initial e written =
    let good =
      seat-IsSeated presentation (known scenario label actions) initial
        (spot.positions, spot.dealer_actor) e in
    dealt-IsReadable parse spot actions presentation initial
      (seated-Writes ip spot.positions actions written (good.placed ip).acted)
      (seated-Writes oop spot.positions actions written (good.placed oop).acted) good.dealt
