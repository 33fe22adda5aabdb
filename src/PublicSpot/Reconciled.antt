-- ===== src/PublicSpot/Reconciled.antt =====
-- What `readPublicSpot` of src/application/public-api.ts serves, and reading it again.
use gto_poker_daily_spots_ba.Prelude.{
  subst, ◌==◌, ◌&&◌, true, false, ◌≡◌, refl, ◌∙◌, ap, sym, inl, inr, List, Key, ok, All, arith,
  Bool-cases, Result-cases, Result,
}
use gto_poker_daily_spots_ba.PublicSpot.{
  Actor, ip, oop, PreflopAction, Preflop, unknown, known, Positions, PublicSpot, SpotError,
  position_of, reconcile, is_button, dealer_of, reconciled, upgraded, served, read_public_spot,
}
use gto_poker_daily_spots_ba.PublicSpot.Seats.{
  Plays, PlaysAt, reconcile_again, reconcile-PlaysAt, reconcile-ip,
}

dealer_again : (p : Positions) (d : Actor) → dealer_of p (dealer_of p d) ≡ dealer_of p d
unfolding dealer_of
dealer_again p d = ground arith

-- What the positions and the dealer of a spot with known actions satisfy.
pub record IsReconciled (spot : PublicSpot) (actions : List PreflopAction) : Type 0 where
  pub ip_agrees : All (PlaysAt ip spot.positions) actions
  pub oop_agrees : All (PlaysAt oop spot.positions) actions
  pub one_button : is_button ip spot.positions && is_button oop spot.positions ≡ false
  pub ip_deals : is_button ip spot.positions ≡ true → spot.dealer_actor ≡ ip
  pub oop_deals : is_button oop spot.positions ≡ true → spot.dealer_actor ≡ oop

module _ (parse : PublicSpot → Result SpotError PublicSpot)
    (pure : (x y : PublicSpot) → parse x ≡ ok y → y ≡ x) where
  abbrev assembled : PublicSpot → Positions → PublicSpot
  assembled spot p = record spot { positions = p; dealer_actor = dealer_of p spot.dealer_actor }

  abbrev Outcome : PublicSpot → List PreflopAction → PublicSpot → Type 0
  Outcome r actions spot =
      IsReconciled r actions
      × (reconciled parse r actions ≡ ok r)
      × (parse r ≡ ok r)
      × (r.preflop ≡ spot.preflop)
      × (r.schema_version ≡ spot.schema_version)

  reconciled-cases :
      (spot r : PublicSpot) (actions : List PreflopAction)
      → reconciled parse spot actions ≡ ok r
      → Outcome r actions spot
  unfolding reconciled dealer_of
  reconciled-cases spot r actions e = elim (Result-cases (reconcile ip actions spot.positions)) [
    | inr (thrown, n) ↦ absurd (ground arith)
    | inl (p1, n) ↦ elim (Result-cases (reconcile oop actions p1)) [
      | inr (thrown, m) ↦ absurd (ground arith)
      | inl (p2, m) ↦ elim (Bool-cases (is_button ip p2 && is_button oop p2)) [
        | inl two ↦ absurd (ground arith)
        | inr one ↦
            let stays : position_of ip p1 ≡ position_of ip p2 = reconcile-ip actions p1 p2 m in
            let first : reconcile ip actions p2 ≡ ok p2 =
              reconcile_again ip actions spot.positions p1 p2 n (sym stays) in
            let second : reconcile oop actions p2 ≡ ok p2 =
              reconcile_again oop actions p1 p2 p2 m refl in
            let built : parse (assembled spot p2) ≡ ok r = ground arith in
            let r_is : r ≡ assembled spot p2 = pure (assembled spot p2) r built in
            let served : parse (assembled spot p2) ≡ ok (assembled spot p2) = built ∙ ap ok r_is in
            let dealer = dealer_again p2 spot.dealer_actor in
            subst (λ x. Outcome x actions spot) (sym r_is)
              (
                record {
                  ip_agrees =
                      subst (λ t. All (Plays ip t) actions) stays
                        (reconcile-PlaysAt ip actions spot.positions p1 n);
                  oop_agrees = reconcile-PlaysAt oop actions p1 p2 m;
                  one_button = one;
                  ip_deals = λ q. ground arith;
                  oop_deals = λ q. ground arith;
                },
                rw (first, second, one, dealer) served,
                served,
                refl,
                refl,
              )
      ]
    ]
  ]

  -- A payload of the current schema is read as it is.
  upgraded_current :
      (spot : PublicSpot) → spot.schema_version == 2 ≡ false → upgraded parse spot ≡ spot
  upgraded_current spot e = rw e refl

  upgraded_schema : (stored : PublicSpot) → (upgraded parse stored).schema_version == 2 ≡ false
  upgraded_schema stored = elim (Bool-cases (stored.schema_version == 2)) [
    | inl e ↦ rw e refl
    | inr e ↦ rw e e
  ]

  served_again :
      (spot r : PublicSpot) (preflop : Preflop)
      → spot.schema_version == 2 ≡ false
      → parse spot ≡ ok spot
      → spot.preflop ≡ preflop
      → served parse spot preflop ≡ ok r
      → read_public_spot parse r ≡ ok r
  unfolding read_public_spot served
  served_again spot r unknown current p k e =
      let same : spot ≡ r = ground arith in
      subst (λ x. read_public_spot parse x ≡ ok x) same (rw (current, p, k) refl)
  served_again spot r (known scenario label actions) current p k e =
      let (good, again, parsed, kept, schema) = reconciled-cases spot r actions e in
      let current' : r.schema_version == 2 ≡ false = rw schema current in
      rw (upgraded_current r current', parsed) (ap (served parse r) (kept ∙ k) ∙ again)

  -- Reading what `readPublicSpot` has returned returns it again, so a served spot can be stored and
  -- served without further change. The contracts' schema, where it accepts a value, returns it.
  pub read_public_spot_again :
      (stored spot : PublicSpot)
      → read_public_spot parse stored ≡ ok spot
      → read_public_spot parse spot ≡ ok spot
  unfolding read_public_spot
  read_public_spot_again stored spot e = elim (Result-cases (parse (upgraded parse stored))) [
    | inr (thrown, n) ↦ absurd (ground arith)
    | inl (p, n) ↦
        let is : p ≡ upgraded parse stored = pure (upgraded parse stored) p n in
        let current : p.schema_version == 2 ≡ false = rw is (upgraded_schema stored) in
        served_again p spot p.preflop current (ap parse is ∙ n) refl (rw n at e)
  ]

  -- A spot with a known preflop that is read has, in either seat, the position of every preflop
  -- action of that seat which names one; at most one seat is the button, and the button is the
  -- dealer. The contracts' schema, where it accepts a value, returns it.
  pub read_public_spot-IsReconciled :
      (stored spot : PublicSpot) (scenario label : Key) (actions : List PreflopAction)
      → read_public_spot parse stored ≡ ok spot
      → spot.preflop ≡ known scenario label actions
      → IsReconciled spot actions
  unfolding read_public_spot served
  read_public_spot-IsReconciled stored spot scenario label actions e k =
      elim (Result-cases (parse (upgraded parse stored))) [
        | inr (thrown, n) ↦ absurd (ground arith)
        | inl (p, n) ↦ of_known p p.preflop refl (rw n at e)
      ]
    where
      of_known :
          (p : PublicSpot) (f : Preflop)
          → p.preflop ≡ f
          → served parse p f ≡ ok spot
          → IsReconciled spot actions
      of_known p unknown q h = absurd (ground arith)
      of_known p (known scenario' label' actions') q h =
          let c = reconciled-cases p spot actions' h in
          let same : actions' ≡ actions = ground arith in subst (λ x. IsReconciled spot x) same c.0
