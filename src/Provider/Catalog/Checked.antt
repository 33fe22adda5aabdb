-- ===== src/Provider/Catalog/Checked.antt =====
-- The catalog of selectable combos passes the checks of `validateNormalizedEnvelope`.
use gto_poker_daily_spots_ba.Prelude.{
  ℕ, not, true, ◌≡◌, refl, sym, subst, ◌∙◌, inl, inr, List, [], ◌∷◌, Option, some, Key, ok, Text,
  same_text, same_text-eq, same_text_self, length, all, All, All-map, NoRepeats, arith, Bool-cases,
  Option-cases, or_throw-ok, guard-ok, bind-ok, ok-injective,
}
use gto_poker_daily_spots_ba.Json.{Json}
use gto_poker_daily_spots_ba.Reach.{is_active_combo_reach}
use gto_poker_daily_spots_ba.Normalized.{
  Actor, contains, distinct_from, check_strategy, check_strategies,
}
use gto_poker_daily_spots_ba.Attempts.{Combo, ComboStrategy, PrivateSolution, entry, reversed}
use gto_poker_daily_spots_ba.Provider.Catalog.{
  Catalog, is_empty, find_variant, resolve_combo, resolve_combos, strategies_for, featured_in,
  catalog_of, raw_selectable, other_actor, requested_combo, strategies_from, read_catalog,
}
use gto_poker_daily_spots_ba.Provider.Reached.{
  no_strategies, no_featured_combo, invalid_combo, no_exact_entry, inactive_combo, featured_missing,
  empty_catalog, is_combo, fields_of, reached_combo_records,
}
use gto_poker_daily_spots_ba.Provider.Catalog.Rows.{
  IsComplete, strategies_from-IsComplete, entry-All,
}
use gto_poker_daily_spots_ba.Provider.Catalog.Distinct.{
  Fresh-distinct, distinct-Fresh, All-distinct,
}

-- What `validateNormalizedEnvelope` asks of the strategies, and that the featured combo is selectable.
pub record IsServable (order : List Key) (c : Catalog) : Type 0 where
  pub checked :
      check_strategies order
        (record { action_order = order; by_combo = c.strategies })
        (distinct_from [] c.selectable)
      ≡ ok tt
  pub distinct : distinct_from [] c.selectable ≡ c.selectable
  pub as_many : length c.strategies ≡ length c.selectable
  pub only_selectable : all (λ b. contains b.0 c.selectable) c.strategies ≡ true
  pub featured_there : contains c.featured c.selectable ≡ true

module _ (rows : List (Combo × ComboStrategy)) where
  -- The combo has an entry, with an active reach.
  abbrev pub HasActive : Combo → Type 0
  HasActive c =
      (s : ComboStrategy) × (entry c rows ≡ some s) × (is_active_combo_reach s.reach ≡ true)

  find_variant-entry :
      (c r : Combo) (s : ComboStrategy) → find_variant rows c ≡ some (r, s) → entry r rows ≡ some s
  unfolding find_variant
  find_variant-entry c r s h = elim (Option-cases (entry c rows)) [
    | inr (t, e) ↦ ground (arith, e, rw (find_variant, e) at h)
    | inl e ↦ elim (Option-cases (entry (reversed c) rows)) [
      | inr (t, f) ↦ ground (arith, f, rw (find_variant, e, f) at h)
      | inl f ↦ absurd (cc (rw (find_variant, e, f) at h))
    ]
  ]

  resolve_combo-HasActive : (c r : Combo) → resolve_combo rows c ≡ ok r → HasActive r
  unfolding resolve_combo
  resolve_combo-HasActive c r h =
      let (valid, h1) = guard-ok (is_combo c) (invalid_combo c) _ r h in
      let (there, found, h2) = or_throw-ok (find_variant rows c) (no_exact_entry c) _ r h1 in
      let (active, same) =
        guard-ok (is_active_combo_reach there.1.reach) (inactive_combo c) _ r h2 in
      subst HasActive (ok-injective there.0 r same)
        (there.1, find_variant-entry c there.0 there.1 found, active)

  resolve_combos-HasActive :
      (cs rs : List Combo) → resolve_combos rows cs ≡ ok rs → All HasActive rs
  unfolding resolve_combos
  resolve_combos-HasActive [] rs h = subst (All HasActive) (ok-injective [] rs h) tt
  resolve_combos-HasActive (c ∷ cs) rs h =
      let (r, here, h1) = bind-ok (resolve_combo rows c) _ rs h in
      let (rest, later, same) = bind-ok (resolve_combos rows cs) _ rs h1 in
      subst (All HasActive) (ok-injective (r ∷ rest) rs same)
        (resolve_combo-HasActive c r here, resolve_combos-HasActive cs rest later)

  entry-strategies :
      (cs : List Combo) (c : Combo)
      → All HasActive cs
      → contains c cs ≡ true
      → entry c (strategies_for rows cs) ≡ entry c rows
  unfolding strategies_for entry
  entry-strategies [] c all h = absurd (cc)
  entry-strategies (d ∷ cs) c ((s, there, active), later) h = elim (Bool-cases (same_text d c)) [
    | inl e ↦
        rw (strategies_for, there, e)
          (sym (subst (λ x. entry x rows ≡ some s) (same_text-eq d c e) there))
    | inr e ↦ rw (strategies_for, there, e) (entry-strategies cs c later (rw e at h))
  ]

  length-strategies :
      (cs : List Combo) → All HasActive cs → length (strategies_for rows cs) ≡ length cs
  unfolding strategies_for
  length-strategies [] all = refl
  length-strategies (c ∷ cs) ((s, there, active), later) =
      rw (strategies_for, there) (omega (arith, length-strategies cs later))

  contains-later :
      (d : Combo) (cs : List Combo) (b : List (Combo × ComboStrategy))
      → all (λ x. contains x.0 cs) b ≡ true
      → all (λ x. contains x.0 (d ∷ cs)) b ≡ true
  contains-later d cs [] h = refl
  contains-later d cs (x ∷ b) h = ground (arith, contains-later d cs b)

  strategies-contained :
      (cs : List Combo)
      → All HasActive cs
      → all (λ b. contains b.0 cs) (strategies_for rows cs) ≡ true
  unfolding strategies_for
  strategies-contained [] all = refl
  strategies-contained (c ∷ cs) ((s, there, active), later) =
      rw (strategies_for, there, same_text_self c)
        (contains-later c cs (strategies_for rows cs) (strategies-contained cs later))

  module _ (order : List Key) (complete : All (λ r. IsComplete order r.1.frequencies) rows)
      (selectable : List Combo) (active : All HasActive selectable) where
    abbrev solution : PrivateSolution
    solution = record { action_order = order; by_combo = strategies_for rows selectable }

    check_strategy_passes :
        (c : Combo)
        → HasActive c
        → contains c selectable ≡ true
        → check_strategy order solution c ≡ ok tt
    unfolding check_strategy
    check_strategy_passes c (s, there, reaches) member =
        let entered : entry c (strategies_for rows selectable) ≡ some s =
          entry-strategies selectable c active member ∙ there in
        let full = entry-All (λ t. IsComplete order t.frequencies) rows c s complete there in
        rw (entered, full.legal, reaches) (ground (arith, full.size, full.total))

    check_strategies_pass :
        (cs : List Combo)
        → All HasActive cs
        → All (λ c. contains c selectable ≡ true) cs
        → check_strategies order solution cs ≡ ok tt
    unfolding check_strategies
    check_strategies_pass [] h k = refl
    check_strategies_pass (c ∷ cs) h k =
        rw (check_strategy_passes c h.0 k.0, check_strategies_pass cs h.1 k.1) refl

contains_self : (cs : List Combo) → All (λ c. contains c cs ≡ true) cs
contains_self [] = tt
contains_self (c ∷ cs) = (
  rw (same_text_self c) refl,
  All-map (λ x. contains x cs ≡ true) (λ x. contains x (c ∷ cs) ≡ true) cs
      (λ x h. ground (arith, h)) (contains_self cs),
)

featured-contained :
    (selectable : List Combo) (c f : Combo)
    → featured_in selectable c ≡ some f
    → contains f selectable ≡ true
featured-contained selectable c f h = elim (Bool-cases (contains c selectable)) [
  | inl e ↦
      let same : c ≡ f = ground (arith, rw e at h) in
      subst (λ x. contains x selectable ≡ true) same e
  | inr e ↦ elim (Bool-cases (contains (reversed c) selectable)) [
    | inl g ↦
        let same : reversed c ≡ f = ground (arith, rw (e, g) at h) in
        subst (λ x. contains x selectable ≡ true) same g
    | inr g ↦ absurd (cc (rw (e, g) at h))
  ]
]

catalog_of-IsServable :
    (order : List Key) (requested : Combo) (raw : List Combo) (rows : List (Combo × ComboStrategy))
    (c : Catalog)
    → All (λ r. IsComplete order r.1.frequencies) rows
    → catalog_of requested raw rows ≡ ok c
    → IsServable order c
unfolding catalog_of
catalog_of-IsServable order requested raw rows c complete h =
    let (resolved, read, h1) =
      bind-ok (resolve_combos rows (distinct_from [] (requested ∷ raw))) _ c h in
    let selectable = distinct_from [] resolved in
    let (filled, h2) = guard-ok (not (is_empty selectable)) empty_catalog _ c h1 in
    let (featured, found, same) =
      or_throw-ok (featured_in selectable requested) featured_missing _ c h2 in
    let active =
      All-distinct (HasActive rows) [] resolved
        (resolve_combos-HasActive rows (distinct_from [] (requested ∷ raw)) resolved read) in
    let fresh = distinct-Fresh [] selectable (Fresh-distinct [] resolved) in
    subst (IsServable order)
      (ok-injective
        (record {
          selectable = selectable;
          featured = featured;
          strategies = strategies_for rows selectable;
        })
        c same)
      (record {
        checked =
            subst
              (λ cs.
                check_strategies order (solution rows order complete selectable active) cs ≡ ok tt)
              (sym fresh)
              (check_strategies_pass rows order complete selectable active selectable active
                (contains_self selectable));
        distinct = fresh;
        as_many = length-strategies rows selectable active;
        only_selectable = strategies-contained rows selectable active;
        featured_there = featured-contained selectable requested featured found;
      })

-- A catalog that is read from the provider's envelope passes every check that
-- `validateNormalizedEnvelope` makes of strategies over the same action order: each selectable combo has
-- an exact strategy over the actions, which adds up to 10,000 basis points and has an active reach. No
-- combo is selectable twice, the strategies are those of the selectable combos, and the featured combo
-- is one of them. No action stands twice in the order, and different actions have different names.
pub read_catalog-IsServable :
    (value_of : Text → Option ℕ) (name_of : Key → Text) (order : List Key) (hero : Actor)
    (featured selectable by_combo ranges : Option Json) (c : Catalog)
    → NoRepeats order
    → ((i j : Key) → name_of i ≡ name_of j → i ≡ j)
    → read_catalog value_of name_of order hero featured selectable by_combo ranges ≡ ok c
    → IsServable order c
unfolding read_catalog
read_catalog-IsServable value_of name_of order hero featured selectable by_combo ranges c once named
      h =
    let (fields, there, h1) = or_throw-ok (fields_of by_combo) no_strategies _ c h in
    let (reached, mine, h2) = bind-ok (reached_combo_records value_of ranges hero) _ c h1 in
    let (opponent, theirs, h3) =
      bind-ok (reached_combo_records value_of ranges (other_actor hero)) _ c h2 in
    let (requested, asked, h4) =
      or_throw-ok (requested_combo featured fields) no_featured_combo _ c h3 in
    let (rows, read, h5) = bind-ok (strategies_from value_of name_of order reached fields) _ c h4 in
    catalog_of-IsServable order requested (raw_selectable selectable rows) rows c
      (strategies_from-IsComplete value_of name_of order once reached fields rows read) h5
