-- ===== src/PrivateFields/Found.antt =====
-- The scan for private fields finds one if there is one.
use gto_poker_daily_spots_ba.Prelude.{
  ℕ, suc, true, ◌≡◌, refl, sym, subst, ◌∙◌, inl, inr, List, [], ◌∷◌, ◌++◌, Option, none, some,
  Result, ok, err, Text, arith, Bool-cases,
}
use mathlib.Core.List.{append_assoc}
use gto_poker_daily_spots_ba.Json.{
  Json, null, boolean, number, text, array, object, Items, nil, cons, Fields, end, field,
}
use gto_poker_daily_spots_ba.PrivateFields.{
  Step, key, index, is_forbidden, or_later, private_field, private_item, private_entry,
  assert_no_private_fields,
}

-- The steps lead from a value to a field with a forbidden name.
mutual
  pub data Leads : List Step → Json → Type 0 where
    in_array : (q : List Step) (xs : Items) → LeadsItems 0 q xs → Leads q (array xs)
    in_object : (q : List Step) (fs : Fields) → LeadsFields q fs → Leads q (object fs)

  pub data LeadsItems : ℕ → List Step → Items → Type 0 where
    this_item :
        (i : ℕ) (q : List Step) (x : Json) (xs : Items)
        → Leads q x
        → LeadsItems i (index i ∷ q) (cons x xs)
    later_item :
        (i : ℕ) (q : List Step) (x : Json) (xs : Items)
        → LeadsItems (suc i) q xs
        → LeadsItems i q (cons x xs)

  pub data LeadsFields : List Step → Fields → Type 0 where
    this_field :
        (k : Text) (v : Json) (fs : Fields)
        → is_forbidden k ≡ true
        → LeadsFields (key k ∷ []) (field k v fs)
    below_field :
        (k : Text) (q : List Step) (v : Json) (fs : Fields)
        → Leads q v
        → LeadsFields (key k ∷ q) (field k v fs)
    later_field :
        (k : Text) (q : List Step) (v : Json) (fs : Fields)
        → LeadsFields q fs
        → LeadsFields q (field k v fs)

abbrev Below : (path p : List Step) → (List Step → Type 0) → Type 0
Below path p P = (q : List Step) × (p ≡ path ++ q) × P q

-- A path that the scan of a part has found, as one from the whole.
step_Below :
    (path p : List Step) (s : Step) (P Q : List Step → Type 0)
    → Below (path ++ s ∷ []) p P
    → ((q : List Step) → P q → Q (s ∷ q))
    → Below path p Q
step_Below path p s P Q (q, e, h) f = (s ∷ q, e ∙ append_assoc path (s ∷ []) q, f q h)

or_later-some :
    (a b : Option (List Step)) (p : List Step) (C : Type 0)
    → or_later a b ≡ some p
    → (a ≡ some p → C)
    → (b ≡ some p → C)
    → C
or_later-some none b p C e f g = g e
or_later-some (some q) b p C e f g = f e

or_later-none : (a b : Option (List Step)) → or_later a b ≡ none → (a ≡ none) × (b ≡ none)
or_later-none none b e = (refl, e)
or_later-none (some q) b e = absurd (cc)

mutual
  unfolding private_field

  found_sound :
      (path : List Step) (j : Json) (p : List Step)
      → private_field path j ≡ some p
      → Below path p (λ q. Leads q j)
  found_sound path null p e = absurd (cc)
  found_sound path (boolean b) p e = absurd (cc)
  found_sound path (number t) p e = absurd (cc)
  found_sound path (text t) p e = absurd (cc)
  found_sound path (array xs) p e =
      let (q, same, h) = item_sound path 0 xs p e in (q, same, in_array q xs h)
  found_sound path (object fs) p e =
      let (q, same, h) = entry_sound path fs p e in (q, same, in_object q fs h)

  item_sound :
      (path : List Step) (i : ℕ) (xs : Items) (p : List Step)
      → private_item path i xs ≡ some p
      → Below path p (λ q. LeadsItems i q xs)
  item_sound path i nil p e = absurd (cc)
  item_sound path i (cons x xs) p e =
      or_later-some (private_field (path ++ index i ∷ []) x) (private_item path (suc i) xs) p
        (Below path p (λ q. LeadsItems i q (cons x xs))) e
        (λ f.
          step_Below path p (index i) (λ q. Leads q x) (λ q. LeadsItems i q (cons x xs))
            (found_sound (path ++ index i ∷ []) x p f) (λ q h. this_item i q x xs h))
        (λ g. let (q, same, h) = item_sound path (suc i) xs p g in (q, same, later_item i q x xs h))

  entry_sound :
      (path : List Step) (fs : Fields) (p : List Step)
      → private_entry path fs ≡ some p
      → Below path p (λ q. LeadsFields q fs)
  entry_sound path end p e = absurd (cc)
  entry_sound path (field k v fs) p e = elim (Bool-cases (is_forbidden k)) [
    | inl f ↦ (key k ∷ [], ground (arith, rw f at e), this_field k v fs f)
    | inr f ↦
        or_later-some (private_field (path ++ key k ∷ []) v) (private_entry path fs) p
          (Below path p (λ q. LeadsFields q (field k v fs))) (rw f at e)
          (λ g.
            step_Below path p (key k) (λ q. Leads q v) (λ q. LeadsFields q (field k v fs))
              (found_sound (path ++ key k ∷ []) v p g) (λ q h. below_field k q v fs h))
          (λ g. let (q, same, h) = entry_sound path fs p g in (q, same, later_field k q v fs h))
  ]

entry_none :
    (path : List Step) (k : Text) (v : Json) (fs : Fields)
    → private_entry path (field k v fs) ≡ none
    → (private_field (path ++ key k ∷ []) v ≡ none) × (private_entry path fs ≡ none)
unfolding private_field
entry_none path k v fs e = elim (Bool-cases (is_forbidden k)) [
  | inl f ↦ absurd (cc (rw f at e))
  | inr f ↦ or_later-none (private_field (path ++ key k ∷ []) v) (private_entry path fs) (rw f at e)
]

mutual
  unfolding private_field

  found_complete :
      (path : List Step) (j : Json) (q : List Step) → private_field path j ≡ none → Leads q j → ⊥
  found_complete path _ _ e (in_array q xs h) = item_complete path 0 xs q e h
  found_complete path _ _ e (in_object q fs h) = entry_complete path fs q e h

  item_complete :
      (path : List Step) (i : ℕ) (xs : Items) (q : List Step)
      → private_item path i xs ≡ none
      → LeadsItems i q xs
      → ⊥
  item_complete path _ _ _ e (this_item i q x xs h) =
      found_complete (path ++ index i ∷ []) x q
        (or_later-none (private_field (path ++ index i ∷ []) x) (private_item path (suc i) xs) e).0
        h
  item_complete path _ _ _ e (later_item i q x xs h) =
      item_complete path (suc i) xs q
        (or_later-none (private_field (path ++ index i ∷ []) x) (private_item path (suc i) xs) e).1
        h

  entry_complete :
      (path : List Step) (fs : Fields) (q : List Step)
      → private_entry path fs ≡ none
      → LeadsFields q fs
      → ⊥
  entry_complete path _ _ e (this_field k v fs f) = absurd (cc (rw f at e))
  entry_complete path _ _ e (below_field k q v fs h) =
      found_complete (path ++ key k ∷ []) v q (entry_none path k v fs e).0 h
  entry_complete path _ _ e (later_field k q v fs h) =
      entry_complete path fs q (entry_none path k v fs e).1 h

-- What the outcome of the scan says of the value.
abbrev pub IsScanned : Json → Result (List Step) (Unit {0}) → Type 0
IsScanned value (ok done) = ¬ ((path : List Step) × Leads path value)
IsScanned value (err path) = Leads path value

-- The scan lets a payload through only if no field with a forbidden name stands in it, in objects and
-- arrays at any depth; otherwise the path that it reports leads to such a field.
pub assert_no_private_fields-IsScanned :
    (value : Json) → IsScanned value (assert_no_private_fields value)
unfolding assert_no_private_fields
assert_no_private_fields-IsScanned value = by_scan (private_field [] value) refl
  where
    by_scan :
        (found : Option (List Step))
        → private_field [] value ≡ found
        → IsScanned value (elim found [ none ↦ ok tt | some path ↦ err path ])
    by_scan none e = λ p. found_complete [] value p.0 e p.1
    by_scan (some path) e =
        let (q, same, h) = found_sound [] value path e in subst (λ r. Leads r value) (sym same) h
