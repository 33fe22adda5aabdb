-- ===== src/Json/Canonical.antt =====
-- The canonical text does not depend on the order of fields.
use gto_poker_daily_spots_ba.Prelude.{
  Bool, true, false, ◌&&◌, ◌≡◌, refl, sym, ap, ◌∙◌, inl, inr, List, [], ◌∷◌, ◌++◌, map, Text,
  Bool-cases, insert_by, sort_by,
}
use gto_poker_daily_spots_ba.Json.{
  Json, array, object, Items, nil, cons, Fields, end, field, join, comma, key_order, entry_text,
  canonical, canonical_items, canonical_fields,
}

-- Two values that differ in the order of fields only, at any depth. Of two neighbours that are swapped,
-- the order of the keys puts only one before the other.
mutual
  pub data Same (before : Text → Text → Bool) : Json → Json → Type 0 where
    same_self : (j : Json) → Same before j j
    same_array : (xs ys : Items) → SameItems before xs ys → Same before (array xs) (array ys)
    same_object : (fs gs : Fields) → SameFields before fs gs → Same before (object fs) (object gs)

  pub data SameItems (before : Text → Text → Bool) : Items → Items → Type 0 where
    no_items : SameItems before nil nil
    same_item :
        (x y : Json) (xs ys : Items)
        → Same before x y
        → SameItems before xs ys
        → SameItems before (cons x xs) (cons y ys)

  pub data SameFields (before : Text → Text → Bool) : Fields → Fields → Type 0 where
    no_fields : SameFields before end end
    same_field :
        (k : Text) (v w : Json) (fs gs : Fields)
        → Same before v w
        → SameFields before fs gs
        → SameFields before (field k v fs) (field k w gs)
    swapped :
        (k l : Text) (v w : Json) (fs : Fields)
        → before k l && before l k ≡ false
        → SameFields before (field k v (field l w fs)) (field l w (field k v fs))
    later :
        (fs gs hs : Fields)
        → SameFields before fs gs
        → SameFields before gs hs
        → SameFields before fs hs

module _ (before : Text → Text → Bool) (quote : Text → Text)
    (total : (a b : Text) → before a b ≡ false → before b a ≡ true)
    (trans : (a b c : Text) → before a b ≡ true → before b c ≡ true → before a c ≡ true) where
  le : Text × Text → Text × Text → Bool
  le = key_order before quote

  insert_by-swap :
      (x y : Text × Text) (s : List (Text × Text))
      → before x.0 y.0 ≡ true
      → before y.0 x.0 ≡ false
      → insert_by le x (insert_by le y s) ≡ insert_by le y (insert_by le x s)
  unfolding insert_by le
  insert_by-swap x y [] p q = rw (p, q) refl
  insert_by-swap x y (z ∷ zs) p q = elim (Bool-cases (before y.0 z.0)) [
    | inl e ↦ rw (e, p, trans x.0 y.0 z.0 p e, q, e) refl
    | inr e ↦ elim (Bool-cases (before x.0 z.0)) [
      | inl f ↦ rw (e, f, q, e) refl
      | inr f ↦ rw (e, f, e) (ap (λ r. z ∷ r) (insert_by-swap x y zs p q))
    ]
  ]

  sort_by-swap :
      (x y : Text × Text) (s : List (Text × Text))
      → before x.0 y.0 && before y.0 x.0 ≡ false
      → sort_by le (x ∷ y ∷ s) ≡ sort_by le (y ∷ x ∷ s)
  unfolding sort_by le
  sort_by-swap x y s d = elim (Bool-cases (before x.0 y.0)) [
    | inl p ↦ elim (Bool-cases (before y.0 x.0)) [
      | inl q ↦ absurd (cc (rw (p, q) at d))
      | inr q ↦ insert_by-swap x y (sort_by le s) p q
    ]
    | inr p ↦ sym (insert_by-swap y x (sort_by le s) (total x.0 y.0 p) p)
  ]

  abbrev sorted : Fields → List (Text × Text)
  sorted fs = sort_by le (canonical_fields before quote fs)

  mutual
    unfolding canonical sort_by le

    value-Same :
        (a b : Json) → Same before a b → canonical before quote a ≡ canonical before quote b
    value-Same _ _ (same_self j) = refl
    value-Same _ _ (same_array xs ys h) =
        ap (λ r. 91 ∷ join comma r ++ 93 ∷ []) (items-Same xs ys h)
    value-Same _ _ (same_object fs gs h) =
        ap (λ r. 123 ∷ join comma (map (entry_text before quote) r) ++ 125 ∷ [])
          (fields-Same fs gs h)

    items-Same :
        (xs ys : Items)
        → SameItems before xs ys
        → canonical_items before quote xs ≡ canonical_items before quote ys
    items-Same _ _ no_items = refl
    items-Same _ _ (same_item x y xs ys h hs) = rw (value-Same x y h, items-Same xs ys hs) refl

    fields-Same : (fs gs : Fields) → SameFields before fs gs → sorted fs ≡ sorted gs
    fields-Same _ _ no_fields = refl
    fields-Same _ _ (same_field k v w fs gs h hs) = rw (value-Same v w h, fields-Same fs gs hs) refl
    fields-Same _ _ (swapped k l v w fs d) =
        sort_by-swap (k, canonical before quote v) (l, canonical before quote w)
          (canonical_fields before quote fs) d
    fields-Same _ _ (later fs gs hs p q) = fields-Same fs gs p ∙ fields-Same gs hs q

  -- The canonical text of a value does not depend on the order of the fields of its objects, as far as
  -- the order of the keys tells these apart: two keys that it puts before each other stay as they are.
  -- The order of the keys is total and transitive.
  pub canonical-Same :
      (a b : Json) → Same before a b → canonical before quote a ≡ canonical before quote b
  canonical-Same a b h = value-Same a b h
