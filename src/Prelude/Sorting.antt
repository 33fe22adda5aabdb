-- ===== src/Prelude/Sorting.antt =====
-- Rows in the order that a comparison gives them: `orderBy`, and a stable `sort`.
use mathlib.Core.Path.{◌≡◌, refl, ◌∙◌, sym}
use mathlib.Core.Logic.{inl, inr}
use mathlib.Core.Bool.{Bool, true, false}
use mathlib.Core.List.{List, [], ◌∷◌}
use Prim.Native.Nat.{suc, ◌+◌}
use native.Mathlib.Omega.{arith}
use gto_poker_daily_spots_ba.Prelude.Tests.{if◌then◌else◌, Bool-cases}
use gto_poker_daily_spots_ba.Prelude.Lists.{length, All, All-map, All-select, select}
use gto_poker_daily_spots_ba.Prelude.Tables.{bit, count}

module _ {A : Type 0} (le : A → A → Bool) where
  unfoldable pub insert_by : A → List A → List A
  insert_by x [] = x ∷ []
  insert_by x (y ∷ ys) = if le x y then x ∷ y ∷ ys else y ∷ insert_by x ys

  unfoldable pub sort_by : List A → List A
  sort_by [] = []
  sort_by (x ∷ xs) = insert_by x (sort_by xs)

  pub All-insert_by :
      (P : A → Type 0) (x : A) (ys : List A) → P x → All P ys → All P (insert_by x ys)
  unfolding insert_by
  All-insert_by P x [] h all = (h, tt)
  All-insert_by P x (y ∷ ys) h all = elim (Bool-cases (le x y)) [
    | inl e ↦ rw e (h, all)
    | inr e ↦ rw e (all.0, All-insert_by P x ys h all.1)
  ]

  pub All-sort_by : (P : A → Type 0) (xs : List A) → All P xs → All P (sort_by xs)
  unfolding sort_by
  All-sort_by P [] all = tt
  All-sort_by P (x ∷ xs) all = All-insert_by P x (sort_by xs) all.0 (All-sort_by P xs all.1)

  All-uninsert : (P : A → Type 0) (x : A) (ys : List A) → All P (insert_by x ys) → P x × All P ys
  unfolding insert_by
  All-uninsert P x [] all = (all.0, tt)
  All-uninsert P x (y ∷ ys) all = elim (Bool-cases (le x y)) [
    | inl e ↦ rw e at all
    | inr e ↦
        let later = rw e at all in
        let found = All-uninsert P x ys later.1 in (found.0, (later.0, found.1))
  ]

  pub All-unsort : (P : A → Type 0) (xs : List A) → All P (sort_by xs) → All P xs
  unfolding sort_by
  All-unsort P [] all = tt
  All-unsort P (x ∷ xs) all =
      let found = All-uninsert P x (sort_by xs) all in (found.0, All-unsort P xs found.1)

  count-insert_by :
      (p : A → Bool) (x : A) (ys : List A) → count p (insert_by x ys) ≡ bit (p x) + count p ys
  unfolding insert_by
  count-insert_by p x [] = refl
  count-insert_by p x (y ∷ ys) = elim (Bool-cases (le x y)) [
    | inl e ↦ rw e refl
    | inr e ↦ rw e (omega (arith, count-insert_by p x ys))
  ]

  pub count-sort_by : (p : A → Bool) (xs : List A) → count p (sort_by xs) ≡ count p xs
  unfolding sort_by
  count-sort_by p [] = refl
  count-sort_by p (x ∷ xs) = omega (arith, count-insert_by p x (sort_by xs), count-sort_by p xs)

  length-insert_by : (x : A) (ys : List A) → length (insert_by x ys) ≡ suc (length ys)
  unfolding insert_by
  length-insert_by x [] = refl
  length-insert_by x (y ∷ ys) = ground (arith, length-insert_by x ys)

  pub length-sort_by : (xs : List A) → length (sort_by xs) ≡ length xs
  unfolding sort_by
  length-sort_by [] = refl
  length-sort_by (x ∷ xs) = omega (arith, length-insert_by x (sort_by xs), length-sort_by xs)

  -- Each row comes before the later ones.
  abbrev pub Sorted : List A → Type 0
  Sorted [] = Unit {0}
  Sorted (x ∷ xs) = All (λ y. le x y ≡ true) xs × Sorted xs

  module _ (total : (x y : A) → le x y ≡ false → le y x ≡ true)
      (trans : (x y z : A) → le x y ≡ true → le y z ≡ true → le x z ≡ true) where
    insert_by-Sorted : (x : A) (ys : List A) → Sorted ys → Sorted (insert_by x ys)
    unfolding insert_by
    insert_by-Sorted x [] s = (tt, tt)
    insert_by-Sorted x (y ∷ ys) s = elim (Bool-cases (le x y)) [
      | inl e ↦ rw e (
        (e, All-map (λ z. le y z ≡ true) (λ z. le x z ≡ true) ys (λ z q. trans x y z e q) s.0),
        s,
      )
      | inr e ↦
          rw e
            (All-insert_by (λ z. le y z ≡ true) x ys (total x y e) s.0, insert_by-Sorted x ys s.1)
    ]

    pub sort_by-Sorted : (xs : List A) → Sorted (sort_by xs)
    unfolding sort_by
    sort_by-Sorted [] = tt
    sort_by-Sorted (x ∷ xs) = insert_by-Sorted x (sort_by xs) (sort_by-Sorted xs)

    insert_by-least : (x : A) (ys : List A) → All (λ y. le x y ≡ true) ys → insert_by x ys ≡ x ∷ ys
    unfolding insert_by
    insert_by-least x [] h = refl
    insert_by-least x (y ∷ ys) h = rw (h.0) refl

    select-insert_by :
        (p : A → Bool) (x : A) (ys : List A)
        → Sorted ys
        → select p (insert_by x ys) ≡ (if p x then insert_by x (select p ys) else select p ys)
    unfolding insert_by
    select-insert_by p x [] s = refl
    select-insert_by p x (y ∷ ys) s = elim (Bool-cases (le x y)) [
      | inl e ↦ elim (Bool-cases (p x)) [
        | inl q ↦
            rw (e, q)
              (sym (
                insert_by-least x (select p (y ∷ ys)) (
                  All-select (λ z. le x z ≡ true) p (y ∷ ys)
                    (
                      e,
                      All-map (λ z. le y z ≡ true) (λ z. le x z ≡ true) ys (λ z r. trans x y z e r)
                          s.0,
                    ))))
        | inr q ↦ rw (e, q) refl
      ]
      | inr e ↦ rw e (ground (arith, select-insert_by p x ys s.1, e))
    ]

    pub select-sort_by :
        (p : A → Bool) (xs : List A) → select p (sort_by xs) ≡ sort_by (select p xs)
    unfolding sort_by
    select-sort_by p [] = refl
    select-sort_by p (x ∷ xs) = elim (Bool-cases (p x)) [
      | inl e ↦
          select-insert_by p x (sort_by xs) (sort_by-Sorted xs) ∙ rw (e, select-sort_by p xs) refl
      | inr e ↦
          select-insert_by p x (sort_by xs) (sort_by-Sorted xs) ∙ rw (e, select-sort_by p xs) refl
    ]
