-- ===== src/Prelude/Tables.antt =====
-- Rows of a database table, found and updated by their primary key or by a test.
use mathlib.Core.Path.{◌≡◌, refl}
use mathlib.Core.Logic.{inl, inr}
use mathlib.Core.Bool.{Bool, true, false}
use mathlib.Core.Option.{Option, none, some}
use mathlib.Core.Option
use mathlib.Core.List.{List, [], ◌∷◌, ◌++◌, map}
use Prim.Native.Nat.{ℕ, ◌+◌, ◌≤◌}
use native.Mathlib.Omega.{arith}
use gto_poker_daily_spots_ba.Prelude.Tests.{◌==◌, if◌then◌else◌, Bool-cases}

-- 1 for a test that holds.
abbrev pub bit : Bool → ℕ
bit true = 1
bit false = 0

module _ {A : Type 0} where
  -- How many rows pass a test.
  abbrev pub count : (A → Bool) → List A → ℕ
  count p [] = 0
  count p (x ∷ xs) = bit (p x) + count p xs

  -- `updateMany`.
  abbrev pub update_where : (A → Bool) → (A → A) → List A → List A
  update_where p f = map (λ x. if p x then f x else x)

  pub count-append : (p : A → Bool) (xs ys : List A) → count p (xs ++ ys) ≡ count p xs + count p ys
  count-append p [] ys = omega arith
  count-append p (x ∷ xs) ys = omega (arith, count-append p xs ys)

  pub count_ext : (p q : A → Bool) (xs : List A) → ((x : A) → p x ≡ q x) → count p xs ≡ count q xs
  count_ext p q [] e = refl
  count_ext p q (x ∷ xs) e = rw (e x, count_ext p q xs e)

  pub count_mono :
      (p q : A → Bool) (xs : List A) → ((x : A) → bit (p x) ≤ bit (q x)) → count p xs ≤ count q xs
  count_mono p q [] e = omega arith
  count_mono p q (x ∷ xs) e = omega (arith, e x, count_mono p q xs e)

  pub count-update_where :
      (p q : A → Bool) (f : A → A) (xs : List A)
      → count p (update_where q f xs) ≡ count (λ x. if q x then p (f x) else p x) xs
  count-update_where p q f [] = refl
  count-update_where p q f (x ∷ xs) = elim (Bool-cases (q x)) [
    | inl e ↦ rw (e, count-update_where p q f xs)
    | inr e ↦ rw (e, count-update_where p q f xs)
  ]

module _ {A : Type 0} (id : A → ℕ) where
  -- `findUnique` by primary key.
  unfoldable pub find : ℕ → List A → Option A
  find k [] = none
  find k (x ∷ xs) = if id x == k then some x else find k xs

  -- `update` of the row with a primary key.
  unfoldable pub update : ℕ → (A → A) → List A → List A
  update k f [] = []
  update k f (x ∷ xs) = if id x == k then f x ∷ xs else x ∷ update k f xs

  pub find-update :
      (k j : ℕ) (f : A → A) (xs : List A)
      → ((x : A) → id (f x) ≡ id x)
      → find k (update j f xs) ≡ (if j == k then Option.map f (find k xs) else find k xs)
  unfolding find update
  find-update k j f [] e = ground arith
  find-update k j f (x ∷ xs) e = ground (arith, e x, find-update k j f xs e)

  pub find-append :
      (k : ℕ) (xs ys : List A)
      → find k (xs ++ ys) ≡ elim (find k xs) [ none ↦ find k ys | some x ↦ some x ]
  unfolding find
  find-append k [] ys = refl
  find-append k (x ∷ xs) ys = ground (arith, find-append k xs ys)

  pub id-find : (k : ℕ) (xs : List A) (x : A) → find k xs ≡ some x → id x ≡ k
  unfolding find
  id-find k [] x e = cc
  id-find k (y ∷ xs) x e = ground (arith, id-find k xs x)

  pub count-update :
      (p : A → Bool) (k : ℕ) (f : A → A) (xs : List A) (x : A)
      → find k xs ≡ some x
      → count p (update k f xs) + bit (p x) ≡ count p xs + bit (p (f x))
  unfolding find update
  count-update p k f [] x e = cc
  count-update p k f (y ∷ xs) x e = elim (Bool-cases (id y == k)) [
    | inl q ↦
        (let found : some y ≡ some x = rw q at e in
          let same : y ≡ x = cc in rw (q, same) (omega arith))
    | inr q ↦ rw q (omega (arith, count-update p k f xs x (rw q at e)))
  ]

  pub count-find-pos :
      (p : A → Bool) (k : ℕ) (xs : List A) (x : A) → find k xs ≡ some x → bit (p x) ≤ count p xs
  unfolding find
  count-find-pos p k [] x e = cc
  count-find-pos p k (y ∷ xs) x e = elim (Bool-cases (id y == k)) [
    | inl q ↦
        (let found : some y ≡ some x = rw q at e in let same : y ≡ x = cc in rw same (omega arith))
    | inr q ↦ omega (arith, count-find-pos p k xs x (rw q at e))
  ]
