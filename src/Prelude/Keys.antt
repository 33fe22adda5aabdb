-- ===== src/Prelude/Keys.antt =====
-- Tables whose rows have distinct primary keys.
use mathlib.Core.Path.{◌≡◌}
use mathlib.Core.Logic.{◌≢◌, inl, inr}
use mathlib.Core.Option.{some}
use mathlib.Core.List.{List, [], ◌∷◌}
use Prim.Native.Nat.{ℕ}
use native.Mathlib.Omega.{arith}
use gto_poker_daily_spots_ba.Prelude.Tests.{◌==◌, Bool-cases}
use gto_poker_daily_spots_ba.Prelude.Lists.{All}
use gto_poker_daily_spots_ba.Prelude.Tables.{find, update}

module _ {A : Type 0} (id : A → ℕ) where
  abbrev pub DistinctKeys : List A → Type 0
  DistinctKeys [] = Unit {0}
  DistinctKeys (x ∷ xs) = All (λ y. id y ≢ id x) xs × DistinctKeys xs

  -- A row that is found is found behind a row of another key.
  pub find-cons :
      (x : A) (xs : List A) (y : A)
      → All (λ z. id z ≢ id x) xs
      → find id (id y) xs ≡ some y
      → find id (id y) (x ∷ xs) ≡ some y
  unfolding find
  find-cons x [] y h e = cc
  find-cons x (z ∷ xs) y h e = elim (Bool-cases (id z == id y)) [
    | inl q ↦ ground (arith, h.0)
    | inr q ↦ ground (arith, find-cons x xs y h.1)
  ]

  All-update :
      (k j : ℕ) (f : A → A) (xs : List A)
      → ((x : A) → id (f x) ≡ id x)
      → All (λ y. id y ≢ k) xs
      → All (λ y. id y ≢ k) (update id j f xs)
  unfolding update
  All-update k j f [] keep h = tt
  All-update k j f (x ∷ xs) keep h = elim (Bool-cases (id x == j)) [
    | inl q ↦ rw q (ground (arith, keep x, h.0), h.1)
    | inr q ↦ rw q (h.0, All-update k j f xs keep h.1)
  ]

  pub update-DistinctKeys :
      (j : ℕ) (f : A → A) (xs : List A)
      → ((x : A) → id (f x) ≡ id x)
      → DistinctKeys xs
      → DistinctKeys (update id j f xs)
  unfolding update
  update-DistinctKeys j f [] keep d = tt
  update-DistinctKeys j f (x ∷ xs) keep d = elim (Bool-cases (id x == j)) [
    | inl q ↦ rw (q, keep x) d
    | inr q ↦ rw q (All-update (id x) j f xs keep d.0, update-DistinctKeys j f xs keep d.1)
  ]
