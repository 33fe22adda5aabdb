-- ===== src/Prelude/Every.antt =====
-- Properties of every row of a list, by the tests that select rows.
use mathlib.Core.Path.{◌≡◌, refl}
use mathlib.Core.Logic.{inl, inr}
use mathlib.Core.Bool.{Bool, true, false, ◌&&◌}
use mathlib.Core.List.{List, [], ◌∷◌}
use native.Mathlib.Omega.{arith}
use gto_poker_daily_spots_ba.Prelude.Tests.{Bool-cases}
use gto_poker_daily_spots_ba.Prelude.Lists.{All, select}
use gto_poker_daily_spots_ba.Prelude.Tables.{count}

module _ {A : Type 0} where
  pub All-unselected :
      (P : A → Type 0) (p : A → Bool) (ss : List A)
      → ((s : A) → p s ≡ false → P s)
      → All P (select p ss)
      → All P ss
  All-unselected P p [] outside all = tt
  All-unselected P p (s ∷ ss) outside all = elim (Bool-cases (p s)) [
    | inl q ↦ ((rw q at all).0, All-unselected P p ss outside ((rw q at all).1))
    | inr q ↦ (outside s q, All-unselected P p ss outside (rw q at all))
  ]

  pub All-count : (p : A → Bool) (ss : List A) → count p ss ≡ 0 → All (λ s. p s ≡ false) ss
  All-count p [] e = tt
  All-count p (s ∷ ss) e = (ground arith, All-count p ss (ground arith))

  pub All-selected : (p : A → Bool) (ss : List A) → All (λ s. p s ≡ true) (select p ss)
  All-selected p [] = tt
  All-selected p (s ∷ ss) = elim (Bool-cases (p s)) [
    | inl q ↦ rw q (q, All-selected p ss)
    | inr q ↦ rw q (All-selected p ss)
  ]

  pub All-apply : (P Q : A → Type 0) (ss : List A) → All (λ s. P s → Q s) ss → All P ss → All Q ss
  All-apply P Q [] f all = tt
  All-apply P Q (s ∷ ss) f all = (f.0 all.0, All-apply P Q ss f.1 all.1)

  pub select-select :
      (p q : A → Bool) (xs : List A) → select p (select q xs) ≡ select (λ x. q x && p x) xs
  select-select p q [] = refl
  select-select p q (x ∷ xs) = ground (arith, select-select p q xs)

  pub select_ext :
      (p q : A → Bool) (xs : List A) → ((x : A) → p x ≡ q x) → select p xs ≡ select q xs
  select_ext p q [] e = refl
  select_ext p q (x ∷ xs) e = rw (e x, select_ext p q xs e) refl

  pub count-select :
      (p q : A → Bool) (xs : List A) → count p (select q xs) ≡ count (λ x. q x && p x) xs
  count-select p q [] = refl
  count-select p q (x ∷ xs) = ground (arith, count-select p q xs)
