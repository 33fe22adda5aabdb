-- ===== src/Prelude/Texts.antt =====
-- Texts, as the lists of their character codes, and their comparison.
use Prim.Native.Nat.{ℕ, ◌-◌}
use mathlib.Core.Path.{◌≡◌, refl}
use mathlib.Core.Logic.{◌↔◌}
use mathlib.Core.Bool.{Bool, true, false, ◌&&◌}
use mathlib.Core.List.{List, [], ◌∷◌, map}
use native.Mathlib.Omega.{arith}
use gto_poker_daily_spots_ba.Prelude.Tests.{◌==◌, leb, if◌then◌else◌}

abbrev pub Text : Type 0
Text = List ℕ

abbrev pub same_text : Text → Text → Bool
same_text [] [] = true
same_text (a ∷ as') (b ∷ bs) = a == b && same_text as' bs
same_text _ _ = false

pub same_text_iff : (a b : Text) → (same_text a b ≡ true) ↔ (a ≡ b)
same_text_iff [] [] = (λ e. refl, λ e. refl)
same_text_iff [] (b ∷ bs) = (λ e. absurd (cc), λ e. absurd (cc))
same_text_iff (a ∷ as') [] = (λ e. absurd (cc), λ e. absurd (cc))
same_text_iff (a ∷ as') (b ∷ bs) =
    (λ e. ground (arith, (same_text_iff as' bs).0), λ e. ground (arith, (same_text_iff as' bs).1))

pub same_text-eq : (a b : Text) → same_text a b ≡ true → a ≡ b
same_text-eq a b = (same_text_iff a b).0

pub same_text_self : (a : Text) → same_text a a ≡ true
same_text_self a = (same_text_iff a a).1 refl

-- `toUpperCase`, on ASCII letters.
abbrev pub upper_char : ℕ → ℕ
upper_char c = if leb 97 c && leb c 122 then c - 32 else c

abbrev pub to_upper : Text → Text
to_upper = map upper_char

pub to_upper_again : (t : Text) → to_upper (to_upper t) ≡ to_upper t
to_upper_again [] = refl
to_upper_again (c ∷ cs) = ground (arith, to_upper_again cs)

-- `a <= b` on texts: the order of `Array.prototype.sort` without a comparison.
abbrev pub leb_text : Text → Text → Bool
leb_text [] b = true
leb_text (a ∷ as') [] = false
leb_text (a ∷ as') (b ∷ bs) = if a == b then leb_text as' bs else leb a b

pub leb_text_total : (a b : Text) → leb_text a b ≡ false → leb_text b a ≡ true
leb_text_total [] b e = absurd (cc)
leb_text_total (a ∷ as') [] e = refl
leb_text_total (a ∷ as') (b ∷ bs) e = ground (arith, leb_text_total as' bs)

pub leb_text_antisym : (a b : Text) → leb_text a b ≡ true → leb_text b a ≡ true → a ≡ b
leb_text_antisym [] [] e h = refl
leb_text_antisym [] (b ∷ bs) e h = absurd (cc)
leb_text_antisym (a ∷ as') [] e h = absurd (cc)
leb_text_antisym (a ∷ as') (b ∷ bs) e h = ground (arith, leb_text_antisym as' bs)

pub leb_text_trans :
    (a b c : Text) → leb_text a b ≡ true → leb_text b c ≡ true → leb_text a c ≡ true
leb_text_trans [] b c e h = refl
leb_text_trans (a ∷ as') [] c e h = absurd (cc)
leb_text_trans (a ∷ as') (b ∷ bs) [] e h = absurd (cc)
leb_text_trans (a ∷ as') (b ∷ bs) (c ∷ cs) e h = ground (arith, leb_text_trans as' bs cs)
