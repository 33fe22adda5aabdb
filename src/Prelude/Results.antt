-- ===== src/Prelude/Results.antt =====
-- A computation that may throw: its value, or the error that it throws.
use mathlib.Core.Path.{◌≡◌, refl}
use mathlib.Core.Logic.{◌⊎◌, inl, inr}
use mathlib.Core.Bool.{Bool, true, false}
use mathlib.Core.Option.{Option, none, some}

pub data Result (E A : Type 0) : Type 0 where
  ok : A → Result E A
  err : E → Result E A

-- `findUniqueOrThrow`, and the checks on a value that may be missing.
abbrev pub or_throw : {E A : Type 0} → Option A → E → Result E A
or_throw none e = err e
or_throw (some a) e = ok a

-- `if (!test) throw e`.
abbrev pub guard : {E : Type 0} (test : Bool) (thrown : E) → Result E (Unit {0})
guard false thrown = err thrown
guard true thrown = ok tt

infixl 5 ◌>>=◌ ◌>>◌
-- What follows an `await`, unless that has thrown.
abbrev pub ◌>>=◌ : {E A B : Type 0} (first : Result E A) (next : A → Result E B) → Result E B
err e >>= next = err e
ok a >>= next = next a

abbrev pub ◌>>◌ : {E B : Type 0} (first : Result E (Unit {0})) (last : Result E B) → Result E B
first >> last = first >>= λ done. last

pub Result-cases :
    {E A : Type 0} (r : Result E A) → ((a : A) × (r ≡ ok a)) ⊎ ((e : E) × (r ≡ err e))
Result-cases (ok a) = inl (a, refl)
Result-cases (err e) = inr (e, refl)

-- What precedes a success.
module _ {E : Type 0} where
  pub guard-ok :
      {A : Type 0} (test : Bool) (e : E) (next : Unit {0} → Result E A) (a : A)
      → (guard test e >>= next) ≡ ok a
      → (test ≡ true) × (next tt ≡ ok a)
  guard-ok true e next a h = (refl, h)
  guard-ok false e next a h = absurd (cc)

  pub or_throw-ok :
      {A B : Type 0} (o : Option A) (e : E) (next : A → Result E B) (b : B)
      → (or_throw o e >>= next) ≡ ok b
      → (a : A) × (o ≡ some a) × (next a ≡ ok b)
  or_throw-ok none e next b h = absurd (cc)
  or_throw-ok (some a) e next b h = (a, refl, h)

  pub bind-ok :
      {A B : Type 0} (r : Result E A) (next : A → Result E B) (b : B)
      → (r >>= next) ≡ ok b
      → (a : A) × (r ≡ ok a) × (next a ≡ ok b)
  bind-ok (err e) next b h = absurd (cc)
  bind-ok (ok a) next b h = (a, refl, h)

  pub ok-injective : {A : Type 0} (a b : A) → ◌≡◌ {A = Result E A} (ok a) (ok b) → a ≡ b
  ok-injective a b h = cc
