-- ===== src/History/Descending.antt =====
-- The order of the attempts in `getAttemptHistory` of src/application/public-api.ts.
use gto_poker_daily_spots_ba.Prelude.{
  ℕ, zero, suc, ◌≤◌, ◌==◌, Bool, true, false, ◌≡◌, refl, subst, List, [], ◌∷◌, Option, some, Key,
  select, count, take, drop, Sorted, All, arith, ==_self,
}
use gto_poker_daily_spots_ba.Attempts.{Attempt}
use gto_poker_daily_spots_ba.History.{Cursor, latest_first, is_after, last_of}

-- No two attempts have one identifier.
abbrev pub DistinctIds : List Attempt → Type 0
DistinctIds attempts = (k : Key) → count (λ (a : Attempt). a.id == k) attempts ≤ 1

pub latest_total : (a b : Attempt) → latest_first a b ≡ false → latest_first b a ≡ true
latest_total a b e = ground arith

pub latest_trans :
    (a b c : Attempt) → latest_first a b ≡ true → latest_first b c ≡ true → latest_first a c ≡ true
latest_trans a b c e h = ground arith

-- The cursor at an attempt.
abbrev pub at : Attempt → Option Cursor
at a = some (record { created_at = a.created_at; id = a.id })

-- Each attempt stands before the later ones, and no two are equal in the order.
abbrev pub Descending : List Attempt → Type 0
Descending [] = Unit {0}
Descending (a ∷ rest) = All (λ b. is_after (at a) b ≡ true) rest × Descending rest

strictly :
    (a : Attempt) (rest : List Attempt)
    → All (λ b. latest_first a b ≡ true) rest
    → count (λ (b : Attempt). b.id == a.id) rest ≡ 0
    → All (λ b. is_after (at a) b ≡ true) rest
strictly a [] s e = tt
strictly a (b ∷ rest) s e = (ground (arith, s.0), strictly a rest s.1 (ground arith))

pub Sorted-Descending :
    (xs : List Attempt) → Sorted latest_first xs → DistinctIds xs → Descending xs
Sorted-Descending [] s d = tt
Sorted-Descending (a ∷ rest) s d = (
  strictly a rest s.0 (ground (arith, d a.id, ==_self a.id)),
  Sorted-Descending rest s.1 (λ k. ground (arith, d k)),
)

pub last_of-All :
    (P : Attempt → Type 0) (n : ℕ) (xs : List Attempt) (l : Attempt)
    → All P xs
    → last_of (take n xs) ≡ some l
    → P l
last_of-All P zero xs l all e = absurd (cc)
last_of-All P (suc n) [] l all e = absurd (cc)
last_of-All P (suc zero) (x ∷ xs) l all e = let same : x ≡ l = ground arith in subst P same all.0
last_of-All P (suc (suc n)) (x ∷ []) l all e = let same : x ≡ l = ground arith in subst P same all.0
last_of-All P (suc (suc n)) (x ∷ y ∷ ys) l all e = last_of-All P (suc n) (y ∷ ys) l all.1 e

select-all : (p : Attempt → Bool) (xs : List Attempt) → All (λ b. p b ≡ true) xs → select p xs ≡ xs
select-all p [] all = refl
select-all p (x ∷ xs) all = rw (all.0, select-all p xs all.1) refl

pub select-Descending :
    (n : ℕ) (xs : List Attempt) (l : Attempt)
    → Descending xs
    → last_of (take n xs) ≡ some l
    → select (is_after (at l)) xs ≡ drop n xs
select-Descending zero xs l d e = absurd (cc)
select-Descending (suc n) [] l d e = absurd (cc)
select-Descending (suc zero) (x ∷ xs) l d e =
    let same : x ≡ l = ground arith in
    let self : is_after (at x) x ≡ false = ground arith in
    subst (λ y. select (is_after (at y)) (x ∷ xs) ≡ xs) same
      (rw self (select-all (is_after (at x)) xs d.0))
select-Descending (suc (suc n)) (x ∷ []) l d e =
    let same : x ≡ l = ground arith in
    let self : is_after (at x) x ≡ false = ground arith in
    subst (λ y. select (is_after (at y)) (x ∷ []) ≡ []) same (rw self refl)
select-Descending (suc (suc n)) (x ∷ y ∷ ys) l d e =
    let later : is_after (at x) l ≡ true =
      last_of-All (λ b. is_after (at x) b ≡ true) (suc n) (y ∷ ys) l d.0 e in
    let before : is_after (at l) x ≡ false = ground arith in
    rw before (select-Descending (suc n) (y ∷ ys) l d.1 e)
