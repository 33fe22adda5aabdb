-- ===== src/Prelude/Maps.antt =====
-- `Map` from keys to numbers, as its entries in their order.
use Prim.Native.Nat.{ℕ, suc}
use mathlib.Core.Path.{◌≡◌, refl, ◌∙◌, ap, sym}
use mathlib.Core.Logic.{inl, inr}
use mathlib.Core.Bool.{Bool, true, false}
use mathlib.Core.Option.{Option, none, some}
use mathlib.Core.List.{List, [], ◌∷◌}
use native.Mathlib.Omega.{arith}
use gto_poker_daily_spots_ba.Prelude.Tests.{◌==◌, if◌then◌else◌, Bool-cases, ==_iff, ==_self}
use gto_poker_daily_spots_ba.Prelude.Lists.{length, any, has, All}
use gto_poker_daily_spots_ba.Prelude.Tables.{count, count_ext}

-- No key stands twice.
abbrev pub NoRepeats : List ℕ → Type 0
NoRepeats [] = Unit {0}
NoRepeats (i ∷ is) = (has i is ≡ false) × NoRepeats is

module _ {V : Type 0} where
  unfoldable pub map_get : ℕ → List (ℕ × V) → Option V
  map_get k [] = none
  map_get k ((j, v) ∷ rest) = if j == k then some v else map_get k rest

  unfoldable pub map_has : ℕ → List (ℕ × V) → Bool
  map_has k [] = false
  map_has k ((j, v) ∷ rest) = if j == k then true else map_has k rest

  unfoldable pub map_set : ℕ → V → List (ℕ × V) → List (ℕ × V)
  map_set k v [] = (k, v) ∷ []
  map_set k v ((j, w) ∷ rest) = if j == k then (j, v) ∷ rest else (j, w) ∷ map_set k v rest

  -- `new Map(entries)`, onto the entries that are there.
  unfoldable pub from_entries : List (ℕ × V) → List (ℕ × V) → List (ℕ × V)
  from_entries m [] = m
  from_entries m ((k, v) ∷ rest) = from_entries (map_set k v m) rest

  pub map_has-map_set :
      (i k : ℕ) (v : V) (m : List (ℕ × V))
      → map_has i (map_set k v m) ≡ (if k == i then true else map_has i m)
  unfolding map_has map_set
  map_has-map_set i k v [] = refl
  map_has-map_set i k v ((j, w) ∷ rest) = grind (arith, map_has-map_set i k v rest)

  length-map_set :
      (k : ℕ) (v : V) (m : List (ℕ × V))
      → length (map_set k v m) ≡ (if map_has k m then length m else suc (length m))
  unfolding map_has map_set
  length-map_set k v [] = refl
  length-map_set k v ((j, w) ∷ rest) = ground (arith, length-map_set k v rest)

  count-absent :
      (k : ℕ) (v : V) (m : List (ℕ × V)) (is : List ℕ)
      → has k is ≡ false
      → count (λ i. map_has i (map_set k v m)) is ≡ count (λ i. map_has i m) is
  count-absent k v m [] e = refl
  count-absent k v m (i ∷ is) e = ground (arith, map_has-map_set i k v m, count-absent k v m is)

  count-map_set :
      (k : ℕ) (v : V) (m : List (ℕ × V)) (is : List ℕ)
      → NoRepeats is
      → has k is ≡ true
      → map_has k m ≡ false
      → count (λ i. map_has i (map_set k v m)) is ≡ suc (count (λ i. map_has i m) is)
  count-map_set k v m [] d e n = absurd (cc)
  count-map_set k v m (i ∷ is) d e n = elim (Bool-cases (i == k)) [
    | inl q ↦
        let same : i ≡ k = (==_iff i k).0 q in
        let absent : has k is ≡ false = ap (λ j. has j is) (sym same) ∙ d.0 in
        ground (arith, map_has-map_set i k v m, count-absent k v m is absent)
    | inr q ↦
        let there : has k is ≡ true = rw q at e in
        ground (arith, map_has-map_set i k v m, count-map_set k v m is d.1 there n)
  ]

  size-map_set :
      (k : ℕ) (v : V) (m : List (ℕ × V)) (is : List ℕ)
      → NoRepeats is
      → has k is ≡ true
      → length m ≡ count (λ i. map_has i m) is
      → length (map_set k v m) ≡ count (λ i. map_has i (map_set k v m)) is
  size-map_set k v m is d h e = elim (Bool-cases (map_has k m)) [
    | inl q ↦
        length-map_set k v m
        ∙ rw q (
            e
            ∙ count_ext (λ i. map_has i m) (λ i. map_has i (map_set k v m)) is
                (λ i. ground (arith, map_has-map_set i k v m)))
    | inr q ↦ length-map_set k v m ∙ rw q (ap suc e ∙ sym (count-map_set k v m is d h q))
  ]

  -- The size of a map is the number of the keys of a list that it has, if all its keys are there.
  pub length-from_entries :
      (is : List ℕ) (m entries : List (ℕ × V))
      → NoRepeats is
      → All (λ (e : ℕ × V). has e.0 is ≡ true) entries
      → length m ≡ count (λ i. map_has i m) is
      → length (from_entries m entries) ≡ count (λ i. map_has i (from_entries m entries)) is
  unfolding from_entries
  length-from_entries is m [] d all e = e
  length-from_entries is m ((k, v) ∷ rest) d all e =
      length-from_entries is (map_set k v m) rest d all.1 (size-map_set k v m is d all.0 e)

  pub map_has-from_entries :
      (i : ℕ) (m entries : List (ℕ × V))
      → map_has i (from_entries m entries)
        ≡ (if map_has i m then true else any (λ (e : ℕ × V). e.0 == i) entries)
  unfolding from_entries
  map_has-from_entries i m [] = ground arith
  map_has-from_entries i m ((k, v) ∷ rest) =
      grind (arith, map_has-from_entries i (map_set k v m) rest, map_has-map_set i k v m)

  pub map_get-map_set :
      (i k : ℕ) (v : V) (m : List (ℕ × V))
      → map_get i (map_set k v m) ≡ (if k == i then some v else map_get i m)
  unfolding map_get map_set
  map_get-map_set i k v [] = refl
  map_get-map_set i k v ((j, w) ∷ rest) = grind (arith, map_get-map_set i k v rest)

  pub map_get-from_entries :
      (k : ℕ) (m entries : List (ℕ × V))
      → any (λ (e : ℕ × V). e.0 == k) entries ≡ false
      → map_get k (from_entries m entries) ≡ map_get k m
  unfolding from_entries
  map_get-from_entries k m [] h = refl
  map_get-from_entries k m ((j, v) ∷ rest) h =
      ground (arith, map_get-from_entries k (map_set j v m) rest, map_get-map_set k j v m)

  -- An entry that is the only one of its key gives the value.
  pub map_get-only :
      (k : ℕ) (v : V) (m rest : List (ℕ × V))
      → any (λ (e : ℕ × V). e.0 == k) rest ≡ false
      → map_get k (from_entries (map_set k v m) rest) ≡ some v
  map_get-only k v m rest h =
      map_get-from_entries k (map_set k v m) rest h
      ∙ ground (arith, map_get-map_set k k v m, ==_self k)
