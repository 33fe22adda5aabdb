-- ===== src/Provider/Catalog/Rows.antt =====
-- The strategies that the provider's envelope gives are over the action order and add up.
use gto_poker_daily_spots_ba.Prelude.{
  ℕ, true, ◌≡◌, refl, subst, ◌∙◌, inl, inr, List, [], ◌∷◌, map, Option, some, Key, Result, ok, err,
  Text, same_text, length, sum, all, All, has, NoRepeats, map_has, map_set, from_entries,
  map_has-map_set, ==_iff, sym, ap, ◌++◌, ◌==◌, false, inl, inr, arith, Bool-cases, or_throw-ok,
  bind-ok, ok-injective, ==_self,
}
use gto_poker_daily_spots_ba.Json.{Json, Fields, end, field, object, get}
use gto_poker_daily_spots_ba.Normalized.{has_key}
use gto_poker_daily_spots_ba.Attempts.{Combo, ComboStrategy, entry}
use gto_poker_daily_spots_ba.Provider.Apportion.{FrequencyError, basis_point_frequencies}
use gto_poker_daily_spots_ba.Provider.Apportion.Total.{basis_point_frequencies-total}
use gto_poker_daily_spots_ba.Provider.Catalog.{
  pairs, points_of, frequencies_from, strategy_from, strategies_from,
}
use gto_poker_daily_spots_ba.Provider.Reached.{
  ProviderReach, fields_of, bad_strategy, no_frequencies, optional_number, frequencies_key,
}

-- The frequencies are over the actions of the order, and add up.
pub record IsComplete (order : List Key) (frequencies : List (Key × ℕ)) : Type 0 where
  pub size : length frequencies ≡ length order
  pub legal : all (λ f. has_key order f.0) frequencies ≡ true
  pub total : sum (map (λ f. f.1) frequencies) ≡ 10000

module _ (k : Key) (order : List Key) where
  legal-later :
      (fs : List (Key × ℕ))
      → all (λ f. has_key order f.0) fs ≡ true
      → all (λ f. has_key (k ∷ order) f.0) fs ≡ true
  legal-later [] h = refl
  legal-later (f ∷ fs) h = ground (arith, legal-later fs)

pairs-legal :
    (order : List Key) (vs : List ℕ) → all (λ f. has_key order f.0) (pairs order vs) ≡ true
pairs-legal [] vs = refl
pairs-legal (k ∷ order) [] = refl
pairs-legal (k ∷ order) (v ∷ vs) =
    rw (==_self k) (legal-later k order (pairs order vs) (pairs-legal order vs))

length-pairs :
    (order : List Key) (vs : List ℕ)
    → length vs ≡ length order
    → length (pairs order vs) ≡ length order
length-pairs [] vs h = refl
length-pairs (k ∷ order) [] h = absurd (omega (arith, h))
length-pairs (k ∷ order) (v ∷ vs) h = omega (arith, length-pairs order vs (omega (arith, h)))

sum-pairs :
    (order : List Key) (vs : List ℕ)
    → length vs ≡ length order
    → sum (map (λ f. f.1) (pairs order vs)) ≡ sum vs
sum-pairs [] [] h = refl
sum-pairs [] (v ∷ vs) h = absurd (omega (arith, h))
sum-pairs (k ∷ order) [] h = absurd (omega (arith, h))
sum-pairs (k ∷ order) (v ∷ vs) h = omega (arith, sum-pairs order vs (omega (arith, h)))

has-All : (k : Key) (ks : List Key) → has k ks ≡ false → All (λ i. k == i ≡ false) ks
has-All k [] e = tt
has-All k (i ∷ is) e = (ground (arith, ==_iff i k, ==_iff k i), has-All k is (ground arith))

append_nil : (m : List (Key × ℕ)) → m ≡ m ++ []
append_nil [] = refl
append_nil (x ∷ m) = ap (λ r. x ∷ r) (append_nil m)

map_set-append :
    (k : Key) (v : ℕ) (m rest : List (Key × ℕ))
    → map_has k m ≡ false
    → map_set k v m ++ rest ≡ m ++ (k, v) ∷ rest
unfolding map_set map_has
map_set-append k v [] rest e = refl
map_set-append k v ((j, w) ∷ m) rest e = elim (Bool-cases (j == k)) [
  | inl q ↦ absurd (cc (rw (map_has, q) at e))
  | inr q ↦ rw q (ap (λ r. (j, w) ∷ r) (map_set-append k v m rest (rw (map_has, q) at e)))
]

still_new :
    (k : Key) (v : ℕ) (m : List (Key × ℕ)) (ks : List Key)
    → All (λ i. k == i ≡ false) ks
    → All (λ i. map_has i m ≡ false) ks
    → All (λ i. map_has i (map_set k v m) ≡ false) ks
still_new k v m [] other new = tt
still_new k v m (i ∷ is) other new =
    (map_has-map_set i k v m ∙ rw (other.0) new.0, still_new k v m is other.1 new.1)

from_entries-pairs :
    (m : List (Key × ℕ)) (ks : List Key) (vs : List ℕ)
    → NoRepeats ks
    → All (λ k. map_has k m ≡ false) ks
    → from_entries m (pairs ks vs) ≡ m ++ pairs ks vs
unfolding from_entries
from_entries-pairs m [] vs once new = append_nil m
from_entries-pairs m (k ∷ ks) [] once new = append_nil m
from_entries-pairs m (k ∷ ks) (v ∷ vs) once new =
    from_entries-pairs (map_set k v m) ks vs once.1 (still_new k v m ks (has-All k ks once.0) new.1)
    ∙ map_set-append k v m (pairs ks vs) new.0

all_new : (ks : List Key) → All (λ k. map_has {V = ℕ} k [] ≡ false) ks
unfolding map_has
all_new [] = tt
all_new (k ∷ ks) = (refl, all_new ks)

points-ok : (r : Result FrequencyError (List ℕ)) (vs : List ℕ) → points_of r ≡ ok vs → r ≡ ok vs
points-ok (ok ws) vs h = ground (arith, h)
points-ok (err e) vs h = absurd (cc)

module _ (value_of : Text → Option ℕ) (name_of : Key → Text) (order : List Key)
    (once : NoRepeats order) where
  frequencies_from-IsComplete :
      (c : Combo) (value : Option Json) (frequencies : List (Key × ℕ))
      → frequencies_from value_of name_of order c value ≡ ok frequencies
      → IsComplete order frequencies
  unfolding frequencies_from
  frequencies_from-IsComplete c value frequencies h =
      let (fields, there, h1) = or_throw-ok (fields_of value) (no_frequencies c) _ frequencies h in
      let values = λ (id : Key). optional_number value_of (get (name_of id) (object fields)) in
      let (vs, read, same) =
        bind-ok (points_of (basis_point_frequencies values order)) _ frequencies h1 in
      let (total, size) = basis_point_frequencies-total values order vs (points-ok _ vs read) in
      let equal : pairs order vs ≡ frequencies =
        sym (from_entries-pairs [] order vs once (all_new order))
        ∙ ok-injective _ frequencies same in
      subst (IsComplete order) equal (record {
        size = length-pairs order vs size;
        legal = pairs-legal order vs;
        total = sum-pairs order vs size ∙ total;
      })

  strategy_from-IsComplete :
      (reached : List (Combo × ProviderReach)) (c : Combo) (raw : Json) (s : ComboStrategy)
      → strategy_from value_of name_of order reached c raw ≡ ok s
      → IsComplete order s.frequencies
  unfolding strategy_from
  strategy_from-IsComplete reached c raw s h =
      let (item, there, h1) = or_throw-ok (fields_of (some raw)) (bad_strategy c) _ s h in
      let (frequencies, read, same) =
        bind-ok (frequencies_from value_of name_of order c (get frequencies_key raw)) _ s h1 in
      let equal : frequencies ≡ s.frequencies = ground (arith, same) in
      subst (IsComplete order) equal (frequencies_from-IsComplete c _ frequencies read)

  pub strategies_from-IsComplete :
      (reached : List (Combo × ProviderReach)) (fs : Fields) (rows : List (Combo × ComboStrategy))
      → strategies_from value_of name_of order reached fs ≡ ok rows
      → All (λ r. IsComplete order r.1.frequencies) rows
  unfolding strategies_from
  strategies_from-IsComplete reached end rows h = subst (All _) (ok-injective [] rows h) tt
  strategies_from-IsComplete reached (field c raw fs) rows h =
      let (s, read, h1) = bind-ok (strategy_from value_of name_of order reached c raw) _ rows h in
      let (rest, later, same) =
        bind-ok (strategies_from value_of name_of order reached fs) _ rows h1 in
      subst (All (λ r. IsComplete order r.1.frequencies)) (ok-injective ((c, s) ∷ rest) rows same) (
        strategy_from-IsComplete reached c raw s read,
        strategies_from-IsComplete reached fs rest later,
      )

pub entry-All :
    (P : ComboStrategy → Type 0) (rows : List (Combo × ComboStrategy)) (c : Combo)
    (s : ComboStrategy)
    → All (λ r. P r.1) rows
    → entry c rows ≡ some s
    → P s
unfolding entry
entry-All P [] c s all h = absurd (cc)
entry-All P ((d, t) ∷ rows) c s all h = elim (Bool-cases (same_text d c)) [
  | inl e ↦ let equal : t ≡ s = ground (arith, rw e at h) in subst P equal all.0
  | inr e ↦ entry-All P rows c s all.1 (rw e at h)
]
