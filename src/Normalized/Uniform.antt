-- ===== src/Normalized/Uniform.antt =====
-- When the report of src/solver/normalized.ts calls strategies uniform.
use gto_poker_daily_spots_ba.Prelude.{
  same_text, same_text-eq, same_text_self, ℕ, suc, ◌≤◌, ◌<◌, max, ◌==◌, ltb, ◌&&◌, true, ◌≡◌, ◌↔◌,
  refl, sym, ◌∙◌, ap, subst, List, [], ◌∷◌, Key, length, All, All-map, arith, Bool-cases, inl, inr,
  length-map,
}
use gto_poker_daily_spots_ba.Scoring.Distance.{distance_zero, distance_self}
use gto_poker_daily_spots_ba.Attempts.{Combo, ComboStrategy}
use gto_poker_daily_spots_ba.Normalized.{contains, distinct_from}
use gto_poker_daily_spots_ba.Normalized.Diversity.{
  vector_of, vectors_of, l1_distance, max_against, max_pairwise, strategy_diversity_report,
}

-- All vectors are the first one.
abbrev AllAre : List ℕ → List (List ℕ) → Type 0
AllAre v vs = All (λ w. w ≡ v) vs

max_against-zero :
    (n best : ℕ) (v : List ℕ) (vs : List (List ℕ))
    → length v ≡ n
    → All (λ w. length w ≡ n) vs
    → max_against best v vs ≡ 0
    → (best ≡ 0) × AllAre v vs
unfolding max_against
max_against-zero n best v [] l h e = (e, tt)
max_against-zero n best v (w ∷ vs) l h e =
    let rest = max_against-zero n (max best (l1_distance v w)) v vs l h.1 e in
    (
      omega (arith, rest.0),
      (sym (distance_zero v w (omega (arith, l, h.0)) (omega (arith, rest.0))), rest.1),
    )

max_against-same :
    (best : ℕ) (v : List ℕ) (vs : List (List ℕ)) → AllAre v vs → max_against best v vs ≡ best
unfolding max_against
max_against-same best v [] h = refl
max_against-same best v (w ∷ vs) h =
    rw (h.0, distance_self v) (rw (max_zero best) (max_against-same best v vs h.1))
  where
    max_zero : (n : ℕ) → max n 0 ≡ n
    max_zero n = omega arith

max_against-best-le : (b : ℕ) (u : List ℕ) (us : List (List ℕ)) → b ≤ max_against b u us
unfolding max_against
max_against-best-le b u [] = omega arith
max_against-best-le b u (w ∷ us) = omega (arith, max_against-best-le (max b (l1_distance u w)) u us)

max_pairwise-best-le : (best : ℕ) (vs : List (List ℕ)) → best ≤ max_pairwise best vs
unfolding max_pairwise
max_pairwise-best-le best [] = omega arith
max_pairwise-best-le best (v ∷ vs) =
    omega (arith, max_against-best-le best v vs, max_pairwise-best-le (max_against best v vs) vs)

max_pairwise-same : (v : List ℕ) (vs : List (List ℕ)) → AllAre v vs → max_pairwise 0 vs ≡ 0
unfolding max_pairwise
max_pairwise-same v [] h = refl
max_pairwise-same v (w ∷ vs) h =
    rw (max_against-same 0 w vs (All-map _ _ vs (λ u q. q ∙ sym h.0) h.1))
      (max_pairwise-same v vs h.1)

distinct-same :
    (v : List ℕ) (seen vs : List (List ℕ))
    → contains v seen ≡ true
    → AllAre v vs
    → distinct_from seen vs ≡ []
unfolding distinct_from
distinct-same v seen [] c h = refl
distinct-same v seen (w ∷ vs) c h =
    rw (subst (λ x. contains x seen ≡ true) (sym h.0) c) (distinct-same v seen vs c h.1)

distinct-none : (v : List ℕ) (vs : List (List ℕ)) → distinct_from (v ∷ []) vs ≡ [] → AllAre v vs
unfolding distinct_from
distinct-none v [] e = tt
distinct-none v (w ∷ vs) e = elim (Bool-cases (same_text v w)) [
  | inl q ↦ (sym (same_text-eq v w q), distinct-none v vs (rw q at e))
  | inr q ↦ absurd (ground arith)
]

-- On vectors of one length, there is one distinct vector exactly when no two are apart.
one_distinct :
    (n : ℕ) (v : List ℕ) (vs : List (List ℕ))
    → length v ≡ n
    → All (λ w. length w ≡ n) vs
    → (length (distinct_from [] (v ∷ vs)) ≡ 1) ↔ (max_pairwise 0 (v ∷ vs) ≡ 0)
unfolding distinct_from max_pairwise
one_distinct n v vs l h = (
  λ e.
      (let same = distinct-none v vs (nil_of (distinct_from (v ∷ []) vs) (omega (arith, e))) in
        rw (max_against-same 0 v vs same) (max_pairwise-same v vs same)),
  λ e.
      (let same =
          max_against-zero n 0 v vs l h
            (omega (arith, e, max_pairwise-best-le (max_against 0 v vs) vs)) in
        ap (λ t. suc (length t)) (distinct-same v (v ∷ []) vs (rw (same_text_self v) refl) same.1)),
)
  where
    nil_of : (t : List (List ℕ)) → length t ≡ 0 → t ≡ []
    nil_of [] z = refl
    nil_of (x ∷ xs) z = absurd (omega arith)

vectors-length :
    (order : List Key) (rows : List (Combo × ComboStrategy))
    → All (λ w. length w ≡ length order) (vectors_of order rows)
unfolding vectors_of vector_of
vectors-length order [] = tt
vectors-length order (b ∷ rows) = (length-map order _, vectors-length order rows)

-- A report calls the strategies uniform exactly when there are at least two combos and the largest
-- L1 distance of two of their vectors is zero: the two figures, counted apart, always agree.
pub uniform_iff :
    (order : List Key) (rows : List (Combo × ComboStrategy))
    → let report = strategy_diversity_report order rows in
      (report.uniform_across_combos ≡ true)
      ↔ ((1 < report.combo_count) × (report.max_pairwise_l1 ≡ 0))
unfolding strategy_diversity_report
uniform_iff order rows = both (vectors_of order rows) (vectors-length order rows)
  where
    both :
        (vs : List (List ℕ))
        → All (λ w. length w ≡ length order) vs
        → ((ltb 1 (length vs) && length (distinct_from [] vs) == 1) ≡ true)
          ↔ ((1 < length vs) × (max_pairwise 0 vs ≡ 0))
    both [] h = (λ e. ground arith, λ e. absurd (omega (arith, e.0)))
    both (v ∷ vs) h =
        let one = one_distinct (length order) v vs h.0 h.1 in
        (λ e. (ground arith, one.0 (ground arith)), λ e. ground (arith, one.1 e.1))
