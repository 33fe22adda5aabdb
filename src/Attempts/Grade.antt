-- ===== src/Attempts/Grade.antt =====
-- The score of a submission in src/application/public-api.ts.
use native.Mathlib.Nat.{div-lt_iff_lt-mul}
use gto_poker_daily_spots_ba.Prelude.{
  ℕ, ◌+◌, ◌*◌, ◌≤◌, ◌<◌, ◌≡◌, refl, ap, ◌⊎◌, inl, inr, true, List, [], ◌∷◌, none, some, Key, ok,
  arith, sum, length, All, Option-cases, Result-cases,
}
use gto_poker_daily_spots_ba.Scoring.{score, score_hands, round_half, HandScore}
use gto_poker_daily_spots_ba.Reach.{is_active_combo_reach}
use gto_poker_daily_spots_ba.Attempts.{
  Combo, ComboStrategy, PrivateSolution, Hand, Score, entry, reversed, resolve_exact_combo_strategy,
  grade_hand, grade_hands, rounded_average, score_from_similarity, grade,
}

reversed-reversed : (c : Combo) → length c ≡ 4 → reversed (reversed c) ≡ c
unfolding reversed
reversed-reversed [] h = absurd (omega arith)
reversed-reversed (a ∷ []) h = absurd (omega arith)
reversed-reversed (a ∷ b ∷ []) h = absurd (omega arith)
reversed-reversed (a ∷ b ∷ c ∷ []) h = absurd (omega arith)
reversed-reversed (a ∷ b ∷ c ∷ d ∷ []) h = refl
reversed-reversed (a ∷ b ∷ c ∷ d ∷ e ∷ r) h = absurd (omega arith)

-- A holding of two cards resolves to one strategy, in whichever order its cards are written, as long
-- as the solution does not hold both spellings.
pub resolve-reversed :
    (solution : PrivateSolution) (c : Combo)
    → length c ≡ 4
    → (entry c solution.by_combo ≡ none) ⊎ (entry (reversed c) solution.by_combo ≡ none)
    → resolve_exact_combo_strategy solution (reversed c) ≡ resolve_exact_combo_strategy solution c
unfolding resolve_exact_combo_strategy
resolve-reversed solution c h one =
    ground (arith, ap (λ d. entry d solution.by_combo) (reversed-reversed c h))

round_half-le : (h : ℕ) → h ≤ 20000 → round_half h ≤ 10000
unfolding round_half
round_half-le h p = omega arith

score_hands-le :
    (order : List Key) (submitted gto : List (Key × ℕ)) (r : HandScore)
    → score_hands order submitted gto ≡ ok r
    → r.similarity ≤ 20000
unfolding score_hands score
score_hands-le order submitted gto r h = ground arith

-- The strategy that a hand is graded against: it is in the solution, and its reach is active.
abbrev pub IsPlayable : PrivateSolution → Hand → Type 0
IsPlayable solution hand =
    (s : ComboStrategy) × (resolve_exact_combo_strategy solution hand.combo ≡ some s)
    × (is_active_combo_reach s.reach ≡ true)

grade_hand-ok :
    (solution : PrivateSolution) (hand : Hand) (b : ℕ)
    → grade_hand solution hand ≡ ok b
    → IsPlayable solution hand × (b ≤ 10000)
unfolding grade_hand
grade_hand-ok solution hand b h =
    elim (Option-cases (resolve_exact_combo_strategy solution hand.combo)) [
      | inl e ↦ absurd (ground arith)
      | inr (s, e) ↦
          elim (Result-cases (score_hands solution.action_order hand.allocations s.frequencies)) [
            | inr (x, q) ↦ absurd (ground arith)
            | inl (r, q) ↦ (
              (s, e, ground arith),
              ground (
                arith,
                round_half-le r.similarity
                    (score_hands-le solution.action_order hand.allocations s.frequencies r q),
              ),
            )
          ]
    ]

-- Each hand that is graded is playable, and its similarity is at most 100 percent.
pub record AreGraded (solution : PrivateSolution) (hands : List Hand) (bs : List ℕ) : Type 0 where
  pub playable : All (IsPlayable solution) hands
  pub size : length bs ≡ length hands
  pub bounded : sum bs ≤ 10000 * length bs

grade_hands-AreGraded :
    (solution : PrivateSolution) (hands : List Hand) (bs : List ℕ)
    → grade_hands solution hands ≡ ok bs
    → AreGraded solution hands bs
unfolding grade_hands
grade_hands-AreGraded solution [] bs h =
    let same : bs ≡ [] = ground arith in
    record { playable = tt; size = rw same refl; bounded = rw same (omega arith) }
grade_hands-AreGraded solution (x ∷ xs) bs h = elim (Result-cases (grade_hand solution x)) [
  | inr (e, q) ↦ absurd (ground arith)
  | inl (b, q) ↦ elim (Result-cases (grade_hands solution xs)) [
    | inr (e, r) ↦ absurd (ground arith)
    | inl (cs, r) ↦
        let g = grade_hands-AreGraded solution xs cs r in
        let (p, le) = grade_hand-ok solution x b q in
        let same : bs ≡ b ∷ cs = ground arith in
        record {
          playable = (p, g.playable);
          size = rw same (omega (arith, g.size));
          bounded = rw same (omega (arith, g.bounded));
        }
  ]
]

rounded_average-le :
    (bs : List ℕ) → 0 < length bs → sum bs ≤ 10000 * length bs → rounded_average bs ≤ 10000
unfolding rounded_average
rounded_average-le bs pos h = omega (
  arith,
  (div-lt_iff_lt-mul {k = 2 * length bs} {x = 2 * sum bs + length bs} {y = 10001} (omega arith)).1
      (omega arith),
)

-- When a submission of at least one hand is graded, every hand is in the solution with an active
-- reach, the similarity is at most 10,000 basis points, and the points are at most 1,000.
pub grade-bounds :
    (solution : PrivateSolution) (hands : List Hand) (s : Score)
    → 0 < length hands
    → grade solution hands ≡ ok s
    → All (IsPlayable solution) hands × (s.similarity_basis_points ≤ 10000) × (s.points ≤ 1000)
unfolding grade score_from_similarity
grade-bounds solution hands s pos h = elim (Result-cases (grade_hands solution hands)) [
  | inr (e, q) ↦ absurd (ground arith)
  | inl (bs, q) ↦
      let g = grade_hands-AreGraded solution hands bs q in
      let le = rounded_average-le bs (omega (arith, g.size)) g.bounded in
      let same : s ≡ score_from_similarity (rounded_average bs) = ground arith in
      (g.playable, rw same (omega (arith, le)), rw same (omega (arith, le)))
]
