-- ===== src/Stats/Breakdowns.antt =====
-- What `summarizeBreakdowns` of src/application/public-api.ts lists.
use gto_poker_daily_spots_ba.Prelude.{
  ℕ, ◌≤◌, ◌==◌, leb, ◌||◌, true, false, if◌then◌else◌, ◌≡◌, refl, ◌∙◌, sym, ap, inl, inr, List, [],
  ◌∷◌, ◌++◌, map, Key, select, has, count, length, count-sort_by, All, All-map, All-select,
  All-sort_by, All-selected, NoRepeats, arith, Bool-cases, ==_iff, ==_self, leb→le, le→leb,
}
use gto_poker_daily_spots_ba.Attempts.{rounded_average}
use gto_poker_daily_spots_ba.Stats.{
  Sample, Group, Breakdown, add_sample, group_samples, is_large, breakdown_of, by_label,
  summarize_breakdowns,
}

-- The similarities of the samples of a key.
abbrev pub scores_at : Key → List Sample → List ℕ
scores_at k samples =
    map (λ (s : Sample). s.similarity_basis_points) (select (λ (s : Sample). s.key == k) samples)

abbrev scores_in : Key → List Group → List ℕ
scores_in k [] = []
scores_in k (g ∷ rest) = if g.key == k then g.scores else scores_in k rest

abbrev keys : List Group → List Key
keys groups = map (λ (g : Group). g.key) groups

scores_in-add_sample :
    (k : Key) (s : Sample) (groups : List Group)
    → scores_in k (add_sample s groups) ≡ (
        if s.key == k
        then scores_in k groups ++ s.similarity_basis_points ∷ []
        else scores_in k groups)
unfolding add_sample
scores_in-add_sample k s [] = refl
scores_in-add_sample k s (g ∷ rest) = grind (arith, scores_in-add_sample k s rest, ==_iff)

append_assoc : (xs : List ℕ) (x : ℕ) (ys : List ℕ) → (xs ++ x ∷ []) ++ ys ≡ xs ++ x ∷ ys
append_assoc [] x ys = refl
append_assoc (y ∷ xs) x ys = ap (λ t. y ∷ t) (append_assoc xs x ys)

append_nil : (xs : List ℕ) → xs ≡ xs ++ []
append_nil [] = refl
append_nil (x ∷ xs) = ap (λ t. x ∷ t) (append_nil xs)

scores_in-group_samples :
    (k : Key) (groups : List Group) (samples : List Sample)
    → scores_in k (group_samples groups samples) ≡ scores_in k groups ++ scores_at k samples
unfolding group_samples
scores_in-group_samples k groups [] = append_nil (scores_in k groups)
scores_in-group_samples k groups (s ∷ rest) = elim (Bool-cases (s.key == k)) [
  | inl q ↦
      scores_in-group_samples k (add_sample s groups) rest
      ∙ rw (scores_in-add_sample k s groups, q)
          (append_assoc (scores_in k groups) s.similarity_basis_points (scores_at k rest))
  | inr q ↦
      scores_in-group_samples k (add_sample s groups) rest
      ∙ rw (scores_in-add_sample k s groups, q) refl
]

has-add_sample :
    (k : Key) (s : Sample) (groups : List Group)
    → has k (keys (add_sample s groups)) ≡ (s.key == k) || has k (keys groups)
unfolding add_sample
has-add_sample k s [] = ground arith
has-add_sample k s (g ∷ rest) = ground (arith, has-add_sample k s rest)

add_sample-NoRepeats :
    (s : Sample) (groups : List Group)
    → NoRepeats (keys groups)
    → NoRepeats (keys (add_sample s groups))
unfolding add_sample
add_sample-NoRepeats s [] n = (refl, tt)
add_sample-NoRepeats s (g ∷ rest) n = elim (Bool-cases (g.key == s.key)) [
  | inl q ↦ rw q n
  | inr q ↦ rw q (ground (arith, has-add_sample g.key s rest, n.0), add_sample-NoRepeats s rest n.1)
]

group_samples-NoRepeats :
    (groups : List Group) (samples : List Sample)
    → NoRepeats (keys groups)
    → NoRepeats (keys (group_samples groups samples))
unfolding group_samples
group_samples-NoRepeats groups [] n = n
group_samples-NoRepeats groups (s ∷ rest) n =
    group_samples-NoRepeats (add_sample s groups) rest (add_sample-NoRepeats s groups n)

absent-ne :
    (g : Group) (rest : List Group)
    → has g.key (keys rest) ≡ false
    → All (λ (h : Group). g.key == h.key ≡ false) rest
absent-ne g [] e = tt
absent-ne g (h ∷ rest) e = (ground arith, absent-ne g rest (ground arith))

own_scores :
    (groups : List Group)
    → NoRepeats (keys groups)
    → All (λ (g : Group). scores_in g.key groups ≡ g.scores) groups
own_scores [] n = tt
own_scores (g ∷ rest) n =
    (rw (==_self g.key) refl, later rest (own_scores rest n.1) (absent-ne g rest n.0))
  where
    later :
        (hs : List Group)
        → All (λ (h : Group). scores_in h.key rest ≡ h.scores) hs
        → All (λ (h : Group). g.key == h.key ≡ false) hs
        → All (λ (h : Group). scores_in h.key (g ∷ rest) ≡ h.scores) hs
    later = elim [ [] ↦ λ a b. tt | h ∷ (hs → ih) ↦ λ a b. (rw b.0 a.0, ih a.1 b.1) ]

large_there :
    (k : Key) (groups : List Group)
    → 3 ≤ length (scores_in k groups)
    → 1 ≤ count (λ (b : Breakdown). b.key == k) (map breakdown_of (select is_large groups))
large_there k [] h = absurd (omega arith)
large_there k (g ∷ rest) h = elim (Bool-cases (g.key == k)) [
  | inl q ↦
      let large : leb 3 (length g.scores) ≡ true = le→leb 3 (length g.scores) (rw q at h) in
      rw (large, q) (omega arith)
  | inr q ↦
      let later = large_there k rest (rw q at h) in
      elim (Bool-cases (is_large g)) [
        | inl l ↦ rw (l, q) (omega (arith, later))
        | inr l ↦ rw l later
      ]
]

none_count :
    (k : Key) (groups : List Group)
    → has k (keys groups) ≡ false
    → count (λ (b : Breakdown). b.key == k) (map breakdown_of (select is_large groups)) ≡ 0
none_count k [] e = refl
none_count k (g ∷ rest) e =
    let other : g.key == k ≡ false = ground arith in
    let later = none_count k rest (ground arith) in
    elim (Bool-cases (is_large g)) [
      | inl l ↦ rw (l, other) (omega (arith, later))
      | inr l ↦ rw l later
    ]

once_count :
    (k : Key) (groups : List Group)
    → NoRepeats (keys groups)
    → count (λ (b : Breakdown). b.key == k) (map breakdown_of (select is_large groups)) ≤ 1
once_count k [] n = omega arith
once_count k (g ∷ rest) n = elim (Bool-cases (is_large g)) [
  | inr l ↦ rw l (once_count k rest n.1)
  | inl l ↦ elim (Bool-cases (g.key == k)) [
    | inl q ↦
        let same : g.key ≡ k = (==_iff g.key k).0 q in
        let absent : has k (keys rest) ≡ false = ap (λ j. has j (keys rest)) (sym same) ∙ n.0 in
        rw (l, q) (omega (arith, none_count k rest absent))
    | inr q ↦ rw (l, q) (omega (arith, once_count k rest n.1))
  ]
]

small_count :
    (k : Key) (groups : List Group)
    → NoRepeats (keys groups)
    → leb 3 (length (scores_in k groups)) ≡ false
    → count (λ (b : Breakdown). b.key == k) (map breakdown_of (select is_large groups)) ≡ 0
small_count k [] n e = refl
small_count k (g ∷ rest) n e = elim (Bool-cases (g.key == k)) [
  | inl q ↦
      let same : g.key ≡ k = (==_iff g.key k).0 q in
      let absent : has k (keys rest) ≡ false = ap (λ j. has j (keys rest)) (sym same) ∙ n.0 in
      let small : is_large g ≡ false = rw q at e in rw small (none_count k rest absent)
  | inr q ↦
      let later = small_count k rest n.1 (rw q at e) in
      elim (Bool-cases (is_large g)) [
        | inl l ↦ rw (l, q) (omega (arith, later))
        | inr l ↦ rw l later
      ]
]

-- An entry with the number and the rounded average of the similarities of its key.
pub record IsBreakdown (samples : List Sample) (b : Breakdown) : Type 0 where
  pub large : 3 ≤ b.sample_size
  pub size : b.sample_size ≡ length (scores_at b.key samples)
  pub average : b.average_score_basis_points ≡ rounded_average (scores_at b.key samples)

All-breakdown_of :
    (P : Breakdown → Type 0) (groups : List Group)
    → All (λ g. P (breakdown_of g)) groups
    → All P (map breakdown_of groups)
All-breakdown_of P [] all = tt
All-breakdown_of P (g ∷ rest) all = (all.0, All-breakdown_of P rest all.1)

All-both :
    (P Q : Group → Type 0) (groups : List Group)
    → All P groups
    → All Q groups
    → All (λ g. P g × Q g) groups
All-both P Q [] a b = tt
All-both P Q (g ∷ rest) a b = ((a.0, b.0), All-both P Q rest a.1 b.1)

pub record IsSummary (samples : List Sample) (breakdowns : List Breakdown) : Type 0 where
  pub entries : All (IsBreakdown samples) breakdowns
  pub once :
      (k : Key)
      → count (λ (b : Breakdown). b.key == k) breakdowns
        ≡ (if leb 3 (length (scores_at k samples)) then 1 else 0)

-- The breakdowns have one entry for each key with three samples or more, and no other entry. An
-- entry gives the number of the samples of its key and the rounded average of their similarities.
pub summarize_breakdowns-IsSummary :
    (samples : List Sample) → IsSummary samples (summarize_breakdowns samples)
unfolding summarize_breakdowns
summarize_breakdowns-IsSummary samples =
    let groups = group_samples [] samples in
    let distinct = group_samples-NoRepeats [] samples tt in
    let in_groups : (k : Key) → scores_in k groups ≡ scores_at k samples =
      λ k. scores_in-group_samples k [] samples in
    let listed =
      All-sort_by by_label (IsBreakdown samples) (map breakdown_of (select is_large groups)) (
        All-breakdown_of (IsBreakdown samples) (select is_large groups) (
          All-map (λ (g : Group). (is_large g ≡ true) × (scores_in g.key groups ≡ g.scores)) _
            (select is_large groups)
            (λ g h.
              let own : g.scores ≡ scores_at g.key samples = sym h.1 ∙ in_groups g.key in
              record {
                large = leb→le 3 (length g.scores) h.0;
                size = ap length own;
                average = ap rounded_average own;
              })
            (All-both (λ g. is_large g ≡ true) (λ (g : Group). scores_in g.key groups ≡ g.scores)
              (select is_large groups) (All-selected is_large groups)
              (All-select (λ (g : Group). scores_in g.key groups ≡ g.scores) is_large groups
                (own_scores groups distinct))))) in
    record {
      entries = listed;
      once = λ k.
          count-sort_by by_label (λ (b : Breakdown). b.key == k)
            (map breakdown_of (select is_large groups))
          ∙ (elim (Bool-cases (leb 3 (length (scores_at k samples)))) [
            | inl q ↦
                let there =
                  large_there k groups
                    (rw (in_groups k) (leb→le 3 (length (scores_at k samples)) q)) in
                rw q (omega (arith, there, once_count k groups distinct))
            | inr q ↦ rw q (small_count k groups distinct (rw (in_groups k) q))
          ]);
    }
