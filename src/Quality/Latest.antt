-- ===== src/Quality/Latest.antt =====
-- What `assessSolverLog` of src/solver/quality.ts has seen when it accepts a log.
use gto_poker_daily_spots_ba.Prelude.{
  ℕ, ◌≤◌, ◌<◌, leb, ◌≡◌, ap, ◌∙◌, inl, inr, List, [], ◌∷◌, ◌++◌, none, some, ok, arith, All,
  Bool-cases, Option-cases,
}
use gto_poker_daily_spots_ba.Quality.{
  Line, Checkpoint, parse_solver_log, last, eligible, QualityReport, assess_solver_log,
}

-- `c` is the last checkpoint from iteration `minimum` on.
pub record IsLatest (minimum : ℕ) (cs : List Checkpoint) (c : Checkpoint) : Type 0 where
  pub before : List Checkpoint
  pub after : List Checkpoint
  pub split : cs ≡ before ++ c ∷ after
  pub reached : minimum ≤ c.iteration
  pub rest_early : All (λ d. d.iteration < minimum) after

early_everywhere :
    (minimum : ℕ) (cs : List Checkpoint)
    → last (eligible minimum cs) ≡ none
    → All (λ d. d.iteration < minimum) cs
unfolding last
early_everywhere minimum [] e = tt
early_everywhere minimum (c ∷ cs) e = elim (Bool-cases (leb minimum c.iteration)) [
  | inr q ↦ (ground arith, early_everywhere minimum cs (rw q at e))
  | inl q ↦ elim (Option-cases (last (eligible minimum cs))) [
    | inl n ↦ absurd (ground arith)
    | inr (d, n) ↦ absurd (ground arith)
  ]
]

last-IsLatest :
    (minimum : ℕ) (cs : List Checkpoint) (c : Checkpoint)
    → last (eligible minimum cs) ≡ some c
    → IsLatest minimum cs c
unfolding last
last-IsLatest minimum [] c e = absurd (cc)
last-IsLatest minimum (d ∷ cs) c e = elim (Option-cases (last (eligible minimum cs))) [
  | inr (l, n) ↦
      let same : l ≡ c = ground arith in
      let x = last-IsLatest minimum cs c (n ∙ ap some same) in
      record {
        before = d ∷ x.before;
        after = x.after;
        split = ap (λ t. d ∷ t) x.split;
        reached = x.reached;
        rest_early = x.rest_early;
      }
  | inl n ↦
      let same : d ≡ c = ground arith in
      record {
        before = [];
        after = cs;
        split = ap (λ t. t ∷ cs) same;
        reached = ground arith;
        rest_early = early_everywhere minimum cs n;
      }
]

-- A log is accepted only on its last checkpoint at or after the minimum iteration, which has to be
-- within the target: a better checkpoint earlier on does not count, nor one that comes too early.
pub assess-IsLatest :
    (log : List Line) (minimum target : ℕ) (r : QualityReport)
    → assess_solver_log log minimum target ≡ ok r
    → (c : Checkpoint) × IsLatest minimum (parse_solver_log log) c
      × (r.latest ≡ some c)
      × (c.total_percent ≤ target)
unfolding assess_solver_log
assess-IsLatest log minimum target r h =
    elim (Option-cases (last (eligible minimum (parse_solver_log log)))) [
      | inl n ↦ absurd (ground arith)
      | inr (c, n) ↦
          (c, last-IsLatest minimum (parse_solver_log log) c n, ground arith, ground arith)
    ]
