-- ===== src/Quality.antt =====
-- src/solver/quality.ts: whether a solver's log shows that the solve has converged. A line of the
-- log stands as what the two regular expressions find in it.
pub mod Latest
mod Examples
use gto_poker_daily_spots_ba.Prelude.{
  ℕ, ◌==◌, ltb, leb, not, ◌||◌, Bool, true, false, if◌then◌else◌, List, [], ◌∷◌, Option, none, some,
  Result, ok, err, guard, ◌>>=◌, ◌>>◌, select,
}

-- A percentage is a float: here a natural number of some small unit, or one that is refused, being
-- negative or not finite. A line that gives both an iteration and a total counts as the iteration.
pub data Line : Type 0 where
  iteration_line : ℕ → Line
  total_line : Option ℕ → Line
  other_line : Line

pub record Checkpoint : Type 0 where
  pub iteration : ℕ
  pub total_percent : ℕ

-- `parseSolverLog`, from the iteration that was read last.
unfoldable pub parse_from : Option ℕ → List Line → List Checkpoint
parse_from current [] = []
parse_from current (iteration_line n ∷ rest) = parse_from (some n) rest
parse_from none (total_line p ∷ rest) = parse_from none rest
parse_from (some n) (total_line none ∷ rest) = parse_from (some n) rest
parse_from (some n) (total_line (some p) ∷ rest) =
    record { iteration = n; total_percent = p } ∷ parse_from (some n) rest
parse_from current (other_line ∷ rest) = parse_from current rest

unfoldable pub parse_solver_log : List Line → List Checkpoint
parse_solver_log log = parse_from none log

-- `at(-1)`.
unfoldable pub last : List Checkpoint → Option Checkpoint
last [] = none
last (c ∷ rest) = elim (last rest) [ none ↦ some c | some d ↦ some d ]

pub record QualityReport : Type 0 where
  pub minimum_iterations : ℕ
  pub target_exploitability : ℕ
  pub checkpoints : List Checkpoint
  pub observed : Option Checkpoint
  pub latest : Option Checkpoint
  pub minimum_reached : Bool
  pub converged : Bool

pub data QualityError : Type 0 where
  invalid_settings : QualityError
  stopped_early exploitable : QualityReport → QualityError

abbrev pub eligible : ℕ → List Checkpoint → List Checkpoint
eligible minimum cs = select (λ c. leb minimum c.iteration) cs

abbrev pub is_some : Option Checkpoint → Bool
is_some none = false
is_some (some c) = true

abbrev pub is_within : ℕ → Option Checkpoint → Bool
is_within target none = false
is_within target (some c) = leb c.total_percent target

unfoldable pub assess_solver_log : List Line → ℕ → ℕ → Result QualityError QualityReport
assess_solver_log log minimum target = do
  guard (leb 1 minimum) invalid_settings
  guard (leb 1 target) invalid_settings
  let checkpoints = parse_solver_log log
  let latest = last (eligible minimum checkpoints)
  let report : QualityReport = record {
    minimum_iterations = minimum;
    target_exploitability = target;
    checkpoints = checkpoints;
    observed = last checkpoints;
    latest = latest;
    minimum_reached = is_some latest;
    converged = is_within target latest;
  }
  guard (is_some latest) (stopped_early report)
  guard (is_within target latest) (exploitable report)
  ok report
