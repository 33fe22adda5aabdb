-- ===== src/Quality/Examples.antt =====
-- A concrete log for the theorem on src/solver/quality.ts.
use gto_poker_daily_spots_ba.Prelude.{◌≤◌, ◌≡◌, refl, true, List, [], ◌∷◌, none, some, ok}
use gto_poker_daily_spots_ba.Quality.{
  Line, iteration_line, total_line, other_line, Checkpoint, parse_from, parse_solver_log, last,
  QualityReport, assess_solver_log,
}
use gto_poker_daily_spots_ba.Quality.Latest.{IsLatest, assess-IsLatest}

abbrev log : List Line
log =
    other_line
    ∷ total_line (some 900)
    ∷ iteration_line 10
    ∷ total_line (some 400)
    ∷ iteration_line 50
    ∷ total_line none
    ∷ total_line (some 30)
    ∷ []

abbrev report : QualityReport
report = record {
  minimum_iterations = 50;
  target_exploitability = 40;
  checkpoints =
      record { iteration = 10; total_percent = 400 }
      ∷ record { iteration = 50; total_percent = 30 }
      ∷ [];
  observed = some (record { iteration = 50; total_percent = 30 });
  latest = some (record { iteration = 50; total_percent = 30 });
  minimum_reached = true;
  converged = true;
}

log-accepted : assess_solver_log log 50 40 ≡ ok report
unfolding assess_solver_log parse_solver_log parse_from last
log-accepted = refl

assess-IsLatest_example :
    (c : Checkpoint) × IsLatest 50 (parse_solver_log log) c
    × (report.latest ≡ some c)
    × (c.total_percent ≤ 40)
assess-IsLatest_example = assess-IsLatest log 50 40 report log-accepted
