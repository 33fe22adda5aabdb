-- ===== src/Candidate/Examples.antt =====
-- Two candidates of a run: a pure one, which does not pass, and a mixed one.
use gto_poker_daily_spots_ba.Prelude.{
  ℕ, ◌+◌, ◌*◌, true, sort_by, insert_by, ◌≡◌, refl, List, [], ◌∷◌, none, some, Key, ok,
}
use gto_poker_daily_spots_ba.Reach.{finite, effective_combo_reach}
use gto_poker_daily_spots_ba.Scoring.{frequency_of}
use gto_poker_daily_spots_ba.Attempts.{entry}
use gto_poker_daily_spots_ba.Normalized.{Actor}
use gto_poker_daily_spots_ba.Candidate.{
  Street, CandidatePolicy, Candidate, RankedCandidate, unit, choose_candidate, entropy_of,
  rank_candidate, ranked_from, rank_candidates,
}
use gto_poker_daily_spots_ba.Candidate.Best.{IsChoice, rank_candidates-IsChoice}

abbrev candidate : (path first second : ℕ) → Candidate
candidate path first second = record {
  selected_combo = none;
  featured_combo = some (1 ∷ 2 ∷ []);
  solution = record {
    action_order = 1 ∷ 2 ∷ [];
    by_combo =
        (
          1 ∷ 2 ∷ [],
          record {
            reach = record { raw_reach = none; reach_weight = finite unit };
            frequencies = (1, first) ∷ (2, second) ∷ [];
          },
        )
        ∷ [];
  };
  street = Street.turn;
  actor = Actor.ip;
  path = path;
  ranking_version = 1;
}

abbrev policy : CandidatePolicy
policy = record {
  preferred_street = some Street.turn;
  preferred_actor = none;
  minimum_reach = none;
  minimum_mixed = none;
  minimum_entropy = none;
}

abbrev even : List ℕ → ℕ → ℕ
even above n = unit

abbrev hash : (seed path ranking_version : Key) → ℕ
hash seed path version = seed + path

abbrev candidates : List Candidate
candidates = candidate 7 10000 0 ∷ candidate 6 5000 5000 ∷ candidate 5 5000 5000 ∷ []

abbrev mixed : RankedCandidate
mixed = record {
  envelope = candidate 5 5000 5000;
  score = 1110 * unit;
  preferred_match = true;
  entropy = unit;
  reach = finite unit;
  tie = 8;
}

smaller_tie : rank_candidates even hash candidates policy 3 ≡ ok mixed
unfolding rank_candidates choose_candidate ranked_from rank_candidate entropy_of entry frequency_of
    effective_combo_reach sort_by insert_by
smaller_tie = refl

rank_candidates-IsChoice_example :
    IsChoice
      (ranked_from even hash policy 3 candidates)
      (rank_candidates even hash candidates policy 3)
rank_candidates-IsChoice_example = rank_candidates-IsChoice even hash candidates policy 3
