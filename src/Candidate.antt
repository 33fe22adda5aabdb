-- ===== src/Candidate.antt =====
-- src/solver/candidate.ts: the choice of one candidate spot among those a solver run offers.
pub mod Best
mod Examples
use gto_poker_daily_spots_ba.Prelude.{
  ℕ, ◌+◌, ◌*◌, min, ◌==◌, ltb, leb, not, ◌||◌, ◌&&◌, Bool, true, false, if◌then◌else◌, List, [],
  ◌∷◌, map, Option, none, some, Key, Result, ok, err, length, any, select, sort_by,
}
use gto_poker_daily_spots_ba.Scoring.{frequency_of}
use gto_poker_daily_spots_ba.Reach.{
  Number, finite, not_finite, active_combo_min_reach, effective_combo_reach,
}
use gto_poker_daily_spots_ba.Attempts.{Combo, ComboStrategy, PrivateSolution, entry}
use gto_poker_daily_spots_ba.Normalized.{Actor, same_actor}

pub data Street : Type 0 where
  flop turn river : Street

abbrev pub same_street : Street → Street → Bool
same_street Street.flop Street.flop = true
same_street Street.turn Street.turn = true
same_street Street.river Street.river = true
same_street _ _ = false

-- Entropies and scores are multiples of 10 ^ -12, as reaches are. A reach that is not finite is an
-- infinity, as the schema of the envelope has no negative reach. The bounds of a policy are not
-- negative either.
abbrev pub unit : ℕ
unit = 1000000000000

pub record CandidatePolicy : Type 0 where
  pub preferred_street : Option Street
  pub preferred_actor : Option Actor
  pub minimum_reach : Option ℕ
  pub minimum_mixed : Option ℕ
  pub minimum_entropy : Option ℕ

-- The parts of an envelope that the ranking reads. A combo is not the empty text.
pub record Candidate : Type 0 where
  pub selected_combo : Option Combo
  pub featured_combo : Option Combo
  pub solution : PrivateSolution
  pub street : Street
  pub actor : Actor
  pub path : Key
  pub ranking_version : Key

pub record RankedCandidate : Type 0 where
  pub envelope : Candidate
  pub score : ℕ
  pub preferred_match : Bool
  pub entropy : ℕ
  pub reach : Number
  pub tie : ℕ

pub data RankError : Type 0 where
  no_valid_candidate : RankError
  undefined_candidate : RankError

abbrev pub or_default : Option ℕ → ℕ → ℕ
or_default none n = n
or_default (some m) n = m

abbrev pub is_below : Number → ℕ → Bool
is_below (finite n) m = ltb n m
is_below not_finite m = false

-- `Math.min(reach, 1)`.
abbrev pub capped : Number → ℕ
capped (finite n) = min n unit
capped not_finite = unit

abbrev pub combo_of : Candidate → Option Combo
combo_of c = elim c.selected_combo [ some combo ↦ some combo | none ↦ c.featured_combo ]

abbrev pub prefers_street : CandidatePolicy → Candidate → Bool
prefers_street policy c = elim policy.preferred_street [
  | none ↦ true
  | some street ↦ same_street c.street street
]

abbrev pub prefers_actor : CandidatePolicy → Candidate → Bool
prefers_actor policy c = elim policy.preferred_actor [
  | none ↦ true
  | some actor ↦ same_actor c.actor actor
]

abbrev pub bonus : Bool → ℕ
bonus true = 1000 * unit
bonus false = 0

-- `right.score - left.score || left.tie - right.tie`, at most 0.
abbrev pub goes_first : RankedCandidate → RankedCandidate → Bool
goes_first left right =
    ltb right.score left.score || left.score == right.score && leb left.tie right.tie

-- `ranked.some(…) ? ranked.filter(…) : ranked`.
abbrev pub preferred_of : List RankedCandidate → List RankedCandidate
preferred_of ranked =
    let matching = select (λ (r : RankedCandidate). r.preferred_match) ranked in
    if any (λ (r : RankedCandidate). r.preferred_match) ranked then matching else ranked

abbrev pub first_ranked : List RankedCandidate → Result RankError RankedCandidate
first_ranked [] = err undefined_candidate
first_ranked (r ∷ rest) = ok r

-- The result keeps its tie here, which the code takes off.
unfoldable pub choose_candidate : List RankedCandidate → Result RankError RankedCandidate
choose_candidate [] = err no_valid_candidate
choose_candidate (r ∷ rest) = first_ranked (sort_by goes_first (preferred_of (r ∷ rest)))

-- `evenness` is the quotient of the two logarithms' terms, on what is above 0 of the basis points
-- and the number of all; `hash` is the number that `tieBreak` takes from its digest.
module _ (evenness : List ℕ → ℕ → ℕ) (hash : (seed path ranking_version : Key) → ℕ) where
  unfoldable pub entropy_of : List ℕ → ℕ
  entropy_of values =
      let above = select (λ v. ltb 0 v) values in
      if leb (length above) 1 then 0 else evenness above (length values)

  abbrev pub ranked_with :
      CandidatePolicy → Key → Candidate → Number → (entropy : ℕ) → RankedCandidate
  ranked_with policy seed c reach entropy =
      let matches = prefers_street policy c && prefers_actor policy c in
      record {
        envelope = c;
        score = bonus matches + entropy * 100 + capped reach * 10;
        preferred_match = matches;
        entropy = entropy;
        reach = reach;
        tie = hash seed c.path c.ranking_version;
      }

  abbrev pub rank_strategy :
      CandidatePolicy → Key → Candidate → ComboStrategy → Option RankedCandidate
  rank_strategy policy seed c strategy =
      let reach = effective_combo_reach strategy.reach in
      let frequencies = map (λ id. frequency_of strategy.frequencies id) c.solution.action_order in
      let mixed = length (select (λ v. leb (or_default policy.minimum_mixed 1) v) frequencies) in
      let entropy = entropy_of frequencies in
      if is_below reach (or_default policy.minimum_reach active_combo_min_reach)
      then none
      else if ltb mixed 2 || ltb entropy (or_default policy.minimum_entropy 0)
      then none
      else some (ranked_with policy seed c reach entropy)

  unfoldable pub rank_candidate : CandidatePolicy → Key → Candidate → Option RankedCandidate
  rank_candidate policy seed c = elim (combo_of c) [
    | none ↦ none
    | some combo ↦ elim (entry combo c.solution.by_combo) [
      | none ↦ none
      | some strategy ↦ rank_strategy policy seed c strategy
    ]
  ]

  -- `candidates.flatMap(…)`.
  unfoldable pub ranked_from : CandidatePolicy → Key → List Candidate → List RankedCandidate
  ranked_from policy seed [] = []
  ranked_from policy seed (c ∷ cs) =
      let rest = ranked_from policy seed cs in
      elim (rank_candidate policy seed c) [ none ↦ rest | some r ↦ r ∷ rest ]

  unfoldable pub rank_candidates :
      List Candidate → CandidatePolicy → Key → Result RankError RankedCandidate
  rank_candidates candidates policy seed = choose_candidate (ranked_from policy seed candidates)
