-- ===== src/Candidate/Best.antt =====
-- Which candidate `rankCandidates` of src/solver/candidate.ts returns.
use gto_poker_daily_spots_ba.Prelude.{
  ◌==◌, ltb, ℕ, suc, ◌≤◌, not, ◌||◌, ◌&&◌, Bool, true, false, if◌then◌else◌, ◌≡◌, refl, sym, subst,
  inl, inr, List, [], ◌∷◌, some, Key, Result, ok, err, length, any, select, get_elem?, sort_by,
  Sorted, sort_by-Sorted, length-sort_by, All, All-map, All-select, All-sort_by, All-unsort,
  All-selected, arith, Bool-cases,
}
use gto_poker_daily_spots_ba.Candidate.{
  CandidatePolicy, Candidate, RankedCandidate, RankError, no_valid_candidate, undefined_candidate,
  goes_first, preferred_of, first_ranked, choose_candidate, ranked_from, rank_candidates,
}

abbrev pub outranks : RankedCandidate → RankedCandidate → Bool
outranks a b = ltb b.score a.score || a.score == b.score && ltb a.tie b.tie

-- `a` should have been chosen before `b`: it matches what is preferred and `b` does not, or
-- they are alike in this and it has a greater score, or the same score and a smaller tie.
abbrev pub beats : RankedCandidate → RankedCandidate → Bool
beats a b =
    if a.preferred_match
    then not b.preferred_match || outranks a b
    else not b.preferred_match && outranks a b

-- `r` stands among the candidates, and none of them beats it.
pub record IsBest (ranked : List RankedCandidate) (r : RankedCandidate) : Type 0 where
  pub stands : (i : ℕ) × (get_elem? ranked i ≡ some r)
  pub unbeaten : All (λ x. beats x r ≡ false) ranked

-- What the outcome of a choice says of the candidates; a missing first one is no outcome.
abbrev pub IsChoice : List RankedCandidate → Result RankError RankedCandidate → Type 0
IsChoice ranked (ok r) = IsBest ranked r
IsChoice ranked (err no_valid_candidate) = ranked ≡ []
IsChoice ranked (err undefined_candidate) = ⊥

first_total : (a b : RankedCandidate) → goes_first a b ≡ false → goes_first b a ≡ true
first_total a b e = ground arith

first_trans :
    (a b c : RankedCandidate)
    → goes_first a b ≡ true
    → goes_first b c ≡ true
    → goes_first a c ≡ true
first_trans a b c e h = ground arith

abbrev matches : RankedCandidate → Bool
matches r = r.preferred_match

abbrev At : List RankedCandidate → RankedCandidate → Type 0
At xs x = (i : ℕ) × (get_elem? xs i ≡ some x)

All-At : (xs : List RankedCandidate) → All (At xs) xs
All-At [] = tt
All-At (x ∷ xs) =
    ((0, refl), All-map (At xs) (At (x ∷ xs)) xs (λ y there. (suc there.0, there.1)) (All-At xs))

-- The first one in order, of a list that has one.
first-IsLeast :
    (P : RankedCandidate → Type 0) (xs : List RankedCandidate)
    → 1 ≤ length xs
    → All P xs
    → (r : RankedCandidate) × (first_ranked (sort_by goes_first xs) ≡ ok r)
      × P r
      × All (λ x. goes_first r x ≡ true) xs
first-IsLeast P xs some_there all =
    by_sorted (sort_by goes_first xs) (length-sort_by goes_first xs)
      (All-sort_by goes_first P xs all) (sort_by-Sorted goes_first first_total first_trans xs)
      (λ r. All-unsort goes_first (λ x. goes_first r x ≡ true) xs)
  where
    by_sorted :
        (ys : List RankedCandidate)
        → length ys ≡ length xs
        → All P ys
        → Sorted goes_first ys
        → ((r : RankedCandidate)
            → All (λ x. goes_first r x ≡ true) ys
            → All (λ x. goes_first r x ≡ true) xs)
        → (r : RankedCandidate) × (first_ranked ys ≡ ok r)
          × P r
          × All (λ x. goes_first r x ≡ true) xs
    by_sorted [] n all sorted back = absurd (omega (arith, n, some_there))
    by_sorted (y ∷ ys) n all sorted back = (y, refl, all.0, back y (ground arith, sorted.0))

matching_there :
    (xs : List RankedCandidate) → any matches xs ≡ true → 1 ≤ length (select matches xs)
matching_there [] e = absurd (cc)
matching_there (x ∷ xs) e = ground (arith, matching_there xs)

none_matches :
    (xs : List RankedCandidate) → any matches xs ≡ false → All (λ x. matches x ≡ false) xs
none_matches [] e = tt
none_matches (x ∷ xs) e = (ground arith, none_matches xs (ground arith))

first-outranks : (a b : RankedCandidate) → goes_first a b ≡ true → outranks b a ≡ false
first-outranks a b e = ground arith

beats-level :
    (a b : RankedCandidate)
    → matches a ≡ true
    → matches b ≡ true
    → outranks a b ≡ false
    → beats a b ≡ false
beats-level a b m n e = ground arith

beats-other : (a b : RankedCandidate) → matches a ≡ false → outranks a b ≡ false → beats a b ≡ false
beats-other a b m e = ground arith

-- Of all candidates, the ones that match lose to `r` by the order, and the others by the match.
unbeaten-matching :
    (r : RankedCandidate) (xs : List RankedCandidate)
    → matches r ≡ true
    → All (λ x. goes_first r x ≡ true) (select matches xs)
    → All (λ x. beats x r ≡ false) xs
unbeaten-matching r [] m h = tt
unbeaten-matching r (x ∷ xs) m h = elim (Bool-cases (matches x)) [
  | inl e ↦
      let later = rw e at h in
      (beats-level x r e m (first-outranks r x later.0), unbeaten-matching r xs m later.1)
  | inr e ↦ (rw (e, m) refl, unbeaten-matching r xs m (rw e at h))
]

unbeaten-others :
    (r : RankedCandidate) (xs : List RankedCandidate)
    → All (λ x. matches x ≡ false) xs
    → All (λ x. goes_first r x ≡ true) xs
    → All (λ x. beats x r ≡ false) xs
unbeaten-others r [] n h = tt
unbeaten-others r (x ∷ xs) n h =
    (beats-other x r n.0 (first-outranks r x h.0), unbeaten-others r xs n.1 h.1)

zip_All :
    (P Q : RankedCandidate → Type 0) (xs : List RankedCandidate)
    → All P xs
    → All Q xs
    → All (λ x. P x × Q x) xs
zip_All P Q [] p q = tt
zip_All P Q (x ∷ xs) p q = ((p.0, q.0), zip_All P Q xs p.1 q.1)

All-both : (xs : List RankedCandidate) → All (λ x. At xs x × (matches x ≡ true)) (select matches xs)
All-both xs =
    zip_All (At xs) (λ x. matches x ≡ true) (select matches xs)
      (All-select (At xs) matches xs (All-At xs)) (All-selected matches xs)

preferred_matching :
    (xs : List RankedCandidate)
    → any matches xs ≡ true
    → (r : RankedCandidate) × (first_ranked (sort_by goes_first (preferred_of xs)) ≡ ok r)
      × IsBest xs r
preferred_matching xs e =
    let (r, chosen, both, least) =
      first-IsLeast (λ x. At xs x × (matches x ≡ true)) (select matches xs) (matching_there xs e)
        (All-both xs) in
    (r, rw e chosen, record { stands = both.0; unbeaten = unbeaten-matching r xs both.1 least })

preferred_others :
    (xs : List RankedCandidate)
    → 1 ≤ length xs
    → any matches xs ≡ false
    → (r : RankedCandidate) × (first_ranked (sort_by goes_first (preferred_of xs)) ≡ ok r)
      × IsBest xs r
preferred_others xs n e =
    let (r, chosen, there, least) = first-IsLeast (At xs) xs n (All-At xs) in
    (
      r,
      rw e chosen,
      record { stands = there; unbeaten = unbeaten-others r xs (none_matches xs e) least },
    )

choose_candidate-IsChoice :
    (ranked : List RankedCandidate) → IsChoice ranked (choose_candidate ranked)
unfolding choose_candidate
choose_candidate-IsChoice [] = refl
choose_candidate-IsChoice (y ∷ ys) = elim (Bool-cases (any matches (y ∷ ys))) [
  | inl e ↦
      let (r, chosen, best) = preferred_matching (y ∷ ys) e in
      subst (IsChoice (y ∷ ys)) (sym chosen) best
  | inr e ↦
      let (r, chosen, best) = preferred_others (y ∷ ys) (ground arith) e in
      subst (IsChoice (y ∷ ys)) (sym chosen) best
]

-- `rankCandidates` returns a candidate that passes the policy and that no other one beats: one
-- that matches the preferred street and actor if any does, among these one with the greatest score,
-- and of the greatest one with the smallest tie. It throws only that there is no valid candidate,
-- and only if none passes; its access to the first of the sorted candidates always finds one.
pub rank_candidates-IsChoice :
    (evenness : List ℕ → ℕ → ℕ) (hash : (seed path ranking_version : Key) → ℕ)
    (candidates : List Candidate) (policy : CandidatePolicy) (seed : Key)
    → IsChoice
        (ranked_from evenness hash policy seed candidates)
        (rank_candidates evenness hash candidates policy seed)
unfolding rank_candidates
rank_candidates-IsChoice evenness hash candidates policy seed =
    choose_candidate-IsChoice (ranked_from evenness hash policy seed candidates)
