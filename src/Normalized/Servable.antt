-- ===== src/Normalized/Servable.antt =====
-- What `validateNormalizedEnvelope` of src/solver/normalized.ts guarantees.
use gto_poker_daily_spots_ba.Prelude.{
  same_text, same_text-eq, ◌==◌, true, ◌≡◌, refl, ◌⊎◌, inl, inr, List, [], ◌∷◌, some, Key, ok,
  length, all, All, arith, Bool-cases, Option-cases, Result-cases, ==_iff, subst,
}
use gto_poker_daily_spots_ba.Reach.{is_active_combo_reach}
use gto_poker_daily_spots_ba.Attempts.{
  Combo, ComboStrategy, PrivateSolution, Hand, entry, resolve_exact_combo_strategy,
}
use gto_poker_daily_spots_ba.Attempts.Grade.{IsPlayable}
use gto_poker_daily_spots_ba.Normalized.{
  Envelope, contains, distinct_from, has_key, frequency_total, check_strategy, check_strategies,
  check_known, action_ids, validate_normalized_envelope, with_defaults, or_false,
}

-- The strategy of a combo is there, is over the legal actions, adds up and is active.
pub record IsServed (ids : List Key) (solution : PrivateSolution) (c : Combo) : Type 0 where
  pub strategy : ComboStrategy
  pub there : entry c solution.by_combo ≡ some strategy
  pub size : length strategy.frequencies ≡ length ids
  pub legal : all (λ f. has_key ids f.0) strategy.frequencies ≡ true
  pub total : frequency_total strategy ≡ 10000
  pub active : is_active_combo_reach strategy.reach ≡ true

check_strategy-IsServed :
    (ids : List Key) (solution : PrivateSolution) (c : Combo)
    → check_strategy ids solution c ≡ ok tt
    → IsServed ids solution c
unfolding check_strategy
check_strategy-IsServed ids solution c h = elim (Option-cases (entry c solution.by_combo)) [
  | inl n ↦ absurd (ground arith)
  | inr (s, n) ↦ record {
    strategy = s;
    there = n;
    size = ground arith;
    legal = ground arith;
    total = ground arith;
    active = ground arith;
  }
]

check_strategies-IsServed :
    (ids : List Key) (solution : PrivateSolution) (cs : List Combo)
    → check_strategies ids solution cs ≡ ok tt
    → All (IsServed ids solution) cs
unfolding check_strategies
check_strategies-IsServed ids solution [] h = tt
check_strategies-IsServed ids solution (c ∷ cs) h =
    elim (Result-cases (check_strategy ids solution c)) [
      | inr (x, e) ↦ absurd (ground arith)
      | inl (u, e) ↦ (
        check_strategy-IsServed ids solution c (ground arith),
        check_strategies-IsServed ids solution cs (ground arith),
      )
    ]

All-contains :
    (P : Combo → Type 0) (c : Combo) (cs : List Combo) → All P cs → contains c cs ≡ true → P c
All-contains P c [] h k = absurd (cc)
All-contains P c (d ∷ cs) h k = elim (Bool-cases (same_text d c)) [
  | inl e ↦ subst P (same_text-eq d c e) h.0
  | inr e ↦ All-contains P c cs h.1 (rw e at k)
]

contains-moves :
    (c d : Combo) (cs : List Combo)
    → same_text c d ≡ true
    → contains c cs ≡ true
    → contains d cs ≡ true
contains-moves c d cs e h = subst (λ x. contains x cs ≡ true) (same_text-eq c d e) h

distinct_complete :
    (c : Combo) (seen cs : List Combo)
    → contains c cs ≡ true
    → (contains c seen ≡ true) ⊎ (contains c (distinct_from seen cs) ≡ true)
unfolding distinct_from
distinct_complete c seen [] h = absurd (cc)
distinct_complete c seen (d ∷ cs) h = elim (Bool-cases (same_text d c)) [
  | inl e ↦ elim (Bool-cases (contains d seen)) [
    | inl k ↦ inl (contains-moves d c seen e k)
    | inr k ↦ inr (ground arith)
  ]
  | inr e ↦ elim (Bool-cases (contains d seen)) [
    | inl k ↦ rw k (distinct_complete c seen cs (rw e at h))
    | inr k ↦ rw (k, e) (rw e at (distinct_complete c (d ∷ seen) cs (rw e at h)))
  ]
]

distinct_sound :
    (c : Combo) (seen cs : List Combo)
    → contains c (distinct_from seen cs) ≡ true
    → contains c cs ≡ true
unfolding distinct_from
distinct_sound c seen [] h = cc
distinct_sound c seen (d ∷ cs) h =
    ground (arith, distinct_sound c seen cs, distinct_sound c (d ∷ seen) cs)

covered_by :
    (c : Combo) (rows : List (Combo × ComboStrategy)) (s : ComboStrategy) (cs : List Combo)
    → all (λ b. contains b.0 cs) rows ≡ true
    → entry c rows ≡ some s
    → contains c cs ≡ true
unfolding entry
covered_by c [] s cs h e = absurd (cc)
covered_by c ((d, t) ∷ rows) s cs h e = elim (Bool-cases (same_text d c)) [
  | inl q ↦ contains-moves d c cs q (ground arith)
  | inr q ↦ covered_by c rows s cs (ground arith) (rw q at e)
]

-- What an envelope that has been let through is good for.
pub record IsServable (e : Envelope) : Type 0 where
  pub hash : e.manifest_source_hash ≡ e.source_hash
  pub order : action_ids e ≡ e.solution.action_order
  pub served :
      (c : Combo) → contains c e.selectable_combos ≡ true → IsServed (action_ids e) e.solution c
  pub playable :
      (hand : Hand) → contains hand.combo e.selectable_combos ≡ true → IsPlayable e.solution hand
  pub covered :
      (c : Combo) (s : ComboStrategy)
      → entry c e.solution.by_combo ≡ some s
      → contains c e.selectable_combos ≡ true

served-IsPlayable :
    (ids : List Key) (solution : PrivateSolution) (hand : Hand)
    → IsServed ids solution hand.combo
    → IsPlayable solution hand
unfolding resolve_exact_combo_strategy
served-IsPlayable ids solution hand x =
    (x.strategy, rw (resolve_exact_combo_strategy, x.there) refl, x.active)

distinct-all :
    (c : Combo) (cs : List Combo) → contains c cs ≡ true → contains c (distinct_from [] cs) ≡ true
distinct-all c cs h = elim (distinct_complete c [] cs h) [ inl n ↦ absurd (cc) | inr k ↦ k ]

servable :
    (e : Envelope)
    → (e.manifest_source_hash == e.source_hash) ≡ true
    → same_text (action_ids e) e.solution.action_order ≡ true
    → check_strategies (action_ids e) e.solution (distinct_from [] e.selectable_combos) ≡ ok tt
    → all (λ b. contains b.0 (distinct_from [] e.selectable_combos)) e.solution.by_combo ≡ true
    → IsServable e
servable e hash order checked known = record {
  hash = (==_iff e.manifest_source_hash e.source_hash).0 hash;
  order = same_text-eq (action_ids e) e.solution.action_order order;
  served = served;
  playable = λ hand k. served-IsPlayable (action_ids e) e.solution hand (served hand.combo k);
  covered = λ c s there.
      distinct_sound c [] e.selectable_combos
        (covered_by c e.solution.by_combo s (distinct_from [] e.selectable_combos) known there);
}
  where
    served :
        (c : Combo) → contains c e.selectable_combos ≡ true → IsServed (action_ids e) e.solution c
    served c k =
        All-contains (IsServed (action_ids e) e.solution) c (distinct_from [] e.selectable_combos)
          (check_strategies-IsServed (action_ids e) e.solution
            (distinct_from [] e.selectable_combos) checked)
          (distinct-all c e.selectable_combos k)

-- An envelope that `validateNormalizedEnvelope` returns is the one that it was given, but that a missing
-- `fallbackUsed` of the manifest is false in it. Its manifest has the hash of its source and its actions
-- are those of the solution. Every selectable combo has a strategy over the legal actions that adds up
-- to 10,000 basis points and has an active reach, so that grading takes a hand with this combo. The
-- solution has no combo that is not selectable.
pub validate-IsServable :
    (input e : Envelope)
    → validate_normalized_envelope input ≡ ok e
    → (e ≡ record input { fallback_used = e.fallback_used })
      × (e.fallback_used ≡ some (or_false input.fallback_used))
      × IsServable e
unfolding validate_normalized_envelope
validate-IsServable input e' h =
    let e = with_defaults input in
    elim (Result-cases (check_known e)) [
      | inr (x, p) ↦ absurd (ground arith)
      | inl (u, p) ↦
          elim (Result-cases
            (check_strategies (action_ids e) e.solution (distinct_from [] e.selectable_combos))) [
              | inr (x, q) ↦ absurd (ground arith)
              | inl (v, q) ↦
                  let same : e ≡ e' = ground arith in
                  subst
                    (λ x.
                      (x ≡ record input { fallback_used = x.fallback_used })
                      × (x.fallback_used ≡ some (or_false input.fallback_used))
                      × IsServable x)
                    same
                    (
                      refl,
                      refl,
                      servable e (ground arith) (ground arith) (ground arith) (ground arith),
                    )
            ]
    ]
