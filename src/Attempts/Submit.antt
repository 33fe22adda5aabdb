-- ===== src/Attempts/Submit.antt =====
-- `createAttempt` of src/application/public-api.ts against its sequential specification.
use gto_poker_daily_spots_ba.Prelude.{
  ℕ, ◌==◌, not, Bool, true, false, ◌≡◌, ◌⊎◌, refl, sym, subst, inl, inr, List, [], ◌∷◌, ◌++◌, none,
  some, Result, ok, err, arith, any, count, find_first, Bool-cases, Option-cases, Result-cases,
  if◌then◌else◌,
}
use gto_poker_daily_spots_ba.Attempts.{
  Attempt, AttemptError, Submission, Ending, commits, aborts, transaction_failed,
  idempotency_conflict, is_own, is_prior, is_own_official, new_attempt, insert_attempt, replay,
  after_violation, submit,
}

-- What one request does when no other runs beside it.
pub record Sequential (s : Submission) (current : List Attempt)
    (r : Result AttemptError (Attempt × List Attempt)) : Type 0 where
  pub known :
      (prior : Attempt)
      → find_first (is_prior s) current ≡ some prior
      → r ≡ (
          if prior.payload_hash == s.payload_hash
          then ok (prior, current)
          else err idempotency_conflict)
  pub fresh :
      find_first (is_prior s) current ≡ none
      → (ordinal : ℕ) × (let a = new_attempt s (not (any (is_own_official s) current)) ordinal in
          r ≡ ok (a, current ++ a ∷ []))

pub find_first-append :
    (p : Attempt → Bool) (xs ys : List Attempt) (x : Attempt)
    → find_first p xs ≡ some x
    → find_first p (xs ++ ys) ≡ some x
find_first-append p [] ys x e = cc
find_first-append p (a ∷ xs) ys x e = ground (arith, find_first-append p xs ys x)

any-append : (p : Attempt → Bool) (xs ys : List Attempt) → any p xs ≡ true → any p (xs ++ ys) ≡ true
any-append p [] ys e = cc
any-append p (a ∷ xs) ys e = ground (arith, any-append p xs ys)

any-find_first :
    (p : Attempt → Bool) (xs : List Attempt) → find_first p xs ≡ none → any p xs ≡ false
any-find_first p [] e = refl
any-find_first p (a ∷ xs) e = ground (arith, any-find_first p xs)

any-found :
    (p : Attempt → Bool) (xs : List Attempt) (x : Attempt)
    → find_first p xs ≡ some x
    → any p xs ≡ true
any-found p [] x e = cc
any-found p (a ∷ xs) x e = ground (arith, any-found p xs x)

module _ (s : Submission) (seen snapshot current : List Attempt) where
  submit_known :
      (p : Attempt)
      → find_first (is_prior s) seen ≡ some p
      → find_first (is_prior s) current ≡ some p
      → Sequential s current (submit s commits commits seen snapshot current)
  unfolding submit replay
  submit_known p e f = record { known = λ q g. ground arith; fresh = λ n. absurd (ground arith) }

  submit_raced :
      (p : Attempt)
      → find_first (is_prior s) seen ≡ none
      → find_first (is_prior s) current ≡ some p
      → submit s commits commits seen snapshot current
        ≡ (if p.payload_hash == s.payload_hash then ok (p, current) else err idempotency_conflict)
  unfolding submit insert_attempt after_violation replay
  submit_raced p e f = ground (arith, any-found (is_prior s) current p f)

  submit_official :
      find_first (is_prior s) seen ≡ none
      → find_first (is_prior s) current ≡ none
      → any (is_own_official s) current ≡ false
      → any (is_own_official s) snapshot ≡ false
      → let a = new_attempt s true 0 in
        submit s commits commits seen snapshot current ≡ ok (a, current ++ a ∷ [])
  unfolding submit insert_attempt
  submit_official e f c d = ground (arith, any-find_first (is_prior s) current f)

  submit_practice :
      find_first (is_prior s) seen ≡ none
      → find_first (is_prior s) current ≡ none
      → any (is_own_official s) current ≡ true
      → (ordinal : ℕ) × (let a = new_attempt s false ordinal in
          submit s commits commits seen snapshot current ≡ ok (a, current ++ a ∷ []))
  unfolding submit insert_attempt after_violation new_attempt
  submit_practice e f c = elim (Bool-cases (any (is_own_official s) snapshot)) [
    | inl d ↦ (count (is_own s) snapshot, ground (arith, any-find_first (is_prior s) current f))
    | inr d ↦ (count (is_own s) current, ground (arith, any-find_first (is_prior s) current f))
  ]

  submit_fresh :
      find_first (is_prior s) seen ≡ none
      → (any (is_own_official s) snapshot ≡ true → any (is_own_official s) current ≡ true)
      → Sequential s current (submit s commits commits seen snapshot current)
  submit_fresh e grows = record {
    known = λ p f. submit_raced p e f;
    fresh = λ f. elim (Bool-cases (any (is_own_official s) current)) [
      | inl c ↦ (let (n, q) = submit_practice e f c in (n, rw c q))
      | inr c ↦ (0, rw c (submit_official e f c (ground (arith, grows))))
    ];
  }

-- When the database commits each transaction.
committed-Sequential :
    (s : Submission) (seen between after : List Attempt)
    → let snapshot = seen ++ between in
      let current = snapshot ++ after in
      Sequential s current (submit s commits commits seen snapshot current)
committed-Sequential s seen between after = elim (Option-cases (find_first (is_prior s) seen)) [
  | inr (p, e) ↦
      submit_known s seen (seen ++ between) ((seen ++ between) ++ after) p e
        (find_first-append _ (seen ++ between) after p (find_first-append _ seen between p e))
  | inl e ↦
      submit_fresh s seen (seen ++ between) ((seen ++ between) ++ after) e
        (any-append (is_own_official s) (seen ++ between) after)
]

abbrev Effect : Type 0
Effect = Result AttemptError (Attempt × List Attempt)

-- A transaction that the database throws out ends the request; else it is as if none had been.
abbrev Ends : Ending → Ending → Effect → Effect → Type 0
Ends first second r committed =
    ((r ≡ err transaction_failed) × ((first ≡ aborts) ⊎ (second ≡ aborts))) ⊎ (r ≡ committed)

-- The attempt that the first transaction writes.
abbrev tried : Submission → List Attempt → Attempt
tried s snapshot =
    let official = not (any (is_own_official s) snapshot) in
    new_attempt s official (if official then 0 else count (is_own s) snapshot)

submit-Ends :
    (s : Submission) (first second : Ending) (seen snapshot current : List Attempt)
    → Ends first second
        (submit s first second seen snapshot current)
        (submit s commits commits seen snapshot current)
unfolding submit after_violation
submit-Ends s commits commits seen snapshot current = inr refl
submit-Ends s aborts second seen snapshot current =
    elim (Option-cases (find_first (is_prior s) seen)) [
      | inr (p, e) ↦ inr (rw (submit, e) refl)
      | inl e ↦ inl (rw (submit, e) refl, inl refl)
    ]
submit-Ends s commits aborts seen snapshot current =
    elim (Option-cases (find_first (is_prior s) seen)) [
      | inr (p, e) ↦ inr (rw (submit, e) refl)
      | inl e ↦ elim (Result-cases (insert_attempt s (tried s snapshot) current)) [
        | inl (attempts, f) ↦ inr (rw (submit, e, f) refl)
        | inr (x, f) ↦ elim (Option-cases (find_first (is_prior s) current)) [
          | inr (p, g) ↦ inr (rw (submit, e, f, after_violation, g) refl)
          | inl g ↦ inl (rw (submit, e, f, after_violation, g) refl, inr refl)
        ]
      ]
    ]

-- However many attempts were stored between a request's look-up, its snapshot and its write, either
-- it fails, since the database threw a transaction of it out, or it has the effect of a request that
-- runs alone on the current table: a key that is known gives the stored attempt back or a conflict,
-- and a new key gives a new attempt, official exactly when the visitor has no official one at the
-- version.
pub submit-Sequential :
    (s : Submission) (first second : Ending) (seen between after : List Attempt)
    → let snapshot = seen ++ between in
      let current = snapshot ++ after in
      let r = submit s first second seen snapshot current in
      ((r ≡ err transaction_failed) × ((first ≡ aborts) ⊎ (second ≡ aborts)))
      ⊎ Sequential s current r
submit-Sequential s first second seen between after =
    let snapshot = seen ++ between in
    let current = snapshot ++ after in
    elim (submit-Ends s first second seen snapshot current) [
      | inl thrown ↦ inl thrown
      | inr same ↦
          inr (subst (Sequential s current) (sym same) (committed-Sequential s seen between after))
    ]
