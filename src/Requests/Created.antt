-- ===== src/Requests/Created.antt =====
-- What a request to create an attempt leaves.
use gto_poker_daily_spots_ba.Prelude.{
  ℕ, ◌==◌, not, true, ◌≡◌, refl, ◌∙◌, ap, sym, subst, ◌⊎◌, inl, inr, List, [], ◌∷◌, ◌++◌, Option,
  none, some, Key, Time, Text, Result, ok, err, any, find, find_first, Bool-cases, Option-cases,
  guard-ok, or_throw, or_throw-ok, bind-ok, ok-injective, if◌then◌else◌,
}
use gto_poker_daily_spots_ba.Store.{Spot, SpotVersion, Db}
use gto_poker_daily_spots_ba.PublicSpot.{PublicSpot, SpotError, read_public_spot}
use gto_poker_daily_spots_ba.Attempts.{
  PrivateSolution, Hand, AttemptError, Score, grade, Owner, Attempt, Submission, Ending, is_prior,
  is_own_official, new_attempt, replay, submit, idempotency_conflict,
}
use gto_poker_daily_spots_ba.Attempts.Submit.{Sequential, submit-Sequential, find_first-append}
use gto_poker_daily_spots_ba.Requests.{
  bad_request, spot_not_found, readable, attempted, or_refused, newest_published, served_version,
  is_idempotency_key, CreateAttemptRequest, submission, unscored, grade_and_submit, create_attempt,
}
use gto_poker_daily_spots_ba.Requests.Newest.{IsNewest, newest_published-IsNewest}

or_throw-only : {E A : Type 0} (o : Option A) (e : E) (a : A) → or_throw o e ≡ ok a → o ≡ some a
or_throw-only none e a h = absurd (cc)
or_throw-only (some b) e a h = ap some (ok-injective b a h)

attempted-ok : {A : Type 0} (r : Result AttemptError A) (a : A) → attempted r ≡ ok a → r ≡ ok a
attempted-ok (ok b) a e = ap ok (ok-injective b a e)
attempted-ok (err x) a e = absurd (cc)

readable-ok : (r : Result SpotError PublicSpot) (a : PublicSpot) → readable r ≡ ok a → r ≡ ok a
readable-ok (ok b) a e = ap ok (ok-injective b a e)
readable-ok (err x) a e = absurd (cc)

or_refused-ok : {A : Type 0} (r : Result Key A) (a : A) → or_refused r ≡ ok a → r ≡ ok a
or_refused-ok (ok b) a e = ap ok (ok-injective b a e)
or_refused-ok (err x) a e = absurd (cc)

-- The stored attempt under the request's key, which had the same payload.
pub record IsRepeated (s : Submission) (current : List Attempt) (out : Attempt × List Attempt)
    : Type 0 where
  pub found : find_first (is_prior s) current ≡ some out.0
  pub same_payload : out.0.payload_hash == s.payload_hash ≡ true
  pub unchanged : out.1 ≡ current

-- A new attempt, graded by the solution; it is official if the visitor has no official one at the version.
pub record IsAdded (s : Score → Submission) (exact : PrivateSolution) (hands : List Hand)
    (current : List Attempt) (out : Attempt × List Attempt) : Type 0 where
  pub score : Score
  pub ordinal : ℕ
  pub graded : grade exact hands ≡ ok score
  pub unknown : find_first (is_prior (s score)) current ≡ none
  pub added : out.0 ≡ new_attempt (s score) (not (any (is_own_official (s score)) current)) ordinal
  pub appended : out.1 ≡ current ++ out.0 ∷ []

abbrev pub IsCreated :
    (Score → Submission)
    → PrivateSolution
    → List Hand
    → List Attempt
    → Attempt × List Attempt
    → Type 0
IsCreated s exact hands current out =
    ((score : Score) × IsRepeated (s score) current out) ⊎ IsAdded s exact hands current out

replayed-IsRepeated :
    (s : Submission) (prior : Attempt) (current : List Attempt) (out : Attempt × List Attempt)
    → find_first (is_prior s) current ≡ some prior
    → (if prior.payload_hash == s.payload_hash
        then ok (prior, current)
        else err idempotency_conflict)
      ≡ ok out
    → IsRepeated s current out
replayed-IsRepeated s prior current out f e =
    elim (Bool-cases (prior.payload_hash == s.payload_hash)) [
      | inr other ↦ absurd (cc (rw other at e))
      | inl same ↦
          subst (IsRepeated s current) (ok-injective (prior, current) out (rw same at e))
            (record { found = f; same_payload = same; unchanged = refl })
    ]

Sequential-IsCreated :
    (s : Score → Submission) (score : Score) (exact : PrivateSolution) (hands : List Hand)
    (current : List Attempt) (r : Result AttemptError (Attempt × List Attempt))
    (out : Attempt × List Attempt)
    → grade exact hands ≡ ok score
    → Sequential (s score) current r
    → r ≡ ok out
    → IsCreated s exact hands current out
Sequential-IsCreated s score exact hands current r out graded q e =
    elim (Option-cases (find_first (is_prior (s score)) current)) [
      | inr (prior, f) ↦
          inl (score, replayed-IsRepeated (s score) prior current out f (sym (q.known prior f) ∙ e))
      | inl f ↦
          let (n, made) = q.fresh f in
          inr (
            subst (IsAdded s exact hands current) (ok-injective _ out (sym made ∙ e)) (record {
              score = score;
              ordinal = n;
              graded = graded;
              unknown = f;
              added = refl;
              appended = refl;
            }))
    ]

module _ (s : Score → Submission) (exact : PrivateSolution) (hands : List Hand)
    (first second : Ending) (seen between after : List Attempt) (out : Attempt × List Attempt) where
  abbrev snapshot : List Attempt
  snapshot = seen ++ between

  abbrev current : List Attempt
  current = snapshot ++ after

  grade_and_submit-IsCreated :
      grade_and_submit s exact hands first second seen snapshot current ≡ ok out
      → IsCreated s exact hands current out
  unfolding grade_and_submit replay
  grade_and_submit-IsCreated e = elim (Option-cases (find_first (is_prior (s unscored)) seen)) [
    | inr (prior, f) ↦
        let there : find_first (is_prior (s unscored)) current ≡ some prior =
          find_first-append _ snapshot after prior (find_first-append _ seen between prior f) in
        let replied = attempted-ok _ out (rw (grade_and_submit, f) at e) in
        inl (unscored, replayed-IsRepeated (s unscored) prior current out there replied)
    | inl f ↦
        let (score, graded, e1) =
          bind-ok (attempted (grade exact hands)) _ out (rw (grade_and_submit, f) at e) in
        let stored = attempted-ok _ out e1 in
        elim (submit-Sequential (s score) first second seen between after) [
          | inl (thrown, x) ↦ absurd (cc (thrown, stored))
          | inr alone ↦
              Sequential-IsCreated s score exact hands current
                (submit (s score) first second seen snapshot current) out
                (attempted-ok _ score graded) alone stored
        ]
  ]

-- What a successful request was about, and what it leaves.
pub record IsAccepted {Raw : Type 0} (payload : Key → PublicSpot)
    (parse : PublicSpot → Result SpotError PublicSpot) (solution : Key → PrivateSolution)
    (validate : PublicSpot → Raw → Result Key CreateAttemptRequest)
    (submitted : CreateAttemptRequest → Score → Submission) (spot_id : Key) (key : Text) (raw : Raw)
    (db : Db) (current : List Attempt) (out : Attempt × List Attempt) : Type 0 where
  pub safe_key : is_idempotency_key key ≡ true
  pub version : SpotVersion
  pub serves : IsNewest spot_id db.versions version
  pub spot : PublicSpot
  pub read_spot : read_public_spot parse (payload version.public_payload) ≡ ok spot
  pub request : CreateAttemptRequest
  pub valid_request : validate spot raw ≡ ok request
  pub created :
      IsCreated (submitted request) (solution version.private_payload) request.hands current out

-- An attempt is created only under a safe idempotency key, for the published version of the spot with
-- the greatest number, by a request that the contracts accept for that version as it is served. Whatever
-- other requests stored between the look-up, the snapshot and the write, either a stored attempt with
-- the same key and payload is returned and the table stays, or one attempt is appended, under a key that
-- was not there, graded by that version's solution, and official exactly when the visitor has no
-- official one at the version.
pub create_attempt-IsAccepted :
    {Raw : Type 0} (payload : Key → PublicSpot) (parse : PublicSpot → Result SpotError PublicSpot)
    (solution : Key → PrivateSolution)
    (validate : PublicSpot → Raw → Result Key CreateAttemptRequest)
    (hash : CreateAttemptRequest → Key) (key_of : Text → Key) (attempt_id spot_id : Key)
    (now : Time) (visitor : Owner) (key : Text) (raw : Raw) (db : Db) (first second : Ending)
    (seen between after : List Attempt) (out : Attempt × List Attempt)
    → let snapshot = seen ++ between in
      let current = snapshot ++ after in
      create_attempt payload parse solution validate hash key_of attempt_id spot_id now visitor key
          raw db first second seen snapshot current
        ≡ ok out
      → IsAccepted payload parse solution validate
          (λ request. submission attempt_id spot_id now visitor (key_of key) (hash request) request)
          spot_id
          key
          raw
          db
          current
          out
unfolding create_attempt served_version
create_attempt-IsAccepted payload parse solution validate hash key_of attempt_id spot_id now visitor
      key raw db first second seen between after out e =
    let (safe, e1) = guard-ok (is_idempotency_key key) bad_request _ out e in
    let (version, serves, e2) = bind-ok (served_version spot_id db) _ out e1 in
    let (spot, read, e3) =
      bind-ok (readable (read_public_spot parse (payload version.public_payload))) _ out e2 in
    let (request, valid, e4) = bind-ok (or_refused (validate spot raw)) _ out e3 in
    let (owner, there, e5) =
      or_throw-ok (find (λ (s : Spot). s.id) spot_id db.spots) spot_not_found _ version serves in
    let found = or_throw-only (newest_published spot_id db.versions) spot_not_found version e5 in
    record {
      safe_key = safe;
      version = version;
      serves = newest_published-IsNewest spot_id db.versions version found;
      spot = spot;
      read_spot = readable-ok _ spot read;
      request = request;
      valid_request = or_refused-ok _ request valid;
      created =
          grade_and_submit-IsCreated
            (submission attempt_id spot_id now visitor (key_of key) (hash request) request)
            (solution version.private_payload) request.hands first second seen between after out e4;
    }
