-- ===== src/Requests.antt =====
-- `getSpot` and `createAttempt` of src/application/public-api.ts, from the request to the tables. The
-- checks of the shared contracts, the stored JSON and the hash of a request are parameters.
pub mod Newest
pub mod Created
mod Examples
use gto_poker_daily_spots_ba.Prelude.{
  ℕ, ◌==◌, ltb, leb, ◌||◌, ◌&&◌, Bool, true, false, if◌then◌else◌, List, [], ◌∷◌, Option, none,
  some, Key, Time, Text, Result, ok, err, guard, or_throw, ◌>>=◌, ◌>>◌, all, any, find, find_first,
  length,
}
use gto_poker_daily_spots_ba.Store.{VersionStatus, Spot, SpotVersion, Db}
use gto_poker_daily_spots_ba.Publication.{is_published}
use gto_poker_daily_spots_ba.PublicSpot.{PublicSpot, SpotError, read_public_spot}
use gto_poker_daily_spots_ba.Attempts.{
  PrivateSolution, Hand, AttemptError, Score, grade, Owner, Attempt, Submission, Ending, is_prior,
  replay, submit,
}

-- `refused` is an `AttemptContractError` with its code.
pub data RequestError : Type 0 where
  bad_request spot_not_found : RequestError
  unreadable : SpotError → RequestError
  refused : Key → RequestError
  attempt_failed : AttemptError → RequestError

abbrev pub readable : Result SpotError PublicSpot → Result RequestError PublicSpot
readable (ok spot) = ok spot
readable (err e) = err (unreadable e)

abbrev pub attempted : {A : Type 0} → Result AttemptError A → Result RequestError A
attempted (ok a) = ok a
attempted (err e) = err (attempt_failed e)

abbrev pub or_refused : {A : Type 0} → Result Key A → Result RequestError A
or_refused (ok a) = ok a
or_refused (err code) = err (refused code)

abbrev pub is_served_of : Key → SpotVersion → Bool
is_served_of spot_id v = v.spot_id == spot_id && is_published v.status

-- The published version of a spot with the greatest number.
unfoldable pub newest_published : Key → List SpotVersion → Option SpotVersion
newest_published spot_id [] = none
newest_published spot_id (v ∷ rest) =
    let later = newest_published spot_id rest in
    if is_served_of spot_id v
    then elim later [ none ↦ some v | some w ↦ if ltb v.version w.version then some w else some v ]
    else later

unfoldable pub served_version : Key → Db → Result RequestError SpotVersion
served_version spot_id db = do
  spot ← or_throw (find (λ (s : Spot). s.id) spot_id db.spots) spot_not_found
  or_throw (newest_published spot_id db.versions) spot_not_found

-- `[A-Za-z0-9._:-]`.
abbrev pub is_safe : ℕ → Bool
is_safe c =
    leb 65 c && leb c 90
    || leb 97 c && leb c 122
    || leb 48 c && leb c 57
    || any (λ s. s == c) (46 ∷ 95 ∷ 58 ∷ 45 ∷ [])

abbrev pub is_idempotency_key : Text → Bool
is_idempotency_key t = leb 16 (length t) && leb (length t) 256 && all is_safe t

pub record CreateAttemptRequest : Type 0 where
  pub spot_version_id : Key
  pub hands : List Hand

module _ (payload : Key → PublicSpot) (parse : PublicSpot → Result SpotError PublicSpot) where
  unfoldable pub get_spot : Key → Db → Result RequestError PublicSpot
  get_spot spot_id db = do
    version ← served_version spot_id db
    readable (read_public_spot parse (payload version.public_payload))

-- The identity of the new row, the time and the visitor are given.
abbrev pub submission :
    Key
    → Key
    → Time
    → Owner
    → (idempotency_key payload_hash : Key) → CreateAttemptRequest
    → Score
    → Submission
submission attempt_id spot_id now visitor key hashed request score = record {
  attempt_id = attempt_id;
  owner = visitor;
  spot_id = spot_id;
  created_at = now;
  spot_version_id = request.spot_version_id;
  idempotency_key = key;
  payload_hash = hashed;
  score = score;
}

-- The look-up of a prior attempt does not read the score, which is computed when there is none.
abbrev pub unscored : Score
unscored = record { similarity_basis_points = 0; points = 0 }

unfoldable pub grade_and_submit :
    (Score → Submission)
    → PrivateSolution
    → List Hand
    → (first second : Ending) → (seen snapshot current : List Attempt)
    → Result RequestError (Attempt × List Attempt)
grade_and_submit s exact hands first second seen snapshot current =
    elim (find_first (is_prior (s unscored)) seen) [
      | some prior ↦ attempted (replay (s unscored) prior current)
      | none ↦ attempted (grade exact hands) >>= λ score.
          attempted (submit (s score) first second seen snapshot current)
    ]

-- `Raw` is the body of a request; `key_of` is the stored idempotency key.
module _ {Raw : Type 0} (payload : Key → PublicSpot)
    (parse : PublicSpot → Result SpotError PublicSpot) (solution : Key → PrivateSolution)
    (validate : PublicSpot → Raw → Result Key CreateAttemptRequest)
    (hash : CreateAttemptRequest → Key) (key_of : Text → Key) where
  -- `seen` is the table of attempts at the look-up, `snapshot` the one that the transaction reads, and
  -- `current` the one that it writes to; `first` and `second` are how its transactions end.
  unfoldable pub create_attempt :
      Key
      → Key
      → Time
      → Owner
      → Text
      → Raw
      → Db
      → (first second : Ending) → (seen snapshot current : List Attempt)
      → Result RequestError (Attempt × List Attempt)
  create_attempt attempt_id spot_id now visitor key raw db first second seen snapshot current = do
    guard (is_idempotency_key key) bad_request
    version ← served_version spot_id db
    spot ← readable (read_public_spot parse (payload version.public_payload))
    request ← or_refused (validate spot raw)
    grade_and_submit (submission attempt_id spot_id now visitor (key_of key) (hash request) request)
        (solution version.private_payload) request.hands first second seen snapshot current
