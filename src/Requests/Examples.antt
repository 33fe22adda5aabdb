-- ===== src/Requests/Examples.antt =====
-- A guest's first submission for the newest published version of a spot.
use gto_poker_daily_spots_ba.Prelude.{
  ◌≡◌, refl, true, List, [], ◌∷◌, none, some, Key, Text, Result, ok, find,
}
use gto_poker_daily_spots_ba.Store.{VersionStatus, SpotStatus, SpotVersion, Db, valid}
use gto_poker_daily_spots_ba.Scoring.{score, signed_from, score_hands, frequency_of, round_half}
use gto_poker_daily_spots_ba.Reach.{finite, is_active_combo_reach, effective_combo_reach}
use gto_poker_daily_spots_ba.Publication.{is_published}
use gto_poker_daily_spots_ba.PublicSpot.{
  oop, PublicSpot, unknown, generic, ip, served, read_public_spot,
}
use gto_poker_daily_spots_ba.Attempts.{
  Combo, PrivateSolution, Hand, Score, guest, Attempt, Submission, entry, reversed,
  resolve_exact_combo_strategy, grade_hand, grade_hands, rounded_average, score_from_similarity,
  grade, new_attempt, insert_attempt, submit, commits,
}
use gto_poker_daily_spots_ba.Requests.{
  CreateAttemptRequest, newest_published, served_version, submission, grade_and_submit,
  create_attempt,
}
use gto_poker_daily_spots_ba.Requests.Created.{IsAccepted, create_attempt-IsAccepted}

-- "AhKd", as character codes.
abbrev ace_king : Combo
ace_king = 65 ∷ 104 ∷ 75 ∷ 100 ∷ []

abbrev solution : Key → PrivateSolution
solution k = record {
  action_order = 1 ∷ 2 ∷ [];
  by_combo =
      (
        ace_king,
        record {
          reach = record { raw_reach = none; reach_weight = finite 1000000000000 };
          frequencies = (1, 7000) ∷ (2, 3000) ∷ [];
        },
      )
      ∷ [];
}

abbrev payload : Key → PublicSpot
payload k = record {
  schema_version = 3;
  spot_id = 2;
  spot_version_id = k;
  street = 2;
  hero_actor = oop;
  dealer_actor = oop;
  positions = record { ip_position = generic ip; oop_position = generic oop };
  preflop = unknown;
}

-- Two published versions, of which the second is newer.
abbrev version : Key → SpotVersion
version k = record {
  id = k;
  spot_id = 2;
  version = k;
  schema_version = 3;
  solver_run_id = 30;
  public_payload = k;
  private_payload = k;
  public_payload_sha256 = 0;
  private_payload_sha256 = 0;
  validated_at = some 400;
  status = VersionStatus.published;
  approved_at = none;
  scheduled_at = none;
  published_at = some 500;
  superseded_at = none;
}

abbrev db : Db
db = record {
  spots = record { id = 2; status = SpotStatus.published; current_version_id = some 11 } ∷ [];
  versions = version 10 ∷ version 11 ∷ [];
  slots = [];
  attempts = [];
  audits = [];
  next_id = 100;
}

-- The request plays the version that is served.
abbrev validate : PublicSpot → List Hand → Result Key CreateAttemptRequest
validate spot hands = ok (record { spot_version_id = spot.spot_version_id; hands = hands })

abbrev hash : CreateAttemptRequest → Key
hash request = 700

abbrev key_of : Text → Key
key_of key = 70

abbrev safe_key : Text
safe_key = 97 ∷ 98 ∷ 99 ∷ 100 ∷ 45 ∷ 49 ∷ 50 ∷ 51 ∷ 52 ∷ 45 ∷ 65 ∷ 66 ∷ 67 ∷ 68 ∷ 46 ∷ 95 ∷ []

abbrev hands : List Hand
hands = record { combo = 75 ∷ 100 ∷ 65 ∷ 104 ∷ []; allocations = (1, 5000) ∷ (2, 5000) ∷ [] } ∷ []

abbrev graded : Score
graded = record { similarity_basis_points = 8000; points = 800 }

abbrev attempt : Attempt
attempt = record {
  id = 1;
  owner = guest 5;
  spot_id = 2;
  created_at = 1000;
  validity = valid;
  invalidation_reason = none;
  replacement_spot_version_id = none;
  spot_version_id = 11;
  idempotency_key = 70;
  payload_hash = 700;
  score = graded;
  official = true;
  practice_ordinal = 0;
}

abbrev submitted : CreateAttemptRequest → Score → Submission
submitted request = submission 1 2 1000 (guest 5) 70 700 request

attempt-created :
    create_attempt payload ok solution validate hash key_of 1 2 1000
      (guest 5)
      safe_key
      hands
      db
      commits
      commits
      []
      []
      []
    ≡ ok (attempt, attempt ∷ [])
unfolding create_attempt served_version newest_published find grade_and_submit is_published submit
    insert_attempt new_attempt grade grade_hands grade_hand resolve_exact_combo_strategy entry
    reversed signed_from is_active_combo_reach effective_combo_reach score_hands score frequency_of
    round_half rounded_average score_from_similarity read_public_spot served
attempt-created = refl

create_attempt-IsAccepted_example :
    IsAccepted payload ok solution validate submitted 2 safe_key hands db [] (attempt, attempt ∷ [])
create_attempt-IsAccepted_example =
    create_attempt-IsAccepted payload ok solution validate hash key_of 1 2 1000 (guest 5) safe_key
      hands db commits commits [] [] [] (attempt, attempt ∷ []) attempt-created
