-- ===== src/Attempts.antt =====
-- `createAttempt` of src/application/public-api.ts: grading the hands of a submission, and storing
-- the attempt once. The submission has passed the shared contract's validation.
pub mod Grade
pub mod Submit
mod Examples
use gto_poker_daily_spots_ba.Prelude.{
  Time, same_text, ℕ, zero, suc, ◌+◌, ◌*◌, ◌/◌, ◌==◌, not, ◌||◌, ◌&&◌, Bool, true, false, List, [],
  ◌∷◌, ◌++◌, map, Option, none, some, Key, Result, ok, err, guard, or_throw, ◌>>=◌, ◌>>◌, length,
  take, drop, sum, any, count, find_first, if◌then◌else◌,
}
use gto_poker_daily_spots_ba.Store.{Validity, valid}
use gto_poker_daily_spots_ba.Scoring.{score_hands, round_half}
use gto_poker_daily_spots_ba.Reach.{ComboReach, is_active_combo_reach}

-- The characters of a holding such as "AhKd".
abbrev pub Combo : Type 0
Combo = List ℕ

pub record ComboStrategy : Type 0 where
  pub reach : ComboReach
  pub frequencies : List (Key × ℕ)

-- `byCombo` is a record of the code: its entries, with distinct keys.
pub record PrivateSolution : Type 0 where
  pub action_order : List Key
  pub by_combo : List (Combo × ComboStrategy)

unfoldable pub entry : Combo → List (Combo × ComboStrategy) → Option ComboStrategy
entry c [] = none
entry c ((d, s) ∷ rest) = if same_text d c then some s else entry c rest

-- `${combo.slice(2)}${combo.slice(0, 2)}`.
unfoldable pub reversed : Combo → Combo
reversed c = drop 2 c ++ take 2 c

unfoldable pub resolve_exact_combo_strategy : PrivateSolution → Combo → Option ComboStrategy
resolve_exact_combo_strategy solution combo = elim (entry combo solution.by_combo) [
  | none ↦ entry (reversed combo) solution.by_combo
  | some s ↦ some s
]

pub record Hand : Type 0 where
  pub combo : Combo
  pub allocations : List (Key × ℕ)

pub data AttemptError : Type 0 where
  hand_not_allowed : Combo → AttemptError
  unscorable idempotency_conflict unique_violation transaction_failed : AttemptError

abbrev pub scored : {E A : Type 0} → Result E A → Result AttemptError A
scored (ok a) = ok a
scored (err e) = err unscorable

-- The similarity of one hand, in basis points.
unfoldable pub grade_hand : PrivateSolution → Hand → Result AttemptError ℕ
grade_hand solution hand = do
  exact ← or_throw (resolve_exact_combo_strategy solution hand.combo) (hand_not_allowed hand.combo)
  guard (is_active_combo_reach exact.reach) (hand_not_allowed hand.combo)
  s ← scored (score_hands solution.action_order hand.allocations exact.frequencies)
  ok (round_half s.similarity)

unfoldable pub grade_hands : PrivateSolution → List Hand → Result AttemptError (List ℕ)
grade_hands solution [] = ok []
grade_hands solution (h ∷ hs) = do
  b ← grade_hand solution h
  bs ← grade_hands solution hs
  ok (b ∷ bs)

-- `Math.round(sum / length)`, rounding halves up, on a list that is not empty.
unfoldable pub rounded_average : List ℕ → ℕ
rounded_average bs = (2 * sum bs + length bs) / (2 * length bs)

pub record Score : Type 0 where
  pub similarity_basis_points : ℕ
  pub points : ℕ

-- `scoreFromSimilarity`.
unfoldable pub score_from_similarity : ℕ → Score
score_from_similarity b = record { similarity_basis_points = b; points = (b + 5) / 10 }

unfoldable pub grade : PrivateSolution → List Hand → Result AttemptError Score
grade solution hands = do
  bs ← grade_hands solution hands
  ok (score_from_similarity (rounded_average bs))

-- `Visitor`, and the columns that `ownerWhere` tests.
pub data Owner : Type 0 where
  guest account : Key → Owner

abbrev pub same_owner : Owner → Owner → Bool
same_owner (guest a) (guest b) = a == b
same_owner (account a) (account b) = a == b
same_owner _ _ = false

pub record Attempt : Type 0 where
  pub id : Key
  pub owner : Owner
  pub spot_id : Key
  pub spot_version_id : Key
  pub created_at : Time
  pub validity : Validity
  pub invalidation_reason : Option Key
  pub replacement_spot_version_id : Option Key
  pub idempotency_key : Key
  pub payload_hash : Key
  pub score : Score
  pub official : Bool
  pub practice_ordinal : ℕ

-- What `createAttempt` has of the request when it reaches the tables: `attemptData`.
pub record Submission : Type 0 where
  pub attempt_id : Key
  pub owner : Owner
  pub spot_id : Key
  pub created_at : Time
  pub spot_version_id : Key
  pub idempotency_key : Key
  pub payload_hash : Key
  pub score : Score

-- The attempts of a visitor at a version.
abbrev pub is_own : Submission → Attempt → Bool
is_own s a = same_owner a.owner s.owner && a.spot_version_id == s.spot_version_id

abbrev pub is_prior : Submission → Attempt → Bool
is_prior s a = is_own s a && a.idempotency_key == s.idempotency_key

abbrev pub is_own_official : Submission → Attempt → Bool
is_own_official s a = is_own s a && a.official

unfoldable pub new_attempt : Submission → Bool → ℕ → Attempt
new_attempt s official ordinal = record {
  id = s.attempt_id;
  owner = s.owner;
  spot_id = s.spot_id;
  created_at = s.created_at;
  validity = valid;
  invalidation_reason = none;
  replacement_spot_version_id = none;
  spot_version_id = s.spot_version_id;
  idempotency_key = s.idempotency_key;
  payload_hash = s.payload_hash;
  score = s.score;
  official = official;
  practice_ordinal = ordinal;
}

-- The unique indexes of the table: one attempt for a key, one official attempt for a version.
unfoldable pub insert_attempt :
    Submission → Attempt → List Attempt → Result AttemptError (List Attempt)
insert_attempt s a attempts =
    if any (is_prior s) attempts || (a.official && any (is_own_official s) attempts)
    then err unique_violation
    else ok (attempts ++ a ∷ [])

-- What is returned for a row that is there already.
unfoldable pub replay :
    Submission → Attempt → List Attempt → Result AttemptError (Attempt × List Attempt)
replay s prior attempts =
    if prior.payload_hash == s.payload_hash then ok (prior, attempts) else err idempotency_conflict

-- How the database ends a Serializable transaction: it commits it, or throws an error that is not P2002,
-- as P2034 when it cannot serialize it. The code passes such an error on.
pub data Ending : Type 0 where
  commits aborts : Ending

-- The transaction that was chosen by P2002: a raced row, or a practice attempt.
pub after_violation :
    Submission → Ending → List Attempt → Result AttemptError (Attempt × List Attempt)
unfolding replay
after_violation s second current = elim (find_first (is_prior s) current) [
  | some raced ↦ replay s raced current
  | none ↦ elim second [
    | aborts ↦ err transaction_failed
    | commits ↦
        let a = new_attempt s false (count (is_own s) current) in
        insert_attempt s a current >>= λ attempts. ok (a, attempts)
  ]
]

-- `seen` is the table at the first look-up, `snapshot` the one that the transaction reads, and
-- `current` the one that it writes to: other requests may have come between. `first` and `second` are
-- how the two transactions end.
unfoldable pub submit :
    Submission
    → (first second : Ending) → List Attempt
    → List Attempt
    → List Attempt
    → Result AttemptError (Attempt × List Attempt)
unfolding replay after_violation
submit s first second seen snapshot current = elim (find_first (is_prior s) seen) [
  | some prior ↦ replay s prior current
  | none ↦ elim first [
    | aborts ↦ err transaction_failed
    | commits ↦
        let official = not (any (is_own_official s) snapshot) in
        let a = new_attempt s official (if official then 0 else count (is_own s) snapshot) in
        elim (insert_attempt s a current) [
          | ok attempts ↦ ok (a, attempts)
          | err e ↦ after_violation s second current
        ]
  ]
]
