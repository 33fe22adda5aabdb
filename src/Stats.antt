-- ===== src/Stats.antt =====
-- `getStats` and `summarizeBreakdowns` of src/application/public-api.ts; the streaks are in Streaks.
-- `day` is the Pacific date of a time. Labels are texts that are only compared and ordered.
pub mod Completed
pub mod Breakdowns
mod Examples
use gto_poker_daily_spots_ba.Prelude.{
  ℕ, suc, ◌==◌, leb, not, ◌&&◌, Bool, true, false, if◌then◌else◌, List, [], ◌∷◌, ◌++◌, map, Option,
  none, some, Key, Time, Result, ok, err, or_throw, ◌>>=◌, find, select, all, length, sort_by,
  map_get, from_entries,
}
use gto_poker_daily_spots_ba.Store.{Slot, SpotVersion, Db}
use gto_poker_daily_spots_ba.Attempts.{Owner, same_owner, Attempt, rounded_average}
use gto_poker_daily_spots_ba.PublicSpot.{
  PublicSpot, SpotError, Actor, Preflop, unknown, known, read_public_spot,
}
use gto_poker_daily_spots_ba.Games.{
  GameError, missing_version, is_valid, is_published, by_date, readable,
}
use gto_poker_daily_spots_ba.Streaks.{best_streak, current_streak}

abbrev pub is_scored : Owner → Attempt → Bool
is_scored visitor a = same_owner a.owner visitor && a.official && is_valid a.validity

abbrev pub oldest_date : Slot → Slot → Bool
oldest_date a b = leb a.publication_date b.publication_date

-- `attempt && pacificDate(attempt.createdAt) === date`, with the days of the attempts.
abbrev pub is_played_on : ℕ → Option ℕ → Bool
is_played_on date none = false
is_played_on date (some played) = played == date

abbrev pub is_complete : List (Key × ℕ) → ℕ × List Slot → Bool
is_complete days (date, slots) =
    leb 1 (length slots)
    && all (λ (s : Slot). is_played_on date (map_get s.spot_version_id days)) slots

abbrev pub attempt_day : (Time → ℕ) → Attempt → Key × ℕ
attempt_day day a = (a.spot_version_id, day a.created_at)

unfoldable pub completed_dates : (Time → ℕ) → Owner → Db → List Attempt → List ℕ
completed_dates day visitor db attempts =
    let days = from_entries [] (map (attempt_day day) (select (is_scored visitor) attempts)) in
    let slots = sort_by oldest_date (select (λ (s : Slot). is_published s.status) db.slots) in
    sort_by leb (map (λ (g : ℕ × List Slot). g.0) (select (is_complete days) (by_date [] slots)))

pub record Sample : Type 0 where
  pub key : Key
  pub label : Key
  pub similarity_basis_points : ℕ

pub record Group : Type 0 where
  pub key : Key
  pub label : Key
  pub scores : List ℕ

pub record Breakdown : Type 0 where
  pub key : Key
  pub label : Key
  pub sample_size : ℕ
  pub average_score_basis_points : ℕ

-- The first sample of a key gives the label.
unfoldable pub add_sample : Sample → List Group → List Group
add_sample s [] =
    record { key = s.key; label = s.label; scores = s.similarity_basis_points ∷ [] } ∷ []
add_sample s (g ∷ rest) =
    if g.key == s.key
    then record g { scores = g.scores ++ s.similarity_basis_points ∷ [] } ∷ rest
    else g ∷ add_sample s rest

unfoldable pub group_samples : List Group → List Sample → List Group
group_samples groups [] = groups
group_samples groups (s ∷ rest) = group_samples (add_sample s groups) rest

abbrev pub is_large : Group → Bool
is_large g = leb 3 (length g.scores)

abbrev pub breakdown_of : Group → Breakdown
breakdown_of g = record {
  key = g.key;
  label = g.label;
  sample_size = length g.scores;
  average_score_basis_points = rounded_average g.scores;
}

abbrev pub by_label : Breakdown → Breakdown → Bool
by_label a b = leb a.label b.label

unfoldable pub summarize_breakdowns : List Sample → List Breakdown
summarize_breakdowns samples =
    sort_by by_label (map breakdown_of (select is_large (group_samples [] samples)))

abbrev pub average_of : List Attempt → ℕ
average_of [] = 0
average_of (a ∷ rest) =
    rounded_average (map (λ (x : Attempt). x.score.similarity_basis_points) (a ∷ rest))

pub record Stats : Type 0 where
  pub current_streak : ℕ
  pub best_streak : ℕ
  pub daily_games_completed : ℕ
  pub spots_completed : ℕ
  pub average_score_basis_points : ℕ
  pub scenarios : List Breakdown
  pub streets : List Breakdown
  pub positions : List Breakdown

-- The labels of the breakdowns: of an unknown start, a street and a position.
pub record Labels : Type 0 where
  pub unknown_key : Key
  pub unknown_label : Key
  pub street_label : Key → Key
  pub position_label : PublicSpot → Key
  pub actor_key : Actor → Key

abbrev pub scenario_sample : Labels → Attempt × PublicSpot → Sample
scenario_sample names (a, spot) = elim spot.preflop [
  | unknown ↦ record {
    key = names.unknown_key;
    label = names.unknown_label;
    similarity_basis_points = a.score.similarity_basis_points;
  }
  | known scenario label actions ↦ record {
    key = scenario;
    label = label;
    similarity_basis_points = a.score.similarity_basis_points;
  }
]

abbrev pub street_sample : Labels → Attempt × PublicSpot → Sample
street_sample names (a, spot) = record {
  key = spot.street;
  label = names.street_label spot.street;
  similarity_basis_points = a.score.similarity_basis_points;
}

abbrev pub position_sample : Labels → Attempt × PublicSpot → Sample
position_sample names (a, spot) = record {
  key = names.actor_key spot.hero_actor;
  label = names.position_label spot;
  similarity_basis_points = a.score.similarity_basis_points;
}

-- `payload` is the value of a JSON column, `parse` the schema of the shared contracts.
module _ (payload : Key → PublicSpot) (parse : PublicSpot → Result SpotError PublicSpot) where
  unfoldable pub describe : List Attempt → Db → Result GameError (List (Attempt × PublicSpot))
  describe [] db = ok []
  describe (a ∷ rest) db = do
    version ←
        or_throw (find (λ (v : SpotVersion). v.id) a.spot_version_id db.versions) missing_version
    spot ← readable (read_public_spot parse (payload version.public_payload))
    later ← describe rest db
    ok ((a, spot) ∷ later)

  unfoldable pub get_stats :
      (Time → ℕ) → (today : ℕ) → Labels → Owner → Db → List Attempt → Result GameError Stats
  get_stats day today names visitor db attempts = do
    let scored = select (is_scored visitor) attempts
    let dates = completed_dates day visitor db attempts
    described ← describe scored db
    ok (record {
      current_streak = current_streak dates today;
      best_streak = best_streak dates;
      daily_games_completed = length dates;
      spots_completed = length scored;
      average_score_basis_points = average_of scored;
      scenarios = summarize_breakdowns (map (scenario_sample names) described);
      streets = summarize_breakdowns (map (street_sample names) described);
      positions = summarize_breakdowns (map (position_sample names) described);
    })
