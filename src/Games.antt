-- ===== src/Games.antt =====
-- The daily games of src/application/public-api.ts: `slotsFor`, `progressFor`, `getDailyGame` and
-- `getDailyGameRange`. A date is the number of a Pacific day. Titles are left out.
pub mod Completion
pub mod Slots
pub mod Newest
pub mod Listed
pub mod Served
pub mod Range
mod Examples
use gto_poker_daily_spots_ba.Prelude.{
  ℕ, ◌+◌, ◌*◌, ◌==◌, ltb, leb, not, ◌||◌, ◌&&◌, Bool, true, false, if◌then◌else◌, List, [], ◌∷◌,
  ◌++◌, map, Option, none, some, Key, Text, Result, ok, err, guard, or_throw, ◌>>=◌, ◌>>◌, find,
  select, find_first, any, sum, has, count, length, sort_by, map_get, map_has, from_entries,
}
use gto_poker_daily_spots_ba.Store.{SlotStatus, Slot, SpotVersion, Db, Validity, valid, invalidated}
use gto_poker_daily_spots_ba.Attempts.{Owner, same_owner, Attempt}
use gto_poker_daily_spots_ba.PublicSpot.{
  PublicSpot, SpotError, Actor, position_of, read_public_spot,
}

pub data GameError : Type 0 where
  spot_not_available bad_request missing_version : GameError
  unreadable : SpotError → GameError

-- A slot with its version.
pub record GameSlot : Type 0 where
  pub slot : Slot
  pub version : SpotVersion

abbrev pub is_published : SlotStatus → Bool
is_published SlotStatus.published = true
is_published _ = false

abbrev pub is_on : ℕ → Slot → Bool
is_on date s = s.publication_date == date && is_published s.status

abbrev pub in_order : Slot → Slot → Bool
in_order a b = leb a.slot_order b.slot_order

unfoldable pub include_versions : List Slot → Db → Result GameError (List GameSlot)
include_versions [] db = ok []
include_versions (s ∷ rest) db = do
  version ←
      or_throw (find (λ (v : SpotVersion). v.id) s.spot_version_id db.versions) missing_version
  later ← include_versions rest db
  ok (record { slot = s; version = version } ∷ later)

unfoldable pub slots_for : ℕ → Db → Result GameError (List GameSlot)
slots_for date db = include_versions (sort_by in_order (select (is_on date) db.slots)) db

abbrev pub version_ids : List GameSlot → List Key
version_ids slots = map (λ (g : GameSlot). g.slot.spot_version_id) slots

abbrev pub is_valid : Validity → Bool
is_valid valid = true
is_valid invalidated = false

-- The official attempts that a visitor's progress is computed from.
abbrev pub counts_for : Owner → List Key → Attempt → Bool
counts_for visitor ids a =
    same_owner a.owner visitor && a.official && is_valid a.validity && has a.spot_version_id ids

abbrev pub official_attempts : Owner → List Key → List Attempt → List Attempt
official_attempts visitor ids attempts = select (counts_for visitor ids) attempts

abbrev pub score_entry : Attempt → Key × ℕ
score_entry a = (a.spot_version_id, a.score.points)

pub data GameStatus : Type 0 where
  not_started in_progress completed : GameStatus

pub record Progress : Type 0 where
  pub completed_spots : ℕ
  pub total_spots : ℕ
  pub status : GameStatus
  pub next_spot : Option (Key × ℕ)
  pub score_points : ℕ
  pub maximum_score_points : ℕ

abbrev pub status_of_counts : (completed_spots total_spots : ℕ) → GameStatus
status_of_counts done total =
    if done == 0 then not_started else if done == total then GameStatus.completed else in_progress

abbrev pub spot_to_play : Option GameSlot → Option (Key × ℕ)
spot_to_play none = none
spot_to_play (some g) = some (g.version.spot_id, g.slot.slot_order)

unfoldable pub progress_for : Owner → List GameSlot → List Attempt → Progress
progress_for visitor slots attempts =
    let played = official_attempts visitor (version_ids slots) attempts in
    let by_version = from_entries [] (map score_entry played) in
    record {
      completed_spots = length by_version;
      total_spots = length slots;
      status = status_of_counts (length by_version) (length slots);
      next_spot =
          spot_to_play
            (find_first (λ (g : GameSlot). not (map_has g.slot.spot_version_id by_version)) slots);
      score_points = sum (map (λ (a : Attempt). a.score.points) played);
      maximum_score_points = length slots * 1000;
    }

pub record SpotListing : Type 0 where
  pub spot_id : Key
  pub spot_version_id : Key
  pub sequence : ℕ
  pub street : Key
  pub hero_position : Text
  pub completed : Bool
  pub official_score_points : Option ℕ

pub record DailyGame : Type 0 where
  pub date : ℕ
  pub requested_date : ℕ
  pub fallback_active : Bool
  pub spots : List SpotListing
  pub progress : Progress

-- Newest date first, and within a date by the order.
abbrev pub newest_first : Slot → Slot → Bool
newest_first a b =
    ltb b.publication_date a.publication_date
    || (b.publication_date == a.publication_date && in_order a b)

abbrev pub is_before : ℕ → Slot → Bool
is_before date s = ltb s.publication_date date && is_published s.status

abbrev pub first_of : List Slot → Option Slot
first_of [] = none
first_of (s ∷ rest) = some s

unfoldable pub latest_before : ℕ → Db → Option Slot
latest_before date db = first_of (sort_by newest_first (select (is_before date) db.slots))

abbrev pub is_empty : List GameSlot → Bool
is_empty [] = true
is_empty _ = false

-- The date that is served, whether it is a fallback, and its slots.
unfoldable pub fall_back :
    ℕ → Bool → Db → List GameSlot → Result GameError (ℕ × Bool × List GameSlot)
fall_back requested allow_fallback db slots =
    if is_empty slots && allow_fallback
    then elim (latest_before requested db) [
      | none ↦ ok (requested, false, slots)
      | some latest ↦ slots_for latest.publication_date db >>= λ earlier.
          ok (latest.publication_date, true, earlier)
    ]
    else ok (requested, false, slots)

abbrev pub readable : {A : Type 0} → Result SpotError A → Result GameError A
readable (ok a) = ok a
readable (err e) = err (unreadable e)

-- `payload` is the value of a JSON column, `parse` the schema of the shared contracts.
module _ (payload : Key → PublicSpot) (parse : PublicSpot → Result SpotError PublicSpot) where
  unfoldable pub list_spot : List (Key × ℕ) → GameSlot → Result GameError SpotListing
  list_spot scores g = do
    spot ← readable (read_public_spot parse (payload g.version.public_payload))
    ok (record {
      spot_id = spot.spot_id;
      spot_version_id = spot.spot_version_id;
      sequence = g.slot.slot_order;
      street = spot.street;
      hero_position = position_of spot.hero_actor spot.positions;
      completed = map_has g.slot.spot_version_id scores;
      official_score_points = map_get g.slot.spot_version_id scores;
    })

  unfoldable pub list_spots : List (Key × ℕ) → List GameSlot → Result GameError (List SpotListing)
  list_spots scores [] = ok []
  list_spots scores (g ∷ rest) = do
    listing ← list_spot scores g
    later ← list_spots scores rest
    ok (listing ∷ later)

  unfoldable pub get_daily_game : ℕ → Owner → Bool → Db → List Attempt → Result GameError DailyGame
  get_daily_game requested visitor allow_fallback db attempts = do
    found ← slots_for requested db
    (served, fallback, slots) ← fall_back requested allow_fallback db found
    guard (not (is_empty slots)) spot_not_available
    let scores =
        from_entries [] (map score_entry (official_attempts visitor (version_ids slots) attempts))
    spots ← list_spots scores slots
    ok (record {
      date = served;
      requested_date = requested;
      fallback_active = fallback;
      spots = spots;
      progress = progress_for visitor slots attempts;
    })

pub data RangeStatus : Type 0 where
  available completed : RangeStatus

pub record RangeGame : Type 0 where
  pub date : ℕ
  pub spot_count : ℕ
  pub completed_spots : ℕ
  pub status : RangeStatus
  pub official_score_points : ℕ
  pub maximum_score_points : ℕ

abbrev pub oldest_first : Slot → Slot → Bool
oldest_first a b =
    ltb a.publication_date b.publication_date
    || (a.publication_date == b.publication_date && in_order a b)

abbrev pub is_within : (first last : ℕ) → Slot → Bool
is_within first last s =
    leb first s.publication_date && leb s.publication_date last && is_published s.status

-- `byDate.set(date, [...(byDate.get(date) ?? []), slot])`.
unfoldable pub add_to_date : Slot → List (ℕ × List Slot) → List (ℕ × List Slot)
add_to_date s [] = (s.publication_date, s ∷ []) ∷ []
add_to_date s ((d, slots) ∷ rest) =
    if d == s.publication_date then (d, slots ++ s ∷ []) ∷ rest else (d, slots) ∷ add_to_date s rest

unfoldable pub by_date : List (ℕ × List Slot) → List Slot → List (ℕ × List Slot)
by_date groups [] = groups
by_date groups (s ∷ rest) = by_date (add_to_date s groups) rest

abbrev pub or_zero : Option ℕ → ℕ
or_zero none = 0
or_zero (some n) = n

unfoldable pub range_game : List (Key × ℕ) → ℕ × List Slot → RangeGame
range_game scores (date, slots) =
    let done = count (λ (s : Slot). map_has s.spot_version_id scores) slots in
    record {
      date = date;
      spot_count = length slots;
      completed_spots = done;
      status = if done == length slots then RangeStatus.completed else RangeStatus.available;
      official_score_points =
          sum (map (λ (s : Slot). or_zero (map_get s.spot_version_id scores)) slots);
      maximum_score_points = length slots * 1000;
    }

-- Both dates are calendar dates.
unfoldable pub get_daily_game_range :
    (first last : ℕ) → Owner → Db → List Attempt → Result GameError (List RangeGame)
get_daily_game_range first last visitor db attempts = do
  guard (leb first last && leb last (first + 93)) bad_request
  let slots = sort_by oldest_first (select (is_within first last) db.slots)
  let ids = map (λ (s : Slot). s.spot_version_id) slots
  let scores = from_entries [] (map score_entry (official_attempts visitor ids attempts))
  ok (map (range_game scores) (by_date [] slots))
