-- ===== src/History.antt =====
-- `getAttempt` and `getAttemptHistory` of src/application/public-api.ts. The order of identifiers is
-- that of numbers; a cursor is what its text decodes to.
pub mod Descending
pub mod Pages
mod Examples
use gto_poker_daily_spots_ba.Prelude.{
  ℕ, suc, ◌==◌, ltb, leb, ◌||◌, ◌&&◌, Bool, true, false, if◌then◌else◌, List, [], ◌∷◌, map, Option,
  none, some, Key, Time, Result, ok, err, guard, or_throw, ◌>>=◌, ◌>>◌, find, select, find_first,
  length, take, sort_by,
}
use gto_poker_daily_spots_ba.Store.{SlotStatus, Slot, Db, Validity, valid, invalidated}
use gto_poker_daily_spots_ba.Attempts.{Owner, same_owner, Attempt, Score}
use gto_poker_daily_spots_ba.Games.{
  GameError, Progress, is_valid, is_published, slots_for, progress_for,
}

pub record Cursor : Type 0 where
  pub created_at : Time
  pub id : Key

-- `orderBy: [{ createdAt: "desc" }, { id: "desc" }]`.
abbrev pub latest_first : Attempt → Attempt → Bool
latest_first a b = ltb b.created_at a.created_at || (b.created_at == a.created_at && leb b.id a.id)

abbrev pub is_after : Option Cursor → Attempt → Bool
is_after none a = true
is_after (some c) a =
    ltb a.created_at c.created_at || (a.created_at == c.created_at && ltb a.id c.id)

abbrev pub is_listed : Owner → Attempt → Bool
is_listed visitor a = same_owner a.owner visitor && is_valid a.validity

pub record HistoryEntry : Type 0 where
  pub attempt_id : Key
  pub spot_id : Key
  pub spot_version_id : Key
  pub official : Bool
  pub score : Score
  pub created_at : Time

abbrev pub entry_of : Attempt → HistoryEntry
entry_of a = record {
  attempt_id = a.id;
  spot_id = a.spot_id;
  spot_version_id = a.spot_version_id;
  official = a.official;
  score = a.score;
  created_at = a.created_at;
}

abbrev pub last_of : List Attempt → Option Attempt
last_of [] = none
last_of (a ∷ []) = some a
last_of (a ∷ b ∷ rest) = last_of (b ∷ rest)

abbrev pub cursor_of : Option Attempt → Option Cursor
cursor_of none = none
cursor_of (some a) = some (record { created_at = a.created_at; id = a.id })

unfoldable pub rows_after : Owner → Option Cursor → List Attempt → List Attempt
rows_after visitor cursor attempts =
    sort_by latest_first (select (λ a. is_listed visitor a && is_after cursor a) attempts)

-- The entries of a page and the cursor of the next one.
unfoldable pub get_attempt_history :
    Owner → (limit : ℕ) → Option Cursor → List Attempt → List HistoryEntry × Option Cursor
get_attempt_history visitor limit cursor attempts =
    let rows = take (suc limit) (rows_after visitor cursor attempts) in
    let page = take limit rows in
    let last = if ltb limit (length rows) then last_of page else none in
    (map entry_of page, cursor_of last)

pub data AttemptReadError : Type 0 where
  attempt_not_found attempt_forbidden : AttemptReadError
  attempt_invalidated : (spot_id : Key) (replacement reason : Option Key) → AttemptReadError
  progress_unavailable : GameError → AttemptReadError

pub record AttemptResource : Type 0 where
  pub attempt : Attempt
  pub progress : Progress

abbrev pub newest_date : Slot → Slot → Bool
newest_date a b = leb b.publication_date a.publication_date

abbrev pub date_of : ℕ → List Slot → ℕ
date_of today [] = today
date_of today (s ∷ rest) = s.publication_date

-- `today` is the Pacific date of the clock.
unfoldable pub publication_date_for : Key → ℕ → Db → ℕ
publication_date_for version_id today db = date_of today (
    sort_by newest_date
      (select (λ (s : Slot). s.spot_version_id == version_id && is_published s.status) db.slots))

abbrev pub available : {A : Type 0} → Result GameError A → Result AttemptReadError A
available (ok a) = ok a
available (err e) = err (progress_unavailable e)

unfoldable pub get_attempt :
    Key → Owner → ℕ → Db → List Attempt → Result AttemptReadError AttemptResource
get_attempt attempt_id visitor today db attempts = do
  a ← or_throw (find (λ (x : Attempt). x.id) attempt_id attempts) attempt_not_found
  guard (same_owner a.owner visitor) attempt_forbidden
  guard (is_valid a.validity)
      (attempt_invalidated a.spot_id a.replacement_spot_version_id a.invalidation_reason)
  slots ← available (slots_for (publication_date_for a.spot_version_id today db) db)
  ok (record { attempt = a; progress = progress_for visitor slots attempts })
