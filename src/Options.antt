-- ===== src/Options.antt =====
-- The options of the scripts: `parseArgs` and `resolveListWindow` of scripts/list-spots.mjs, and the
-- rows that this script lists. scripts/publish-spot.mjs parses its options in the same way.
pub mod Printed
pub mod Window
mod Examples
use gto_poker_daily_spots_ba.Prelude.{
  ℕ, ◌+◌, ◌-◌, ◌==◌, ltb, leb, not, ◌||◌, ◌&&◌, Bool, true, false, if◌then◌else◌, List, [], ◌∷◌,
  map, Option, none, some, Key, Result, ok, err, guard, or_throw, ◌>>=◌, ◌>>◌, find, select, count,
  sort_by, Text, same_text,
}
use gto_poker_daily_spots_ba.Store.{
  SlotStatus, VersionStatus, Slot, SpotVersion, AttemptRow, Db, Validity, valid, invalidated,
  is_active,
}

pub data OptionValue : Type 0 where
  flag : OptionValue
  value : Text → OptionValue

abbrev pub Options : Type 0
Options = List (Text × OptionValue)

pub data OptionError : Type 0 where
  unexpected_argument : Text → OptionError
  unpaired_dates reversed_dates missing_version : OptionError
  invalid_number invalid_date : Text → OptionError

-- `token.startsWith("--")`.
abbrev pub is_dashed : Text → Bool
is_dashed (a ∷ b ∷ rest) = a == 45 && b == 45
is_dashed _ = false

abbrev pub is_empty_text : Text → Bool
is_empty_text [] = true
is_empty_text _ = false

-- `token.slice(2)`.
abbrev pub undashed : Text → Text
undashed (a ∷ b ∷ rest) = rest
undashed _ = []

unfoldable pub put_option : Text → OptionValue → Options → Options
put_option k v [] = (k, v) ∷ []
put_option k v ((j, w) ∷ rest) =
    if same_text j k then (j, v) ∷ rest else (j, w) ∷ put_option k v rest

-- "__proto__".
abbrev pub proto : Text
proto = 95 ∷ 95 ∷ 112 ∷ 114 ∷ 111 ∷ 116 ∷ 111 ∷ 95 ∷ 95 ∷ []

-- `result[key] = value`, on a plain object: a text or `true` is not stored under `__proto__`. The order
-- of the entries stands for nothing, since the code only looks options up by their names.
unfoldable pub assign : Text → OptionValue → Options → Options
assign k v options = if same_text k proto then options else put_option k v options

-- The loop over the arguments, with the options that it has read.
unfoldable pub parse_from : Options → List Text → Result OptionError Options
parse_from options [] = ok options
parse_from options (token ∷ []) =
    if same_text token (45 ∷ 45 ∷ [])
    then ok options
    else if not (is_dashed token)
    then err (unexpected_argument token)
    else ok (assign (undashed token) flag options)
parse_from options (token ∷ next ∷ rest) =
    let skipped = parse_from options (next ∷ rest) in
    let flagged = parse_from (assign (undashed token) flag options) (next ∷ rest) in
    let valued = parse_from (assign (undashed token) (value next) options) rest in
    if same_text token (45 ∷ 45 ∷ [])
    then skipped
    else if not (is_dashed token)
    then err (unexpected_argument token)
    else if is_empty_text next || is_dashed next
    then flagged
    else valued

unfoldable pub parse_args : List Text → Result OptionError Options
parse_args argv = parse_from [] argv

-- A property of the object itself: the names that the code looks up are not inherited ones.
unfoldable pub option : Text → Options → Option OptionValue
option k [] = none
option k ((j, v) ∷ rest) = if same_text j k then some v else option k rest

abbrev pub is_flag : Option OptionValue → Bool
is_flag (some flag) = true
is_flag _ = false

abbrev pub is_given : Option OptionValue → Bool
is_given none = false
is_given (some v) = true

-- The names of the options, as character codes.
abbrev pub from_name : Text
from_name = 102 ∷ 114 ∷ 111 ∷ 109 ∷ []

abbrev pub to_name : Text
to_name = 116 ∷ 111 ∷ []

abbrev pub before_name : Text
before_name = 98 ∷ 101 ∷ 102 ∷ 111 ∷ 114 ∷ 101 ∷ []

abbrev pub after_name : Text
after_name = 97 ∷ 102 ∷ 116 ∷ 101 ∷ 114 ∷ []

abbrev pub include_cancelled_name : Text
include_cancelled_name =
    105 ∷ 110 ∷ 99 ∷ 108 ∷ 117 ∷ 100 ∷ 101 ∷ 45 ∷ 99 ∷ 97 ∷ 110 ∷ 99 ∷ 101 ∷ 108 ∷ 108 ∷ 101 ∷ 100
    ∷ []

abbrev pub json_name : Text
json_name = 106 ∷ 115 ∷ 111 ∷ 110 ∷ []

pub record ListWindow : Type 0 where
  pub first : ℕ
  pub last : ℕ
  pub include_cancelled : Bool
  pub json : Bool

-- `number` is `Number(value)` where it is an integer from 0 on, and `day` the number of the day of a
-- date that `isoDate` accepts. Texts of dates are ordered as their days.
module _ (number : OptionValue → Option ℕ) (day : OptionValue → Option ℕ) where
  unfoldable pub non_negative_integer : Option OptionValue → Text → ℕ → Result OptionError ℕ
  non_negative_integer none name fallback = ok fallback
  non_negative_integer (some v) name fallback = do
    parsed ← or_throw (number v) (invalid_number name)
    guard (leb parsed 3660) (invalid_number name)
    ok parsed

  unfoldable pub iso_date : Option OptionValue → Text → Result OptionError ℕ
  iso_date none name = err (invalid_date name)
  iso_date (some v) name = or_throw (day v) (invalid_date name)

  unfoldable pub window_days : ℕ → Options → Result OptionError (ℕ × ℕ)
  window_days today options =
      if is_given (option from_name options)
      then (do
        first ← iso_date (option from_name options) from_name
        last ← iso_date (option to_name options) to_name
        guard (leb first last) reversed_dates
        ok (first, last))
      else (do
        before ← non_negative_integer (option before_name options) before_name 5
        after ← non_negative_integer (option after_name options) after_name 5
        ok (today - before, today + after))

  -- `today` is the Pacific date of the clock.
  unfoldable pub resolve_list_window : ℕ → List Text → Result OptionError ListWindow
  resolve_list_window today argv = do
    options ← parse_args argv
    guard
        ((is_given (option from_name options) && is_given (option to_name options))
          || (not (is_given (option from_name options)) && not (is_given (option to_name options))))
        unpaired_dates
    (first, last) ← window_days today options
    ok (record {
      first = first;
      last = last;
      include_cancelled = is_flag (option include_cancelled_name options);
      json = is_flag (option json_name options);
    })

-- A listed row, without the title and the text of the quality.
pub record SlotRow : Type 0 where
  pub date : ℕ
  pub order : ℕ
  pub slot_status : SlotStatus
  pub spot_id : Key
  pub spot_version_id : Key
  pub version_status : VersionStatus
  pub valid_attempts : ℕ
  pub invalidated_attempts : ℕ

abbrev pub is_valid_at : Key → AttemptRow → Bool
is_valid_at k a = a.spot_version_id == k && (elim a.validity [ valid ↦ true | invalidated ↦ false ])

abbrev pub is_invalidated_at : Key → AttemptRow → Bool
is_invalidated_at k a =
    a.spot_version_id == k && (elim a.validity [ valid ↦ false | invalidated ↦ true ])

unfoldable pub rows_for_slots : List Slot → Db → Result OptionError (List SlotRow)
rows_for_slots [] db = ok []
rows_for_slots (s ∷ rest) db = do
  version ←
      or_throw (find (λ (v : SpotVersion). v.id) s.spot_version_id db.versions) missing_version
  later ← rows_for_slots rest db
  ok (
      record {
        date = s.publication_date;
        order = s.slot_order;
        slot_status = s.status;
        spot_id = version.spot_id;
        spot_version_id = version.id;
        version_status = version.status;
        valid_attempts = count (is_valid_at version.id) db.attempts;
        invalidated_attempts = count (is_invalidated_at version.id) db.attempts;
      }
      ∷ later)

abbrev pub is_listed : ListWindow → Slot → Bool
is_listed w s =
    leb w.first s.publication_date
    && leb s.publication_date w.last
    && (w.include_cancelled || is_active s.status)

abbrev pub listing_order : Slot → Slot → Bool
listing_order a b =
    ltb a.publication_date b.publication_date
    || (a.publication_date == b.publication_date && leb a.slot_order b.slot_order)

-- The query of `main`; rows of a table stand in the order of their creation.
unfoldable pub listed_rows : ListWindow → Db → Result OptionError (List SlotRow)
listed_rows w db = rows_for_slots (sort_by listing_order (select (is_listed w) db.slots)) db
