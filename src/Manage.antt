-- ===== src/Manage.antt =====
-- scripts/manage-spot.mjs: the commands of an operator on the calendar (Publication.Lifecycle). A date
-- and a number of the command line are read by parameters.
pub mod Documented
mod Examples
use gto_poker_daily_spots_ba.Prelude.{
  ℕ, not, Bool, true, false, if◌then◌else◌, List, [], ◌∷◌, Option, none, some, Key, Time, Text,
  same_text, Result, ok, err, or_throw, ◌>>=◌, ◌>>◌,
}
use gto_poker_daily_spots_ba.Store.{Db, PublicationError}
use gto_poker_daily_spots_ba.Provenance.{trim, is_filled}
use gto_poker_daily_spots_ba.Options.{is_dashed, undashed}
use gto_poker_daily_spots_ba.Publication.{Invalidation}
use gto_poker_daily_spots_ba.Publication.Lifecycle.{
  Transaction, approves, schedules, publishes, replaces, quarantines, perform,
}

pub data ManageError : Type 0 where
  unexpected_argument : Text → ManageError
  usage missing_option invalid_date : ManageError
  failed : PublicationError → ManageError

-- A later assignment stands before an earlier one; `none` is `undefined`, at the end of the line.
abbrev pub Arguments : Type 0
Arguments = List (Text × Option Text)

abbrev pub separator : Text
separator = 45 ∷ 45 ∷ []

-- `args`: every option takes the argument after it, whatever that is.
unfoldable pub args : Arguments → List Text → Result ManageError Arguments
args read [] = ok read
args read (token ∷ []) =
    if same_text token separator
    then ok read
    else if is_dashed token
    then ok ((undashed token, none) ∷ read)
    else err (unexpected_argument token)
args read (token ∷ next ∷ rest) =
    let skipped = args read (next ∷ rest) in
    let taken = args ((undashed token, some next) ∷ read) rest in
    if same_text token separator
    then skipped
    else if is_dashed token
    then taken
    else err (unexpected_argument token)

abbrev pub filled_option : Option Text → Option Text
filled_option none = none
filled_option (some t) = if is_filled t then some t else none

unfoldable pub look : Text → Arguments → Option Text
look k [] = none
look k ((j, v) ∷ rest) = if same_text j k then v else look k rest

-- An option that is truthy.
abbrev pub given : Text → Arguments → Option Text
given k options = filled_option (look k options)

-- The words of the command line, as character codes.
abbrev pub approve_word : Text
approve_word = 97 ∷ 112 ∷ 112 ∷ 114 ∷ 111 ∷ 118 ∷ 101 ∷ []

abbrev pub schedule_word : Text
schedule_word = 115 ∷ 99 ∷ 104 ∷ 101 ∷ 100 ∷ 117 ∷ 108 ∷ 101 ∷ []

abbrev pub publish_word : Text
publish_word = 112 ∷ 117 ∷ 98 ∷ 108 ∷ 105 ∷ 115 ∷ 104 ∷ []

abbrev pub replace_word : Text
replace_word = 114 ∷ 101 ∷ 112 ∷ 108 ∷ 97 ∷ 99 ∷ 101 ∷ []

abbrev pub quarantine_word : Text
quarantine_word = 113 ∷ 117 ∷ 97 ∷ 114 ∷ 97 ∷ 110 ∷ 116 ∷ 105 ∷ 110 ∷ 101 ∷ []

abbrev pub spot_version_id_word : Text
spot_version_id_word =
    115 ∷ 112 ∷ 111 ∷ 116 ∷ 45 ∷ 118 ∷ 101 ∷ 114 ∷ 115 ∷ 105 ∷ 111 ∷ 110 ∷ 45 ∷ 105 ∷ 100 ∷ []

abbrev pub date_word : Text
date_word = 100 ∷ 97 ∷ 116 ∷ 101 ∷ []

abbrev pub order_word : Text
order_word = 111 ∷ 114 ∷ 100 ∷ 101 ∷ 114 ∷ []

abbrev pub old_version_id_word : Text
old_version_id_word =
    111 ∷ 108 ∷ 100 ∷ 45 ∷ 118 ∷ 101 ∷ 114 ∷ 115 ∷ 105 ∷ 111 ∷ 110 ∷ 45 ∷ 105 ∷ 100 ∷ []

abbrev pub new_version_id_word : Text
new_version_id_word =
    110 ∷ 101 ∷ 119 ∷ 45 ∷ 118 ∷ 101 ∷ 114 ∷ 115 ∷ 105 ∷ 111 ∷ 110 ∷ 45 ∷ 105 ∷ 100 ∷ []

abbrev pub invalidate_word : Text
invalidate_word = 105 ∷ 110 ∷ 118 ∷ 97 ∷ 108 ∷ 105 ∷ 100 ∷ 97 ∷ 116 ∷ 101 ∷ []

abbrev pub reason_word : Text
reason_word = 114 ∷ 101 ∷ 97 ∷ 115 ∷ 111 ∷ 110 ∷ []

abbrev pub actor_word : Text
actor_word = 97 ∷ 99 ∷ 116 ∷ 111 ∷ 114 ∷ []

-- `??`.
abbrev pub key_or_default : (Text → Key) → Key → Option Text → Key
key_or_default key_of default none = default
key_or_default key_of default (some t) = key_of t

abbrev pub transacted : {A : Type 0} → Result PublicationError A → Result ManageError A
transacted (ok a) = ok a
transacted (err e) = err (failed e)

-- `day_of` and `number_of` read a date and a whole number; a number that is none is refused like 0.
module _ (key_of : Text → Key) (day_of number_of : Text → Option ℕ)
    (default_reason local_repair local_quality_gate : Key) where
  abbrev pub order_of : Text → ℕ
  order_of t = elim (number_of t) [ none ↦ 0 | some n ↦ n ]

  abbrev pub invalidation : Arguments → Option Invalidation
  invalidation options = elim (given invalidate_word options) [
    | none ↦ none
    | some t ↦ some (record {
      reason = key_or_default key_of default_reason (look reason_word options);
      actor = some (key_or_default key_of local_repair (look actor_word options));
    })
  ]

  unfoldable pub transaction_of : Text → Arguments → Time → Result ManageError Transaction
  transaction_of command options now =
      if same_text command approve_word
      then (do
        version ← or_throw (given spot_version_id_word options) missing_option
        ok (approves (key_of version) now))
      else if same_text command schedule_word
      then (do
        version ← or_throw (given spot_version_id_word options) missing_option
        date ← or_throw (given date_word options) missing_option
        order ← or_throw (given order_word options) missing_option
        day ← or_throw (day_of date) invalid_date
        ok (schedules (key_of version) day (order_of order) now))
      else if same_text command publish_word
      then (do
        date ← or_throw (given date_word options) missing_option
        day ← or_throw (day_of date) invalid_date
        ok (publishes day now))
      else if same_text command replace_word
      then (do
        old_version ← or_throw (given old_version_id_word options) missing_option
        new_version ← or_throw (given new_version_id_word options) missing_option
        ok (
            replaces local_repair (key_of old_version) (key_of new_version) (invalidation options)
              now))
      else if same_text command quarantine_word
      then (do
        version ← or_throw (given spot_version_id_word options) missing_option
        reason ← or_throw (given reason_word options) missing_option
        ok (
            quarantines (key_of version) (key_of reason) (not (is_filled (trim reason)))
              (key_or_default key_of local_quality_gate (look actor_word options)) now))
      else err usage

  -- The script, after the separator before the command; a throw leaves the tables.
  unfoldable pub manage : Text → List Text → Time → Db → Result ManageError Db
  manage command rest now db = do
    options ← args [] rest
    transaction ← transaction_of command options now
    transacted (perform transaction db)
