-- ===== src/Manage/Examples.antt =====
-- The documented replacement of version "a" by version "b".
use gto_poker_daily_spots_ba.Prelude.{ℕ, ◌≡◌, refl, List, [], ◌∷◌, Option, none, Key, Text, err}
use gto_poker_daily_spots_ba.Store.{Db}
use gto_poker_daily_spots_ba.Manage.{
  unexpected_argument, replace_word, old_version_id_word, new_version_id_word, manage,
}
use gto_poker_daily_spots_ba.Manage.Documented.{dashes, documented, line, manage-documented}

abbrev key_of : Text → Key
key_of [] = 0
key_of (c ∷ cs) = c

abbrev no_number : Text → Option ℕ
no_number t = none

abbrev versions : List (Text × Text)
versions = (dashes old_version_id_word, 97 ∷ []) ∷ (dashes new_version_id_word, 98 ∷ []) ∷ []

abbrev tables : Db
tables = record { spots = []; versions = []; slots = []; attempts = []; audits = []; next_id = 1 }

abbrev reason : Text
reason = 98 ∷ 97 ∷ 100 ∷ []

manage-documented_example :
    manage key_of no_number no_number 1 2 3 replace_word
      (line versions (documented reason []))
      900
      tables
    ≡ err (unexpected_argument reason)
manage-documented_example =
    manage-documented key_of no_number no_number 1 2 3 replace_word versions reason [] 900 tables
      (record { dashed = refl; named = refl }, (record { dashed = refl; named = refl }, tt)) refl
