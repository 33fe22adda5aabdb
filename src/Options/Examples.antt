-- ===== src/Options/Examples.antt =====
-- Command lines of the scripts.
use gto_poker_daily_spots_ba.Prelude.{
  ℕ, ◌-◌, true, false, ◌≡◌, refl, List, [], ◌∷◌, Option, none, some, ok, Text,
}
use gto_poker_daily_spots_ba.Options.{
  OptionValue, flag, value, Options, json_name, to_name, before_name, option, assign, put_option,
  ListWindow, parse_args, parse_from, non_negative_integer, window_days, resolve_list_window,
}
use gto_poker_daily_spots_ba.Options.Printed.{print_args, parse_args-print_args}

-- `--json --to 5 --before`.
abbrev options : Options
options = (json_name, flag) ∷ (to_name, value (53 ∷ [])) ∷ (before_name, flag) ∷ []

parse_args-print_args_example :
    (parsed : Options) × (parse_args (print_args options) ≡ ok parsed)
    × ((k : Text) → option k parsed ≡ option k options)
parse_args-print_args_example = parse_args-print_args options refl

-- One digit is a number, a flag counts as 1, and no text is a date.
abbrev number : OptionValue → Option ℕ
number flag = some 1
number (value (c ∷ [])) = some (c - 48)
number (value _) = none

abbrev no_date : OptionValue → Option ℕ
no_date v = none

-- `--before --json`, on day 900.
abbrev command_line : List Text
command_line = print_args ((before_name, flag) ∷ (json_name, flag) ∷ [])

abbrev window : ListWindow
window = record { first = 899; last = 905; include_cancelled = false; json = true }

command_line-parsed : parse_args command_line ≡ ok ((before_name, flag) ∷ (json_name, flag) ∷ [])
unfolding parse_args parse_from assign put_option
command_line-parsed = refl

command_line-window : resolve_list_window number no_date 900 command_line ≡ ok window
unfolding resolve_list_window window_days non_negative_integer parse_args parse_from assign
    put_option option
command_line-window = refl
