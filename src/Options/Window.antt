-- ===== src/Options/Window.antt =====
-- The days that scripts/list-spots.mjs lists.
use gto_poker_daily_spots_ba.Prelude.{
  ℕ, ◌+◌, ◌-◌, ◌≤◌, Bool, false, ◌≡◌, inl, inr, List, Option, none, some, ok, Text, arith,
  Bool-cases, Result-cases, Option-cases, leb→le,
}
use gto_poker_daily_spots_ba.Options.{
  OptionValue, Options, option, is_given, from_name, to_name, before_name, after_name, ListWindow,
  parse_args, non_negative_integer, iso_date, window_days, resolve_list_window,
}

-- The days of a window: in order, and around today where no dates are given.
pub record IsWindow (today : ℕ) (dated : Bool) (first last : ℕ) : Type 0 where
  pub ordered : first ≤ last
  pub from_before : dated ≡ false → first ≤ today
  pub to_after : dated ≡ false → today ≤ last
  pub bounded : dated ≡ false → last ≤ first + 7320

module _ (number : OptionValue → Option ℕ) (day : OptionValue → Option ℕ) where
  number_bound :
      (v : Option OptionValue) (name : Text) (n : ℕ)
      → non_negative_integer number day v name 5 ≡ ok n
      → n ≤ 3660
  unfolding non_negative_integer
  number_bound none name n e = ground arith
  number_bound (some v) name n e = elim (Option-cases (number v)) [
    | inl q ↦ absurd (ground arith)
    | inr (m, q) ↦ ground (arith, leb→le m 3660)
  ]

  window_days-IsWindow :
      (today first last : ℕ) (options : Options)
      → window_days number day today options ≡ ok (first, last)
      → IsWindow today (is_given (option from_name options)) first last
  unfolding window_days
  window_days-IsWindow today first last options e =
      elim (Bool-cases (is_given (option from_name options))) [
        | inl q ↦ elim (Result-cases (iso_date number day (option from_name options) from_name)) [
          | inr (thrown, n) ↦ absurd (ground arith)
          | inl (a, n) ↦
              elim (Result-cases (iso_date number day (option to_name options) to_name)) [
                | inr (thrown, m) ↦ absurd (ground arith)
                | inl (b, m) ↦ record {
                  ordered = ground (arith, leb→le a b);
                  from_before = λ h. absurd (ground arith);
                  to_after = λ h. absurd (ground arith);
                  bounded = λ h. absurd (ground arith);
                }
              ]
        ]
        | inr q ↦
            elim (Result-cases
              (non_negative_integer number day (option before_name options) before_name 5)) [
                | inr (thrown, n) ↦ absurd (ground arith)
                | inl (a, n) ↦
                    elim (Result-cases
                      (non_negative_integer number day (option after_name options) after_name 5)) [
                        | inr (thrown, m) ↦ absurd (ground arith)
                        | inl (b, m) ↦
                            let first_is : today - a ≡ first = ground arith in
                            let last_is : today + b ≡ last = ground arith in
                            let small : a ≤ 3660 =
                              number_bound (option before_name options) before_name a n in
                            let small' : b ≤ 3660 =
                              number_bound (option after_name options) after_name b m in
                            record {
                              ordered = omega arith;
                              from_before = λ h. omega arith;
                              to_after = λ h. omega arith;
                              bounded = λ h. omega arith;
                            }
                      ]
              ]
      ]

  -- The days of a window that is resolved are in order; without the option `--from` they are around
  -- today, and at most 7,320 days lie between them.
  pub resolve_list_window-IsWindow :
      (today : ℕ) (argv : List Text) (options : Options) (w : ListWindow)
      → parse_args argv ≡ ok options
      → resolve_list_window number day today argv ≡ ok w
      → IsWindow today (is_given (option from_name options)) w.first w.last
  unfolding resolve_list_window
  resolve_list_window-IsWindow today argv options w p e =
      elim (Result-cases (window_days number day today options)) [
        | inr (thrown, n) ↦ absurd (ground arith)
        | inl ((first, last), n) ↦
            let i = window_days-IsWindow today first last options n in
            let first_is : first ≡ w.first = ground arith in
            let last_is : last ≡ w.last = ground arith in rw (← first_is, ← last_is) i
      ]
