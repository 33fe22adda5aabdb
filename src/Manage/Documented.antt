-- ===== src/Manage/Documented.antt =====
-- The option `--invalidate` of scripts/manage-spot.mjs, used the way docs/spot-ingestion.md shows it.
use gto_poker_daily_spots_ba.Prelude.{
  true, false, ◌≡◌, refl, List, [], ◌∷◌, Option, some, Key, Time, Text, same_text, same_text-eq, ap,
  inl, inr, Bool-cases, err, All, ℕ,
}
use gto_poker_daily_spots_ba.Store.{Db}
use gto_poker_daily_spots_ba.Options.{is_dashed, undashed}
use gto_poker_daily_spots_ba.Manage.{
  unexpected_argument, Arguments, separator, args, invalidate_word, reason_word, manage,
}

-- An option of the command line, which is not the separator, and its value.
pub record IsOption (p : Text × Text) : Type 0 where
  pub dashed : is_dashed p.0 ≡ true
  pub named : same_text p.0 separator ≡ false

abbrev pub line : List (Text × Text) → List Text → List Text
line [] rest = rest
line (p ∷ ps) rest = p.0 ∷ p.1 ∷ line ps rest

abbrev pub dashes : Text → Text
dashes t = 45 ∷ 45 ∷ t

abbrev pub documented : Text → List Text → List Text
documented reason rest = dashes invalidate_word ∷ dashes reason_word ∷ reason ∷ rest

separator_dashed : (t : Text) → is_dashed t ≡ false → same_text t separator ≡ false
separator_dashed t plain = elim (Bool-cases (same_text t separator)) [
  | inl e ↦ absurd (cc (plain, ap is_dashed (same_text-eq t separator e)))
  | inr e ↦ e
]

args_plain :
    (read : Arguments) (t : Text) (rest : List Text)
    → is_dashed t ≡ false
    → args read (t ∷ rest) ≡ err (unexpected_argument t)
unfolding args
args_plain read t [] plain = rw (args, separator_dashed t plain, plain) refl
args_plain read t (next ∷ rest) plain = rw (args, separator_dashed t plain, plain) refl

args-documented :
    (read : Arguments) (ps : List (Text × Text)) (reason : Text) (rest : List Text)
    → All IsOption ps
    → is_dashed reason ≡ false
    → args read (line ps (documented reason rest)) ≡ err (unexpected_argument reason)
unfolding args
args-documented read [] reason rest all plain = args_plain _ reason rest plain
args-documented read (p ∷ ps) reason rest (good, later) plain =
    rw (args, good.named, good.dashed)
      (args-documented ((undashed p.0, some p.1) ∷ read) ps reason rest later plain)

-- Every command whose options go on with `--invalidate --reason` and a reason, as the documentation of
-- the replacement shows them, is refused for the reason, whatever options stand before and after: the
-- tables are not touched. `--invalidate` takes `--reason` for its value. The reason does not begin with
-- two dashes, and each option before is named and has a value.
pub manage-documented :
    (key_of : Text → Key) (day_of number_of : Text → Option ℕ)
    (default_reason local_repair local_quality_gate : Key) (command : Text)
    (ps : List (Text × Text)) (reason : Text) (rest : List Text) (now : Time) (db : Db)
    → All IsOption ps
    → is_dashed reason ≡ false
    → manage key_of day_of number_of default_reason local_repair local_quality_gate command
        (line ps (documented reason rest))
        now
        db
      ≡ err (unexpected_argument reason)
unfolding manage
manage-documented key_of day_of number_of default_reason local_repair local_quality_gate command ps
      reason rest now db all plain =
    rw (manage, args-documented [] ps reason rest all plain) refl
