-- ===== src/Provenance.antt =====
-- src/solver/import-provenance.ts: the envelope, the configuration and the solver's input of an import
-- belong together. Texts are lists of character codes; `trim` knows the blanks of ASCII.
pub mod Tokens
pub mod Agrees
mod Examples
use gto_poker_daily_spots_ba.Prelude.{
  ℕ, leb, ◌==◌, not, ◌||◌, ◌&&◌, Bool, true, false, if◌then◌else◌, List, [], ◌∷◌, map, Option, none,
  some, Result, ok, err, guard, or_throw, ◌>>=◌, ◌>>◌, select, Text, same_text, leb_text, sort_by,
}
use gto_poker_daily_spots_ba.Json.{Json, text, object, get, comma, join, canonical}
use gto_poker_daily_spots_ba.Normalized.{Actor}

pub data ProvenanceError : Type 0 where
  no_configuration_hash hash_mismatch preflop_mismatch no_resolved_ranges : ProvenanceError
  range_mismatch : Actor → ProvenanceError

abbrev pub is_blank : ℕ → Bool
is_blank c = c == 32 || leb 9 c && leb c 13

unfoldable pub trim_start : Text → Text
trim_start [] = []
trim_start (c ∷ cs) = let rest = trim_start cs in if is_blank c then rest else c ∷ cs

abbrev pub keep_unless_blank : ℕ → Text → Text
keep_unless_blank c [] = if is_blank c then [] else c ∷ []
keep_unless_blank c (d ∷ rest) = c ∷ d ∷ rest

unfoldable pub trim_end : Text → Text
trim_end [] = []
trim_end (c ∷ cs) = keep_unless_blank c (trim_end cs)

abbrev pub trim : Text → Text
trim t = trim_end (trim_start t)

abbrev pub on_first : ℕ → List Text → List Text
on_first c [] = (c ∷ []) ∷ []
on_first c (t ∷ ts) = (c ∷ t) ∷ ts

-- `String.prototype.split`, at one character.
unfoldable pub split : ℕ → Text → List Text
split c [] = [] ∷ []
split c (d ∷ ds) = let rest = split c ds in if d == c then [] ∷ rest else on_first d rest

abbrev pub is_filled : Text → Bool
is_filled [] = false
is_filled (c ∷ cs) = true

unfoldable pub tokens : Text → List Text
tokens range = select is_filled (map trim (split comma range))

unfoldable pub normalize_solver_range : Text → Text
normalize_solver_range range = join comma (sort_by leb_text (tokens range))

-- What follows `prefix`, if the text begins with it.
unfoldable pub after_prefix : Text → Text → Option Text
after_prefix [] t = some t
after_prefix (p ∷ ps) [] = none
after_prefix (p ∷ ps) (c ∷ cs) = let rest = after_prefix ps cs in if p == c then rest else none

-- "set_range_ip" and "set_range_oop".
abbrev pub range_command : Actor → Text
range_command Actor.ip = 115 ∷ 101 ∷ 116 ∷ 95 ∷ 114 ∷ 97 ∷ 110 ∷ 103 ∷ 101 ∷ 95 ∷ 105 ∷ 112 ∷ []
range_command Actor.oop =
    115 ∷ 101 ∷ 116 ∷ 95 ∷ 114 ∷ 97 ∷ 110 ∷ 103 ∷ 101 ∷ 95 ∷ 111 ∷ 111 ∷ 112 ∷ []

abbrev pub filled : Text → Option Text
filled [] = none
filled (c ∷ cs) = some (c ∷ cs)

abbrev pub after_blanks : Text → Option Text
after_blanks [] = none
after_blanks (c ∷ cs) = let rest = filled (trim_start cs) in if is_blank c then rest else none

-- The range that a line of the input sets for an actor.
unfoldable pub range_of_line : Actor → Text → Option Text
range_of_line actor line = elim (after_prefix (range_command actor) (trim line)) [
  | none ↦ none
  | some rest ↦ after_blanks rest
]

-- The loop over the lines: the last line for an actor counts.
unfoldable pub input_range : Actor → List Text → Option Text
input_range actor [] = none
input_range actor (line ∷ lines) = elim (input_range actor lines) [
  | some range ↦ some range
  | none ↦ range_of_line actor line
]

-- The lines end with "\n" or "\r\n"; the trimming drops what is left of an end.
abbrev pub input_lines : Text → List Text
input_lines input = split 10 input

unfoldable pub check_range : Actor → Text → (resolved : Text) → Result ProvenanceError (Unit {0})
check_range actor input resolved = elim (input_range actor (input_lines input)) [
  | none ↦ err (range_mismatch actor)
  | some range ↦
      guard (same_text (normalize_solver_range range) (normalize_solver_range resolved))
        (range_mismatch actor)
]

abbrev pub text_of : Option Json → Option Text
text_of (some (text t)) = some t
text_of _ = none

-- `value?.[key]`.
abbrev pub get_of : Text → Option Json → Option Json
get_of k none = none
get_of k (some j) = get k j

abbrev pub same_texts : Option Text → Option Text → Bool
same_texts none none = true
same_texts (some a) (some b) = same_text a b
same_texts _ _ = false

-- The keys of the values that are read, as character codes: "configurationHash", "publicPayload",
-- "source", "preflop", "resolvedRanges", "ip" and "oop".
abbrev pub configuration_hash : Text
configuration_hash =
    99 ∷ 111 ∷ 110 ∷ 102 ∷ 105 ∷ 103 ∷ 117 ∷ 114 ∷ 97 ∷ 116 ∷ 105 ∷ 111 ∷ 110 ∷ 72 ∷ 97 ∷ 115 ∷ 104
    ∷ []

abbrev pub public_payload : Text
public_payload = 112 ∷ 117 ∷ 98 ∷ 108 ∷ 105 ∷ 99 ∷ 80 ∷ 97 ∷ 121 ∷ 108 ∷ 111 ∷ 97 ∷ 100 ∷ []

abbrev pub source_key : Text
source_key = 115 ∷ 111 ∷ 117 ∷ 114 ∷ 99 ∷ 101 ∷ []

abbrev pub preflop_key : Text
preflop_key = 112 ∷ 114 ∷ 101 ∷ 102 ∷ 108 ∷ 111 ∷ 112 ∷ []

abbrev pub resolved_ranges : Text
resolved_ranges =
    114 ∷ 101 ∷ 115 ∷ 111 ∷ 108 ∷ 118 ∷ 101 ∷ 100 ∷ 82 ∷ 97 ∷ 110 ∷ 103 ∷ 101 ∷ 115 ∷ []

abbrev pub ip_key : Text
ip_key = 105 ∷ 112 ∷ []

abbrev pub oop_key : Text
oop_key = 111 ∷ 111 ∷ 112 ∷ []

module _ (before : Text → Text → Bool) (quote : Text → Text) where
  abbrev pub canonical_of : Option Json → Option Text
  canonical_of none = none
  canonical_of (some j) = some (canonical before quote j)

  unfoldable pub assert_import_provenance :
      (raw_envelope provenance : Json) → (input : Text) → Result ProvenanceError (Unit {0})
  assert_import_provenance raw_envelope provenance input = do
    configuration ← or_throw (text_of (get configuration_hash provenance)) no_configuration_hash
    let payload = get public_payload raw_envelope
    let envelope_hash = text_of (get_of configuration_hash (get_of source_key payload))
    guard (same_texts envelope_hash (some configuration)) hash_mismatch
    guard
        (same_texts (canonical_of (get_of preflop_key payload))
          (canonical_of (get preflop_key provenance)))
        preflop_mismatch
    let ranges = get resolved_ranges provenance
    resolved_ip ← or_throw (text_of (get_of ip_key ranges)) no_resolved_ranges
    resolved_oop ← or_throw (text_of (get_of oop_key ranges)) no_resolved_ranges
    check_range Actor.ip input resolved_ip
    check_range Actor.oop input resolved_oop
