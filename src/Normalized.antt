-- ===== src/Normalized.antt =====
-- src/solver/normalized.ts: what an envelope of solver output has to satisfy before it becomes a
-- spot. The schema of zod has parsed it already: `byCombo` and `frequencies` have distinct keys.
pub mod Servable
pub mod Diversity
pub mod Uniform
mod Examples
use gto_poker_daily_spots_ba.Prelude.{
  same_text, ℕ, zero, suc, ◌+◌, max, ◌==◌, ltb, leb, not, ◌||◌, ◌&&◌, Bool, true, false,
  if◌then◌else◌, List, [], ◌∷◌, map, Option, none, some, Key, Result, ok, err, guard, or_throw,
  ◌>>=◌, ◌>>◌, length, sum, any, all, select, find_first, has,
}
use gto_poker_daily_spots_ba.Prelude.Int.{abs}
use gto_poker_daily_spots_ba.Scoring.{frequency_of, signed_from}
use gto_poker_daily_spots_ba.Reach.{is_active_combo_reach}
use gto_poker_daily_spots_ba.Attempts.{Combo, ComboStrategy, PrivateSolution, entry}

pub data Actor : Type 0 where
  ip oop : Actor

abbrev pub same_actor : Actor → Actor → Bool
same_actor Actor.ip Actor.ip = true
same_actor Actor.oop Actor.oop = true
same_actor _ _ = false

-- The position is a text in upper case already.
pub record PreflopAction : Type 0 where
  pub actor : Actor
  pub position : Key

pub record LegalAction : Type 0 where
  pub id : Key
  pub is_all_in : Bool

-- The parts of an envelope that the checks read; `preflop` is there when its status is known.
pub record Envelope : Type 0 where
  pub source_hash : Key
  pub manifest_source_hash : Key
  pub legal_actions : List LegalAction
  pub selectable_combos : List Combo
  pub preflop : Option (List PreflopAction)
  pub positions : Actor → Key
  pub dealer_actor : Actor
  pub solution : PrivateSolution
  pub diversity_combo_count : Option ℕ
  pub fallback_used : Option Bool

pub data EnvelopeError : Type 0 where
  conflicting_positions position_mismatch : Actor → EnvelopeError
  two_buttons dealer_mismatch source_hash_mismatch action_order_mismatch : EnvelopeError
  missing_strategy strategy_action_mismatch wrong_total inactive_reach : Combo → EnvelopeError
  combos_mismatch diversity_mismatch no_strategy_combo uniform_all_in : EnvelopeError

-- The text "BTN".
abbrev pub btn : Key
btn = 0

abbrev pub same_position : Option Key → Key → Bool
same_position none q = false
same_position (some p) q = p == q

-- `[...new Set(positions)]`: more than one is refused, the one there is is returned.
unfoldable pub authored : Actor → List Key → Result EnvelopeError (Option Key)
authored actor [] = ok none
authored actor (p ∷ ps) =
    if all (λ q. q == p) ps then ok (some p) else err (conflicting_positions actor)

abbrev pub positions_of : Actor → List PreflopAction → List Key
positions_of actor actions = map (λ a. a.position) (select (λ a. same_actor a.actor actor) actions)

-- The loop's body for one actor.
unfoldable pub authored_position :
    Envelope → List PreflopAction → Actor → Result EnvelopeError (Option Key)
authored_position e actions actor = do
  p ← authored actor (positions_of actor actions)
  elim p [
    | none ↦ ok none
    | some q ↦ if e.positions actor == q then ok (some q) else err (position_mismatch actor)
  ]

-- The checks of a known preflop.
unfoldable pub check_preflop : Envelope → List PreflopAction → Result EnvelopeError (Unit {0})
check_preflop e actions = do
  in_position ← authored_position e actions Actor.ip
  out_of_position ← authored_position e actions Actor.oop
  let ip_button = same_position in_position btn
  let oop_button = same_position out_of_position btn
  guard (not (ip_button && oop_button)) two_buttons
  guard (not ip_button || same_actor e.dealer_actor Actor.ip) dealer_mismatch
  guard (not oop_button || same_actor e.dealer_actor Actor.oop) dealer_mismatch

abbrev pub contains : Combo → List Combo → Bool
contains c cs = any (λ d. same_text d c) cs

-- `new Set(combos)`, in the order of the first occurrences.
unfoldable pub distinct_from : List Combo → List Combo → List Combo
distinct_from seen [] = []
distinct_from seen (c ∷ cs) =
    let rest = distinct_from (c ∷ seen) cs in
    if contains c seen then distinct_from seen cs else c ∷ rest

abbrev pub has_key : List Key → Key → Bool
has_key ids k = any (λ i. i == k) ids

abbrev pub frequency_total : ComboStrategy → ℕ
frequency_total s = sum (map (λ f. f.1) s.frequencies)

-- The loop's body for one selectable combo.
unfoldable pub check_strategy : List Key → PrivateSolution → Combo → Result EnvelopeError (Unit {0})
check_strategy action_ids solution c = do
  s ← or_throw (entry c solution.by_combo) (missing_strategy c)
  guard
      (length s.frequencies == length action_ids && all (λ f. has_key action_ids f.0) s.frequencies)
      (strategy_action_mismatch c)
  guard (frequency_total s == 10000) (wrong_total c)
  guard (is_active_combo_reach s.reach) (inactive_reach c)

unfoldable pub check_strategies :
    List Key → PrivateSolution → List Combo → Result EnvelopeError (Unit {0})
check_strategies action_ids solution [] = ok tt
check_strategies action_ids solution (c ∷ cs) = do
  check_strategy action_ids solution c
  check_strategies action_ids solution cs

unfoldable pub check_known : Envelope → Result EnvelopeError (Unit {0})
check_known e = elim e.preflop [ none ↦ ok tt | some actions ↦ check_preflop e actions ]

abbrev pub action_ids : Envelope → List Key
action_ids e = map (λ a. a.id) e.legal_actions

unfoldable pub matches_count : Option ℕ → ℕ → Bool
matches_count none n = true
matches_count (some m) n = m == n

abbrev pub or_false : Option Bool → Bool
or_false none = false
or_false (some b) = b

-- The schema fills `fallbackUsed` of the manifest in, when it is missing.
abbrev pub with_defaults : Envelope → Envelope
with_defaults e = record e { fallback_used = some (or_false e.fallback_used) }

-- `validateNormalizedEnvelope`, on an input that the schema accepts and after the scan for private
-- fields.
unfoldable pub validate_normalized_envelope : Envelope → Result EnvelopeError Envelope
validate_normalized_envelope input = do
  let e = with_defaults input
  check_known e
  guard (e.manifest_source_hash == e.source_hash) source_hash_mismatch
  guard (same_text (action_ids e) e.solution.action_order) action_order_mismatch
  let selectable = distinct_from [] e.selectable_combos
  check_strategies (action_ids e) e.solution selectable
  guard
      (length e.solution.by_combo == length selectable
        && all (λ b. contains b.0 selectable) e.solution.by_combo)
      combos_mismatch
  guard (matches_count e.diversity_combo_count (length selectable)) diversity_mismatch
  ok e
