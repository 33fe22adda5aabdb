-- ===== src/Provenance/Agrees.antt =====
-- What an import has in common that `assertImportProvenance` lets through.
use gto_poker_daily_spots_ba.Prelude.{
  Bool, true, ◌≡◌, refl, inl, inr, Option, none, some, ok, Text, same_text, same_text-eq, count,
  arith, Bool-cases, Option-cases, guard-ok, or_throw-ok, bind-ok,
}
use gto_poker_daily_spots_ba.Json.{Json, get}
use gto_poker_daily_spots_ba.Normalized.{Actor}
use gto_poker_daily_spots_ba.Provenance.{
  tokens, normalize_solver_range, input_range, input_lines, check_range, text_of, get_of,
  same_texts, configuration_hash, public_payload, source_key, preflop_key, resolved_ranges, ip_key,
  oop_key, canonical_of, assert_import_provenance,
}
use gto_poker_daily_spots_ba.Provenance.Tokens.{tokens-normalize}

-- The last line of the input that sets the actor's range has the tokens of the resolved one, each as
-- often.
pub record SameRange (actor : Actor) (input resolved : Text) : Type 0 where
  pub range : Text
  pub last_line : input_range actor (input_lines input) ≡ some range
  pub same_tokens :
      (t : Text) → count (same_text t) (tokens range) ≡ count (same_text t) (tokens resolved)

pub record Agrees (before : Text → Text → Bool) (quote : Text → Text)
    (raw_envelope provenance : Json) (input : Text) : Type 0 where
  pub configuration : Text
  pub provenance_hash : text_of (get configuration_hash provenance) ≡ some configuration
  pub envelope_hash :
      text_of (get_of configuration_hash (get_of source_key (get public_payload raw_envelope)))
      ≡ some configuration
  pub same_preflop :
      canonical_of before quote (get_of preflop_key (get public_payload raw_envelope))
      ≡ canonical_of before quote (get preflop_key provenance)
  pub resolved_ip : Text
  pub resolved_oop : Text
  pub ip_resolved : text_of (get_of ip_key (get resolved_ranges provenance)) ≡ some resolved_ip
  pub oop_resolved : text_of (get_of oop_key (get resolved_ranges provenance)) ≡ some resolved_oop
  pub ip_range : SameRange Actor.ip input resolved_ip
  pub oop_range : SameRange Actor.oop input resolved_oop

same_texts-eq : (a b : Option Text) → same_texts a b ≡ true → a ≡ b
same_texts-eq none none e = refl
same_texts-eq none (some b) e = absurd (cc)
same_texts-eq (some a) none e = absurd (cc)
same_texts-eq (some a) (some b) e = ground (arith, same_text-eq a b)

check_range-SameRange :
    (actor : Actor) (input resolved : Text)
    → check_range actor input resolved ≡ ok tt
    → SameRange actor input resolved
unfolding check_range
check_range-SameRange actor input resolved h =
    elim (Option-cases (input_range actor (input_lines input))) [
      | inl n ↦ absurd (ground (arith, n, h))
      | inr (range, n) ↦
          elim (Bool-cases
            (same_text (normalize_solver_range range) (normalize_solver_range resolved))) [
              | inr f ↦ absurd (ground (arith, n, f, h))
              | inl e ↦ record {
                range = range;
                last_line = n;
                same_tokens = tokens-normalize range resolved (
                    same_text-eq (normalize_solver_range range) (normalize_solver_range resolved)
                      e);
              }
            ]
    ]

-- An import that is let through has one configuration hash in the provenance and in the envelope,
-- preflop stories with one canonical text, or none in both, and for both actors a range in the solver's
-- input with the tokens of the resolved range, each as often, where the last line for the actor counts.
pub assert_import_provenance-Agrees :
    (before : Text → Text → Bool) (quote : Text → Text) (raw_envelope provenance : Json)
    (input : Text)
    → assert_import_provenance before quote raw_envelope provenance input ≡ ok tt
    → Agrees before quote raw_envelope provenance input
unfolding assert_import_provenance
assert_import_provenance-Agrees before quote raw_envelope provenance input h =
    let (configuration, there, h1) =
      or_throw-ok (text_of (get configuration_hash provenance)) _ _ tt h in
    let (hash, h2) = guard-ok _ _ _ tt h1 in
    let (preflop, h3) = guard-ok _ _ _ tt h2 in
    let (ip, ip_there, h4) = or_throw-ok _ _ _ tt h3 in
    let (oop, oop_there, h5) = or_throw-ok _ _ _ tt h4 in
    let (u, ip_checked, oop_checked) = bind-ok (check_range Actor.ip input ip) _ tt h5 in
    record {
      configuration = configuration;
      provenance_hash = there;
      envelope_hash = same_texts-eq _ _ hash;
      same_preflop = same_texts-eq _ _ preflop;
      resolved_ip = ip;
      resolved_oop = oop;
      ip_resolved = ip_there;
      oop_resolved = oop_there;
      ip_range = check_range-SameRange Actor.ip input ip (ground (arith, ip_checked));
      oop_range = check_range-SameRange Actor.oop input oop oop_checked;
    }
