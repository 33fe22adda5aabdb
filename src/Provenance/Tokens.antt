-- ===== src/Provenance/Tokens.antt =====
-- The tokens of a range: their normal form tells them apart, up to their order.
use gto_poker_daily_spots_ba.Prelude.{
  ℕ, ◌==◌, true, false, ◌≡◌, refl, sym, ap, ◌∙◌, inl, inr, List, [], ◌∷◌, ◌++◌, map, Text,
  same_text, leb_text, sort_by, count, count-sort_by, All, All-sort_by, All-select, All-selected,
  Bool-cases, ==_self,
}
use gto_poker_daily_spots_ba.Json.{join, comma}
use gto_poker_daily_spots_ba.Provenance.{
  is_blank, trim_start, keep_unless_blank, trim_end, trim, on_first, split, is_filled, tokens,
  normalize_solver_range,
}

-- No character of the text is `c`.
abbrev pub Lacks : ℕ → Text → Type 0
Lacks c t = All (λ d. (d == c) ≡ false) t

split-Lacks : (c : ℕ) (t : Text) → All (Lacks c) (split c t)
unfolding split
split-Lacks c [] = (tt, tt)
split-Lacks c (d ∷ ds) = elim (Bool-cases (d == c)) [
  | inl e ↦ rw e (tt, split-Lacks c ds)
  | inr e ↦ rw e (on_first-Lacks (split c ds) e (split-Lacks c ds))
]
  where
    on_first-Lacks :
        (ts : List Text) → (d == c) ≡ false → All (Lacks c) ts → All (Lacks c) (on_first d ts)
    on_first-Lacks [] e h = ((e, tt), tt)
    on_first-Lacks (t ∷ ts) e h = ((e, h.0), h.1)

trim_start-Lacks : (c : ℕ) (t : Text) → Lacks c t → Lacks c (trim_start t)
unfolding trim_start
trim_start-Lacks c [] h = tt
trim_start-Lacks c (d ∷ ds) h = elim (Bool-cases (is_blank d)) [
  | inl e ↦ rw e (trim_start-Lacks c ds h.1)
  | inr e ↦ rw e h
]

trim_end-Lacks : (c : ℕ) (t : Text) → Lacks c t → Lacks c (trim_end t)
unfolding trim_end
trim_end-Lacks c [] h = tt
trim_end-Lacks c (d ∷ ds) h = kept (trim_end ds) (trim_end-Lacks c ds h.1)
  where
    kept : (rest : Text) → Lacks c rest → Lacks c (keep_unless_blank d rest)
    kept [] r = elim (Bool-cases (is_blank d)) [ inl e ↦ rw e tt | inr e ↦ rw e (h.0, tt) ]
    kept (x ∷ xs) r = (h.0, r)

map-trim-Lacks : (c : ℕ) (ts : List Text) → All (Lacks c) ts → All (Lacks c) (map trim ts)
map-trim-Lacks c [] h = tt
map-trim-Lacks c (t ∷ ts) h =
    (trim_end-Lacks c (trim_start t) (trim_start-Lacks c t h.0), map-trim-Lacks c ts h.1)

-- Splitting at the character that joins gives back the texts, none of which has it.
split-append : (c : ℕ) (t rest : Text) → Lacks c t → split c (t ++ c ∷ rest) ≡ t ∷ split c rest
unfolding split
split-append c [] rest h = rw (==_self c) refl
split-append c (d ∷ ds) rest h = rw (h.0, split-append c ds rest h.1) refl

split_one : (c : ℕ) (t : Text) → Lacks c t → split c t ≡ t ∷ []
unfolding split
split_one c [] h = refl
split_one c (d ∷ ds) h = rw (h.0, split_one c ds h.1) refl

split-join :
    (c : ℕ) (t : Text) (ts : List Text)
    → All (Lacks c) (t ∷ ts)
    → split c (join c (t ∷ ts)) ≡ t ∷ ts
unfolding join
split-join c t [] h = split_one c t h.0
split-join c t (u ∷ us) h =
    split-append c t (join c (u ∷ us)) h.0 ∙ ap (λ r. t ∷ r) (split-join c u us h.1)

-- Texts that are filled and lack the character that joins them.
abbrev Clean : List Text → Type 0
Clean ts = All (λ t. is_filled t ≡ true) ts × All (Lacks comma) ts

join_empty : (t : Text) (ts : List Text) → is_filled t ≡ true → join comma (t ∷ ts) ≡ [] → ⊥
unfolding join
join_empty [] ts f e = cc
join_empty (c ∷ cs) [] f e = cc
join_empty (c ∷ cs) (u ∷ us) f e = cc

join_injective : (ts us : List Text) → Clean ts → Clean us → join comma ts ≡ join comma us → ts ≡ us
unfolding join
join_injective [] [] p q e = refl
join_injective [] (u ∷ us) p q e = absurd (join_empty u us q.0.0 (sym e))
join_injective (t ∷ ts) [] p q e = absurd (join_empty t ts p.0.0 e)
join_injective (t ∷ ts) (u ∷ us) p q e =
    sym (split-join comma t ts p.1) ∙ ap (split comma) e ∙ split-join comma u us q.1

tokens-Clean : (range : Text) → Clean (sort_by leb_text (tokens range))
unfolding tokens
tokens-Clean range = (
  All-sort_by leb_text (λ t. is_filled t ≡ true) (tokens range)
      (All-selected is_filled (map trim (split comma range))),
  All-sort_by leb_text (Lacks comma) (tokens range) (
      All-select (Lacks comma) is_filled (map trim (split comma range))
        (map-trim-Lacks comma (split comma range) (split-Lacks comma range))),
)

-- Two ranges with one normal form have the same tokens, each as often.
pub tokens-normalize :
    (a b : Text)
    → normalize_solver_range a ≡ normalize_solver_range b
    → (t : Text) → count (same_text t) (tokens a) ≡ count (same_text t) (tokens b)
unfolding normalize_solver_range
tokens-normalize a b e t =
    let same =
      join_injective (sort_by leb_text (tokens a)) (sort_by leb_text (tokens b)) (tokens-Clean a)
        (tokens-Clean b) e in
    sym (count-sort_by leb_text (same_text t) (tokens a))
    ∙ ap (count (same_text t)) same
    ∙ count-sort_by leb_text (same_text t) (tokens b)
