-- ===== src/Replenish/Oldest.antt =====
-- The templates that the replenishment handler of src/jobs.ts takes.
use gto_poker_daily_spots_ba.Prelude.{
  ℕ, suc, zero, ◌≤◌, leb, ◌&&◌, Bool, true, false, ◌≡◌, refl, ◌∙◌, ap, sym, subst, ◌⊎◌, inl, inr,
  List, [], ◌∷◌, ◌++◌, select, count, count-sort_by, sort_by, sort_by-Sorted, Sorted, take, drop,
  length, arith,
}
use gto_poker_daily_spots_ba.Replenish.{
  Template, TemplateStatus, is_active, oldest_template, active_templates,
}

abbrev can_run : TemplateStatus → Bool
can_run TemplateStatus.active = true
can_run _ = false

-- The chosen templates are the oldest `n` of the active ones, or all of them if there are fewer: with the
-- rest they are the active templates, and those that were created earlier come first.
pub record AreOldest (n : ℕ) (templates chosen : List Template) : Type 0 where
  pub rest : List Template
  pub all_active :
      (p : Template → Bool)
      → count p (chosen ++ rest) ≡ count (λ (x : Template). can_run x.status && p x) templates
  pub older_first : Sorted (λ (a b : Template). leb a.created_at b.created_at) (chosen ++ rest)
  pub enough : (length chosen ≡ n) ⊎ ((length chosen ≤ n) × (rest ≡ []))

take-drop : (n : ℕ) (xs : List Template) → take n xs ++ drop n xs ≡ xs
take-drop zero xs = refl
take-drop (suc n) [] = refl
take-drop (suc n) (x ∷ xs) = ap (λ r. x ∷ r) (take-drop n xs)

length-take :
    (n : ℕ) (xs : List Template)
    → (length (take n xs) ≡ n) ⊎ ((length (take n xs) ≤ n) × (drop n xs ≡ []))
length-take zero xs = inl refl
length-take (suc n) [] = inr (omega arith, refl)
length-take (suc n) (x ∷ xs) = elim (length-take n xs) [
  | inl e ↦ inl (ap suc e)
  | inr (le, e) ↦ inr (omega (arith, le), e)
]

count-active :
    (p : Template → Bool) (xs : List Template)
    → count p (select (λ (x : Template). is_active x.status) xs)
      ≡ count (λ (x : Template). can_run x.status && p x) xs
count-active p [] = refl
count-active p (x ∷ xs) = ground (arith, count-active p xs)

pub active_templates-AreOldest :
    (n : ℕ) (templates : List Template) → AreOldest n templates (active_templates n templates)
active_templates-AreOldest n templates =
    let active = select (λ (x : Template). is_active x.status) templates in
    let sorted = sort_by oldest_template active in
    let whole = take-drop n sorted in
    record {
      rest = drop n sorted;
      all_active = λ p.
          ap (count p) whole ∙ count-sort_by oldest_template p active ∙ count-active p templates;
      older_first = subst (Sorted oldest_template) (sym whole) (
          sort_by-Sorted oldest_template (λ a b q. ground (arith, q))
            (λ a b c q r. ground (arith, q, r)) active);
      enough = length-take n sorted;
    }
