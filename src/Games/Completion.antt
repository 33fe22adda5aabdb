-- ===== src/Games/Completion.antt =====
-- What the progress of a visitor counts: `progressFor` of src/application/public-api.ts.
use gto_poker_daily_spots_ba.Prelude.{
  ℕ, ◌≤◌, ◌<◌, ◌==◌, not, ◌&&◌, Bool, true, ◌≡◌, ◌↔◌, refl, ◌∙◌, inl, inr, List, [], ◌∷◌, map, none,
  Key, find_first, any, all, has, count, length, map_has, from_entries, All, All-map, NoRepeats,
  arith, Bool-cases, ==_iff, ==_self, length-from_entries, map_has-from_entries,
}
use gto_poker_daily_spots_ba.Attempts.{Owner, same_owner, Attempt}
use gto_poker_daily_spots_ba.Games.{
  GameSlot, version_ids, is_valid, counts_for, official_attempts, score_entry, completed, Progress,
  status_of_counts, spot_to_play, progress_for,
}

-- An official, valid attempt of the visitor at the version.
abbrev pub has_played : Owner → List Attempt → Key → Bool
has_played visitor attempts k =
    any
      (λ (a : Attempt).
        same_owner a.owner visitor && a.official && is_valid a.validity && a.spot_version_id == k)
      attempts

abbrev pub plays : Owner → List Attempt → GameSlot → Bool
plays visitor attempts g = has_played visitor attempts g.slot.spot_version_id

abbrev pub scores_of : Owner → List Key → List Attempt → List (Key × ℕ)
scores_of visitor ids attempts =
    from_entries [] (map score_entry (official_attempts visitor ids attempts))

entries_any :
    (visitor : Owner) (ids : List Key) (attempts : List Attempt) (k : Key)
    → has k ids ≡ true
    → any (λ (e : Key × ℕ). e.0 == k) (map score_entry (official_attempts visitor ids attempts))
      ≡ has_played visitor attempts k
entries_any visitor ids [] k h = refl
entries_any visitor ids (a ∷ rest) k h = elim (Bool-cases (a.spot_version_id == k)) [
  | inl q ↦
      let same : a.spot_version_id ≡ k = (==_iff a.spot_version_id k).0 q in
      let there : has a.spot_version_id ids ≡ true = rw same h in
      ground (arith, entries_any visitor ids rest k h)
  | inr q ↦ ground (arith, entries_any visitor ids rest k h)
]

pub map_has-scores :
    (visitor : Owner) (ids : List Key) (attempts : List Attempt) (k : Key)
    → has k ids ≡ true
    → map_has k (scores_of visitor ids attempts) ≡ has_played visitor attempts k
unfolding map_has
map_has-scores visitor ids attempts k h =
    map_has-from_entries k [] (map score_entry (official_attempts visitor ids attempts))
    ∙ entries_any visitor ids attempts k h

entries_there :
    (visitor : Owner) (ids : List Key) (attempts : List Attempt)
    → All
        (λ (e : Key × ℕ). has e.0 ids ≡ true)
        (map score_entry (official_attempts visitor ids attempts))
entries_there visitor ids [] = tt
entries_there visitor ids (a ∷ rest) = elim (Bool-cases (counts_for visitor ids a)) [
  | inl q ↦ rw q (ground arith, entries_there visitor ids rest)
  | inr q ↦ rw q (entries_there visitor ids rest)
]

has-version_ids :
    (slots : List GameSlot) (ids : List Key)
    → ((k : Key) → has k (version_ids slots) ≡ true → has k ids ≡ true)
    → All (λ (g : GameSlot). has g.slot.spot_version_id ids ≡ true) slots
has-version_ids [] ids sub = tt
has-version_ids (g ∷ rest) ids sub = (
  sub g.slot.spot_version_id (rw (==_self g.slot.spot_version_id) refl),
  has-version_ids rest ids (λ k h. sub k (ground arith)),
)

pub scores-plays :
    (visitor : Owner) (slots : List GameSlot) (attempts : List Attempt)
    → All
        (λ (g : GameSlot).
          map_has g.slot.spot_version_id (scores_of visitor (version_ids slots) attempts)
          ≡ plays visitor attempts g)
        slots
scores-plays visitor slots attempts =
    All-map (λ (g : GameSlot). has g.slot.spot_version_id (version_ids slots) ≡ true) _ slots
      (λ g h. map_has-scores visitor (version_ids slots) attempts g.slot.spot_version_id h)
      (has-version_ids slots (version_ids slots) (λ k h. h))

count-version_ids :
    (p : Key → Bool) (q : GameSlot → Bool) (slots : List GameSlot)
    → All (λ (g : GameSlot). p g.slot.spot_version_id ≡ q g) slots
    → count p (version_ids slots) ≡ count q slots
count-version_ids p q [] all = refl
count-version_ids p q (g ∷ rest) all = rw (all.0, count-version_ids p q rest all.1) refl

count-length : {A : Type 0} (p : A → Bool) (xs : List A) → count p xs ≤ length xs
count-length p [] = omega arith
count-length p (x ∷ xs) = ground (arith, count-length p xs)

count-all : {A : Type 0} (p : A → Bool) (xs : List A) → (count p xs ≡ length xs) ↔ (all p xs ≡ true)
count-all p [] = (λ e. refl, λ e. refl)
count-all p (x ∷ xs) = elim (Bool-cases (p x)) [
  | inl q ↦ rw q (λ e. (count-all p xs).0 (omega arith), λ e. omega (arith, (count-all p xs).1 e))
  | inr q ↦ rw q (λ e. absurd (omega (arith, count-length p xs)), λ e. absurd (cc))
]

next-all :
    (p q : GameSlot → Bool) (slots : List GameSlot)
    → All (λ g. p g ≡ q g) slots
    → (spot_to_play (find_first (λ g. not (p g)) slots) ≡ none) ↔ (all q slots ≡ true)
next-all p q [] all = (λ e. refl, λ e. refl)
next-all p q (g ∷ rest) all = elim (Bool-cases (q g)) [
  | inl e ↦ rw (all.0, e) (next-all p q rest all.1)
  | inr e ↦ rw (all.0, e) (λ h. absurd (cc), λ h. absurd (cc))
]

-- The spots of a game, of which the visitor has played some.
pub record IsProgress (visitor : Owner) (slots : List GameSlot) (attempts : List Attempt)
    (p : Progress) : Type 0 where
  pub counted : p.completed_spots ≡ count (plays visitor attempts) slots
  pub total : p.total_spots ≡ length slots
  pub bounded : p.completed_spots ≤ p.total_spots
  pub finished :
      0 < length slots → (p.status ≡ completed) ↔ (all (plays visitor attempts) slots ≡ true)
  pub next : (p.next_spot ≡ none) ↔ (all (plays visitor attempts) slots ≡ true)

none_there : (ids : List Key) → 0 ≡ count (λ i. map_has {V = ℕ} i []) ids
unfolding map_has
none_there [] = refl
none_there (i ∷ is) = omega (arith, none_there is)

status-all :
    (p : GameSlot → Bool) (slots : List GameSlot)
    → 0 < length slots
    → (status_of_counts (count p slots) (length slots) ≡ completed) ↔ (all p slots ≡ true)
status-all p slots pos = (
  λ e. (count-all p slots).0 (ground arith),
  λ e. let full = (count-all p slots).1 e in ground arith,
)

-- The progress of a visitor at a game whose slots have different versions counts the slots of
-- which the visitor has an official attempt that is valid. A game with a slot is completed exactly
-- if there is such an attempt at every slot, and then only no spot is left to play.
pub progress_for-IsProgress :
    (visitor : Owner) (slots : List GameSlot) (attempts : List Attempt)
    → NoRepeats (version_ids slots)
    → IsProgress visitor slots attempts (progress_for visitor slots attempts)
unfolding progress_for
progress_for-IsProgress visitor slots attempts distinct =
    let ids = version_ids slots in
    let scores = scores_of visitor ids attempts in
    let size =
      length-from_entries ids [] (map score_entry (official_attempts visitor ids attempts)) distinct
        (entries_there visitor ids attempts) (none_there ids) in
    let counted =
      size
      ∙ count-version_ids (λ k. map_has k scores) (plays visitor attempts) slots
          (scores-plays visitor slots attempts) in
    record {
      counted = counted;
      total = refl;
      bounded = omega (arith, counted, count-length (plays visitor attempts) slots);
      finished = λ pos. rw counted (status-all (plays visitor attempts) slots pos);
      next =
          next-all (λ (g : GameSlot). map_has g.slot.spot_version_id scores)
            (plays visitor attempts) slots (scores-plays visitor slots attempts);
    }
