-- ===== src/Games/Range.antt =====
-- The days that `getDailyGameRange` of src/application/public-api.ts lists.
use gto_poker_daily_spots_ba.Prelude.{
  ℕ, ◌+◌, ◌<◌, ◌==◌, ◌||◌, ◌&&◌, Bool, true, if◌then◌else◌, ◌≡◌, refl, ◌∙◌, inl, inr, List, [], ◌∷◌,
  map, Key, ok, select, has, count-select, count, bit, length, sort_by, count-sort_by, count-append,
  count_ext, length-append, NoRepeats, All, map_has, arith, Bool-cases, ==_iff, ==_self,
}
use gto_poker_daily_spots_ba.Store.{Slot, Db}
use gto_poker_daily_spots_ba.Attempts.{Owner, Attempt}
use gto_poker_daily_spots_ba.Games.{
  is_within, oldest_first, add_to_date, by_date, RangeGame, range_game, get_daily_game_range,
}
use gto_poker_daily_spots_ba.Games.Completion.{has_played, scores_of, map_has-scores}

abbrev pub Groups : Type 0
Groups = List (ℕ × List Slot)

abbrev pub dates : Groups → List ℕ
dates [] = []
dates ((d, slots) ∷ rest) = d ∷ dates rest

-- How many slots of the groups of a date pass a test.
abbrev pub on_date : (Slot → Bool) → ℕ → Groups → ℕ
on_date p d [] = 0
on_date p d ((e, slots) ∷ rest) =
    let later = on_date p d rest in if e == d then count p slots + later else later

on_date-add_to_date :
    (p : Slot → Bool) (d : ℕ) (s : Slot) (groups : Groups)
    → on_date p d (add_to_date s groups) ≡ on_date p d groups + bit (s.publication_date == d && p s)
unfolding add_to_date
on_date-add_to_date p d s [] = ground arith
on_date-add_to_date p d s ((e, slots) ∷ rest) =
    grind (arith, on_date-add_to_date p d s rest, count-append p slots (s ∷ []), ==_iff)

on_date-by_date :
    (p : Slot → Bool) (d : ℕ) (groups : Groups) (ss : List Slot)
    → on_date p d (by_date groups ss)
      ≡ on_date p d groups + count (λ s. s.publication_date == d && p s) ss
unfolding by_date
on_date-by_date p d groups [] = omega arith
on_date-by_date p d groups (s ∷ ss) =
    omega (arith, on_date-by_date p d (add_to_date s groups) ss, on_date-add_to_date p d s groups)

pub on_date-all :
    (p : Slot → Bool) (d : ℕ) (ss : List Slot)
    → on_date p d (by_date [] ss) ≡ count (λ s. s.publication_date == d && p s) ss
on_date-all p d ss = omega (arith, on_date-by_date p d [] ss)

has-add_to_date :
    (d : ℕ) (s : Slot) (groups : Groups)
    → has d (dates (add_to_date s groups)) ≡ (s.publication_date == d) || has d (dates groups)
unfolding add_to_date
has-add_to_date d s [] = ground arith
has-add_to_date d s ((e, slots) ∷ rest) = ground (arith, has-add_to_date d s rest)

add_to_date-NoRepeats :
    (s : Slot) (groups : Groups)
    → NoRepeats (dates groups)
    → NoRepeats (dates (add_to_date s groups))
unfolding add_to_date
add_to_date-NoRepeats s [] n = (refl, tt)
add_to_date-NoRepeats s ((e, slots) ∷ rest) n = elim (Bool-cases (e == s.publication_date)) [
  | inl q ↦ rw q n
  | inr q ↦ rw q (ground (arith, has-add_to_date e s rest, n.0), add_to_date-NoRepeats s rest n.1)
]

pub by_date-NoRepeats :
    (groups : Groups) (ss : List Slot)
    → NoRepeats (dates groups)
    → NoRepeats (dates (by_date groups ss))
unfolding by_date
by_date-NoRepeats groups [] n = n
by_date-NoRepeats groups (s ∷ ss) n =
    by_date-NoRepeats (add_to_date s groups) ss (add_to_date-NoRepeats s groups n)

abbrev Full : Groups → Type 0
Full groups = All (λ (g : ℕ × List Slot). 0 < length g.1) groups

add_to_date-Full : (s : Slot) (groups : Groups) → Full groups → Full (add_to_date s groups)
unfolding add_to_date
add_to_date-Full s [] f = (omega arith, tt)
add_to_date-Full s ((e, slots) ∷ rest) f = elim (Bool-cases (e == s.publication_date)) [
  | inl q ↦ rw q (omega (arith, length-append slots (s ∷ [])), f.1)
  | inr q ↦ rw q (f.0, add_to_date-Full s rest f.1)
]

by_date-Full : (groups : Groups) (ss : List Slot) → Full groups → Full (by_date groups ss)
unfolding by_date
by_date-Full groups [] f = f
by_date-Full groups (s ∷ ss) f =
    by_date-Full (add_to_date s groups) ss (add_to_date-Full s groups f)

-- The spots that the entries of a date count, and those that they count as completed.
abbrev pub spots_on : ℕ → List RangeGame → ℕ
spots_on d [] = 0
spots_on d (g ∷ rest) =
    let later = spots_on d rest in if g.date == d then g.spot_count + later else later

abbrev pub completed_on : ℕ → List RangeGame → ℕ
completed_on d [] = 0
completed_on d (g ∷ rest) =
    let later = completed_on d rest in if g.date == d then g.completed_spots + later else later

abbrev pub game_dates : List RangeGame → List ℕ
game_dates games = map (λ (g : RangeGame). g.date) games

abbrev pub any_slot : Slot → Bool
any_slot s = true

pub count-any_slot : (ss : List Slot) → count any_slot ss ≡ length ss
count-any_slot [] = refl
count-any_slot (s ∷ ss) = omega (arith, count-any_slot ss)

spots_on-groups :
    (scores : List (Key × ℕ)) (d : ℕ) (groups : Groups)
    → spots_on d (map (range_game scores) groups) ≡ on_date any_slot d groups
unfolding range_game
spots_on-groups scores d [] = refl
spots_on-groups scores d ((e, slots) ∷ rest) =
    ground (arith, spots_on-groups scores d rest, count-any_slot slots)

completed_on-groups :
    (scores : List (Key × ℕ)) (d : ℕ) (groups : Groups)
    → completed_on d (map (range_game scores) groups)
      ≡ on_date (λ s. map_has s.spot_version_id scores) d groups
unfolding range_game
completed_on-groups scores d [] = refl
completed_on-groups scores d ((e, slots) ∷ rest) = ground (arith, completed_on-groups scores d rest)

dates-groups :
    (scores : List (Key × ℕ)) (groups : Groups)
    → game_dates (map (range_game scores) groups) ≡ dates groups
unfolding range_game
dates-groups scores [] = refl
dates-groups scores ((e, slots) ∷ rest) = rw (dates-groups scores rest) refl

range_game-Full :
    (scores : List (Key × ℕ)) (groups : Groups)
    → Full groups
    → All (λ (g : RangeGame). 0 < g.spot_count) (map (range_game scores) groups)
unfolding range_game
range_game-Full scores [] f = tt
range_game-Full scores ((e, slots) ∷ rest) f = (f.0, range_game-Full scores rest f.1)

count-plays :
    (d : ℕ) (p : Key → Bool) (q : Key → Bool) (ids : List Key) (ss : List Slot)
    → ((k : Key) → has k ids ≡ true → p k ≡ q k)
    → ((k : Key) → has k (map (λ (s : Slot). s.spot_version_id) ss) ≡ true → has k ids ≡ true)
    → count (λ s. s.publication_date == d && p s.spot_version_id) ss
      ≡ count (λ s. s.publication_date == d && q s.spot_version_id) ss
count-plays d p q ids [] same sub = refl
count-plays d p q ids (s ∷ ss) same sub =
    rw
      (
        same s.spot_version_id (sub s.spot_version_id (rw (==_self s.spot_version_id) refl)),
        count-plays d p q ids ss same (λ k h. sub k (ground arith)),
      )
      refl

-- The entries of a range: one for each day that has a published slot.
pub record IsRange (first last : ℕ) (visitor : Owner) (db : Db) (attempts : List Attempt)
    (games : List RangeGame) : Type 0 where
  pub once : NoRepeats (game_dates games)
  pub not_empty : All (λ (g : RangeGame). 0 < g.spot_count) games
  pub spots :
      (d : ℕ)
      → spots_on d games
        ≡ count (λ (s : Slot). is_within first last s && s.publication_date == d) db.slots
  pub completed :
      (d : ℕ)
      → completed_on d games
        ≡ count
            (λ (s : Slot).
              is_within first last s
              && (s.publication_date == d && has_played visitor attempts s.spot_version_id))
            db.slots

-- A range that is returned has one entry for each of its days that has a published slot, and no
-- other entry. The entry counts the published slots of its day and, among them, those at whose
-- version the visitor has a valid official attempt.
pub get_daily_game_range-IsRange :
    (first last : ℕ) (visitor : Owner) (db : Db) (attempts : List Attempt) (games : List RangeGame)
    → get_daily_game_range first last visitor db attempts ≡ ok games
    → IsRange first last visitor db attempts games
unfolding get_daily_game_range
get_daily_game_range-IsRange first last visitor db attempts games e =
    let ss = sort_by oldest_first (select (is_within first last) db.slots) in
    let ids = map (λ (s : Slot). s.spot_version_id) ss in
    let scores = scores_of visitor ids attempts in
    let groups = by_date [] ss in
    let same : games ≡ map (range_game scores) groups = ground arith in
    let of_slots : (p : Slot → Bool)
        → count p ss ≡ count (λ s. is_within first last s && p s) db.slots =
      λ p.
        count-sort_by oldest_first p (select (is_within first last) db.slots)
        ∙ count-select p (is_within first last) db.slots in
    rw same record {
      once = rw (dates-groups scores groups) (by_date-NoRepeats [] ss tt);
      not_empty = range_game-Full scores groups (by_date-Full [] ss tt);
      spots = λ d.
          spots_on-groups scores d groups
          ∙ on_date-all any_slot d ss
          ∙ count_ext (λ s. s.publication_date == d && any_slot s) (λ s. s.publication_date == d) ss
              (λ s. ground arith)
          ∙ of_slots (λ s. s.publication_date == d);
      completed = λ d.
          completed_on-groups scores d groups
          ∙ on_date-all (λ s. map_has s.spot_version_id scores) d ss
          ∙ count-plays d (λ k. map_has k scores) (has_played visitor attempts) ids ss
              (map_has-scores visitor ids attempts) (λ k h. h)
          ∙ of_slots
              (λ s. s.publication_date == d && has_played visitor attempts s.spot_version_id);
    }
