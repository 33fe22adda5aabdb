-- ===== src/Stats/Completed.antt =====
-- Which days `getStats` of src/application/public-api.ts takes as completed.
use gto_poker_daily_spots_ba.Prelude.{
  ℕ, ◌≤◌, ◌==◌, leb, not, ◌&&◌, Bool, false, ◌≡◌, refl, ◌∙◌, sym, ap, subst, inl, inr, List, [],
  ◌∷◌, map, none, some, Key, Time, select, any, all, has, count, sort_by, count-sort_by,
  count-select, count_ext, NoRepeats, map_get, map_set, from_entries, map_get-only, map_get-map_set,
  arith, Bool-cases, ==_iff, ==_self,
}
use gto_poker_daily_spots_ba.Store.{Slot, Db}
use gto_poker_daily_spots_ba.Attempts.{Owner, Attempt}
use gto_poker_daily_spots_ba.Games.{is_published, is_on, by_date}
use gto_poker_daily_spots_ba.Games.Range.{
  Groups, dates, on_date, any_slot, on_date-all, by_date-NoRepeats, count-any_slot,
}
use gto_poker_daily_spots_ba.Stats.{
  is_scored, oldest_date, is_played_on, is_complete, attempt_day, completed_dates,
}

abbrev played : List (Key × ℕ) → ℕ → Slot → Bool
played days d s = is_played_on d (map_get s.spot_version_id days)

abbrev complete_dates : List (Key × ℕ) → Groups → List ℕ
complete_dates days groups = map (λ (g : ℕ × List Slot). g.0) (select (is_complete days) groups)

on_date_absent :
    (p : Slot → Bool) (d : ℕ) (groups : Groups)
    → has d (dates groups) ≡ false
    → on_date p d groups ≡ 0
on_date_absent p d [] h = refl
on_date_absent p d ((e, ss) ∷ rest) h = ground (arith, on_date_absent p d rest)

complete_absent :
    (days : List (Key × ℕ)) (d : ℕ) (groups : Groups)
    → has d (dates groups) ≡ false
    → has d (complete_dates days groups) ≡ false
complete_absent days d [] h = refl
complete_absent days d ((e, ss) ∷ rest) h =
    let later : has d (dates rest) ≡ false = ground arith in
    let other : e == d ≡ false = ground arith in
    elim (Bool-cases (is_complete days (e, ss))) [
      | inl q ↦ rw (q, other) (complete_absent days d rest later)
      | inr q ↦ rw q (complete_absent days d rest later)
    ]

all-count : (p : Slot → Bool) (ss : List Slot) → all p ss ≡ (count (λ s. not (p s)) ss == 0)
all-count p [] = refl
all-count p (s ∷ ss) = ground (arith, all-count p ss)

abbrev Counted : List (Key × ℕ) → Groups → ℕ → Type 0
Counted days groups d =
    has d (complete_dates days groups)
    ≡ not (on_date any_slot d groups == 0) && (on_date (λ s. not (played days d s)) d groups == 0)

first_complete :
    (days : List (Key × ℕ)) (e : ℕ) (ss : List Slot) (rest : Groups)
    → has e (dates rest) ≡ false
    → has e (complete_dates days ((e, ss) ∷ rest)) ≡ is_complete days (e, ss)
first_complete days e ss rest absent = elim (Bool-cases (is_complete days (e, ss))) [
  | inl c ↦ rw (c, ==_self e) refl
  | inr c ↦ rw c (complete_absent days e rest absent)
]

first_complete-Counted :
    (days : List (Key × ℕ)) (e : ℕ) (ss : List Slot) (rest : Groups)
    → has e (dates rest) ≡ false
    → Counted days ((e, ss) ∷ rest) e
first_complete-Counted days e ss rest absent =
    first_complete days e ss rest absent
    ∙ rw (==_self e) (
        ground (
          arith,
          all-count (played days e) ss,
          count-any_slot ss,
          on_date_absent any_slot e rest absent,
          on_date_absent (λ s. not (played days e s)) e rest absent,
        ))

complete-on_date :
    (days : List (Key × ℕ)) (d : ℕ) (groups : Groups)
    → NoRepeats (dates groups)
    → Counted days groups d
complete-on_date days d [] n = refl
complete-on_date days d ((e, ss) ∷ rest) n = elim (Bool-cases (e == d)) [
  | inl q ↦
      let same : e ≡ d = (==_iff e d).0 q in
      subst (Counted days ((e, ss) ∷ rest)) same (first_complete-Counted days e ss rest n.0)
  | inr q ↦ elim (Bool-cases (is_complete days (e, ss))) [
    | inl c ↦ rw (c, q) (complete-on_date days d rest n.1)
    | inr c ↦ rw (c, q) (complete-on_date days d rest n.1)
  ]
]

-- The days on which the visitor has played a version.
abbrev pub has_played_on : (Time → ℕ) → Owner → List Attempt → ℕ → Key → Bool
has_played_on day visitor attempts d k =
    any (λ (a : Attempt). is_scored visitor a && (a.spot_version_id == k && day a.created_at == d))
      attempts

-- A visitor has one official, valid attempt at a version at most.
abbrev pub OneOfficial : Owner → List Attempt → Type 0
OneOfficial visitor attempts =
    (k : Key) → count (λ (a : Attempt). is_scored visitor a && a.spot_version_id == k) attempts ≤ 1

none_left :
    (day : Time → ℕ) (visitor : Owner) (k : Key) (attempts : List Attempt)
    → count (λ (a : Attempt). is_scored visitor a && a.spot_version_id == k) attempts ≡ 0
    → any (λ (e : Key × ℕ). e.0 == k) (map (attempt_day day) (select (is_scored visitor) attempts))
      ≡ false
none_left day visitor k [] e = refl
none_left day visitor k (a ∷ rest) e = ground (arith, none_left day visitor k rest)

none_played :
    (day : Time → ℕ) (visitor : Owner) (d k : ℕ) (attempts : List Attempt)
    → count (λ (a : Attempt). is_scored visitor a && a.spot_version_id == k) attempts ≡ 0
    → has_played_on day visitor attempts d k ≡ false
none_played day visitor d k [] e = refl
none_played day visitor d k (a ∷ rest) e = ground (arith, none_played day visitor d k rest)

played-any :
    (day : Time → ℕ) (visitor : Owner) (d k : ℕ) (attempts : List Attempt) (m : List (Key × ℕ))
    → count (λ (a : Attempt). is_scored visitor a && a.spot_version_id == k) attempts ≤ 1
    → map_get k m ≡ none
    → is_played_on d
        (map_get k (from_entries m (map (attempt_day day) (select (is_scored visitor) attempts))))
      ≡ has_played_on day visitor attempts d k
unfolding from_entries
played-any day visitor d k [] m one empty = rw empty refl
played-any day visitor d k (a ∷ rest) m one empty = elim (Bool-cases (is_scored visitor a)) [
  | inr q ↦ ground (arith, played-any day visitor d k rest m)
  | inl q ↦ elim (Bool-cases (a.spot_version_id == k)) [
    | inl v ↦
        let entries = map (attempt_day day) (select (is_scored visitor) rest) in
        let same : a.spot_version_id ≡ k = (==_iff a.spot_version_id k).0 v in
        let last : count (λ (x : Attempt). is_scored visitor x && x.spot_version_id == k) rest ≡ 0 =
          ground arith in
        let got : map_get k (from_entries (map_set a.spot_version_id (day a.created_at) m) entries)
            ≡ some (day a.created_at) =
          subst
            (λ j.
              map_get k (from_entries (map_set j (day a.created_at) m) entries)
              ≡ some (day a.created_at))
            (sym same)
            (map_get-only k (day a.created_at) m entries (none_left day visitor k rest last)) in
        rw (q, v, got, none_played day visitor d k rest last) (ground arith)
    | inr v ↦
        let unset : map_get k (map_set a.spot_version_id (day a.created_at) m) ≡ none =
          map_get-map_set k a.spot_version_id (day a.created_at) m ∙ rw v empty in
        rw (q, v)
          (played-any day visitor d k rest (map_set a.spot_version_id (day a.created_at) m)
            (ground arith) unset)
  ]
]

-- The published slots of a day whose version the visitor has not played on that day.
abbrev pub is_missed_on : (Time → ℕ) → Owner → List Attempt → ℕ → Slot → Bool
is_missed_on day visitor attempts d s =
    is_on d s && not (has_played_on day visitor attempts d s.spot_version_id)

has-count : (k : ℕ) (xs : List ℕ) → has k xs ≡ not (count (λ x. x == k) xs == 0)
has-count k [] = refl
has-count k (x ∷ xs) = ground (arith, has-count k xs)

published-count :
    (d : ℕ) (p : Slot → Bool) (slots : List Slot)
    → count
        (λ s. s.publication_date == d && p s)
        (sort_by oldest_date (select (λ (s : Slot). is_published s.status) slots))
      ≡ count (λ s. is_on d s && p s) slots
published-count d p slots =
    count-sort_by oldest_date (λ s. s.publication_date == d && p s)
      (select (λ (s : Slot). is_published s.status) slots)
    ∙ count-select (λ s. s.publication_date == d && p s) (λ (s : Slot). is_published s.status) slots
    ∙ count_ext (λ (s : Slot). is_published s.status && (s.publication_date == d && p s))
        (λ s. is_on d s && p s) slots (λ s. ground arith)

-- A day is among the completed ones exactly if a slot is published on it and the visitor has, at
-- the version of each slot that is published on it, a valid official attempt made on that day. The
-- visitor has at most one valid official attempt at a version.
pub has-completed_dates :
    (day : Time → ℕ) (visitor : Owner) (db : Db) (attempts : List Attempt) (d : ℕ)
    → OneOfficial visitor attempts
    → has d (completed_dates day visitor db attempts)
      ≡ not (count (is_on d) db.slots == 0)
        && (count (is_missed_on day visitor attempts d) db.slots == 0)
unfolding completed_dates map_get
has-completed_dates day visitor db attempts d one =
    let days = from_entries [] (map (attempt_day day) (select (is_scored visitor) attempts)) in
    let slots = sort_by oldest_date (select (λ (s : Slot). is_published s.status) db.slots) in
    let groups = by_date [] slots in
    let there =
      published-count d any_slot db.slots
      ∙ count_ext (λ s. is_on d s && any_slot s) (is_on d) db.slots (λ s. ground arith) in
    let missed =
      published-count d (λ s. not (played days d s)) db.slots
      ∙ count_ext (λ s. is_on d s && not (played days d s)) (is_missed_on day visitor attempts d)
          db.slots
          (λ s.
            ap (λ b. is_on d s && not b)
              (played-any day visitor d s.spot_version_id attempts [] (one s.spot_version_id)
                refl)) in
    has-count d (sort_by leb (complete_dates days groups))
    ∙ ap (λ n. not (n == 0)) (count-sort_by leb (λ x. x == d) (complete_dates days groups))
    ∙ sym (has-count d (complete_dates days groups))
    ∙ complete-on_date days d groups (by_date-NoRepeats [] slots tt)
    ∙ rw
        (
          on_date-all any_slot d slots,
          on_date-all (λ s. not (played days d s)) d slots,
          there,
          missed,
        )
        refl
