-- ===== src/History/Pages.antt =====
-- Following the cursors of `getAttemptHistory` of src/application/public-api.ts.
use gto_poker_daily_spots_ba.Prelude.{
  ℕ, zero, suc, ◌-◌, ◌≤◌, ◌<◌, ◌==◌, ltb, ltb-le, ltb→lt, ◌&&◌, Bool, true, ◌≡◌, refl, ◌∙◌, sym, ap,
  inl, inr, List, [], ◌∷◌, ◌++◌, map, Option, none, some, Key, select, count, length,
  length-select-le, length-sort_by, take, drop, sort_by, sort_by-Sorted, select-sort_by,
  select-select, select_ext, count-sort_by, All, All-map, All-sort_by, All-selected, arith,
  Bool-cases, Option-cases,
}
use gto_poker_daily_spots_ba.Attempts.{Owner, Attempt}
use gto_poker_daily_spots_ba.History.{
  Cursor, latest_first, is_after, is_listed, HistoryEntry, entry_of, last_of, rows_after,
  get_attempt_history,
}
use gto_poker_daily_spots_ba.History.Descending.{
  DistinctIds, at, Descending, latest_total, latest_trans, Sorted-Descending, last_of-All,
  select-Descending,
}

take-take : (n : ℕ) (xs : List Attempt) → take n (take (suc n) xs) ≡ take n xs
take-take zero xs = refl
take-take (suc n) [] = refl
take-take (suc n) (x ∷ xs) = ap (λ t. x ∷ t) (take-take n xs)

take-drop : (n : ℕ) (xs : List Attempt) → take n xs ++ drop n xs ≡ xs
take-drop zero xs = refl
take-drop (suc n) [] = refl
take-drop (suc n) (x ∷ xs) = ap (λ t. x ∷ t) (take-drop n xs)

full_page : (n : ℕ) (xs : List Attempt) → length (take (suc n) xs) ≤ n → take n xs ≡ xs
full_page zero [] h = refl
full_page (suc n) [] h = refl
full_page zero (x ∷ xs) h = absurd (omega arith)
full_page (suc n) (x ∷ xs) h = ap (λ t. x ∷ t) (full_page n xs (omega arith))

last_there :
    (n : ℕ) (xs : List Attempt)
    → 0 < n
    → 0 < length xs
    → last_of (take n xs) ≡ none
    → zero ≡ suc zero
last_there zero xs h p e = absurd (omega arith)
last_there (suc n) [] h p e = absurd (omega arith)
last_there (suc zero) (x ∷ xs) h p e = absurd (cc)
last_there (suc (suc n)) (x ∷ []) h p e = absurd (cc)
last_there (suc (suc n)) (x ∷ y ∷ ys) h p e =
    last_there (suc n) (y ∷ ys) (omega arith) (omega arith) e

length-drop : (n : ℕ) (xs : List Attempt) → length (drop n xs) ≡ length xs - n
length-drop zero xs = omega arith
length-drop (suc n) [] = omega arith
length-drop (suc n) (x ∷ xs) = omega (arith, length-drop n xs)

map-append : (xs ys : List Attempt) → map entry_of xs ++ map entry_of ys ≡ map entry_of (xs ++ ys)
map-append [] ys = refl
map-append (x ∷ xs) ys = ap (λ t. entry_of x ∷ t) (map-append xs ys)

append_nil : (xs : List HistoryEntry) → xs ++ [] ≡ xs
append_nil [] = refl
append_nil (x ∷ xs) = ap (λ t. x ∷ t) (append_nil xs)

length-take-le : (n : ℕ) (xs : List Attempt) → length (take n xs) ≤ length xs
length-take-le zero xs = omega arith
length-take-le (suc n) [] = omega arith
length-take-le (suc n) (x ∷ xs) = omega (arith, length-take-le n xs)

no_entries : (xs : List Attempt) → length xs ≤ 0 → [] ≡ map entry_of xs
no_entries [] h = refl
no_entries (x ∷ xs) h = absurd (omega arith)

rows_after-Descending :
    (visitor : Owner) (cursor : Option Cursor) (attempts : List Attempt)
    → DistinctIds attempts
    → Descending (rows_after visitor cursor attempts)
unfolding rows_after
rows_after-Descending visitor cursor attempts d =
    let p : Attempt → Bool = λ a. is_listed visitor a && is_after cursor a in
    Sorted-Descending (sort_by latest_first (select p attempts))
      (sort_by-Sorted latest_first latest_total latest_trans (select p attempts))
      (λ k. omega (
        arith,
        count-sort_by latest_first (λ (a : Attempt). a.id == k) (select p attempts),
        fewer k p attempts,
        d k,
      ))
  where
    fewer :
        (k : Key) (p : Attempt → Bool) (xs : List Attempt)
        → count (λ (a : Attempt). a.id == k) (select p xs) ≤ count (λ (a : Attempt). a.id == k) xs
    fewer k p [] = omega arith
    fewer k p (x ∷ xs) = ground (arith, fewer k p xs)

after_trans :
    (cursor : Option Cursor) (l a : Attempt)
    → is_after cursor l ≡ true
    → is_after (at l) a ≡ true
    → is_after cursor a ≡ true
after_trans none l a e h = refl
after_trans (some c) l a e h = ground arith

-- What stands behind a listed attempt is what its cursor gives.
rows_after-at :
    (visitor : Owner) (cursor : Option Cursor) (attempts : List Attempt) (l : Attempt)
    → is_after cursor l ≡ true
    → rows_after visitor (at l) attempts
      ≡ select (is_after (at l)) (rows_after visitor cursor attempts)
unfolding rows_after
rows_after-at visitor cursor attempts l after =
    let p : Attempt → Bool = λ a. is_listed visitor a && is_after cursor a in
    sym (
      select-sort_by latest_first latest_total latest_trans (is_after (at l)) (select p attempts)
      ∙ ap (sort_by latest_first) (
          select-select (is_after (at l)) p attempts
          ∙ select_ext (λ a. p a && is_after (at l) a)
              (λ a. is_listed visitor a && is_after (at l) a) attempts
              (λ a. ground (arith, after_trans cursor l a after))))

all_after :
    (visitor : Owner) (cursor : Option Cursor) (attempts : List Attempt)
    → All (λ b. is_after cursor b ≡ true) (rows_after visitor cursor attempts)
unfolding rows_after
all_after visitor cursor attempts =
    let p : Attempt → Bool = λ a. is_listed visitor a && is_after cursor a in
    All-sort_by latest_first (λ b. is_after cursor b ≡ true) (select p attempts)
      (All-map (λ b. p b ≡ true) (λ b. is_after cursor b ≡ true) (select p attempts)
        (λ b q. ground arith) (All-selected p attempts))

-- The entries of the pages, by following the cursors for at most `fuel` pages.
pub follow_pages :
    (fuel : ℕ) → Owner → (limit : ℕ) → Option Cursor → List Attempt → List HistoryEntry
follow_pages zero visitor limit cursor attempts = []
follow_pages (suc fuel) visitor limit cursor attempts =
    let (page, next) = get_attempt_history visitor limit cursor attempts in
    page ++ (elim next [ none ↦ [] | some c ↦ follow_pages fuel visitor limit (some c) attempts ])

module _ (visitor : Owner) (limit : ℕ) (attempts : List Attempt) (positive : 0 < limit)
    (distinct : DistinctIds attempts) where
  follow-rows_after :
      (fuel : ℕ) (cursor : Option Cursor)
      → length (rows_after visitor cursor attempts) ≤ fuel
      → follow_pages fuel visitor limit cursor attempts
        ≡ map entry_of (rows_after visitor cursor attempts)
  unfolding follow_pages get_attempt_history
  follow-rows_after zero cursor h = no_entries (rows_after visitor cursor attempts) h
  follow-rows_after (suc fuel) cursor h =
      let rows = rows_after visitor cursor attempts in
      elim (Bool-cases (ltb limit (length (take (suc limit) rows)))) [
        | inr q ↦
            rw (take-take limit rows, q)
              (append_nil (map entry_of (take limit rows))
                ∙ ap (map entry_of)
                    (full_page limit rows (ltb-le limit (length (take (suc limit) rows)) q)))
        | inl q ↦ elim (Option-cases (last_of (take limit rows))) [
          | inl n ↦
              let more : limit < length (take (suc limit) rows) =
                ltb→lt limit (length (take (suc limit) rows)) q in
              absurd (
                omega (
                  arith,
                  last_there limit rows positive (omega (arith, length-take-le (suc limit) rows)) n,
                ))
          | inr (l, n) ↦
              let after =
                last_of-All (λ b. is_after cursor b ≡ true) limit rows l
                  (all_after visitor cursor attempts) n in
              let behind : rows_after visitor (at l) attempts ≡ drop limit rows =
                rows_after-at visitor cursor attempts l after
                ∙ select-Descending limit rows l
                    (rows_after-Descending visitor cursor attempts distinct) n in
              let size : length (rows_after visitor (at l) attempts) ≤ fuel =
                omega (arith, ap length behind, length-drop limit rows, h, positive) in
              rw (take-take limit rows, q, n)
                (ap (λ t. map entry_of (take limit rows) ++ t)
                    (follow-rows_after fuel (at l) size ∙ ap (map entry_of) behind)
                  ∙ map-append (take limit rows) (drop limit rows)
                  ∙ ap (map entry_of) (take-drop limit rows))
        ]
      ]

-- Following the cursors of the history from the first page, with a limit that is not 0, lists the
-- valid attempts of the visitor, each once, the latest first; as many pages as there are attempts
-- are enough. No two attempts have one identifier, but several can have one time.
pub follow_pages-rows_after :
    (visitor : Owner) (limit : ℕ) (attempts : List Attempt)
    → 0 < limit
    → DistinctIds attempts
    → follow_pages (length attempts) visitor limit none attempts
      ≡ map entry_of (sort_by latest_first (select (is_listed visitor) attempts))
unfolding rows_after
follow_pages-rows_after visitor limit attempts positive distinct =
    let listed : Attempt → Bool = λ a. is_listed visitor a && is_after none a in
    follow-rows_after visitor limit attempts positive distinct (length attempts) none (
      omega (
        arith,
        length-sort_by latest_first (select listed attempts),
        length-select-le listed attempts,
      ))
    ∙ ap (λ t. map entry_of (sort_by latest_first t))
        (select_ext listed (is_listed visitor) attempts (λ a. ground arith))
