-- ===== src/Games/Served.antt =====
-- Which day `getDailyGame` of src/application/public-api.ts serves, and what it says of the spots.
use gto_poker_daily_spots_ba.Prelude.{
  ℕ, ◌≤◌, ◌<◌, ◌==◌, not, ◌&&◌, Bool, true, false, ◌≡◌, refl, ◌∙◌, sym, inl, inr, List, [], ◌∷◌,
  Key, ok, count, length, map, All, map_has, arith, Bool-cases, Option-cases, Result-cases, Result,
}
use gto_poker_daily_spots_ba.Store.{Slot, Db}
use gto_poker_daily_spots_ba.Attempts.{Owner, Attempt}
use gto_poker_daily_spots_ba.PublicSpot.{PublicSpot, SpotError, read_public_spot}
use gto_poker_daily_spots_ba.Games.{
  GameSlot, latest_before, is_empty, fall_back, slots_for, version_ids, SpotListing, DailyGame,
  list_spot, list_spots, get_daily_game, progress_for,
}
use gto_poker_daily_spots_ba.Games.Completion.{
  plays, scores_of, scores-plays, progress_for-IsProgress,
}
use gto_poker_daily_spots_ba.Games.Listed.{
  AreOfDay, Lists, list_spots-Lists, slots_for-HasVersion, slots_for-AreOfDay,
}
use gto_poker_daily_spots_ba.Games.Newest.{Newest, latest_before-Newest}
use gto_poker_daily_spots_ba.Games.Slots.{OncePublished, length-slots_for, slots_for-NoRepeats}

is_empty-length : (slots : List GameSlot) → is_empty slots ≡ true → length slots ≡ 0
is_empty-length [] e = refl
is_empty-length (g ∷ rest) e = absurd (cc)

full_length : (slots : List GameSlot) → is_empty slots ≡ false → 0 < length slots
full_length [] e = absurd (cc)
full_length (g ∷ rest) e = omega arith

-- The slots that `fall_back` returns are those of the date, which is the newest one.
record IsFallback (requested date : ℕ) (active : Bool) (db : Db) (slots : List GameSlot)
    : Type 0 where
  slots_of_date : slots_for date db ≡ ok slots
  not_later : date ≤ requested
  newest : Newest date requested db.slots
  active_is : active ≡ not (date == requested)

same_day : (date : ℕ) (ss : List Slot) → Newest date date ss
same_day date [] = tt
same_day date (s ∷ ss) = (ground arith, same_day date ss)

fall_back-IsFallback :
    (requested date : ℕ) (allow active : Bool) (db : Db) (found slots : List GameSlot)
    → slots_for requested db ≡ ok found
    → fall_back requested allow db found ≡ ok (date, active, slots)
    → is_empty slots ≡ false
    → IsFallback requested date active db slots
unfolding fall_back
fall_back-IsFallback requested date allow active db found slots f e full =
    elim (Bool-cases (is_empty found && allow)) [
      | inr q ↦
          let date_is : requested ≡ date = ground arith in
          let slots_is : found ≡ slots = ground arith in
          record {
            slots_of_date = rw (← date_is, ← slots_is) f;
            not_later = omega arith;
            newest = rw (← date_is) (same_day requested db.slots);
            active_is = ground arith;
          }
      | inl q ↦ elim (Option-cases (latest_before requested db)) [
        | inl n ↦ absurd (ground arith)
        | inr (l, n) ↦ elim (Result-cases (slots_for l.publication_date db)) [
          | inr (thrown, m) ↦ absurd (ground arith)
          | inl (earlier, m) ↦
              let date_is : l.publication_date ≡ date = ground arith in
              let slots_is : earlier ≡ slots = ground arith in
              let nothing : length found ≡ 0 = is_empty-length found (ground arith) in
              let latest =
                latest_before-Newest requested db l n
                  (sym (length-slots_for requested db found f) ∙ nothing) in
              let before = latest.1 in
              record {
                slots_of_date = rw (← date_is, ← slots_is) m;
                not_later = ground arith;
                newest = rw (← date_is) latest.0;
                active_is = ground arith;
              }
        ]
      ]
    ]

module _ (payload : Key → PublicSpot) (parse : PublicSpot → Result SpotError PublicSpot) where
  list_spot-completed :
      (scores : List (Key × ℕ)) (g : GameSlot) (l : SpotListing)
      → list_spot payload parse scores g ≡ ok l
      → l.completed ≡ map_has g.slot.spot_version_id scores
  unfolding list_spot
  list_spot-completed scores g l e =
      elim (Result-cases (read_public_spot parse (payload g.version.public_payload))) [
        | inr (thrown, n) ↦ absurd (ground arith)
        | inl (spot, n) ↦ ground arith
      ]

  count-list_spots :
      (scores : List (Key × ℕ)) (p : GameSlot → Bool) (slots : List GameSlot)
      (spots : List SpotListing)
      → list_spots payload parse scores slots ≡ ok spots
      → All (λ (g : GameSlot). map_has g.slot.spot_version_id scores ≡ p g) slots
      → (length spots ≡ length slots)
        × (count (λ (l : SpotListing). l.completed) spots ≡ count p slots)
  unfolding list_spots
  count-list_spots scores p [] spots e all =
      let same : spots ≡ [] = ground arith in rw same (refl, refl)
  count-list_spots scores p (g ∷ rest) spots e all =
      elim (Result-cases (list_spot payload parse scores g)) [
        | inr (thrown, n) ↦ absurd (ground arith)
        | inl (l, n) ↦ elim (Result-cases (list_spots payload parse scores rest)) [
          | inr (thrown, m) ↦ absurd (ground arith)
          | inl (later, m) ↦
              let same : spots ≡ l ∷ later = ground arith in
              let counts = count-list_spots scores p rest later m all.1 in
              let first : l.completed ≡ p g = list_spot-completed scores g l n ∙ all.0 in
              rw (same, first) (omega (arith, counts.0), omega (arith, counts.1))
        ]
      ]

-- A game that is served: its day, its spots and its progress.
pub record IsServed (payload : Key → PublicSpot) (parse : PublicSpot → Result SpotError PublicSpot)
    (requested : ℕ) (visitor : Owner) (db : Db) (attempts : List Attempt) (g : DailyGame)
    : Type 0 where
  pub not_later : g.date ≤ requested
  pub newest : Newest g.date requested db.slots
  pub fallback : g.fallback_active ≡ not (g.date == requested)
  pub day : List Slot
  pub of_day : AreOfDay g.date db day
  pub listed : Lists payload parse visitor db attempts day g.spots
  pub not_empty : 0 < length g.spots
  pub total : g.progress.total_spots ≡ length g.spots
  pub played : g.progress.completed_spots ≡ count (λ (l : SpotListing). l.completed) g.spots

-- A daily game that is returned is that of the requested day, or, as a fallback, of the newest
-- earlier day that has a published slot: no later day up to the requested one has any. It lists the
-- published slots of its day, each as often as it is stored and in the order of their numbers: a
-- listing has its slot's number, shows the public payload of the slot's version, as it is read, and is
-- completed if the visitor has a valid official attempt at the version. The progress counts the listed
-- spots and those that are listed as completed. No version is published in two slots.
pub get_daily_game-IsServed :
    (payload : Key → PublicSpot) (parse : PublicSpot → Result SpotError PublicSpot) (requested : ℕ)
    (visitor : Owner) (allow : Bool) (db : Db) (attempts : List Attempt) (g : DailyGame)
    → OncePublished db
    → get_daily_game payload parse requested visitor allow db attempts ≡ ok g
    → IsServed payload parse requested visitor db attempts g
unfolding get_daily_game
get_daily_game-IsServed payload parse requested visitor allow db attempts g once e =
    elim (Result-cases (slots_for requested db)) [
      | inr (thrown, n) ↦ absurd (ground arith)
      | inl (found, n) ↦ elim (Result-cases (fall_back requested allow db found)) [
        | inr (thrown, m) ↦ absurd (ground arith)
        | inl ((date, active, slots), m) ↦ elim (Bool-cases (is_empty slots)) [
          | inl empty ↦ absurd (ground arith)
          | inr full ↦
              elim (Result-cases
                (list_spots payload parse (scores_of visitor (version_ids slots) attempts) slots)) [
                  | inr (thrown, q) ↦ absurd (ground arith)
                  | inl (spots, q) ↦
                      let f =
                        fall_back-IsFallback requested date allow active db found slots n m full in
                      let p =
                        progress_for-IsProgress visitor slots attempts
                          (slots_for-NoRepeats date db slots once f.slots_of_date) in
                      let counts =
                        count-list_spots payload parse
                          (scores_of visitor (version_ids slots) attempts) (plays visitor attempts)
                          slots spots q (scores-plays visitor slots attempts) in
                      let same : g ≡ record {
                        date = date;
                        requested_date = requested;
                        fallback_active = active;
                        spots = spots;
                        progress = progress_for visitor slots attempts;
                      } =
                        ground arith in
                      rw same record {
                        not_later = f.not_later;
                        newest = f.newest;
                        fallback = f.active_is;
                        day = map (λ (x : GameSlot). x.slot) slots;
                        of_day = slots_for-AreOfDay date db slots f.slots_of_date;
                        listed =
                            list_spots-Lists payload parse visitor db attempts
                              (scores_of visitor (version_ids slots) attempts) slots spots
                              (slots_for-HasVersion payload parse visitor db attempts date slots
                                f.slots_of_date)
                              (scores-plays visitor slots attempts) q;
                        not_empty = omega (arith, counts.0, full_length slots full);
                        total = p.total ∙ sym counts.0;
                        played = p.counted ∙ sym counts.1;
                      }
                ]
        ]
      ]
    ]
