-- ===== src/Games/Listed.antt =====
-- What `getDailyGame` of src/application/public-api.ts lists of each slot of a day.
use gto_poker_daily_spots_ba.Prelude.{
  ℕ, ◌==◌, leb, ◌&&◌, Bool, ◌≡◌, refl, ◌∙◌, sym, inl, inr, List, [], ◌∷◌, map, some, Key, Result,
  ok, find, select, count, count-sort_by, sort_by-Sorted, Sorted, All, map_has, arith, ok-injective,
  subst, Option-cases, Result-cases,
}
use gto_poker_daily_spots_ba.Store.{Slot, SpotVersion, Db}
use gto_poker_daily_spots_ba.Attempts.{Owner, Attempt}
use gto_poker_daily_spots_ba.Publication.Moves.{is_published_slot}
use gto_poker_daily_spots_ba.PublicSpot.{PublicSpot, SpotError, position_of, read_public_spot}
use gto_poker_daily_spots_ba.Games.{
  GameSlot, is_on, in_order, include_versions, slots_for, SpotListing, list_spot, list_spots,
}
use gto_poker_daily_spots_ba.Games.Completion.{has_played}
use gto_poker_daily_spots_ba.Games.Slots.{slots-slots_for}

module _ (payload : Key → PublicSpot) (parse : PublicSpot → Result SpotError PublicSpot)
    (visitor : Owner) (db : Db) (attempts : List Attempt) where
  -- The listing of a slot shows the public payload of the slot's version, as it is read.
  pub record IsListing (s : Slot) (l : SpotListing) : Type 0 where
    pub version : SpotVersion
    pub of_slot : find (λ (v : SpotVersion). v.id) s.spot_version_id db.versions ≡ some version
    pub spot : PublicSpot
    pub shown : read_public_spot parse (payload version.public_payload) ≡ ok spot
    pub spot_id : l.spot_id ≡ spot.spot_id
    pub version_id : l.spot_version_id ≡ spot.spot_version_id
    pub street : l.street ≡ spot.street
    pub hero : l.hero_position ≡ position_of spot.hero_actor spot.positions
    pub sequence : l.sequence ≡ s.slot_order
    pub completed : l.completed ≡ has_played visitor attempts s.spot_version_id

  -- One listing for each slot, in their order.
  abbrev pub Lists : List Slot → List SpotListing → Type 0
  Lists [] [] = Unit {0}
  Lists (s ∷ ss) (l ∷ ls) = IsListing s l × Lists ss ls
  Lists _ _ = ⊥

  abbrev pub HasVersion : GameSlot → Type 0
  HasVersion g =
      find (λ (v : SpotVersion). v.id) g.slot.spot_version_id db.versions ≡ some g.version

  include_versions-HasVersion :
      (ss : List Slot) (gs : List GameSlot) → include_versions ss db ≡ ok gs → All HasVersion gs
  unfolding include_versions
  include_versions-HasVersion [] gs e = subst (All HasVersion) (ok-injective [] gs e) tt
  include_versions-HasVersion (s ∷ rest) gs e =
      elim (Option-cases (find (λ (v : SpotVersion). v.id) s.spot_version_id db.versions)) [
        | inl n ↦ absurd (ground arith)
        | inr (v, n) ↦ elim (Result-cases (include_versions rest db)) [
          | inr (thrown, m) ↦ absurd (ground arith)
          | inl (later, m) ↦
              let same : record { slot = s; version = v } ∷ later ≡ gs = ground arith in
              subst (All HasVersion) same (n, include_versions-HasVersion rest later m)
        ]
      ]

  list_spot-IsListing :
      (scores : List (Key × ℕ)) (g : GameSlot) (l : SpotListing)
      → HasVersion g
      → map_has g.slot.spot_version_id scores ≡ has_played visitor attempts g.slot.spot_version_id
      → list_spot payload parse scores g ≡ ok l
      → IsListing g.slot l
  unfolding list_spot
  list_spot-IsListing scores g l there played e =
      elim (Result-cases (read_public_spot parse (payload g.version.public_payload))) [
        | inr (thrown, n) ↦ absurd (ground arith)
        | inl (spot, n) ↦ record {
          version = g.version;
          of_slot = there;
          spot = spot;
          shown = n;
          spot_id = ground arith;
          version_id = ground arith;
          street = ground arith;
          hero = ground arith;
          sequence = ground arith;
          completed = ground (arith, played);
        }
      ]

  pub list_spots-Lists :
      (scores : List (Key × ℕ)) (slots : List GameSlot) (spots : List SpotListing)
      → All HasVersion slots
      → All
          (λ (g : GameSlot).
            map_has g.slot.spot_version_id scores
            ≡ has_played visitor attempts g.slot.spot_version_id)
          slots
      → list_spots payload parse scores slots ≡ ok spots
      → Lists (map (λ (g : GameSlot). g.slot) slots) spots
  unfolding list_spots
  list_spots-Lists scores [] spots there played e = subst (Lists []) (ok-injective [] spots e) tt
  list_spots-Lists scores (g ∷ rest) spots there played e =
      elim (Result-cases (list_spot payload parse scores g)) [
        | inr (thrown, n) ↦ absurd (ground arith)
        | inl (l, n) ↦ elim (Result-cases (list_spots payload parse scores rest)) [
          | inr (thrown, m) ↦ absurd (ground arith)
          | inl (later, m) ↦
              let same : l ∷ later ≡ spots = ground arith in
              subst (Lists (map (λ (x : GameSlot). x.slot) (g ∷ rest))) same (
                list_spot-IsListing scores g l there.0 played.0 n,
                list_spots-Lists scores rest later there.1 played.1 m,
              )
        ]
      ]

  pub slots_for-HasVersion :
      (date : ℕ) (gs : List GameSlot) → slots_for date db ≡ ok gs → All HasVersion gs
  unfolding slots_for
  slots_for-HasVersion date gs e = include_versions-HasVersion _ gs e

-- The slots of a day: they are the published ones of the date, each as often as it stands in the table,
-- with the smaller orders first.
pub record AreOfDay (date : ℕ) (db : Db) (day : List Slot) : Type 0 where
  pub every :
      (p : Slot → Bool)
      → count p day
        ≡ count
            (λ (s : Slot). (s.publication_date == date && is_published_slot s.status) && p s)
            db.slots
  pub ordered : Sorted (λ a b. leb a.slot_order b.slot_order) day

count-select :
    (date : ℕ) (p : Slot → Bool) (ss : List Slot)
    → count p (select (is_on date) ss)
      ≡ count (λ (s : Slot). (s.publication_date == date && is_published_slot s.status) && p s) ss
count-select date p [] = refl
count-select date p (s ∷ ss) = ground (arith, count-select date p ss)

pub slots_for-AreOfDay :
    (date : ℕ) (db : Db) (gs : List GameSlot)
    → slots_for date db ≡ ok gs
    → AreOfDay date db (map (λ (g : GameSlot). g.slot) gs)
slots_for-AreOfDay date db gs e =
    subst (AreOfDay date db) (sym (slots-slots_for date db gs e)) (record {
      every = λ p.
          count-sort_by in_order p (select (is_on date) db.slots) ∙ count-select date p db.slots;
      ordered =
          sort_by-Sorted in_order (λ a b q. ground (arith, q)) (λ a b c q r. ground (arith, q, r))
            (select (is_on date) db.slots);
    })
