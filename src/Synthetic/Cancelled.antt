-- ===== src/Synthetic/Cancelled.antt =====
-- The slots and the versions that scripts/retire-synthetic-spot.mjs changes, one at a time.
use gto_poker_daily_spots_ba.Prelude.{
  ◌==◌, ◌&&◌, Bool, true, false, ◌≡◌, refl, ◌∙◌, ap, inl, inr, List, [], ◌∷◌, Option, none, some,
  Key, Time, arith, bit, find, select, not, update_where, Bool-cases, ==_iff, if◌then◌else◌,
}
use gto_poker_daily_spots_ba.Store.{VersionStatus, SlotStatus, SpotVersion, Slot, is_active}
use gto_poker_daily_spots_ba.Publication.{mark_superseded, mark_cancelled}
use gto_poker_daily_spots_ba.Publication.Moves.{status_in, tally, holds}
use gto_poker_daily_spots_ba.Synthetic.{is_live, is_one_of, is_slot_of, is_live_of}

abbrev pub cancelled_slots : List Key → Time → List Slot → List Slot
cancelled_slots ids now = update_where (is_slot_of ids) (mark_cancelled now)

abbrev pub superseded_versions : List Key → Time → List SpotVersion → List SpotVersion
superseded_versions ids now = update_where (is_live_of ids) (mark_superseded now)

module _ (p : SlotStatus → Bool) (ids : List Key) (k : Key) (now : Time)
    (off : p SlotStatus.cancelled ≡ false)
    (on : (t : SlotStatus) → p t ≡ true → is_active t ≡ true) where
  -- No active slot is left to the versions in the list.
  pub tally-cancelled :
      (slots : List Slot) → is_one_of ids k ≡ true → tally p k (cancelled_slots ids now slots) ≡ 0
  tally-cancelled [] one = refl
  tally-cancelled (s ∷ rest) one = elim (Bool-cases (is_slot_of ids s)) [
    | inl cancels ↦ rw (cancels, off) (omega (arith, tally-cancelled rest one))
    | inr keeps ↦ elim (Bool-cases (s.spot_version_id == k)) [
      | inr e ↦ rw keeps (ground (arith, e, tally-cancelled rest one))
      | inl e ↦
          let own = ap (is_one_of ids) ((==_iff s.spot_version_id k).0 e) ∙ one in
          let idle : p s.status ≡ false = ground (arith, on s.status, rw own at keeps) in
          rw (keeps, idle) (omega (arith, tally-cancelled rest one))
    ]
  ]

  -- The other versions keep their slots.
  pub tally-kept :
      (slots : List Slot)
      → is_one_of ids k ≡ false
      → tally p k (cancelled_slots ids now slots) ≡ tally p k slots
  tally-kept [] other = refl
  tally-kept (s ∷ rest) other = elim (Bool-cases (s.spot_version_id == k)) [
    | inl e ↦
        let own = ap (is_one_of ids) ((==_iff s.spot_version_id k).0 e) ∙ other in
        let keeps : is_slot_of ids s ≡ false = ground (arith, own) in
        rw keeps (ground (arith, tally-kept rest other))
    | inr e ↦ elim (Bool-cases (is_slot_of ids s)) [
      | inl cancels ↦ rw cancels (ground (arith, e, off, tally-kept rest other))
      | inr keeps ↦ rw keeps (ground (arith, tally-kept rest other))
    ]
  ]

-- The status after: a live version in the list is superseded.
abbrev pub retired_status : Bool → Option VersionStatus → Option VersionStatus
retired_status one none = none
retired_status one (some a) = if is_live a && one then some VersionStatus.superseded else some a

pub status-superseded :
    (ids : List Key) (k : Key) (now : Time) (versions : List SpotVersion)
    → status_in k (superseded_versions ids now versions)
      ≡ retired_status (is_one_of ids k) (status_in k versions)
unfolding find
status-superseded ids k now [] = refl
status-superseded ids k now (v ∷ rest) = elim (Bool-cases (v.id == k)) [
  | inl e ↦
      let own = ap (is_one_of ids) ((==_iff v.id k).0 e) in
      elim (Bool-cases (is_live_of ids v)) [
        | inl live ↦ rw live (rw e (ground (arith, own, live)))
        | inr dead ↦ rw dead (rw e (ground (arith, own, dead)))
      ]
  | inr e ↦ elim (Bool-cases (is_live_of ids v)) [
    | inl live ↦ rw live (rw e (status-superseded ids k now rest))
    | inr dead ↦ rw dead (rw e (status-superseded ids k now rest))
  ]
]

-- The status of a version that the script has been over, and of one that it has not.
pub retired-dead :
    (o : Option VersionStatus) (a : VersionStatus)
    → retired_status true o ≡ some a
    → is_live a ≡ false
retired-dead none a e = absurd (cc)
retired-dead (some b) a e = elim (Bool-cases (is_live b)) [
  | inl live ↦ ground (arith, rw live at e)
  | inr dead ↦ ground (arith, rw dead at e, dead)
]

pub retired-kept : (o : Option VersionStatus) → retired_status false o ≡ o
retired-kept none = refl
retired-kept (some a) = ground arith

pub retired-idle :
    (q : VersionStatus → Bool) (o : Option VersionStatus)
    → ((a : VersionStatus) → is_live a ≡ false → q a ≡ false)
    → bit (holds q (retired_status true o)) ≡ 0
retired-idle q none dead = refl
retired-idle q (some b) dead = elim (Bool-cases (is_live b)) [
  | inl live ↦ rw (live, dead VersionStatus.superseded refl) refl
  | inr e ↦ rw (e, dead b e) refl
]

-- A version out of the list keeps its row.
pub find-superseded :
    (ids : List Key) (k : Key) (now : Time) (versions : List SpotVersion)
    → is_one_of ids k ≡ false
    → find (λ (v : SpotVersion). v.id) k (superseded_versions ids now versions)
      ≡ find (λ (v : SpotVersion). v.id) k versions
unfolding find
find-superseded ids k now [] other = refl
find-superseded ids k now (v ∷ rest) other = elim (Bool-cases (v.id == k)) [
  | inl e ↦
      let own = ap (is_one_of ids) ((==_iff v.id k).0 e) ∙ other in
      let keeps : is_live_of ids v ≡ false = ground (arith, own) in rw (keeps, e) refl
  | inr e ↦ elim (Bool-cases (is_live_of ids v)) [
    | inl live ↦ rw live (rw e (find-superseded ids k now rest other))
    | inr dead ↦ rw dead (rw e (find-superseded ids k now rest other))
  ]
]

-- The slots of the versions out of the list keep their rows.
abbrev pub other_slots : List Key → List Slot → List Slot
other_slots ids = select (λ (s : Slot). not (is_one_of ids s.spot_version_id))

pub other_slots-cancelled :
    (ids : List Key) (now : Time) (slots : List Slot)
    → other_slots ids (cancelled_slots ids now slots) ≡ other_slots ids slots
other_slots-cancelled ids now [] = refl
other_slots-cancelled ids now (s ∷ rest) = elim (Bool-cases (is_one_of ids s.spot_version_id)) [
  | inr other ↦
      let keeps : is_slot_of ids s ≡ false = ground (arith, other) in
      rw (keeps, other) (ap (λ r. s ∷ r) (other_slots-cancelled ids now rest))
  | inl own ↦ elim (Bool-cases (is_slot_of ids s)) [
    | inl cancels ↦ rw (cancels, own) (other_slots-cancelled ids now rest)
    | inr keeps ↦ rw (keeps, own) (other_slots-cancelled ids now rest)
  ]
]

pub retired-live :
    (o : Option VersionStatus) (a : VersionStatus)
    → o ≡ some a
    → retired_status true o ≡ (if is_live a then some VersionStatus.superseded else some a)
retired-live o a e = rw e (ground arith)
