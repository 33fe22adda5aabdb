-- ===== src/Requests/Newest.antt =====
-- The version that a spot is served from.
use gto_poker_daily_spots_ba.Prelude.{
  ◌≤◌, ltb, true, false, ◌≡◌, subst, inl, inr, List, [], ◌∷◌, none, some, Key, All, All-map, arith,
  Bool-cases, Option-cases,
}
use gto_poker_daily_spots_ba.Store.{SpotVersion}
use gto_poker_daily_spots_ba.Requests.{is_served_of, newest_published}

-- The version is published, of this spot, and no other such version has a greater number.
pub record IsNewest (spot_id : Key) (versions : List SpotVersion) (w : SpotVersion) : Type 0 where
  pub serves : is_served_of spot_id w ≡ true
  pub newest : All (λ v. is_served_of spot_id v ≡ true → v.version ≤ w.version) versions

newest-none :
    (spot_id : Key) (versions : List SpotVersion)
    → newest_published spot_id versions ≡ none
    → All (λ v. is_served_of spot_id v ≡ false) versions
unfolding newest_published
newest-none spot_id [] e = tt
newest-none spot_id (v ∷ rest) e = elim (Bool-cases (is_served_of spot_id v)) [
  | inr other ↦ (other, newest-none spot_id rest (rw (newest_published, other) at e))
  | inl own ↦ elim (Option-cases (newest_published spot_id rest)) [
    | inl f ↦ absurd (cc (rw (newest_published, own, f) at e))
    | inr (w, f) ↦ elim (Bool-cases (ltb v.version w.version)) [
      | inl q ↦ absurd (cc (rw (newest_published, own, f, q) at e))
      | inr q ↦ absurd (cc (rw (newest_published, own, f, q) at e))
    ]
  ]
]

pub newest_published-IsNewest :
    (spot_id : Key) (versions : List SpotVersion) (w : SpotVersion)
    → newest_published spot_id versions ≡ some w
    → IsNewest spot_id versions w
unfolding newest_published
newest_published-IsNewest spot_id [] w e = absurd (cc)
newest_published-IsNewest spot_id (v ∷ rest) w e = elim (Bool-cases (is_served_of spot_id v)) [
  | inr other ↦
      let r = newest_published-IsNewest spot_id rest w (rw (newest_published, other) at e) in
      record { serves = r.serves; newest = (λ own. absurd (cc (own, other)), r.newest) }
  | inl own ↦ elim (Option-cases (newest_published spot_id rest)) [
    | inl f ↦
        let same : v ≡ w = ground (arith, rw (newest_published, own, f) at e) in
        subst (IsNewest spot_id (v ∷ rest)) same (record {
          serves = own;
          newest = (
            λ h. omega arith,
            All-map (λ x. is_served_of spot_id x ≡ false)
                (λ x. is_served_of spot_id x ≡ true → x.version ≤ v.version) rest
                (λ x no yes. absurd (cc (no, yes))) (newest-none spot_id rest f),
          );
        })
    | inr (u, f) ↦
        let r = newest_published-IsNewest spot_id rest u f in
        elim (Bool-cases (ltb v.version u.version)) [
          | inl q ↦
              let same : u ≡ w = ground (arith, rw (newest_published, own, f, q) at e) in
              subst (IsNewest spot_id (v ∷ rest)) same
                (record { serves = r.serves; newest = (λ h. ground (arith, q), r.newest) })
          | inr q ↦
              let same : v ≡ w = ground (arith, rw (newest_published, own, f, q) at e) in
              subst (IsNewest spot_id (v ∷ rest)) same (record {
                serves = own;
                newest = (
                  λ h. omega arith,
                  All-map (λ x. is_served_of spot_id x ≡ true → x.version ≤ u.version)
                      (λ x. is_served_of spot_id x ≡ true → x.version ≤ v.version) rest
                      (λ x le yes. ground (arith, q, le yes)) r.newest,
                );
              })
        ]
  ]
]
