-- ===== src/PublicSpot/Seats.antt =====
-- The positions that `readPublicSpot` of src/application/public-api.ts takes from the actions.
use gto_poker_daily_spots_ba.Prelude.{
  ◌⊎◌, subst, not, false, ◌≡◌, refl, ◌∙◌, ap, sym, inl, inr, List, [], ◌∷◌, ok, select, Text,
  same_text, same_text-eq, same_text_self, to_upper, to_upper_again, All, arith, Bool-cases,
}
use gto_poker_daily_spots_ba.PublicSpot.{
  Actor, ip, oop, same_actor, PreflopAction, Positions, position_of, with_position, without_repeats,
  acted_positions, settle, reconcile,
}

first_upper :
    (actor : Actor) (actions : List PreflopAction) (first : Text) (rest : List Text)
    → without_repeats (acted_positions actor actions) ≡ first ∷ rest
    → to_upper first ≡ first
unfolding without_repeats
first_upper actor [] first rest e = absurd (cc)
first_upper actor (a ∷ actions) first rest e = elim (Bool-cases (same_actor a.actor actor)) [
  | inl q ↦
      let head : to_upper a.position ≡ first = ground arith in
      ap to_upper (sym head) ∙ to_upper_again a.position ∙ head
  | inr q ↦ first_upper actor actions first rest (ground arith)
]

keep_position : (actor : Actor) (p : Positions) → with_position actor (position_of actor p) p ≡ p
keep_position ip p = refl
keep_position oop p = refl

position_of-with_position :
    (actor : Actor) (t : Text) (p : Positions) → position_of actor (with_position actor t p) ≡ t
position_of-with_position ip t p = refl
position_of-with_position oop t p = refl

settle_again :
    (actor : Actor) (p p' q : Positions) (texts : List Text)
    → ((first : Text) (rest : List Text) → texts ≡ first ∷ rest → to_upper first ≡ first)
    → settle actor p texts ≡ ok p'
    → position_of actor q ≡ position_of actor p'
    → settle actor q texts ≡ ok q
unfolding settle
settle_again actor p p' q [] up e same = refl
settle_again actor p p' q (first ∷ second ∷ rest) up e same = absurd (cc)
settle_again actor p p' q (first ∷ []) up e same = elim (Bool-cases (same_text first [])) [
  | inl none ↦ rw none refl
  | inr some ↦
      let placed : with_position actor first p ≡ p' = ground arith in
      let there : position_of actor q ≡ first =
        same ∙ ap (position_of actor) (sym placed) ∙ position_of-with_position actor first p in
      let kept : with_position actor first q ≡ q =
        ap (λ t. with_position actor t q) (sym there) ∙ keep_position actor q in
      rw (some, there, up first [] refl, same_text_self first, kept) (ground arith)
]

pub reconcile_again :
    (actor : Actor) (actions : List PreflopAction) (p p' q : Positions)
    → reconcile actor actions p ≡ ok p'
    → position_of actor q ≡ position_of actor p'
    → reconcile actor actions q ≡ ok q
unfolding reconcile
reconcile_again actor actions p p' q e same =
    settle_again actor p p' q (without_repeats (acted_positions actor actions))
      (first_upper actor actions) e same

-- The texts that are not empty are the actor's position.
abbrev Agrees : Actor → Positions → Text → Type 0
Agrees actor p t = (t ≡ []) ⊎ (position_of actor p ≡ t)

settle-Agrees :
    (actor : Actor) (p p' : Positions) (texts : List Text)
    → settle actor p texts ≡ ok p'
    → All (Agrees actor p') texts
unfolding settle
settle-Agrees actor p p' [] e = tt
settle-Agrees actor p p' (first ∷ second ∷ rest) e = absurd (cc)
settle-Agrees actor p p' (first ∷ []) e = elim (Bool-cases (same_text first [])) [
  | inl none ↦ (inl (same_text-eq first [] none), tt)
  | inr some ↦
      let placed : with_position actor first p ≡ p' = ground arith in
      (inr (ap (position_of actor) (sym placed) ∙ position_of-with_position actor first p), tt)
]

All-unselect :
    (P : Text → Type 0) (t : Text) (ts : List Text)
    → P t
    → All P (select (λ u. not (same_text u t)) ts)
    → All P ts
All-unselect P t [] h all = tt
All-unselect P t (u ∷ us) h all = elim (Bool-cases (same_text u t)) [
  | inl same ↦ (subst P (sym (same_text-eq u t same)) h, All-unselect P t us h (rw same at all))
  | inr other ↦ ((rw other at all).0, All-unselect P t us h ((rw other at all).1))
]

pub All-with_repeats : (P : Text → Type 0) (ts : List Text) → All P (without_repeats ts) → All P ts
unfolding without_repeats
All-with_repeats P [] all = tt
All-with_repeats P (t ∷ ts) all =
    (all.0, All-with_repeats P ts (All-unselect P t (without_repeats ts) all.0 all.1))

-- Each action of the actor that names a position names the actor's.
abbrev pub Plays : Actor → Text → PreflopAction → Type 0
Plays actor t a =
    (same_actor a.actor actor ≡ false) ⊎ (to_upper a.position ≡ []) ⊎ (t ≡ to_upper a.position)

abbrev pub PlaysAt : Actor → Positions → PreflopAction → Type 0
PlaysAt actor p = Plays actor (position_of actor p)

acted-PlaysAt :
    (actor : Actor) (p : Positions) (actions : List PreflopAction)
    → All (Agrees actor p) (acted_positions actor actions)
    → All (PlaysAt actor p) actions
acted-PlaysAt actor p [] all = tt
acted-PlaysAt actor p (a ∷ actions) all = elim (Bool-cases (same_actor a.actor actor)) [
  | inl q ↦ (inr ((rw q at all).0), acted-PlaysAt actor p actions ((rw q at all).1))
  | inr q ↦ (inl q, acted-PlaysAt actor p actions (rw q at all))
]

pub reconcile-PlaysAt :
    (actor : Actor) (actions : List PreflopAction) (p p' : Positions)
    → reconcile actor actions p ≡ ok p'
    → All (PlaysAt actor p') actions
unfolding reconcile
reconcile-PlaysAt actor actions p p' e = acted-PlaysAt actor p' actions (
    All-with_repeats (Agrees actor p') (acted_positions actor actions)
      (settle-Agrees actor p p' (without_repeats (acted_positions actor actions)) e))

settle-ip :
    (p p' : Positions) (texts : List Text)
    → settle oop p texts ≡ ok p'
    → position_of ip p ≡ position_of ip p'
unfolding settle
settle-ip p p' [] e = ground arith
settle-ip p p' (first ∷ second ∷ rest) e = absurd (cc)
settle-ip p p' (first ∷ []) e = ground arith

pub reconcile-ip :
    (actions : List PreflopAction) (p p' : Positions)
    → reconcile oop actions p ≡ ok p'
    → position_of ip p ≡ position_of ip p'
unfolding reconcile
reconcile-ip actions p p' e = settle-ip p p' (without_repeats (acted_positions oop actions)) e
