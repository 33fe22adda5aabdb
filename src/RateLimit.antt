-- ===== src/RateLimit.antt =====
-- The limit on attempt submissions in src/http/public-router.ts: a window per client address.
use gto_poker_daily_spots_ba.Prelude.{
  ℕ, suc, ◌+◌, ◌-◌, ◌≤◌, ◌==◌, ltb, leb, ◌≡◌, refl, inl, inr, Bool, true, false, List, [], ◌∷◌,
  Option, none, some, Key, Time, ◌∙◌, arith, if◌then◌else◌, Bool-cases, ==_self, ==_iff,
}

pub record Window : Type 0 where
  pub count : ℕ
  pub reset_at : Time

-- `Map.get` and `Map.set`, over an association list.
unfoldable pub lookup : Key → List (Key × Window) → Option Window
lookup k [] = none
lookup k ((j, w) ∷ rest) = if j == k then some w else lookup k rest

pub store : Key → Window → List (Key × Window) → List (Key × Window)
store k w [] = (k, w) ∷ []
store k w ((j, v) ∷ rest) = if j == k then (k, w) ∷ rest else (j, v) ∷ store k w rest

-- The entry after one more submission at `now`.
pub next_window : Time → Option Window → Window
next_window now none = record { count = 1; reset_at = now + 60000 }
next_window now (some w) =
    if leb w.reset_at now
    then record { count = 1; reset_at = now + 60000 }
    else record w { count = suc w.count }

-- One submission of the client `key`: whether it is let through, and the new map.
pub admit : Key → Time → List (Key × Window) → Bool × List (Key × Window)
unfolding next_window
admit key now rate =
    let current = next_window now (lookup key rate) in
    (leb current.count 60, store key current rate)

-- The submissions of a list of clients and times, in order, each with whether it is let through.
pub admit_all : List (Key × Time) → List (Key × Window) → List (Key × Time × Bool)
admit_all [] rate = []
admit_all ((k, now) ∷ rest) rate =
    let (passed, rate') = admit k now rate in (k, now, passed) ∷ admit_all rest rate'

-- How many submissions of client `k` are let through before time `until`.
abbrev pub passed_before : Key → Time → List (Key × Time × Bool) → ℕ
passed_before k until [] = 0
passed_before k until ((j, now, passed) ∷ rest) =
    (if j == k then (if passed then (if ltb now until then 1 else 0) else 0) else 0)
    + passed_before k until rest

lookup-store :
    (j k : Key) (w : Window) (rate : List (Key × Window))
    → lookup j (store k w rate) ≡ (if k == j then some w else lookup j rate)
unfolding lookup store
lookup-store j k w [] = refl
lookup-store j k w ((i, v) ∷ rest) = ground (arith, lookup-store j k w rest)

-- What is left of a window of 60 submissions.
abbrev pub room : Window → ℕ
room w = 60 - w.count

-- The clock does not run backwards: no call is earlier than the one before it.
unfoldable pub Rising : Time → List (Key × Time) → Type 0
Rising t [] = Unit
Rising t ((k, now) ∷ rest) = (t ≤ now) × Rising now rest

passed-none :
    (k : Key) (until t : Time) (calls : List (Key × Time)) (rate : List (Key × Window))
    → until ≤ t
    → Rising t calls
    → passed_before k until (admit_all calls rate) ≡ 0
unfolding admit_all admit Rising
passed-none k until t [] rate u r = refl
passed-none k until t ((j, now) ∷ rest) rate u (le, r) =
    ground (
      arith,
      passed-none k until now rest (store j (next_window now (lookup j rate)) rate),
      u,
      le,
      r,
    )

stored :
    (j k : Key) (v : Window) (rate : List (Key × Window))
    → (j == k) ≡ true
    → lookup k (store j v rate) ≡ some v
stored j k v rate q = lookup-store k j v rate ∙ rw q refl

untouched :
    (j k : Key) (v w : Window) (rate : List (Key × Window))
    → (j == k) ≡ false
    → lookup k rate ≡ some w
    → lookup k (store j v rate) ≡ some w
untouched j k v w rate q e = lookup-store k j v rate ∙ rw q e

found :
    (j k : Key) (w : Window) (rate : List (Key × Window))
    → (j == k) ≡ true
    → lookup k rate ≡ some w
    → lookup j rate ≡ some w
found j k w rate q e = rw ((==_iff j k).0 q) e

abbrev longer : Window → Window
longer w = record w { count = suc w.count }

passed-le-room :
    (calls : List (Key × Time)) (rate : List (Key × Window)) (t : Time) (k : Key) (w : Window)
    → Rising t calls
    → lookup k rate ≡ some w
    → passed_before k w.reset_at (admit_all calls rate) ≤ room w
unfolding admit_all admit Rising next_window
passed-le-room [] rate t k w r e = omega arith
passed-le-room ((j, now) ∷ rest) rate t k w (le, r) e = elim (Bool-cases (j == k)) [
  | inr q ↦ ground (
    arith,
    passed-le-room rest (store j (next_window now (lookup j rate)) rate) now k w r
        (untouched j k (next_window now (lookup j rate)) w rate q e),
  )
  | inl q ↦ elim (Bool-cases (leb w.reset_at now)) [
    | inl p ↦ ground (
      arith,
      passed-none k w.reset_at now rest (store j (next_window now (lookup j rate)) rate)
          (ground arith) r,
    )
    | inr p ↦
        let n : next_window now (lookup j rate) ≡ longer w = rw (found j k w rate q e, p) refl in
        ground (
          arith,
          passed-le-room rest (store j (longer w) rate) now k (longer w) r
              (stored j k (longer w) rate q),
          n,
        )
  ]
]

-- On a clock that does not run backwards, a client without an open window has at most 60 attempts
-- let through in the minute after any moment, however many it sends and however the other
-- clients' requests come in between.
pub passed-le-60 :
    (key : Key) (now : Time) (calls : List (Key × Time)) (rate : List (Key × Window))
    → lookup key rate ≡ none
    → Rising now calls
    → passed_before key (now + 60000) (admit_all ((key, now) ∷ calls) rate) ≤ 60
unfolding admit_all admit next_window
passed-le-60 key now calls rate e r = rw e (
    ground (
      arith,
      passed-le-room calls (store key (record { count = 1; reset_at = now + 60000 }) rate) now key
          (record { count = 1; reset_at = now + 60000 }) r
          (stored key key (record { count = 1; reset_at = now + 60000 }) rate (==_self key)),
    ))
