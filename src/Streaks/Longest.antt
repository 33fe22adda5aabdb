-- ===== src/Streaks/Longest.antt =====
-- The longest run of days in `getStats` of src/application/public-api.ts.
use gto_poker_daily_spots_ba.Prelude.{
  ℕ, zero, suc, ◌+◌, ◌-◌, ◌≤◌, ◌<◌, max, ◌==◌, true, if◌then◌else◌, ◌≡◌, inl, inr, refl, List, [],
  ◌∷◌, Option, none, some, has, arith, Bool-cases, ==_iff, ==_self, leb, subst,
}
use gto_poker_daily_spots_ba.Streaks.{follows, best_from, best_streak, streak_back, current_streak}

abbrev pub ComesAfter : Option ℕ → ℕ → Type 0
ComesAfter none date = Unit {0}
ComesAfter (some p) date = p < date

-- The dates rise, and come after `previous`.
abbrev pub Rising : Option ℕ → List ℕ → Type 0
Rising previous [] = Unit {0}
Rising previous (date ∷ rest) = ComesAfter previous date × Rising (some date) rest

-- All of the `n` days from `start` on are among the dates.
abbrev pub IsRun : List ℕ → ℕ → ℕ → Type 0
IsRun dates start n = (k : ℕ) → start ≤ k → k < start + n → has k dates ≡ true

best_from-le :
    (best running : ℕ) (previous : Option ℕ) (dates : List ℕ)
    → best ≤ best_from best running previous dates
unfolding best_from
best_from-le best running previous [] = omega arith
best_from-le best running previous (d ∷ rest) = omega (
  arith,
  best_from-le (max best (if follows previous d then suc running else 1))
      (if follows previous d then suc running else 1) (some d) rest,
)

has-after : (p k : ℕ) (dates : List ℕ) → Rising (some p) dates → has k dates ≡ true → p < k
has-after p k [] r h = absurd (cc)
has-after p k (d ∷ rest) r h = elim (Bool-cases (d == k)) [
  | inl e ↦ ground (arith, r.0)
  | inr e ↦ omega (arith, r.0, has-after d k rest r.1 (rw e at h))
]

abbrev carried : Option ℕ → ℕ → ℕ → ℕ
carried previous start running = if follows previous start then running else 0

carried-zero :
    (previous : Option ℕ) (d start running : ℕ)
    → ComesAfter previous d
    → d < start
    → carried previous start running ≡ 0
carried-zero none d start running c lt = refl
carried-zero (some p) d start running c lt = ground arith

carried-le : (previous : Option ℕ) (start running : ℕ) → carried previous start running ≤ running
carried-le previous start running = ground arith

IsRun-tail :
    (d : ℕ) (rest : List ℕ) (start n : ℕ)
    → d < start
    → IsRun (d ∷ rest) start n
    → IsRun rest start n
IsRun-tail d rest start n lt h k lo hi = ground (arith, h k lo hi)

IsRun-next : (dates : List ℕ) (start n : ℕ) → IsRun dates start (suc n) → IsRun dates (suc start) n
IsRun-next dates start n h k lo hi = h k (omega arith) (omega arith)

-- A run that goes on from the days that the loop has just counted.
run-le :
    (dates : List ℕ) (best running start n : ℕ) (previous : Option ℕ)
    → running ≤ best
    → Rising previous dates
    → IsRun dates start n
    → carried previous start running + n ≤ best_from best running previous dates
unfolding best_from
run-le dates best running start zero previous le r h =
    omega (arith, carried-le previous start running, best_from-le best running previous dates)
run-le [] best running start (suc n) previous le r h =
    absurd (ground (arith, h start (omega arith) (omega arith)))
run-le (d ∷ rest) best running start (suc n) previous le r h = elim (Bool-cases (d == start)) [
  | inl e ↦
      let same : d ≡ start = (==_iff d start).0 e in
      let r' = if follows previous d then suc running else 1 in
      let i =
        run-le rest (max best r') r' (suc start) n (some d) (omega arith) r.1
          (IsRun-tail d rest (suc start) n (omega arith) (IsRun-next (d ∷ rest) start n h)) in
      ground (arith, i, same)
  | inr e ↦
      let later : d < start =
        has-after d start rest r.1 (ground (arith, h start (omega arith) (omega arith))) in
      let r' = if follows previous d then suc running else 1 in
      let i =
        run-le rest (max best r') r' start (suc n) (some d) (omega arith) r.1
          (IsRun-tail d rest start (suc n) later h) in
      omega (arith, i, carried-zero previous d start running r.0 later)
]

back-IsRun :
    (dates : List ℕ) (cursor k : ℕ)
    → suc cursor ≤ k + streak_back dates cursor
    → k ≤ cursor
    → has k dates ≡ true
unfolding streak_back
back-IsRun dates zero k h le = (let z : k ≡ 0 = omega arith in rw z (ground arith))
back-IsRun dates (suc cursor) k h le = elim (Bool-cases (has (suc cursor) dates)) [
  | inr e ↦ absurd (ground arith)
  | inl e ↦ elim (Bool-cases (suc cursor == k)) [
    | inl q ↦ subst (λ x. has x dates ≡ true) ((==_iff (suc cursor) k).0 q) e
    | inr q ↦ back-IsRun dates cursor k (ground arith) (ground arith)
  ]
]

streak_back-le : (dates : List ℕ) (cursor : ℕ) → streak_back dates cursor ≤ suc cursor
unfolding streak_back
streak_back-le dates zero = ground arith
streak_back-le dates (suc cursor) = ground (arith, streak_back-le dates cursor)

-- The run of `running` days that ends at `previous`.
abbrev IsEnding : List ℕ → Option ℕ → ℕ → Type 0
IsEnding dates none running = running ≡ 0
IsEnding dates (some p) running = (running ≤ suc p) × IsRun dates (suc p - running) running

IsEnding-next :
    (dates : List ℕ) (previous : Option ℕ) (running d : ℕ)
    → has d dates ≡ true
    → IsEnding dates previous running
    → IsEnding dates (some d) (if follows previous d then suc running else 1)
IsEnding-next dates none running d there e = (omega arith, only)
  where
    only : IsRun dates (suc d - 1) 1
    only k lo hi = subst (λ x. has x dates ≡ true) (omega arith) there
IsEnding-next dates (some p) running d there e = elim (Bool-cases (suc p == d)) [
  | inr q ↦ rw q (omega arith, only)
  | inl q ↦ let same : suc p ≡ d = (==_iff (suc p) d).0 q in rw q (omega (arith, e.0), longer same)
]
  where
    only : IsRun dates (suc d - 1) 1
    only k lo hi = subst (λ x. has x dates ≡ true) (omega arith) there

    longer : suc p ≡ d → IsRun dates (suc d - suc running) (suc running)
    longer same k lo hi = elim (Bool-cases (d == k)) [
      | inl q ↦ subst (λ x. has x dates ≡ true) ((==_iff d k).0 q) there
      | inr q ↦ e.1 k (ground arith) (ground (arith, e.0))
    ]

abbrev HasRun : List ℕ → ℕ → Type 0
HasRun dates n = (start : ℕ) × IsRun dates start n

HasRun-max : (dates : List ℕ) (m n : ℕ) → HasRun dates m → HasRun dates n → HasRun dates (max m n)
HasRun-max dates m n a b = elim (Bool-cases (leb m n)) [
  | inl q ↦ subst (HasRun dates) (ground arith) b
  | inr q ↦ subst (HasRun dates) (ground arith) a
]

best_from-HasRun :
    (dates rest : List ℕ) (best running : ℕ) (previous : Option ℕ)
    → ((k : ℕ) → has k rest ≡ true → has k dates ≡ true)
    → HasRun dates best
    → IsEnding dates previous running
    → HasRun dates (best_from best running previous rest)
unfolding best_from
best_from-HasRun dates [] best running previous within h e = h
best_from-HasRun dates (d ∷ rest) best running previous within h e =
    let r' = if follows previous d then suc running else 1 in
    let ending = IsEnding-next dates previous running d (within d (rw (==_self d) refl)) e in
    best_from-HasRun dates rest (max best r') r' (some d) (λ k q. within k (ground arith))
      (HasRun-max dates best r' h (suc d - r', ending.1)) ending

-- On dates that rise, the best streak is the length of a run of consecutive completed days, no such
-- run is longer, and the current streak is never longer than it either.
pub streaks_longest :
    (dates : List ℕ) (today : ℕ)
    → Rising none dates
    → ((start : ℕ) × IsRun dates start (best_streak dates))
      × ((start n : ℕ) → IsRun dates start n → n ≤ best_streak dates)
      × (current_streak dates today ≤ best_streak dates)
unfolding best_streak current_streak
streaks_longest dates today r =
    (attained, longest, back-le (if has today dates then today else today - 1))
  where
    attained : HasRun dates (best_from 0 0 none dates)
    attained =
        best_from-HasRun dates dates 0 0 none (λ k q. q) (0, λ k lo hi. absurd (omega arith)) refl

    longest : (start n : ℕ) → IsRun dates start n → n ≤ best_from 0 0 none dates
    longest start n h = omega (arith, run-le dates 0 0 start n none (omega arith) r h)

    back-le : (cursor : ℕ) → streak_back dates cursor ≤ best_from 0 0 none dates
    back-le cursor =
        longest (suc cursor - streak_back dates cursor) (streak_back dates cursor) (λ k lo hi.
          back-IsRun dates cursor k (omega (arith, streak_back-le dates cursor))
            (omega (arith, streak_back-le dates cursor)))
