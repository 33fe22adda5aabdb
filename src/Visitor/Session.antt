-- ===== src/Visitor/Session.antt =====
-- The session that `resolveVisitor` of src/http/visitor.ts leaves a guest with.
use gto_poker_daily_spots_ba.Prelude.{
  suc, ◌<◌, ◌==◌, not, ◌&&◌, true, false, Result, ok, ◌≡◌, refl, ◌∙◌, ◌⊎◌, inl, inr, List, [], ◌∷◌,
  ◌++◌, Option, none, some, Key, Time, find, update, find-update, find-append, id-find, All,
  All-map, DistinctKeys, find-cons, arith, Bool-cases, Option-cases, ==_self, subst,
}
use gto_poker_daily_spots_ba.Visitor.{
  GuestSession, guest, VisitorTables, Resolved, session_id, session_hash, is_active_session, is_old,
  new_session, touch, revoke, first_session, rotate_session, keep_session, existing_session,
  resolve_visitor, is_taken, create_session, VisitorError,
}

-- Primary keys differ, and the ones to come are new.
pub record AreKeyed (t : VisitorTables) : Type 0 where
  pub distinct : DistinctKeys session_id t.sessions
  pub new : All (λ s. s.id < t.next_id) t.sessions

-- The guest's session is there, is active, and holds the hash of the token that the guest has.
pub record IsSession (hash : Key → Key) (supplied : Option Key) (now : Time) (t : VisitorTables)
    (r : Resolved) : Type 0 where
  pub session : GuestSession
  pub visitor : r.visitor ≡ guest session.identity_id session.id
  pub row : find session_id session.id r.tables.sessions ≡ some session
  pub active : is_active_session now session ≡ true
  pub same_identity :
      (s : GuestSession)
      → existing_session hash supplied t ≡ some s
      → session.identity_id ≡ s.identity_id
  pub token :
      ((token : Key) × (r.cookie ≡ some token) × (session.token_hash ≡ hash token))
      ⊎ ((r.cookie ≡ none)
          × (token : Key) × (supplied ≡ some token)
          × (session.token_hash ≡ hash token))

find-row :
    (k : Key) (xs : List GuestSession) (x : GuestSession)
    → DistinctKeys session_id xs
    → find session_hash k xs ≡ some x
    → find session_id x.id xs ≡ some x
unfolding find
find-row k [] x d e = absurd (cc)
find-row k (y ∷ xs) x d e = elim (Bool-cases (y.token_hash == k)) [
  | inl q ↦
      (let same : y ≡ x = ground arith in
        subst (λ z. find session_id z.id (y ∷ xs) ≡ some z) same (rw (find, ==_self y.id) refl))
  | inr q ↦ find-cons session_id y xs x d.0 (find-row k xs x d.1 (rw q at e))
]

find-new : (k : Key) (xs : List GuestSession) → All (λ s. s.id < k) xs → find session_id k xs ≡ none
unfolding find
find-new k [] h = refl
find-new k (x ∷ xs) h = ground (arith, h.0, find-new k xs h.1)

-- A row behind others with smaller keys.
find-last :
    (xs : List GuestSession) (s : GuestSession)
    → find session_id s.id xs ≡ none
    → find session_id s.id (xs ++ s ∷ []) ≡ some s
unfolding find
find-last xs s e = find-append session_id s.id xs (s ∷ []) ∙ rw (e, ==_self s.id) refl

find-updated-new :
    (k j : Key) (f : GuestSession → GuestSession) (xs : List GuestSession)
    → ((x : GuestSession) → (f x).id ≡ x.id)
    → find session_id k xs ≡ none
    → find session_id k (update session_id j f xs) ≡ none
find-updated-new k j f xs keep e = ground (arith, find-update session_id k j f xs keep)

-- No session has the hash, in a row that is there or that is changed.
taken-updated :
    (h : Key) (k : Key) (now : Time) (xs : List GuestSession)
    → is_taken h (update session_id k (revoke now) xs) ≡ is_taken h xs
unfolding update
taken-updated h k now [] = refl
taken-updated h k now (x ∷ xs) = ground (arith, taken-updated h k now xs)

-- A new row whose token's hash no row has is stored, and found under its key.
created :
    (s : GuestSession) (xs : List GuestSession)
    → is_taken s.token_hash xs ≡ false
    → create_session s xs ≡ ok (xs ++ s ∷ [])
unfolding create_session
created s xs new = rw (create_session, new) refl

abbrev pub Gives :
    (Key → Key) → Option Key → Time → VisitorTables → Result VisitorError Resolved → Type 0
Gives hash supplied now t r = (out : Resolved) × (r ≡ ok out) × IsSession hash supplied now t out

kept :
    (hash : Key → Key) (tok : Key) (now : Time) (t : VisitorTables) (s : GuestSession)
    → AreKeyed t
    → find session_hash (hash tok) t.sessions ≡ some s
    → is_active_session now s ≡ true
    → IsSession hash (some tok) now t (keep_session now s t)
unfolding keep_session existing_session
kept hash tok now t s k e a = record {
  session = touch now s;
  visitor = refl;
  row =
      find-update session_id s.id s.id (touch now) t.sessions (λ x. refl)
      ∙ rw (==_self s.id, find-row (hash tok) t.sessions s k.distinct e) refl;
  active = a;
  same_identity = λ x q. ground arith;
  token = inr (refl, tok, refl, id-find session_hash (hash tok) t.sessions s e);
}

rotated :
    (hash : Key → Key) (supplied : Option Key) (token : Key) (now : Time) (t : VisitorTables)
    (s : GuestSession)
    → AreKeyed t
    → is_taken (hash token) t.sessions ≡ false
    → existing_session hash supplied t ≡ some s
    → Gives hash supplied now t (rotate_session hash token now s t)
unfolding rotate_session
rotated hash supplied token now t s k new e =
    let row = new_session t.next_id s.identity_id (hash token) now (some s.id) in
    let others = update session_id s.id (revoke now) t.sessions in
    let free : is_taken (hash token) others ≡ false =
      taken-updated (hash token) s.id now t.sessions ∙ new in
    (
      record {
        visitor = guest s.identity_id t.next_id;
        cookie = some token;
        tables = record t { sessions = others ++ row ∷ []; next_id = suc t.next_id };
      },
      rw (rotate_session, created row others free) refl,
      record {
        session = row;
        visitor = refl;
        row = find-last others row (
            find-updated-new t.next_id s.id (revoke now) t.sessions (λ x. refl)
              (find-new t.next_id t.sessions k.new));
        active = ground arith;
        same_identity = λ x q. ground arith;
        token = inl (token, refl, refl);
      },
    )

started :
    (hash : Key → Key) (supplied : Option Key) (token : Key) (now : Time) (t : VisitorTables)
    → AreKeyed t
    → is_taken (hash token) t.sessions ≡ false
    → existing_session hash supplied t ≡ none
    → Gives hash supplied now t (first_session hash token now t)
unfolding first_session
started hash supplied token now t k new e =
    let row = new_session (suc t.next_id) t.next_id (hash token) now none in
    (
      record {
        visitor = guest t.next_id (suc t.next_id);
        cookie = some token;
        tables = record t {
          identities = t.identities ++ t.next_id ∷ [];
          sessions = t.sessions ++ row ∷ [];
          next_id = suc (suc t.next_id);
        };
      },
      rw (first_session, created row t.sessions new) refl,
      record {
        session = row;
        visitor = refl;
        row = find-last t.sessions row (
            find-new (suc t.next_id) t.sessions
              (All-map _ _ t.sessions (λ s q. omega arith) k.new));
        active = ground arith;
        same_identity = λ x q. absurd (ground arith);
        token = inl (token, refl, refl);
      },
    )

-- Where no two sessions have one key, new keys are fresh, and no session has the hash of the random
-- token, a guest always ends up with an active session, whose token it has: the supplied one, or the
-- one in the cookie that is set. If a session had the supplied token, the guest keeps its identity, also
-- when that session was revoked or has expired.
pub resolve-IsSession :
    (hash : Key → Key) (supplied : Option Key) (token : Key) (now : Time) (t : VisitorTables)
    → AreKeyed t
    → is_taken (hash token) t.sessions ≡ false
    → (r : Resolved) × (resolve_visitor hash none supplied token now t ≡ ok r)
      × IsSession hash supplied now t r
unfolding resolve_visitor
resolve-IsSession hash none token now t k new = started hash none token now t k new refl
resolve-IsSession hash (some tok) token now t k new =
    elim (Option-cases (find session_hash (hash tok) t.sessions)) [
      | inl e ↦
          rw (resolve_visitor, existing_session, e) (started hash (some tok) token now t k new e)
      | inr (s, e) ↦ elim (Bool-cases (is_active_session now s && not (is_old now s))) [
        | inl q ↦
            rw (resolve_visitor, existing_session, e, q)
              (keep_session now s t, refl, kept hash tok now t s k e (ground arith))
        | inr q ↦
            rw (resolve_visitor, existing_session, e, q)
              (rotated hash (some tok) token now t s k new e)
      ]
    ]
