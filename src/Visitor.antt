-- ===== src/Visitor.antt =====
-- `resolveVisitor` of src/http/visitor.ts: who a request comes from, and the sessions of guests. The
-- hash of tokens and the random token are parameters.
pub mod Session
mod Examples
use gto_poker_daily_spots_ba.Prelude.{
  ℕ, suc, ◌+◌, ◌==◌, ltb, not, ◌&&◌, Bool, true, false, if◌then◌else◌, List, [], ◌∷◌, ◌++◌, Option,
  none, some, Key, Time, Result, ok, err, guard, ◌>>=◌, ◌>>◌, any, find, update,
}

pub record Account : Type 0 where
  pub id : Key
  pub subject : Key
  pub email : Option Key
  pub roles : List Key

pub record GuestSession : Type 0 where
  pub id : Key
  pub identity_id : Key
  pub token_hash : Key
  pub created_at : Time
  pub last_seen_at : Time
  pub expires_at : Time
  pub revoked_at : Option Time
  pub rotation_of_id : Option Key

-- What the identity provider has verified.
pub record Principal : Type 0 where
  pub subject : Key
  pub email : Option Key
  pub roles : List Key

pub data Visitor : Type 0 where
  guest : Key → Key → Visitor
  account : Key → Visitor

-- `next_id` supplies the generated primary keys.
pub record VisitorTables : Type 0 where
  pub accounts : List Account
  pub identities : List Key
  pub sessions : List GuestSession
  pub next_id : Key

-- The unique index on the hashes of tokens.
pub data VisitorError : Type 0 where
  unique_violation : VisitorError

-- The visitor, and the token of the cookie that is set, if one is.
pub record Resolved : Type 0 where
  pub visitor : Visitor
  pub cookie : Option Key
  pub tables : VisitorTables

abbrev pub account_subject : Account → Key
account_subject a = a.subject

abbrev pub session_id : GuestSession → Key
session_id s = s.id

abbrev pub session_hash : GuestSession → Key
session_hash s = s.token_hash

-- `account.upsert`.
pub upsert_account : Principal → VisitorTables → Resolved
upsert_account p t = elim (find account_subject p.subject t.accounts) [
  | some a ↦ record {
    visitor = account a.id;
    cookie = none;
    tables = record t {
      accounts =
          update account_subject p.subject (λ x. record x { email = p.email; roles = p.roles })
            t.accounts;
    };
  }
  | none ↦ record {
    visitor = account t.next_id;
    cookie = none;
    tables = record t {
      accounts =
          t.accounts
          ++ record { id = t.next_id; subject = p.subject; email = p.email; roles = p.roles } ∷ [];
      next_id = suc t.next_id;
    };
  }
]

abbrev pub is_unset : Option Time → Bool
is_unset none = true
is_unset (some t) = false

abbrev pub is_active_session : Time → GuestSession → Bool
is_active_session now s = is_unset s.revoked_at && ltb now s.expires_at

-- More than 30 days old.
abbrev pub is_old : Time → GuestSession → Bool
is_old now s = ltb (s.created_at + 2592000000) now

-- A session of 365 days.
abbrev pub new_session : Key → Key → Key → Time → Option Key → GuestSession
new_session id identity hash now rotation = record {
  id = id;
  identity_id = identity;
  token_hash = hash;
  created_at = now;
  last_seen_at = now;
  expires_at = now + 31536000000;
  revoked_at = none;
  rotation_of_id = rotation;
}

abbrev pub touch : Time → GuestSession → GuestSession
touch now x = record x { last_seen_at = now }

abbrev pub revoke : Time → GuestSession → GuestSession
revoke now x = record x { revoked_at = some now; last_seen_at = now }

abbrev pub is_taken : Key → List GuestSession → Bool
is_taken k sessions = any (λ (s : GuestSession). s.token_hash == k) sessions

-- `guestSession.create`.
unfoldable pub create_session :
    GuestSession → List GuestSession → Result VisitorError (List GuestSession)
create_session s sessions = do
  guard (not (is_taken s.token_hash sessions)) unique_violation
  ok (sessions ++ s ∷ [])

-- The transaction, for a request without a session.
pub first_session : (Key → Key) → Key → Time → VisitorTables → Result VisitorError Resolved
unfolding create_session
first_session hash token now t = do
  sessions ← create_session (new_session (suc t.next_id) t.next_id (hash token) now none) t.sessions
  ok (record {
    visitor = guest t.next_id (suc t.next_id);
    cookie = some token;
    tables = record t {
      identities = t.identities ++ t.next_id ∷ [];
      sessions = sessions;
      next_id = suc (suc t.next_id);
    };
  })

-- The transaction, for a request with a session, which is revoked.
pub rotate_session :
    (Key → Key) → Key → Time → GuestSession → VisitorTables → Result VisitorError Resolved
unfolding create_session
rotate_session hash token now existing t = do
  sessions ←
      create_session
        (new_session t.next_id existing.identity_id (hash token) now (some existing.id))
        (update session_id existing.id (revoke now) t.sessions)
  ok (record {
    visitor = guest existing.identity_id t.next_id;
    cookie = some token;
    tables = record t { sessions = sessions; next_id = suc t.next_id };
  })

pub keep_session : Time → GuestSession → VisitorTables → Resolved
keep_session now existing t = record {
  visitor = guest existing.identity_id existing.id;
  cookie = none;
  tables = record t { sessions = update session_id existing.id (touch now) t.sessions };
}

unfoldable pub existing_session : (Key → Key) → Option Key → VisitorTables → Option GuestSession
existing_session hash none t = none
existing_session hash (some token) t = find session_hash (hash token) t.sessions

-- `supplied` is the cookie's token, if it is well-formed, `token` the random one.
pub resolve_visitor :
    (Key → Key)
    → Option Principal
    → Option Key
    → Key
    → Time
    → VisitorTables
    → Result VisitorError Resolved
unfolding upsert_account first_session rotate_session keep_session existing_session create_session
resolve_visitor hash (some p) supplied token now t = ok (upsert_account p t)
resolve_visitor hash none supplied token now t = elim (existing_session hash supplied t) [
  | none ↦ first_session hash token now t
  | some s ↦
      if is_active_session now s && not (is_old now s)
      then ok (keep_session now s t)
      else rotate_session hash token now s t
]
