-- ===== src/Visitor/Examples.antt =====
-- Concrete sessions for the theorem on src/http/visitor.ts.
use gto_poker_daily_spots_ba.Prelude.{suc, ok, ◌≡◌, refl, [], ◌∷◌, none, some, Key, arith}
use gto_poker_daily_spots_ba.Visitor.{GuestSession, VisitorTables, Resolved, resolve_visitor}
use gto_poker_daily_spots_ba.Visitor.Session.{AreKeyed, IsSession, resolve-IsSession}

-- A session that was revoked.
abbrev revoked : GuestSession
revoked = record {
  id = 3;
  identity_id = 2;
  token_hash = 41;
  created_at = 1000;
  last_seen_at = 2000;
  expires_at = 9000;
  revoked_at = some 2000;
  rotation_of_id = none;
}

abbrev tables : VisitorTables
tables = record { accounts = []; identities = 2 ∷ []; sessions = revoked ∷ []; next_id = 4 }

tables-AreKeyed : AreKeyed tables
tables-AreKeyed = record { distinct = (tt, tt); new = (omega arith, tt) }

-- A stand-in for the hash.
abbrev hash : Key → Key
hash k = suc k

resolve-IsSession_example :
    (r : Resolved) × (resolve_visitor hash none (some 40) 77 3000 tables ≡ ok r)
    × IsSession hash (some 40) 3000 tables r
resolve-IsSession_example = resolve-IsSession hash (some 40) 77 3000 tables tables-AreKeyed refl
