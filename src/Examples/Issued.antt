-- ===== src/Examples/Issued.antt =====
-- A call of IssueToken by a member of a room, a call that bears the token, and a departure.
use super_mario_bros_wonder.Base.{List, ◌≡◌, true, some, none, [], ◌∷◌, ℕ, pos, String}
use super_mario_bros_wonder.Names.{npln_issuer, npln_tenant_id}
use super_mario_bros_wonder.Auth.{Context}
use super_mario_bros_wonder.Registry.{SessionRegistry}
use super_mario_bros_wonder.Registry.Members.{members, depart_all, leave_all, members-depart_all}
use super_mario_bros_wonder.Gamesync.Sessions.{GssMatchClaims}
use super_mario_bros_wonder.Gamesync.Issue.{Issuer, IssueClock, match_game_session}
use super_mario_bros_wonder.Gamesync.Issued.{minted}
use super_mario_bros_wonder.Gamesync.Calls.{Call, opened, expired}
use super_mario_bros_wonder.Examples.{room}

abbrev matched : GssMatchClaims
matched = record {
  expires = pos 2000;
  issuer = "gss";
  subject = "ann";
  game_session_id = "gs-1";
  user_session_id = "us-1";
  tenant_id = npln_tenant_id;
  user_id = "ann";
  team = "";
  attributes = "";
  latency = "";
}

abbrev asked : String
asked = "userSessions/us-1"

-- Every signature verifies, every match token is ann's, and every access token is the one for her.
abbrev issuer : Issuer
issuer = record {
  reader = record {
    verify = λ _ _ _. true;
    decode_match = λ _. some matched;
    decode_access = λ _. some (minted 1000 "ann" (match_game_session matched) asked);
  };
  codec = record { marshal = λ _. some "{}"; sign = λ _ _. some "h.p.s" };
  seed_bytes = 16;
  random = λ _. some (7 ∷ []);
}

abbrev at : IssueClock
at = record { unix = 1000; now = 5 }

abbrev rooms : SessionRegistry
rooms = record { sessions = ("gs-1", room) ∷ []; pooled = [] }

abbrev bearer : Context
bearer = record { authorization = "Bearer h.p.s" ∷ []; uid = "ann" ∷ [] }

-- Ann's stream opens, and another session ends.
abbrev calls : List Call
calls = opened "us-1" ∷ expired rooms "us-9" 3 ∷ []

abbrev gone : List (String × String)
gone = ("gameSessions/gs-1", asked) ∷ []

members-depart_all_example :
    members (depart_all rooms gone) "gameSessions/gs-1" asked "ann"
    ≡ leave_all (members rooms) gone "gameSessions/gs-1" asked "ann"
members-depart_all_example = members-depart_all gone rooms "gameSessions/gs-1" asked "ann"
