-- ===== src/Gamesync/Bearer.antt =====
-- gamesync.go: the calls that bear a token that IssueToken has issued.
use super_mario_bros_wonder.Base.{String, ℕ, some, ◌≡◌}
use super_mario_bros_wonder.Names.{npln_tenant}
use super_mario_bros_wonder.Gamesync.State.{Gamesync}
use super_mario_bros_wonder.Gamesync.Sessions.{bind, signed_payload}
use super_mario_bros_wonder.Gamesync.Issue.{Issuer, session_header, session_claims}
use super_mario_bros_wonder.Gamesync.Issued.{minted}

-- What a minted token is, and what the reader makes of it.
abbrev pub IsMinted : Issuer → ℕ → String → String → String → String → Type 0
IsMinted env unix uid game user t =
    (env.codec.sign session_header (session_claims unix uid npln_tenant game user) ≡ some t)
    × (bind (signed_payload env.reader t) env.reader.decode_access
        ≡ some (minted unix uid game user))
