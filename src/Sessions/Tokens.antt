-- ===== src/Sessions/Tokens.antt =====
-- Whose match tokens an answer carries.
use super_mario_bros_wonder.Base.{String, ℕ, ◌≡◌, ◌⊎◌, List, [], ◌∷◌, map, arith, eq_iff, All}
use super_mario_bros_wonder.Proto.{GameSession, UserSession, MatchedUserSession}
use super_mario_bros_wonder.Names.{user_id_from_path}
use super_mario_bros_wonder.Tokens.{Codec}
use super_mario_bros_wonder.Sessions.{matched_user, matched_for_caller}

-- A matched user carries no token, or is the caller.
abbrev pub IsOwnToken : String → MatchedUserSession → Type 0
IsOwnToken uid m = (m.matchmaking_id_token ≡ "") ⊎ (user_id_from_path m.user_definition.user ≡ uid)

matched_user-IsOwnToken :
    (codec : Codec) (unix : ℕ) (gs : GameSession) (uid : String) (include : List String)
    (u : UserSession)
    → IsOwnToken uid (matched_user codec unix gs uid include u)
unfolding matched_user
matched_user-IsOwnToken codec unix gs uid include u =
    ground (arith, eq_iff (user_id_from_path u.user) uid)

-- Of the users that an answer to a caller lists, only the caller carries a match token, whatever
-- users are asked for.
pub matched_for_caller-tokens :
    (codec : Codec) (unix : ℕ) (gs : GameSession) (uid : String) (include : List String)
    → All (IsOwnToken uid) (matched_for_caller codec unix gs uid include)
unfolding matched_for_caller
matched_for_caller-tokens codec unix gs uid include = each gs.user_sessions
  where
    each :
        (us : List UserSession)
        → All (IsOwnToken uid) (map (matched_user codec unix gs uid include) us)
    each [] = tt
    each (u ∷ us) = (matched_user-IsOwnToken codec unix gs uid include u, each us)
