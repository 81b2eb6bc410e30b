-- ===== src/Service/Listing.antt =====
-- What a query and a lookup answer.
use super_mario_bros_wonder.Base.{
  String, ℕ, zero, suc, ◌+◌, true, false, not, Option, none, some, List, [], ◌∷◌, ◌++◌, ◌≡◌, inl,
  inr, get, arith, Option-cases, length, length-append, take, ltb, eqb, append-nil, append_assoc,
  if◌then◌else◌, str_le, ok, refuse_if, invalid_argument, not_found, refuse_if-eq-ok, >>=-eq-ok,
}
use super_mario_bros_wonder.Proto.{GameSession, GameSessionView}
use super_mario_bros_wonder.Names.{last_resource_segment, valid_session_name}
use super_mario_bros_wonder.Auth.{Context, authenticated_npln_uid}
use super_mario_bros_wonder.Auth.Identity.{IsAuthentic, authenticated_npln_uid_iff}
use super_mario_bros_wonder.Sessions.{Friends, room_visible, safe_session_view}
use super_mario_bros_wonder.Sessions.Visible.{IsVisible, IsVisible-sound}
use super_mario_bros_wonder.Server.{Server, Env, Clock}
use super_mario_bros_wonder.Service.{scan, or_not_found, viewer_friends, get_game_session}

module _ {A : Type 0} (token : String) (found : String → Option A) (token_of : A → String) where
  -- All that a loop over keys would answer with no limit.
  unfoldable pub collect : List String → List A
  collect [] = []
  collect (name ∷ names) = elim (if str_le name token then none else found name) [
    | none ↦ collect names
    | some a ↦ a ∷ collect names
  ]

  -- The token of the last item, if there is one.
  abbrev pub last_token : String → List A → String
  last_token last [] = last
  last_token last (a ∷ rest) = last_token (token_of a) rest

  scan-eq :
      (limit room : ℕ) (names : List String) (out : List A) (last : String)
      → length out + room ≡ limit
      → scan token found token_of limit names out last ≡ record {
        items = out ++ take room (collect names);
        next_page_token =
            if ltb room (length (collect names))
            then last_token last (take room (collect names))
            else "";
      }
  unfolding scan collect
  scan-eq limit zero [] out last h = rw append-nil
  scan-eq limit (suc room) [] out last h = rw append-nil (ground arith)
  scan-eq limit zero (name ∷ names) out last h =
      elim (Option-cases (if str_le name token then none else found name)) [
        | inl e ↦ rw (e, scan, collect) (scan-eq limit zero names out last h)
        | inr (a, e) ↦
            let full : eqb (length out) limit ≡ true = ground (arith, h) in
            rw (e, scan, collect, full, append-nil) (ground arith)
      ]
  scan-eq limit (suc room) (name ∷ names) out last h =
      elim (Option-cases (if str_le name token then none else found name)) [
        | inl e ↦ rw (e, scan, collect) (scan-eq limit (suc room) names out last h)
        | inr (a, e) ↦
            let short : eqb (length out) limit ≡ false = ground (arith, h) in
            let rest =
              scan-eq limit room names (out ++ (a ∷ [])) (token_of a)
                (omega (arith, length-append out (a ∷ []), h)) in
            rw (e, scan, collect, short, rest, append_assoc) (ground arith)
      ]

  -- A page of a query holds the first `limit` of all matches behind the token, in order; its next
  -- token is empty if there are no more matches, and else that of the page's last one.
  pub scan-page :
      (limit : ℕ) (names : List String)
      → scan token found token_of limit names [] "" ≡ record {
        items = take limit (collect names);
        next_page_token =
            if ltb limit (length (collect names))
            then last_token "" (take limit (collect names))
            else "";
      }
  scan-page limit names = scan-eq limit limit names [] "" (omega arith)

-- What a successful lookup rests on.
pub record IsLookup (env : Env) (clock : Clock) (s : Server) (ctx : Context) (name : String)
    (view : GameSessionView) (shown : GameSession) : Type 0 where
  pub uid : String
  pub friends : Friends
  pub session : GameSession
  pub authentic : IsAuthentic env.verifier clock.unix ctx uid
  pub valid : valid_session_name name ≡ true
  pub stored : get s.registry.sessions (last_resource_segment name) ≡ some session
  pub asked : viewer_friends env ctx session uid ≡ ok friends
  pub visible : IsVisible session uid friends
  pub answer : shown ≡ safe_session_view session view

or_not_found-eq-ok :
    (o : Option GameSession) {gs : GameSession} → or_not_found o ≡ ok gs → o ≡ some gs
or_not_found-eq-ok none h = cc
or_not_found-eq-ok (some g) h = cc

-- A lookup that answers has authenticated the caller, found the session of a well-formed name, and
-- established that the caller may see it; the answer is that session in its safe view.
pub get_game_session-IsLookup :
    (env : Env) (clock : Clock) (s : Server) (ctx : Context) (name : String)
    (view : GameSessionView) (shown : GameSession)
    → get_game_session env clock s ctx name view ≡ ok shown
    → IsLookup env clock s ctx name view shown
unfolding get_game_session
get_game_session-IsLookup env clock s ctx name view shown h =
    let (uid, a, h1) = >>=-eq-ok (authenticated_npln_uid env.verifier clock.unix ctx) _ h in
    let (_, b, h2) = >>=-eq-ok (refuse_if (not (valid_session_name name)) invalid_argument) _ h1 in
    let (gs, c, h3) =
      >>=-eq-ok (or_not_found (get s.registry.sessions (last_resource_segment name))) _ h2 in
    let (friends, d, h4) = >>=-eq-ok (viewer_friends env ctx gs uid) _ h3 in
    let (_, e, h5) =
      >>=-eq-ok (refuse_if (not (room_visible (some gs) uid friends)) not_found) _ h4 in
    record {
      uid = uid;
      friends = friends;
      session = gs;
      authentic = (authenticated_npln_uid_iff env.verifier clock.unix ctx uid).0 a;
      valid = ground (arith, refuse_if-eq-ok _ _ b);
      stored = or_not_found-eq-ok _ c;
      asked = d;
      visible = IsVisible-sound gs uid friends (ground (arith, refuse_if-eq-ok _ _ e));
      answer = ground (arith, h5);
    }
