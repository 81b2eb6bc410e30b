-- ===== src/Examples/Streams.antt =====
-- The theorems on the sessions of gamesync, on two users of one game session.
use super_mario_bros_wonder.Base.{
  refl, ◌≡◌, ◌≢◌, ◌<◌, arith, true, false, some, none, List, [], ◌∷◌, ℕ, ℤ, pos, String, get, put,
  ltb_ℤ, leb_ℤ, eq_iff,
}
use super_mario_bros_wonder.Names.{last_resource_segment, npln_issuer, npln_tenant_id}
use super_mario_bros_wonder.Auth.{Context, bearer_token}
use super_mario_bros_wonder.Registry.{SessionRegistry, member}
use super_mario_bros_wonder.Gamesync.{GamesyncSession}
use super_mario_bros_wonder.Gamesync.State.{Gamesync, new_gamesync, table}
use super_mario_bros_wonder.Gamesync.Sessions.{
  number_of, GamesyncAccessClaims, TokenReader, authorized_session, remember_session,
}
use super_mario_bros_wonder.Gamesync.Expiry.{
  expiring, expire_session, stream_started, schedule_disconnect, stream_count,
}
use super_mario_bros_wonder.Gamesync.Expired.{kept_document, expire_session-kept_document}
use super_mario_bros_wonder.Gamesync.Access.{
  Vouches, authorized_session-Vouches, expire_session-timers,
}
use super_mario_bros_wonder.Gamesync.Numbers.{IsNumbered}
use super_mario_bros_wonder.Gamesync.Calls.{
  Call, remembered, expired, opened, counted_down, scheduled, subscribed, run,
}
use super_mario_bros_wonder.Gamesync.Ended.{authorized_session-expire_session}
use super_mario_bros_wonder.Gamesync.Reach.{run-IsNumbered}
use super_mario_bros_wonder.Examples.Documents.{player}

abbrev no_rooms : SessionRegistry
no_rooms = record { sessions = []; pooled = [] }

-- Every signature verifies, and every payload names the user bob's session.
abbrev bob_claims : GamesyncAccessClaims
bob_claims = record {
  expires_at = pos 2000;
  issuer = npln_issuer;
  subject = "bob";
  tenant_id = npln_tenant_id;
  game_session = "gameSessions/gs-1";
  user_session = "userSessions/us-2";
}

abbrev reader : TokenReader
reader = record {
  verify = λ _ _ _. true;
  decode_match = λ _. none;
  decode_access = λ _. some bob_claims;
}

abbrev bob : Context
bob = record { authorization = "Bearer h.p.s" ∷ []; uid = "bob" ∷ [] }

abbrev other_player : GamesyncSession
other_player = record player {
  uid = "bob";
  user_session = "userSessions/us-2";
  sequence = pos 2;
  connection = pos 2;
}

abbrev ann_id : String
ann_id = "us-1"

-- The timer 0 runs for ann's session.
abbrev ending : Gamesync
ending = record {
  sessions = (ann_id, player) ∷ ("us-2", other_player) ∷ [];
  next_sequence = (player.game_session, pos 2) ∷ [];
  stream_counts = [];
  disconnect_timers = (ann_id, 0) ∷ [];
  next_timer = 1;
  documents = [];
  global_values = [];
  owners = [];
  deferments = [];
  subscribers = [];
}

goes_off : expiring ending ann_id 0 ≡ some player
unfolding expiring stream_count get
goes_off = refl

is_named : ann_id ≢ ""
is_named e = cc

expire_session-kept_document_example :
    let done = expire_session ending no_rooms ann_id 0 in
    (get done.0.sessions ann_id ≡ none)
    × (get (table done.0.documents player.game_session) "docs/p/1"
        ≡ kept_document ending ann_id player "docs/p/1")
    × (member done.1 player.game_session player.user_session "ann" ≡ none)
expire_session-kept_document_example =
    expire_session-kept_document ending no_rooms ann_id 0 player "docs/p/1" "ann" is_named goes_off

let_in : authorized_session reader 1000 ending bob "userSessions/current" ≡ some other_player
unfolding authorized_session bearer_token super_mario_bros_wonder.Base.strip_prefix_fold
    super_mario_bros_wonder.Base.trim_space
    super_mario_bros_wonder.Gamesync.Sessions.verify_gamesync_access_token
    super_mario_bros_wonder.Base.split super_mario_bros_wonder.Gamesync.Sessions.valid_access_claims
    get last_resource_segment super_mario_bros_wonder.Base.after_last_slash
    super_mario_bros_wonder.Gamesync.Sessions.token_fits
let_in = refl

authorized_session-Vouches_example :
    (token : String) × (c : GamesyncAccessClaims) × (bearer_token bob ≡ some token)
    × Vouches reader 1000 token c other_player
    × (get ending.sessions (last_resource_segment other_player.user_session) ≡ some other_player)
authorized_session-Vouches_example =
    authorized_session-Vouches reader 1000 ending bob "userSessions/current" other_player let_in

abbrev others : List Call
others = opened "us-2" ∷ subscribed player.game_session 1 ∷ []

still_in :
    authorized_session reader 1000 (run others (expire_session ending no_rooms ann_id 0).0) bob ""
    ≡ some other_player
unfolding authorized_session expire_session bearer_token run
    super_mario_bros_wonder.Gamesync.Calls.perform stream_started
    super_mario_bros_wonder.Gamesync.Streams.add_subscriber
    super_mario_bros_wonder.Base.strip_prefix_fold super_mario_bros_wonder.Base.trim_space
    super_mario_bros_wonder.Gamesync.Sessions.verify_gamesync_access_token
    super_mario_bros_wonder.Base.split super_mario_bros_wonder.Gamesync.Sessions.valid_access_claims
    get expiring stream_count super_mario_bros_wonder.Gamesync.Expiry.remove_session
    super_mario_bros_wonder.Base.delete last_resource_segment
    super_mario_bros_wonder.Base.after_last_slash
    super_mario_bros_wonder.Gamesync.Sessions.token_fits
still_in = refl

authorized_session-expire_session_example : last_resource_segment other_player.user_session ≢ ann_id
authorized_session-expire_session_example =
    authorized_session-expire_session reader 1000 ending no_rooms ann_id 0 bob "" player
      other_player others goes_off (tt, (tt, tt)) still_in

no_streams :
    (ltb_ℤ (stream_count ending ann_id) (pos 0) ≡ false)
    × (ltb_ℤ (stream_count ending ann_id) (pos 9223372036854775807) ≡ true)
unfolding stream_count get
no_streams = (refl, refl)

expire_session-timers_example :
    (expire_session (stream_started ending ann_id) no_rooms ann_id 0
      ≡ (stream_started ending ann_id, no_rooms, []))
    × (expire_session (schedule_disconnect ending ann_id) no_rooms ann_id 0
        ≡ (schedule_disconnect ending ann_id, no_rooms, []))
expire_session-timers_example =
    expire_session-timers ending no_rooms ann_id 0 no_streams (omega arith)

-- Two users come, the first streams and leaves, and a timer ends the session.
abbrev calls : List Call
calls =
    remembered 1 player
    ∷ opened ann_id
    ∷ remembered 2 other_player
    ∷ counted_down ann_id
    ∷ scheduled ann_id
    ∷ expired no_rooms ann_id 0
    ∷ []

run-IsNumbered_example : IsNumbered (run calls new_gamesync)
run-IsNumbered_example =
    run-IsNumbered (λ _. player.game_session) calls (omega arith)
      (refl, (tt, (refl, (tt, (tt, (tt, tt))))))
