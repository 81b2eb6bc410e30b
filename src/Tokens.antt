-- ===== src/Tokens.antt =====
-- The match token of token_jwt.go and the typed JSON of matchmaking_values.go. JSON text
-- (encoding/json) and the signature (ES256 with the server's key) are parameters.
use super_mario_bros_wonder.Base.{
  String, ℕ, ℤ, pos, Bool, Option, none, some, List, [], ◌∷◌, ◌+◌, ◌+ℤ◌, wrap64, scale, ◌==◌,
  if◌then◌else◌, strip_prefix, Dict,
}
use super_mario_bros_wonder.Proto.{
  Value, unset, null, boolean, integer, float, double, timestamp, string, bytes, reference, array,
  map_value, Values, nil, cons, Fields, end, field, LatencyData, Duration,
}
use super_mario_bros_wonder.Names.{user_id_from_path}

-- What `json.Marshal` is given: Go's `any`.
mutual
  pub data Json : Type 0 where
    none_json : Json
    bool : Bool → Json
    int : ℤ → Json
    num : ℕ → Json
    num32 : ℕ → Json
    str : String → Json
    base64 : List ℕ → Json
    arr : Items → Json
    obj : Members → Json

  pub data Items : Type 0 where
    no_items : Items
    item : Json → Items → Items

  -- `json.Marshal` sorts the keys of a map, so the order here means nothing.
  pub data Members : Type 0 where
    no_members : Members
    member : String → Json → Members → Members

-- `marshal` fails on a number that is NaN or infinite; `sign` of a header and a payload fails if
-- the server has no key or the signature fails.
pub record Codec : Type 0 where
  pub marshal : Json → Option String
  pub sign : Json → Json → Option String

abbrev pub obj1 : String → Json → Json
obj1 k v = obj (member k v no_members)

abbrev pub typed : String → Json → Json
typed t v = obj (member "type" (str t) (member "value" v no_members))

unfoldable mutual
  pub typed_common_value : Value → Json
  typed_common_value (boolean b) = typed "boolean" (bool b)
  typed_common_value (integer n) = typed "integer" (int n)
  typed_common_value (float n) = typed "double" (num32 n)
  typed_common_value (double n) = typed "double" (num n)
  typed_common_value (string s) = typed "string" (str s)
  typed_common_value (bytes b) = typed "bytes" (base64 b)
  typed_common_value (reference r) = typed "reference" (str r)
  typed_common_value (array vs) = typed "array" (arr (typed_items vs))
  typed_common_value unset = typed "null" none_json
  typed_common_value null = typed "null" none_json
  typed_common_value (timestamp t) = typed "null" none_json
  typed_common_value (map_value m) = typed "null" none_json

  typed_items : Values → Items
  typed_items nil = no_items
  typed_items (cons v vs) = item (typed_common_value v) (typed_items vs)

unfoldable pub typed_fields : Fields → Members
typed_fields end = no_members
typed_fields (field k v fs) = member k (typed_common_value v) (typed_fields fs)

abbrev pub text_or : String → Option String → String
text_or s none = s
text_or s (some t) = t

abbrev pub fields_of : Option Fields → Fields
fields_of none = end
fields_of (some fs) = fs

abbrev latencies_of : Option LatencyData → Dict Duration
latencies_of none = []
latencies_of (some d) = d.latencies

-- seconds * 1_000_000_000 + int64(nanos), in int64
unfoldable pub duration_nanos : Duration → ℤ
unfolding wrap64
duration_nanos d = wrap64 (wrap64 (scale 1000000000 d.seconds) +ℤ d.nanos)

unfoldable pub typed_latencies : Dict Duration → Members
typed_latencies [] = no_members
typed_latencies ((region, d) ∷ ds) =
    member region (obj1 "nanos" (int (duration_nanos d))) (typed_latencies ds)

module _ (codec : Codec) where
  unfoldable pub gamesync_attr_json : Option Fields → String
  gamesync_attr_json attrs = text_or "{}" (codec.marshal (obj (typed_fields (fields_of attrs))))

  unfoldable pub gamesync_latency_json : Option LatencyData → String
  gamesync_latency_json data_ =
      text_or "{\"latencies\":{}}"
        (codec.marshal (obj1 "latencies" (obj (typed_latencies (latencies_of data_)))))

abbrev non_empty : String → String → String
non_empty s default = if s == "" then default else s

abbrev pub trim_prefix : String → String → String
trim_prefix s p = text_or s (strip_prefix p s)

-- The claims of the token; `unix` is the time in seconds, and the token lives for an hour.
unfoldable pub match_claims :
    ℕ → String → String → String → String → String → String → String → Json
match_claims unix uid tenant gs_name user_sess team attr_json latency_json = obj (
    member "exp" (int (pos (unix + 3600))) (
      member "iat" (int (pos unix)) (
        member "iss" (str "gss") (
          member "sub" (str uid) (
            member "gamesync"
              (obj (
                member "attr" (str (non_empty attr_json "{}")) (
                  member "gsid" (str (user_id_from_path gs_name)) (
                    member "ltcy" (str (non_empty latency_json "{\"latencies\":{}}")) (
                      member "team" (str team) (
                        member "tid" (str (trim_prefix tenant "tenants/")) (
                          member "typ" (int (pos 1)) (
                            member "uid" (str uid)
                              (member "usid" (str (user_id_from_path user_sess)) no_members)))))))))
              no_members)))))

abbrev match_header : Json
match_header = obj (
    member "alg" (str "ES256")
      (member "kid" (str "ba973ec6-wonder-4992-80bf-5f289ebbf566") no_members))

unfoldable pub mint_gss_match_token :
    Codec → ℕ → String → String → String → String → String → String → String → String
unfolding match_claims
mint_gss_match_token codec unix uid tenant gs_name user_sess team attr_json latency_json =
    if uid == ""
    then "nextendo-gss.fallback"
    else text_or "nextendo-gss.fallback" (
        codec.sign match_header
          (match_claims unix uid tenant gs_name user_sess team attr_json latency_json))
