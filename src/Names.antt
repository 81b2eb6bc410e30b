-- ===== src/Names.antt =====
-- Resource names (matchmaking.go, token_jwt.go, session_service.go). A name is a text; what
-- protobuf hands to the server is valid UTF-8, so a list of characters stands for its bytes.
pub mod Segments
use super_mario_bros_wonder.Base.{
  String, Option, none, some, Bool, false, not, ◌&&◌, ◌||◌, ◌⊕◌, ◌==◌, after_last_slash,
  strip_prefix, if◌then◌else◌, eqb, slashes,
}

-- token_jwt.go: the tenant and the issuer that the server's own tokens carry.
abbrev pub npln_issuer : String
npln_issuer = "default iss"

abbrev pub npln_tenant_id : String
npln_tenant_id = "t-ba973ec6-lp1"

abbrev pub npln_tenant : String
npln_tenant = "tenants/t-ba973ec6-lp1"

abbrev or_whole : String → Option String → String
or_whole s none = s
or_whole s (some t) = t

unfoldable pub last_resource_segment : String → String
last_resource_segment name = or_whole name (after_last_slash name)

-- token_jwt.go has the same function under another name.
unfoldable pub user_id_from_path : String → String
user_id_from_path path = or_whole path (after_last_slash path)

unfoldable pub concrete_resource : String → String → String
concrete_resource collection name =
    if name == ""
    then ""
    else npln_tenant ⊕ ("/" ⊕ (collection ⊕ ("/" ⊕ last_resource_segment name)))

-- npln_tenant + "/users/" + uid
abbrev pub user_path : String → String
user_path uid = npln_tenant ⊕ ("/users" ⊕ ("/" ⊕ uid))

valid_session_id : String → Bool
valid_session_id id = not (id == "") && not (id == ".") && not (id == "..") && eqb (slashes id) 0

-- The loop over the two prefixes: the first that fits decides.
valid_under : Option String → Bool → Bool
unfolding valid_session_id
valid_under none otherwise = otherwise
valid_under (some id) otherwise = valid_session_id id

unfoldable pub valid_session_name : String → Bool
unfolding valid_under
valid_session_name name =
    valid_under (strip_prefix "tenants/t-ba973ec6-lp1/gameSessions/" name)
      (valid_under (strip_prefix "tenants/current/gameSessions/" name) false)
