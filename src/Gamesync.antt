-- ===== src/Gamesync.antt =====
-- gamesync.go, gamesync_store.go: documents that the users of a game session share.
pub mod Documents
pub mod Writable
pub mod Transforms
pub mod FieldLaws
pub mod State
pub mod Streams
pub mod Sessions
pub mod Expiry
pub mod Expired
pub mod Access
pub mod Numbers
pub mod Reach
pub mod Issue
pub mod Issued
pub mod Bearer
pub mod Keep
pub mod Calls
pub mod Ended
pub mod Reads
pub mod Writes
pub mod Isolation
pub mod Ownership
use Prim.Native.String
use Prim.Native.Char.{code}
use super_mario_bros_wonder.Base.{
  String, ℕ, zero, suc, ℤ, pos, negsuc, Bool, true, false, not, ◌&&◌, ◌||◌, Option, none, some,
  List, [], ◌∷◌, ◌==◌, ◌⊕◌, if◌then◌else◌, eqb, leb, eqb_ℤ, decimal, has_prefix, strip_prefix, Dict,
  get, split,
}
use super_mario_bros_wonder.Proto.{Value, string, integer, map_value, Fields, Timestamp}

pub record GamesyncSession : Type 0 where
  pub uid : String
  pub game_session : String
  pub user_session : String
  pub team : String
  pub sequence : ℤ
  pub connection : ℤ
  pub attributes : Option Fields
  pub latency_json : String
  pub created_at : Option Timestamp

pub record Document : Type 0 where
  pub name : String
  pub fields : Option Fields
  pub create_time : Timestamp
  pub update_time : Timestamp

unfoldable pub observed_string_value : Option Value → String → Bool
observed_string_value (some (string s)) expected = s == expected
observed_string_value _ expected = false

unfoldable pub observed_integer_value : Option Value → ℤ → Bool
observed_integer_value (some (integer n)) expected = eqb_ℤ n expected
observed_integer_value _ expected = false

-- 0-9 and a-f
hex_digit : ℕ → Bool
hex_digit c = (leb b'0' c && leb c b'9') || (leb b'a' c && leb c b'f')

-- `n` more hexadecimal digits, and no more.
hex_digits : ℕ → String → Bool
unfolding hex_digit
hex_digits zero String.[] = true
hex_digits zero (String.◌∷◌ c s) = false
hex_digits (suc n) String.[] = false
hex_digits (suc n) (String.◌∷◌ c s) = hex_digit (code c) && hex_digits n s

connection_id : Option String → Bool
unfolding hex_digits
connection_id none = false
connection_id (some id) = hex_digits 16 id

unfoldable pub observed_connection_document_name : String → Bool
unfolding connection_id
observed_connection_document_name name = connection_id (strip_prefix "docs/c/" name)

-- strconv.FormatInt(n, 10)
unfoldable pub format_int : ℤ → String
format_int (pos n) = decimal n
format_int (negsuc n) = "-" ⊕ decimal (suc n)

-- GetMapValue()
abbrev pub map_of : Option Value → Option Fields
map_of (some (map_value fs)) = some fs
map_of _ = none

valid_path : List String → Option (String × String)
valid_path (docs ∷ collection ∷ id ∷ []) =
    if not (docs == "docs") || (collection == "") || (id == "") || (id == ".") || (id == "..")
    then none
    else some (collection, id)
valid_path _ = none

unfoldable pub document_path : String → Option (String × String)
unfolding valid_path
document_path name = valid_path (split b'/' name)
