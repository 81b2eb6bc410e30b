-- ===== src/Gamesync/Documents.antt =====
-- gamesync_store.go: field paths, field masks and preconditions.
use Prim.Native.Char.{Char, code}
use super_mario_bros_wonder.Base.{
  String, Bool, true, false, not, ◌&&◌, ◌||◌, Option, none, some, List, [], ◌∷◌, ◌++◌, ◌==◌, ◌⊕◌,
  if◌then◌else◌, eqb, Result, ok, err, ◌>>=◌, ◌>>◌, invalid_argument, failed_precondition,
  refuse_if, is_some,
}
use super_mario_bros_wonder.Proto.{Value, map_value, Fields, end, Timestamp}
use super_mario_bros_wonder.Attributes.{get_field, put_field, delete_field, lookup_field}
use super_mario_bros_wonder.Gamesync.{Document, map_of}

-- What the loop of fieldPath keeps: the parts behind it, the part it is in, and where it is.
pub record PathState : Type 0 where
  pub parts : List String
  pub part : String
  pub quoted : Bool
  pub escaped : Bool

-- One round: an escaped character, a backslash in quotes, a backtick, a dot outside, any other.
unfoldable pub field_path_step : Char → PathState → Result PathState
field_path_step c st =
    let longer = st.part ⊕ String.◌∷◌ c "" in
    if st.escaped
    then ok (record st { part = longer; escaped = false })
    else if eqb (code c) b'\\' && st.quoted
    then ok (record st { escaped = true })
    else if eqb (code c) b'`'
    then ok (record st { quoted = not st.quoted })
    else if eqb (code c) b'.' && not st.quoted
    then if st.part == ""
      then err invalid_argument
      else ok (record st { parts = st.parts ++ (st.part ∷ []); part = "" })
    else ok (record st { part = longer })

unfoldable pub field_path_loop : String → PathState → Result PathState
field_path_loop String.[] st = ok st
field_path_loop (String.◌∷◌ c s) st = field_path_step c st >>= λ next. field_path_loop s next

unfoldable pub field_path : String → Result (List String)
field_path path = do
  st ← field_path_loop path (record { parts = []; part = ""; quoted = false; escaped = false })
  refuse_if (st.quoted || st.escaped || (st.part == "") || (path == "*")) invalid_argument
  ok (st.parts ++ (st.part ∷ []))

unfoldable pub read_field : Option Fields → List String → Option Value
read_field fields [] = none
read_field fields (k ∷ []) = lookup_field fields k
read_field fields (k ∷ l ∷ path) = read_field (map_of (lookup_field fields k)) (l ∷ path)

abbrev pub or_no_fields : Option Fields → Fields
or_no_fields none = end
or_no_fields (some fs) = fs

-- The maps on the way are made where they are missing, also when the field is to be deleted.
unfoldable pub set_field : Fields → List String → Option Value → Fields
set_field fields [] value = fields
set_field fields (k ∷ []) none = delete_field fields k
set_field fields (k ∷ []) (some v) = put_field fields k v
set_field fields (k ∷ l ∷ path) value =
    put_field fields k
      (map_value (set_field (or_no_fields (map_of (get_field fields k))) (l ∷ path) value))

-- No mask and the mask `*` stand for all fields.
unfoldable pub whole_mask : Option (List String) → Bool
whole_mask none = true
whole_mask (some (p ∷ [])) = p == "*"
whole_mask (some _) = false

abbrev pub paths_of : Option (List String) → List String
paths_of none = []
paths_of (some ps) = ps

-- The fields at some paths, copied from one map into another.
unfoldable pub copy_fields : Option Fields → List String → Fields → Result Fields
copy_fields source [] out = ok out
copy_fields source (p ∷ ps) out = do
  path ← field_path p
  copy_fields source ps (set_field out path (read_field source path))

unfoldable pub masked_document : Document → Option (List String) → Result Document
masked_document document mask = if whole_mask mask then ok document else do
  fields ← copy_fields document.fields (paths_of mask) end
  ok (record document { fields = some fields })

-- The oneof of a precondition; an update time may be missing.
pub data Precondition : Type 0 where
  when_exists : Bool → Precondition
  when_updated : Option Timestamp → Precondition
  no_condition : Precondition

abbrev same_time : Option Timestamp → Option Document → Bool
same_time (some t) (some d) = eqb t d.update_time
same_time _ _ = false

abbrev same_bool : Bool → Bool → Bool
same_bool true b = b
same_bool false b = not b

unfoldable pub check_precondition : Option Precondition → Option Document → Result (Unit {0})
check_precondition none doc = ok tt
check_precondition (some (when_exists b)) doc =
    refuse_if (not (same_bool b (is_some doc))) failed_precondition
check_precondition (some (when_updated t)) doc =
    refuse_if (not (same_time t doc)) failed_precondition
check_precondition (some no_condition) doc = err invalid_argument
