-- ===== src/Gamesync/Transforms.antt =====
-- gamesync_store.go: applyFieldTransform.
use super_mario_bros_wonder.Base.{
  String, ℕ, ℤ, pos, negsuc, not, ◌&&◌, ◌||◌, Option, none, some, List, ◌==◌, if◌then◌else◌, eqb,
  ltb_ℤ, ◌+ℤ◌, ◌-ℤ◌, wrap64, Dict, get, put, delete, Result, ok, err, ◌>>=◌, ◌>>◌, refuse_if,
  invalid_argument, unimplemented, failed_precondition, out_of_range,
}
use super_mario_bros_wonder.Proto.{Value, integer, timestamp, Fields, Timestamp}
use super_mario_bros_wonder.Gamesync.Documents.{field_path, read_field, set_field}

-- The oneof of a transform; a server value is its number in the enumeration.
pub data TransformType : Type 0 where
  load_global_value store_global_value clear_global_value : String → TransformType
  increment maximum minimum : Option Value → TransformType
  set_server_value : ℕ → TransformType
  no_transform : TransformType

-- An integer that is missing is 0.
unfoldable pub integer_of : Option Value → Result ℤ
integer_of none = ok (pos 0)
integer_of (some (integer n)) = ok n
integer_of (some _) = err invalid_argument

-- Go's MaxInt64 and MinInt64
abbrev pub max_int64 : ℤ
max_int64 = pos 9223372036854775807

abbrev pub min_int64 : ℤ
min_int64 = negsuc 9223372036854775807

-- The guard against overflow, and the sum in int64.
unfoldable pub checked_sum : ℤ → ℤ → Result ℤ
checked_sum a b =
    if (ltb_ℤ (pos 0) b && ltb_ℤ (max_int64 -ℤ b) a)
      || (ltb_ℤ b (pos 0) && ltb_ℤ a (min_int64 -ℤ b))
    then err out_of_range
    else ok (wrap64 (a +ℤ b))

check_global : String → Result (Unit {0})
check_global name = refuse_if (not (name == "__upcsidn")) unimplemented

abbrev or_zero : Option Value → Option Value → Option Value
or_zero (some v) current = some v
or_zero none (some v) = some v
or_zero none none = some (integer (pos 0))

-- The number of REQUEST_TIME
abbrev request_time : ℕ
request_time = 1

-- The value of the field behind the transform, and the globals.
unfoldable pub transformed :
    TransformType → Option Value → Dict Value → Timestamp → Result (Option Value × Dict Value)
unfolding check_global
transformed (load_global_value name) current globals now =
    check_global name >> ok (or_zero (get globals name) current, globals)
transformed (store_global_value name) none globals now =
    check_global name >> err failed_precondition
transformed (store_global_value name) (some v) globals now =
    check_global name >> ok (some v, put globals name v)
transformed (clear_global_value name) current globals now =
    check_global name >> ok (current, delete globals name)
transformed (increment by) current globals now = do
  a ← integer_of current
  b ← integer_of by
  sum ← checked_sum a b
  ok (some (integer sum), globals)
transformed (maximum other) current globals now = do
  a ← integer_of current
  b ← integer_of other
  ok (some (integer (if ltb_ℤ a b then b else a)), globals)
transformed (minimum other) current globals now = do
  a ← integer_of current
  b ← integer_of other
  ok (some (integer (if ltb_ℤ b a then b else a)), globals)
transformed (set_server_value n) current globals now =
    refuse_if (not (eqb n request_time)) invalid_argument >> ok (some (timestamp now), globals)
transformed no_transform current globals now = err unimplemented

pub record Transformed : Type 0 where
  pub fields : Fields
  pub globals : Dict Value
  pub value : Value

abbrev store_result : Fields → List String → Option Value × Dict Value → Result Transformed
store_result fields path (none, globals) = err failed_precondition
store_result fields path (some v, globals) =
    ok (record { fields = set_field fields path (some v); globals = globals; value = v })

unfoldable pub apply_field_transform :
    Fields → String → TransformType → Dict Value → Timestamp → Result Transformed
apply_field_transform fields field_name transform globals now = do
  path ← field_path field_name
  done ← transformed transform (read_field (some fields) path) globals now
  store_result fields path done
