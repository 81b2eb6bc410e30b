-- ===== src/Attributes.antt =====
-- Typed fields by name: the map of a `MapValue`, and the nil-safe getters of the generated code.
use super_mario_bros_wonder.Base.{
  String, Option, none, some, ◌==◌, ◌≡◌, refl, if◌then◌else◌, arith, eq_iff,
}
use super_mario_bros_wonder.Proto.{Value, string, Fields, end, field, UserDefinition}

-- m[k]
unfoldable pub get_field : Fields → String → Option Value
get_field end k = none
get_field (field j v fs) k = if j == k then some v else get_field fs k

-- m[k] = v
unfoldable pub put_field : Fields → String → Value → Fields
put_field end k v = field k v end
put_field (field j w fs) k v = if j == k then field k v fs else field j w (put_field fs k v)

-- delete(m, k)
unfoldable pub delete_field : Fields → String → Fields
delete_field end k = end
delete_field (field j w fs) k = if j == k then delete_field fs k else field j w (delete_field fs k)

pub get_field-put_field :
    (fs : Fields) (k j : String) (v : Value)
    → get_field (put_field fs k v) j ≡ (if k == j then some v else get_field fs j)
unfolding get_field put_field
get_field-put_field end k j v = refl
get_field-put_field (field i w fs) k j v =
    ground (arith, eq_iff k j, eq_iff i k, eq_iff i j, get_field-put_field fs k j v)

pub get_field-delete_field :
    (fs : Fields) (k j : String)
    → get_field (delete_field fs k) j ≡ (if k == j then none else get_field fs j)
unfolding get_field delete_field
get_field-delete_field end k j = ground arith
get_field-delete_field (field i w fs) k j =
    ground (arith, eq_iff k j, eq_iff i k, eq_iff i j, get_field-delete_field fs k j)

-- GetFields()[k] of a map that may be nil
abbrev pub lookup_field : Option Fields → String → Option Value
lookup_field none k = none
lookup_field (some fs) k = get_field fs k

-- GetStringValue()
abbrev pub string_value : Option Value → String
string_value (some (string s)) = s
string_value _ = ""

-- matchmaking.go: matchmakingStringAttribute
unfoldable pub matchmaking_string_attribute : UserDefinition → String → String
matchmaking_string_attribute definition name =
    string_value (lookup_field definition.attributes name)
