-- ===== src/Security/Nested.antt =====
-- The private helpers of security.py that read, write and delete by a dotted path.
pub mod Laws
pub mod Deletion
pub mod Writes
pub mod Absent
use openedx_webhook_relay.Base.{
  String, Option, none, some, List, [], ◌∷◌, ◌||◌, str_eq, split_dots, if◌then◌else◌,
}
use openedx_webhook_relay.Json.{Value, null, obj, Fields, end, is_none}
use openedx_webhook_relay.Json.Dict.{get, put, pop}
use openedx_webhook_relay.Json.Paths.{child}

abbrev pub or_null : Option Value → Value
or_null none = null
or_null (some v) = v

-- `payload.get(key)`: `None` for a key that is missing.
abbrev pub get_or_null : Fields → String → Value
get_or_null m key = or_null (get m key)

-- The loop of `_get_nested_value`.
unfoldable pub get_path : Value → List String → Value
get_path current [] = current
get_path current (segment ∷ segments) = elim (child current segment) [
  | none ↦ null
  | some next ↦ get_path next segments
]

unfoldable pub get_nested_value : Value → String → Value
get_nested_value root dotted_path =
    if is_none root || str_eq dotted_path ""
    then (if str_eq dotted_path "" then root else null)
    else get_path root (split_dots dotted_path)

-- `current[segment]` if it is a dictionary, and otherwise the new `{}`.
abbrev pub dict_or_new : Option Value → Fields
dict_or_new (some (obj inner)) = inner
dict_or_new _ = end

-- The loop of `_set_nested_value` and its last write. `split` gives no empty list.
unfoldable pub set_path : Fields → List String → Value → Fields
set_path current [] value = current
set_path current (segment ∷ []) value = put current segment value
set_path current (segment ∷ next ∷ segments) value =
    put current segment (obj (set_path (dict_or_new (get current segment)) (next ∷ segments) value))

unfoldable pub set_nested_value : Fields → String → Value → Fields
set_nested_value root dotted_path value =
    if str_eq dotted_path "" then root else set_path root (split_dots dotted_path) value

-- The loop of `_delete_nested_path`: the value as it is after the call, with the path removed if it
-- leads through dictionaries only.
unfoldable pub delete_path : Value → List String → Value
delete_path (obj m) (segment ∷ []) = obj (pop m segment)
delete_path (obj m) (segment ∷ next ∷ segments) = elim (get m segment) [
  | none ↦ obj m
  | some inner ↦ obj (put m segment (delete_path inner (next ∷ segments)))
]
delete_path current segments = current

unfoldable pub delete_nested_path : Value → String → Value
delete_nested_path root dotted_path =
    if is_none root || str_eq dotted_path ""
    then root
    else delete_path root (split_dots dotted_path)
