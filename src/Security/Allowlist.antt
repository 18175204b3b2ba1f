-- ===== src/Security/Allowlist.antt =====
-- `apply_allowlist` of security.py. The Python result shares sub-objects with the payload, and a
-- later write into a shared object writes the value that is there; so values stand for objects.
pub mod Steps
pub mod Sound
pub mod Preserve
pub mod Reads
pub mod Complete
use openedx_webhook_relay.Base.{
  String, Option, none, some, List, [], ◌∷◌, str_eq, strip_prefix, concat, if◌then◌else◌,
}
use openedx_webhook_relay.Json.{Value, obj, Fields, end, is_none}
use openedx_webhook_relay.Json.Dict.{get, put, contains, keys}
use openedx_webhook_relay.Security.{event_data_key, if_truthy}
use openedx_webhook_relay.Security.Nested.{get_or_null, get_nested_value, set_nested_value}

-- `result.setdefault(key, {})`.
abbrev pub set_default : Fields → String → Fields
set_default result key = if contains result key then result else put result key (obj end)

-- `_set_nested_value(result[key], sub_path, value)` on what `result[key]` is, a dictionary: where it
-- is none, the sub-path is empty and the call writes nothing.
abbrev pub set_in : Option Value → Fields → String → String → Value → Fields
set_in (some (obj m)) result key sub_path value =
    put result key (obj (set_nested_value m sub_path value))
set_in _ result key sub_path value = result

-- The four lines that each branch with a sub-path repeats.
unfoldable pub keep_nested : Fields → Fields → String → String → Fields
keep_nested payload result key sub_path =
    let value = get_nested_value (get_or_null payload key) sub_path in
    let opened = set_default result key in
    if is_none value then result else set_in (get opened key) opened key sub_path value

-- `result[key] = payload[key]`, if the payload has the key.
unfoldable pub keep_whole : Fields → Fields → String → Fields
keep_whole payload result key = elim (get payload key) [
  | none ↦ result
  | some value ↦ put result key value
]

-- The loop over the keys at the end, for a path that names a top-level key and a sub-path.
unfoldable pub keep_by_key : Fields → Fields → String → List String → Fields
keep_by_key payload result path [] = result
keep_by_key payload result path (key ∷ rest) = elim (strip_prefix (concat key ".") path) [
  | some sub_path ↦ keep_nested payload result key sub_path
  | none ↦ keep_by_key payload result path rest
]

abbrev pub keep_data : Option String → Fields → Fields → Fields
keep_data none payload result = result
keep_data (some key) payload result = keep_whole payload result key

abbrev pub keep_data_nested : Option String → Fields → Fields → String → Fields
keep_data_nested none payload result sub_path = result
keep_data_nested (some key) payload result sub_path = keep_nested payload result key sub_path

-- One round of the loop over the allowlist.
unfoldable pub keep_path : Fields → Option String → Fields → String → Fields
keep_path payload data_key result path =
    if str_eq path "event_metadata"
    then keep_whole payload result "event_metadata"
    else elim (strip_prefix "event_metadata." path) [
      | some sub_path ↦ keep_nested payload result "event_metadata" sub_path
      | none ↦
          if str_eq path "data"
          then keep_data data_key payload result
          else elim (strip_prefix "data." path) [
            | some sub_path ↦ keep_data_nested data_key payload result sub_path
            | none ↦
                if contains payload path
                then keep_whole payload result path
                else keep_by_key payload result path (keys payload)
          ]
    ]

unfoldable pub keep_paths : Fields → Option String → Fields → List String → Fields
keep_paths payload data_key result [] = result
keep_paths payload data_key result (path ∷ rest) =
    keep_paths payload data_key (keep_path payload data_key result path) rest

unfoldable pub apply_allowlist : Fields → List String → Fields
apply_allowlist payload [] = payload
apply_allowlist payload (path ∷ rest) =
    keep_paths payload (if_truthy (event_data_key payload)) end (path ∷ rest)
