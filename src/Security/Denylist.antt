-- ===== src/Security/Denylist.antt =====
-- `apply_denylist` of security.py, which returns the payload as it is after the call.
pub mod Steps
pub mod Descent
pub mod Removal
pub mod Precision
pub mod Carried
pub mod Actions
pub mod Copy
pub mod Retried
use openedx_webhook_relay.Base.{
  String, Option, none, some, List, [], ◌∷◌, str_eq, strip_prefix, concat, if◌then◌else◌,
}
use openedx_webhook_relay.Json.{Fields}
use openedx_webhook_relay.Json.Dict.{get, put, pop, contains, keys}
use openedx_webhook_relay.Security.{event_data_key, if_truthy}
use openedx_webhook_relay.Security.Nested.{delete_nested_path}

-- `_delete_nested_path(payload.get(key), sub_path)`.
unfoldable pub drop_nested : Fields → String → String → Fields
drop_nested payload key sub_path = elim (get payload key) [
  | none ↦ payload
  | some value ↦ put payload key (delete_nested_path value sub_path)
]

-- The loop over the keys at the end.
unfoldable pub drop_by_key : Fields → String → List String → Fields
drop_by_key payload path [] = payload
drop_by_key payload path (key ∷ rest) = elim (strip_prefix (concat key ".") path) [
  | some sub_path ↦ drop_nested payload key sub_path
  | none ↦ drop_by_key payload path rest
]

abbrev pub drop_data : Option String → Fields → Fields
drop_data none payload = payload
drop_data (some key) payload = pop payload key

abbrev pub drop_data_nested : Option String → Fields → String → Fields
drop_data_nested none payload sub_path = payload
drop_data_nested (some key) payload sub_path = drop_nested payload key sub_path

-- One round of the loop over the denylist.
unfoldable pub drop_path : Option String → Fields → String → Fields
drop_path data_key payload path =
    if str_eq path "event_metadata"
    then pop payload "event_metadata"
    else elim (strip_prefix "event_metadata." path) [
      | some sub_path ↦ drop_nested payload "event_metadata" sub_path
      | none ↦
          if str_eq path "data"
          then drop_data data_key payload
          else elim (strip_prefix "data." path) [
            | some sub_path ↦ drop_data_nested data_key payload sub_path
            | none ↦
                if contains payload path
                then pop payload path
                else drop_by_key payload path (keys payload)
          ]
    ]

unfoldable pub drop_paths : Option String → Fields → List String → Fields
drop_paths data_key payload [] = payload
drop_paths data_key payload (path ∷ rest) =
    drop_paths data_key (drop_path data_key payload path) rest

unfoldable pub apply_denylist : Fields → List String → Fields
apply_denylist payload denylist = drop_paths (if_truthy (event_data_key payload)) payload denylist
