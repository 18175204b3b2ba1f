-- ===== src/Security/Denylist/Carried.antt =====
-- What `apply_denylist` does to the dictionary whose shallow copy it is given, as `_shape_and_check`
-- gives it a copy of the task's argument: a retry carries that argument on.
use openedx_webhook_relay.Base.{
  String, Option, none, some, List, [], ◌∷◌, str_eq, strip_prefix, concat, if◌then◌else◌,
}
use openedx_webhook_relay.Json.{Fields}
use openedx_webhook_relay.Json.Dict.{get, put, contains, keys}
use openedx_webhook_relay.Security.{event_data_key, if_truthy}
use openedx_webhook_relay.Security.Nested.{delete_nested_path}
use openedx_webhook_relay.Security.Denylist.{drop_path}

-- `_delete_nested_path(payload.get(key), sub_path)` on the value that the copy shares with the
-- argument: `argument` is the argument before the call, the result is the argument after it.
unfoldable pub carry_nested : Fields → Fields → String → String → Fields
carry_nested payload argument key sub_path = elim (get payload key) [
  | none ↦ argument
  | some value ↦ put argument key (delete_nested_path value sub_path)
]

unfoldable pub carry_by_key : Fields → Fields → String → List String → Fields
carry_by_key payload argument path [] = argument
carry_by_key payload argument path (key ∷ rest) = elim (strip_prefix (concat key ".") path) [
  | some sub_path ↦ carry_nested payload argument key sub_path
  | none ↦ carry_by_key payload argument path rest
]

abbrev pub carry_data_nested : Option String → Fields → Fields → String → Fields
carry_data_nested none payload argument sub_path = argument
carry_data_nested (some key) payload argument sub_path = carry_nested payload argument key sub_path

-- One round of the loop. A key that is popped is popped from the copy only.
unfoldable pub carry_path : Option String → Fields → Fields → String → Fields
carry_path data_key payload argument path =
    if str_eq path "event_metadata" then argument else elim (strip_prefix "event_metadata." path) [
      | some sub_path ↦ carry_nested payload argument "event_metadata" sub_path
      | none ↦ if str_eq path "data" then argument else elim (strip_prefix "data." path) [
        | some sub_path ↦ carry_data_nested data_key payload argument sub_path
        | none ↦
            if contains payload path
            then argument
            else carry_by_key payload argument path (keys payload)
      ]
    ]

unfoldable pub carry_paths : Option String → Fields → Fields → List String → Fields
carry_paths data_key payload argument [] = argument
carry_paths data_key payload argument (path ∷ rest) =
    carry_paths data_key (drop_path data_key payload path)
      (carry_path data_key payload argument path) rest

-- The argument after `apply_denylist(argument.copy(), denylist)`.
unfoldable pub carried : Fields → List String → Fields
carried argument denylist =
    carry_paths (if_truthy (event_data_key argument)) argument argument denylist
