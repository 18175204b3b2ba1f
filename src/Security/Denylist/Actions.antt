-- ===== src/Security/Denylist/Actions.antt =====
-- A round of the denylist loop as an action that the keys of the payload determine.
use openedx_webhook_relay.Base.{
  String, ◌≡◌, refl, Bool, false, ◌||◌, Option, none, some, List, [], ◌∷◌, str_eq, strip_prefix,
  concat, if◌then◌else◌, arith,
}
use openedx_webhook_relay.Json.{Fields, end, field}
use openedx_webhook_relay.Json.Dict.{get, pop, contains, keys}
use openedx_webhook_relay.Security.Denylist.{drop_nested, drop_by_key, drop_path}
use openedx_webhook_relay.Security.Denylist.Carried.{carry_nested, carry_by_key, carry_path}

pub data Action : Type 0 where
  nothing : Action
  pop_key : String → Action
  delete_below : String → String → Action

unfoldable pub among : List String → String → Bool
among [] k = false
among (j ∷ js) k = str_eq j k || among js k

abbrev action_by_key : String → List String → Action
action_by_key path [] = nothing
action_by_key path (key ∷ rest) = elim (strip_prefix (concat key ".") path) [
  | some sub_path ↦ delete_below key sub_path
  | none ↦ action_by_key path rest
]

abbrev on_data : Option String → Action
on_data none = nothing
on_data (some key) = pop_key key

abbrev below_data : Option String → String → Action
below_data none sub_path = nothing
below_data (some key) sub_path = delete_below key sub_path

-- What a round does, by the keys that the payload has then.
unfoldable pub action : Option String → List String → String → Action
action data_key names path =
    if str_eq path "event_metadata"
    then pop_key "event_metadata"
    else elim (strip_prefix "event_metadata." path) [
      | some sub_path ↦ delete_below "event_metadata" sub_path
      | none ↦ if str_eq path "data" then on_data data_key else elim (strip_prefix "data." path) [
        | some sub_path ↦ below_data data_key sub_path
        | none ↦ if among names path then pop_key path else action_by_key path names
      ]
    ]

unfoldable pub perform : Action → Fields → Fields
perform nothing payload = payload
perform (pop_key key) payload = pop payload key
perform (delete_below key sub_path) payload = drop_nested payload key sub_path

unfoldable pub perform_on : Action → Fields → Fields → Fields
perform_on nothing payload argument = argument
perform_on (pop_key key) payload argument = argument
perform_on (delete_below key sub_path) payload argument = carry_nested payload argument key sub_path

pub contains-keys : (m : Fields) (k : String) → contains m k ≡ among (keys m) k
unfolding get keys among
contains-keys end k = refl
contains-keys (field j v m) k = ground (arith, contains-keys m k)

module _ (payload argument : Fields) (path : String) where
  drop_by_key-perform :
      (names : List String)
      → drop_by_key payload path names ≡ perform (action_by_key path names) payload
  unfolding drop_by_key perform
  drop_by_key-perform [] = refl
  drop_by_key-perform (key ∷ rest) = ground (arith, drop_by_key-perform rest)

  carry_by_key-perform_on :
      (names : List String)
      → carry_by_key payload argument path names
        ≡ perform_on (action_by_key path names) payload argument
  unfolding carry_by_key perform_on
  carry_by_key-perform_on [] = refl
  carry_by_key-perform_on (key ∷ rest) = ground (arith, carry_by_key-perform_on rest)

  module _ (data_key : Option String) where
    pub drop_path-perform :
        drop_path data_key payload path ≡ perform (action data_key (keys payload) path) payload
    unfolding drop_path action perform
    drop_path-perform =
        ground (arith, drop_by_key-perform (keys payload), contains-keys payload path)

    pub carry_path-perform_on :
        carry_path data_key payload argument path
        ≡ perform_on (action data_key (keys payload) path) payload argument
    unfolding carry_path action perform_on
    carry_path-perform_on =
        ground (arith, carry_by_key-perform_on (keys payload), contains-keys payload path)
