-- ===== src/Json/Paths.antt =====
-- Reading a value by a path of keys.
pub mod Laws
use openedx_webhook_relay.Base.{String, Option, none, some, List, [], ◌∷◌}
use openedx_webhook_relay.Json.{Value, obj}
use openedx_webhook_relay.Json.Dict.{get}

-- `value[key]`, if `value` is a dictionary that has the key.
abbrev pub child : Value → String → Option Value
child (obj m) k = get m k
child _ k = none

-- The value at a path, if each step leads through a dictionary to a key that is there.
unfoldable pub at : Value → List String → Option Value
at v [] = some v
at v (k ∷ ks) = elim (child v k) [ none ↦ none | some w ↦ at w ks ]
