-- ===== src/Tasks/Shape.antt =====
-- `_shape_and_check` of tasks.py.

use openedx_webhook_relay.Base.{String, Bool, Option, none, some, List, [], ◌∷◌, if◌then◌else◌}
use openedx_webhook_relay.Json.{Value, str, arr, obj, Items, nil, cons, Fields, truthy}
use openedx_webhook_relay.Json.Dict.{keys}
use openedx_webhook_relay.Security.Allowlist.{apply_allowlist}
use openedx_webhook_relay.Security.Denylist.{apply_denylist}
use openedx_webhook_relay.Security.Passing.{should_send_passing_event}
use openedx_webhook_relay.Models.{Endpoint}

abbrev characters : String → List String
characters String.[] = []
characters (String.◌∷◌ c s) = (String.◌∷◌ c String.[]) ∷ characters s

abbrev pub add_text : Value → Option (List String) → Option (List String)
add_text (str s) (some rest) = some (s ∷ rest)
add_text _ _ = none

abbrev pub texts : Items → Option (List String)
texts nil = some []
texts (cons v xs) = add_text v (texts xs)

-- The paths over which a filter's loop runs: none for a value that is false as a condition, else what
-- Python iterates over. `none`: the loop raises, since the value or an item is of the wrong type.
unfoldable pub as_paths : Value → Option (List String)
as_paths (str s) = some (characters s)
as_paths (arr xs) = texts xs
as_paths (obj m) = some (keys m)
as_paths v = if truthy v then none else some []

abbrev allowed : Option (List String) → Fields → Option Fields
allowed none payload = none
allowed (some paths) payload = some (apply_allowlist payload paths)

abbrev denied : Option (List String) → Option Fields → Option Fields
denied none payload = none
denied (some paths) none = none
denied (some paths) (some payload) = some (apply_denylist payload paths)

abbrev with_check : Bool → Option Fields → Option (Fields × Bool)
with_check only_on_passing none = none
with_check only_on_passing (some payload) =
    some (payload, should_send_passing_event payload only_on_passing)

-- `none`: a filter raises. An empty list of paths leaves the payload as it is, so the two tests on the
-- lists are those of `as_paths`.
unfoldable pub shape_and_check : Fields → Endpoint → Option (Fields × Bool)
unfolding as_paths
shape_and_check raw_payload endpoint = with_check endpoint.only_on_passing (
    denied (as_paths endpoint.pii_denylist) (allowed (as_paths endpoint.pii_allowlist) raw_payload))
