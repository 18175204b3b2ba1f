-- ===== src/Security/Passing.antt =====
-- `should_send_passing_event` of security.py.
use openedx_webhook_relay.Base.{Bool, true, not, if◌then◌else◌}
use openedx_webhook_relay.Json.{Value, null, obj, Fields, end, field, is_none, truthy}
use openedx_webhook_relay.Security.Nested.{get_or_null}

-- `value.get("is_passing")` of a dictionary; another value is passed over, as `None` is.
abbrev pub passing_status : Value → Value
passing_status (obj m) = get_or_null m "is_passing"
passing_status _ = null

-- The loop over the payload's values.
unfoldable pub first_status : Fields → Bool
first_status end = true
first_status (field key value rest) =
    let later = first_status rest in
    if is_none (passing_status value) then later else truthy (passing_status value)

unfoldable pub should_send_passing_event : Fields → Bool → Bool
should_send_passing_event payload only_on_passing =
    if not only_on_passing then true else first_status payload
