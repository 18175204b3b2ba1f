-- ===== src/Security.antt =====
-- security.py: the payload filters, the pass-only test, and signing.
pub mod Nested
pub mod Selection
pub mod Allowlist
pub mod Denylist
pub mod Passing
pub mod Signing
use openedx_webhook_relay.Base.{String, Option, none, some, str_eq, if◌then◌else◌}
use openedx_webhook_relay.Json.{Fields, end, field}

-- The first top-level key that is not "event_metadata".
unfoldable pub event_data_key : Fields → Option String
event_data_key end = none
event_data_key (field key v m) =
    let rest = event_data_key m in if str_eq key "event_metadata" then rest else some key

-- The test `if data_key:` fails on `None` and on the empty key.
abbrev pub if_truthy : Option String → Option String
if_truthy none = none
if_truthy (some key) = if str_eq key "" then none else some key
