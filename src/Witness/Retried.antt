-- ===== src/Witness/Retried.antt =====
-- A retry with the argument that the first run left.
use openedx_webhook_relay.Base.{◌≡◌, refl, true, some, [], ◌∷◌, strip_prefix, split_dots}
use openedx_webhook_relay.Json.{bool, arr, obj, nil, Fields, end, field}
use openedx_webhook_relay.Json.Dict.{get, put, pop}
use openedx_webhook_relay.Security.{event_data_key}
use openedx_webhook_relay.Security.Nested.{delete_path, delete_nested_path}
use openedx_webhook_relay.Security.Denylist.{drop_nested, drop_path}
use openedx_webhook_relay.Security.Denylist.Carried.{carry_nested, carry_path, carry_paths, carried}
use openedx_webhook_relay.Models.{Endpoint, find_row}
use openedx_webhook_relay.Tasks.{Request, World}
use openedx_webhook_relay.Tasks.Shape.{as_paths}
use openedx_webhook_relay.Tasks.Deliver.{if_enabled, deliver_webhook}
use openedx_webhook_relay.Tasks.Retries.{with_payload}
use openedx_webhook_relay.Tasks.Carried.{carried_argument, deliver_webhook-carried_argument}
use openedx_webhook_relay.Examples.{
  digests, client, settings, endpoint, metadata, raw_payload, request, world, answered,
}

abbrev unlisted : Endpoint
unlisted = record endpoint { pii_allowlist = arr nil }

abbrev unlisted_world : World
unlisted_world = record world { endpoints = unlisted ∷ [] }

abbrev second_run : Request
second_run = record request { retries = 1 }

-- The learner's name is gone from the argument.
abbrev left_payload : Fields
left_payload =
    field "Grade" (obj (field "is_passing" (bool true) end))
      (field "event_metadata" (obj metadata) end)

leaves : carried_argument raw_payload unlisted ≡ left_payload
unfolding carried_argument as_paths carried carry_paths carry_path carry_nested drop_path
    drop_nested strip_prefix split_dots event_data_key get put pop delete_path delete_nested_path
leaves = refl

found_unlisted : if_enabled (find_row unlisted_world.endpoints request.endpoint_id) ≡ some unlisted
unfolding find_row
found_unlisted = refl

allows_all : as_paths unlisted.pii_allowlist ≡ some []
unfolding as_paths
allows_all = refl

deliver_webhook-carried_argument_example :
    deliver_webhook digests client 0 true settings
      (answered 503)
      (with_payload (carried_argument raw_payload unlisted) second_run)
      unlisted_world
    ≡ deliver_webhook digests client 0 true settings (answered 503) second_run unlisted_world
deliver_webhook-carried_argument_example =
    deliver_webhook-carried_argument digests client 0 true settings (answered 503) unlisted unlisted
      second_run unlisted_world found_unlisted allows_all refl
