-- ===== src/Witness/Delivery.antt =====
-- Concrete runs of the delivery task.
use openedx_webhook_relay.Base.{
  ℕ, Bool, none, List, ◌≡◌, ◌≢◌, ◌≤◌, ◌+◌, refl, true, false, some, [], arith,
}
use openedx_webhook_relay.Security.{event_data_key}
use openedx_webhook_relay.Base.{strip_prefix, split_dots}
use openedx_webhook_relay.Json.{truthy, str, Fields, end, field}
use openedx_webhook_relay.Json.Dict.{get, put, pop}
use openedx_webhook_relay.Security.Nested.{delete_path, delete_nested_path}
use openedx_webhook_relay.Security.Allowlist.{keep_whole, keep_path, keep_paths, apply_allowlist}
use openedx_webhook_relay.Security.Denylist.{drop_nested, drop_path, drop_paths, apply_denylist}
use openedx_webhook_relay.Security.Passing.{first_status, should_send_passing_event}
use openedx_webhook_relay.Models.{Endpoint, half_open, find_row}
use openedx_webhook_relay.Models.Circuit.{try_acquire_delivery_slot}
use openedx_webhook_relay.Tasks.Deliver.{
  if_enabled, deliver_found, deliver_shaped, gate, send_signed, send, headers_of, sign_header,
  after_reply, fail_or_retry,
}
use openedx_webhook_relay.Secrets.{get_secret_backend, get_secret, effective_secret}
use openedx_webhook_relay.Tasks.{done, retry, raised}
use openedx_webhook_relay.Tasks.Backoff.{backoff_seconds}
use openedx_webhook_relay.Tasks.Retries.{wait_before, deliver_webhook-retries}
use openedx_webhook_relay.Models.Validation.{clean}
use openedx_webhook_relay.Tasks.Accepted.{text_values, holds_text_values, clean_prepares}
use openedx_webhook_relay.Models.Circuit.Breaker.{Config, shut, moves, Represents}
use openedx_webhook_relay.Tasks.Moves.{Stands, run_ops, deliver_webhook-moves}
use openedx_webhook_relay.Tasks.Isolation.{deliver_webhook-leaves}
use openedx_webhook_relay.Tasks.LostTrial.{DueForTrial, broken_trial_wedges}
use openedx_webhook_relay.Tasks.Signed.{Accepts, header_name, headers_of-verify}
use openedx_webhook_relay.Security.Signing.{serialize_payload, sign_payload}
use openedx_webhook_relay.Tasks.Shape.{shape_and_check, as_paths}
use openedx_webhook_relay.Tasks.Deliver.{deliver_webhook}
use openedx_webhook_relay.Tasks.Trail.{Accounted, deliver_webhook-Accounted}
use openedx_webhook_relay.Tasks.Privacy.{Quiet, deliver_webhook-private}
use openedx_webhook_relay.Examples.{
  digests, client, settings, endpoint, request, world, answered, shaped_payload, open_endpoint,
  open_world, broken_run,
}

shapes : shape_and_check request.raw_payload endpoint ≡ some (shaped_payload, true)
unfolding shape_and_check as_paths apply_allowlist keep_paths keep_path keep_whole apply_denylist
    drop_paths drop_path drop_nested strip_prefix split_dots event_data_key get put pop delete_path
    delete_nested_path should_send_passing_event first_status truthy
shapes = refl

found : if_enabled (find_row world.endpoints request.endpoint_id) ≡ some endpoint
unfolding find_row
found = refl

ends : (deliver_webhook digests client 0 false settings (answered 503) request world).0 ≡ retry 30
unfolding deliver_webhook deliver_found deliver_shaped gate send_signed send headers_of sign_header
    after_reply fail_or_retry find_row try_acquire_delivery_slot get_secret_backend get_secret
    effective_secret backoff_seconds
ends = rw shapes refl

ends_well :
    (deliver_webhook digests client 0 false settings (answered 503) request world).0 ≢ raised
ends_well e = cc (ends, e)

deliver_webhook-private_example :
    Quiet digests request world
      (deliver_webhook digests client 0 false settings (answered 503) request world).1
deliver_webhook-private_example =
    deliver_webhook-private digests client 0 false settings (answered 503) request world

deliver_webhook-Accounted_example :
    Accounted digests
      (answered 503)
      request
      endpoint
      shaped_payload
      true
      world
      (deliver_webhook digests client 0 false settings (answered 503) request world).1
deliver_webhook-Accounted_example =
    deliver_webhook-Accounted digests client 0 false settings (answered 503) request world endpoint
      shaped_payload true found shapes ends_well

deliver_webhook-retries_example :
    (e : Endpoint) × (if_enabled (find_row world.endpoints request.endpoint_id) ≡ some e)
    × (request.retries + 2 ≤ e.max_retries)
    × (30 ≡ wait_before settings request.retries)
deliver_webhook-retries_example =
    deliver_webhook-retries digests client 0 false settings (answered 503) request world 30 ends

body : List ℕ
body = serialize_payload digests shaped_payload

headers : Fields
headers = field "Content-Type" (str "application/json") (
    field "Accept" (str "application/json") (
      field "X-OpenEdX-Webhook-Correlation-Id" (str "5f0c") (
        field "X-OpenEdX-Webhook-Signature" (str "sha256=c0ffees3cret")
          (field "X-OpenEdX-Webhook-Signature-Previous" (str "sha256=c0ffeebefore") end))))

makes : headers_of digests settings request endpoint body (some "s3cret") ≡ some headers
unfolding headers_of sign_header put sign_payload headers
makes = refl

headers_of-verify_example : Accepts digests body headers (header_name settings) "s3cret"
headers_of-verify_example =
    headers_of-verify digests settings request endpoint body "s3cret" headers makes refl refl

deliver_webhook-leaves_example :
    find_row
      (deliver_webhook digests client 0 false settings (answered 503) request world).1.endpoints
      8
    ≡ find_row world.endpoints 8
deliver_webhook-leaves_example =
    deliver_webhook-leaves digests client 0 false settings (answered 503) 8 request world refl

shapes_open : shape_and_check request.raw_payload open_endpoint ≡ some (shaped_payload, true)
unfolding shape_and_check
shapes_open = unfold shape_and_check in shapes

found_open : find_row open_world.endpoints 7 ≡ some open_endpoint
unfolding find_row
found_open = refl

due : DueForTrial 70000000 open_endpoint
due = record {
  enabled = refl;
  breaker_on = refl;
  is_opened = refl;
  since = 5000;
  since_is = refl;
  cooled = omega arith;
}

broken_trial_wedges_example :
    (row' : Endpoint) × ((deliver_webhook digests client 0 false settings broken_run request
        open_world).0
      ≡ raised)
    × ((deliver_webhook digests client 0 false settings broken_run request open_world).1.attempts
        ≡ [])
    × (find_row
          (deliver_webhook digests client 0 false settings broken_run request
            open_world).1.endpoints
          7
        ≡ some row')
    × (row'.circuit_state ≡ half_open)
    × ((try_acquire_delivery_slot 99000000 row'
          (deliver_webhook digests client 0 false settings broken_run request
            open_world).1.endpoints).granted
        ≡ false)
broken_trial_wedges_example =
    broken_trial_wedges digests client 0 false settings broken_run refl request open_world
      open_endpoint shaped_payload 99000000 refl found_open due shapes_open

accepted : clean endpoint ≡ none
unfolding clean strip_prefix
accepted = refl

clean_prepares_example :
    ((payload : Fields) × (should_send : Bool) × (shape_and_check (field "x" (str "y") end) endpoint
        ≡ some (payload, should_send)))
    × ((made : Fields) × (headers_of digests settings request endpoint body (some "s3cret")
          ≡ some made)
        × (text_values made ≡ true))
unfolding holds_text_values text_values
clean_prepares_example =
    clean_prepares digests settings endpoint (field "x" (str "y") end) request body "s3cret"
      accepted refl refl refl

ends_fine : (deliver_webhook digests client 0 false settings (answered 200) request world).0 ≡ done
unfolding deliver_webhook deliver_found deliver_shaped gate send_signed send headers_of sign_header
    after_reply find_row try_acquire_delivery_slot get_secret_backend get_secret effective_secret
ends_fine = rw shapes refl

does_not_raise :
    (deliver_webhook digests client 0 false settings (answered 200) request world).0 ≢ raised
does_not_raise e = cc (ends_fine, e)

found_row : find_row world.endpoints 7 ≡ some endpoint
unfolding find_row
found_row = refl

abbrev config : Config
config = record { switched_on = true; threshold = 2; cooldown = 60 }

stands : Represents config endpoint (shut 0)
stands = record { switched = refl; at_threshold = refl; cools = refl; state = refl; reached = refl }

deliver_webhook-moves_example :
    Stands config 7
      (deliver_webhook digests client 0 false settings (answered 200) request world).1.endpoints
      (moves config (run_ops config (shut 0) (answered 200) 1 3) (shut 0))
deliver_webhook-moves_example =
    deliver_webhook-moves config digests client 0 false settings (answered 200) request world
      endpoint shaped_payload (shut 0) found_row refl shapes stands does_not_raise
