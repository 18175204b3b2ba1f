-- ===== src/Tasks/Carried.antt =====
-- What a run leaves of its argument, which a retry carries on. A filter's list is a list of paths or
-- makes the run raise; an allowlist makes a payload that shares parts of the argument only, which is
-- not followed here.
use openedx_webhook_relay.Base.{
  ◌≡◌, refl, ap, ◌∙◌, Bool, Option, none, some, inl, inr, Option-cases, List, [], String,
}
use openedx_webhook_relay.Json.{Fields}
use openedx_webhook_relay.Security.Signing.{Digests}
use openedx_webhook_relay.Security.Allowlist.{apply_allowlist}
use openedx_webhook_relay.Security.Denylist.Carried.{carried}
use openedx_webhook_relay.Security.Denylist.Retried.{apply_denylist-carried}
use openedx_webhook_relay.Settings.{Settings}
use openedx_webhook_relay.Models.{Endpoint, find_row}
use openedx_webhook_relay.Secrets.{Client}
use openedx_webhook_relay.Tasks.{Request, World, Moment}
use openedx_webhook_relay.Tasks.Shape.{as_paths, shape_and_check}
use openedx_webhook_relay.Tasks.Record.{record_attempt, attempt_row}
use openedx_webhook_relay.Tasks.Deliver.{
  if_enabled, headers_of, recorded, fail_or_retry, after_reply, without_post, send, send_signed,
  gate, deliver_shaped, deliver_found, deliver_webhook,
}
use openedx_webhook_relay.Tasks.Retries.{with_payload}

abbrev carried_by : Option (List String) → Fields → Fields
carried_by none raw_payload = raw_payload
carried_by (some paths) raw_payload = carried raw_payload paths

-- The argument after `_shape_and_check(raw_payload, endpoint)`, for an endpoint without an allowlist.
unfoldable pub carried_argument : Fields → Endpoint → Fields
carried_argument raw_payload endpoint = carried_by (as_paths endpoint.pii_denylist) raw_payload

shape_and_check-carried :
    (payload : Fields) (endpoint : Endpoint)
    → as_paths endpoint.pii_allowlist ≡ some []
    → shape_and_check (carried_argument payload endpoint) endpoint
      ≡ shape_and_check payload endpoint
unfolding shape_and_check carried_argument apply_allowlist
shape_and_check-carried payload endpoint h = elim (Option-cases (as_paths endpoint.pii_denylist)) [
  | inl e ↦ rw (h, e) refl
  | inr (paths, e) ↦ rw (h, e, apply_denylist-carried payload paths) refl
]

module _ (d : Digests) (client : Client) (store : client.Store) (boto3_installed : Bool)
    (settings : Settings) (m : Moment) where
  deliver_shaped-with_payload :
      (payload : Fields) (request : Request) (endpoint : Endpoint) (shaped : Option (Fields × Bool))
      (w : World)
      → deliver_shaped d client store boto3_installed settings m
          (with_payload payload request)
          endpoint
          shaped
          w
        ≡ deliver_shaped d client store boto3_installed settings m request endpoint shaped w
  unfolding deliver_shaped gate without_post send_signed send headers_of after_reply fail_or_retry
      recorded record_attempt attempt_row
  deliver_shaped-with_payload payload request endpoint none w = refl
  deliver_shaped-with_payload payload request endpoint (some shaped) w = refl

  -- If the endpoint of a request is there and enabled, and has no allowlist, then a run does the same
  -- on the payload that an earlier run, under the same denylist, leaves of the request's as on the
  -- request's own: what it records, posts and writes, and how it ends.
  pub deliver_webhook-carried_argument :
      (earlier row : Endpoint) (request : Request) (w : World)
      → if_enabled (find_row w.endpoints request.endpoint_id) ≡ some row
      → as_paths row.pii_allowlist ≡ some []
      → earlier.pii_denylist ≡ row.pii_denylist
      → deliver_webhook d client store boto3_installed settings m
          (with_payload (carried_argument request.raw_payload earlier) request)
          w
        ≡ deliver_webhook d client store boto3_installed settings m request w
  unfolding deliver_webhook deliver_found carried_argument
  deliver_webhook-carried_argument earlier row request w found unlisted same =
      let payload = carried_argument request.raw_payload row in
      rw (found, same)
        (deliver_shaped-with_payload payload request row (shape_and_check payload row) w
          ∙ ap
              (λ shaped.
                deliver_shaped d client store boto3_installed settings m request row shaped w)
              (shape_and_check-carried request.raw_payload row unlisted))
