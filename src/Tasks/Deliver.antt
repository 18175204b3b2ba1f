-- ===== src/Tasks/Deliver.antt =====
-- `deliver_webhook` and `_fail_or_retry` of tasks.py.
use openedx_webhook_relay.Base.{
  ℕ, ◌+◌, String, Bool, ◌||◌, Option, none, some, List, [], ◌∷◌, ◌++◌, ◌==◌, ltb, leb, str_eq,
  concat, get_or, if◌then◌else◌,
}
use openedx_webhook_relay.Json.{Value, str, obj, Fields, end, field, truthy}
use openedx_webhook_relay.Json.Dict.{put}
use openedx_webhook_relay.Security.Signing.{
  Digests, take_text, sign_payload, serialize_payload, payload_fingerprint,
}
use openedx_webhook_relay.Settings.{Settings}
use openedx_webhook_relay.Models.{
  Status, succeeded, retrying, exhausted, skipped, circuit_open, Endpoint, find_row,
}
use openedx_webhook_relay.Models.Circuit.{
  try_acquire_delivery_slot, record_circuit_success, record_circuit_failure,
}
use openedx_webhook_relay.Secrets.{Client, effective_secret, effective_previous_secret}
use openedx_webhook_relay.Tasks.{
  Request, World, Reply, response, unreachable, broken, Moment, Ending, done, retry, raised,
}
use openedx_webhook_relay.Tasks.Shape.{shape_and_check}
use openedx_webhook_relay.Tasks.Backoff.{backoff_seconds}
use openedx_webhook_relay.Tasks.Record.{Outcome, record_attempt}

-- `objects.get(pk=endpoint_id, enabled=True)`; `none` is DoesNotExist.
abbrev pub if_enabled : Option Endpoint → Option Endpoint
if_enabled none = none
if_enabled (some endpoint) = if endpoint.enabled then some endpoint else none

-- `{**base, **(custom or {})}`; `none`: what stands there is no mapping.
abbrev pub merge : Fields → Fields → Fields
merge base end = base
merge base (field k v rest) = merge (put base k v) rest

abbrev pub merge_custom : Fields → Value → Option Fields
merge_custom base (obj custom) = some (merge base custom)
merge_custom base v = if truthy v then none else some base

unfoldable pub sign_header : Digests → Fields → String → List ℕ → String → Fields
sign_header d headers name payload_bytes secret =
    if str_eq secret ""
    then headers
    else put headers name (str (sign_payload d payload_bytes secret))

-- The headers of a delivery, from `effective_secret()` and `effective_previous_secret()`.
unfoldable pub headers_of :
    Digests → Settings → Request → Endpoint → List ℕ → Option String → Option Fields
unfolding sign_header
headers_of d settings request endpoint payload_bytes secret =
    let header_name = get_or settings.signature_header "X-OpenEdX-Webhook-Signature" in
    let base = field "Content-Type" (str "application/json") (
      field "Accept" (str "application/json")
        (field "X-OpenEdX-Webhook-Correlation-Id" (str request.correlation_id) end)) in
    elim (merge_custom base endpoint.custom_headers) [
      | none ↦ none
      | some headers ↦ elim secret [
        | none ↦ none
        | some current ↦ some (
            sign_header d (sign_header d headers header_name payload_bytes current)
              (concat header_name "-Previous") payload_bytes (effective_previous_secret endpoint))
      ]
    ]

-- One delivery's locals after the payload is shaped.
pub record Delivery : Type 0 where
  pub request : Request
  pub endpoint : Endpoint
  pub attempt_number : ℕ
  pub payload : Fields
  pub fingerprint : String

module _ (settings : Settings) (m : Moment) where
  unfoldable pub recorded : Delivery → Outcome → World → World
  recorded v outcome w =
      record_attempt settings m.recorded_at v.endpoint v.request v.attempt_number v.fingerprint
        outcome w

  -- `endpoint.record_circuit_failure()`, which raises if the row is gone.
  abbrev with_rows : Option (Endpoint × List Endpoint) → World → Ending × World
  with_rows none w = (raised, w)
  with_rows (some (self, rows)) w = (done, record w { endpoints = rows })

  unfoldable pub circuit_failure : Delivery → World → Ending × World
  circuit_failure v w = with_rows (record_circuit_failure m.opened_at v.endpoint w.endpoints) w

  -- `max_retries` is the endpoint's, so Celery's own test on the count of retries passes.
  unfoldable pub fail_or_retry : Delivery → Option ℕ → String → World → Ending × World
  unfolding recorded circuit_failure
  fail_or_retry v http_status_code error_message w =
      if ltb v.attempt_number v.endpoint.max_retries
      then (
        retry (backoff_seconds settings v.attempt_number),
        recorded v
            (record {
              status = retrying;
              http_status_code = http_status_code;
              duration_ms = some m.duration;
              error_message = error_message;
              payload = none;
            })
            w,
      )
      else circuit_failure v (
          recorded v
            (record {
              status = exhausted;
              http_status_code = http_status_code;
              duration_ms = some m.duration;
              error_message = error_message;
              payload = some v.payload;
            })
            w)

  -- What follows the POST, by the reply.
  unfoldable pub after_reply : Delivery → Reply → World → Ending × World
  unfolding fail_or_retry
  after_reply v (unreachable message) w = fail_or_retry v none message w
  after_reply v broken w = (raised, w)
  after_reply v (response status text) w =
      if leb 500 status || status == 429
      then fail_or_retry v (some status) (take_text 2000 text) w
      else if leb 400 status
      then circuit_failure v (
          recorded v
            (record {
              status = exhausted;
              http_status_code = some status;
              duration_ms = some m.duration;
              error_message = take_text 2000 text;
              payload = some v.payload;
            })
            w)
      else let w' =
          recorded v
            (record {
              status = succeeded;
              http_status_code = some status;
              duration_ms = some m.duration;
              error_message = "";
              payload = none;
            })
            w in
        (done, record w' { endpoints = (record_circuit_success v.endpoint w'.endpoints).1 })

  unfoldable pub without_post : Delivery → Status → World → Ending × World
  unfolding recorded
  without_post v status w = (
    done,
    recorded v
        (record {
          status = status;
          http_status_code = none;
          duration_ms = none;
          error_message = "";
          payload = none;
        })
        w,
  )

module _ (d : Digests) (client : Client) (store : client.Store) (boto3_installed : Bool)
    (settings : Settings) (m : Moment) where
  -- From `serialize_payload` on, with the headers.
  unfoldable pub send : Delivery → Option Fields → World → Ending × World
  send v none w = (raised, w)
  send v (some headers) w = after_reply settings m v m.reply (record w {
    posts =
        w.posts
        ++ (record {
          url = v.endpoint.webhook_url;
          body = serialize_payload d v.payload;
          headers = headers;
          timeout = v.endpoint.timeout_seconds;
        })
          ∷ [];
  })

  unfoldable pub send_signed : Delivery → World → Ending × World
  unfolding send
  send_signed v w =
      send v
        (headers_of d settings v.request v.endpoint (serialize_payload d v.payload)
          (effective_secret client settings boto3_installed store v.endpoint))
        w

  -- The breaker gates the first attempt of a chain only.
  unfoldable pub gate : Delivery → World → Ending × World
  unfolding without_post send_signed
  gate v w =
      let slot = try_acquire_delivery_slot m.acquired_at v.endpoint w.endpoints in
      if v.attempt_number == 1
      then (if slot.granted
          then send_signed (record v { endpoint = slot.instance })
              (record w { endpoints = slot.rows })
          else without_post settings m v circuit_open (record w { endpoints = slot.rows }))
      else send_signed v w

  unfoldable pub deliver_shaped :
      Request → Endpoint → Option (Fields × Bool) → World → Ending × World
  unfolding gate without_post
  deliver_shaped request endpoint none w = (raised, w)
  deliver_shaped request endpoint (some (payload, should_send)) w =
      let v : Delivery = record {
        request = request;
        endpoint = endpoint;
        attempt_number = request.retries + 1;
        payload = payload;
        fingerprint = payload_fingerprint d payload;
      } in
      if should_send then gate v w else without_post settings m v skipped w

  unfoldable pub deliver_found : Request → Option Endpoint → World → Ending × World
  unfolding deliver_shaped
  deliver_found request none w = (done, w)
  deliver_found request (some endpoint) w =
      deliver_shaped request endpoint (shape_and_check request.raw_payload endpoint) w

  unfoldable pub deliver_webhook : Request → World → Ending × World
  unfolding deliver_found
  deliver_webhook request w =
      deliver_found request (if_enabled (find_row w.endpoints request.endpoint_id)) w
