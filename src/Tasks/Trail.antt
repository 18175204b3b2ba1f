-- ===== src/Tasks/Trail.antt =====
-- The audit trail: one row and one signal for each run that reaches its endpoint.
use openedx_webhook_relay.Base.{
  ◌+◌, ◌≡◌, ◌≢◌, ◌⊎◌, inl, inr, Bool, true, false, ◌&&◌, none, some, [], ◌∷◌, ◌++◌, arith,
  if◌then◌else◌,
}
use openedx_webhook_relay.Json.{Fields}
use openedx_webhook_relay.Security.Signing.{Digests, serialize_payload, payload_fingerprint}
use openedx_webhook_relay.Settings.{Settings}
use openedx_webhook_relay.Models.{
  Attempt, exhausted, skipped, circuit_open, same_status, Endpoint, find_row,
}
use openedx_webhook_relay.Secrets.{Client}
use openedx_webhook_relay.Metrics.{Signal}
use openedx_webhook_relay.Tasks.{Request, Post, World, Moment, Ending, raised}
use openedx_webhook_relay.Tasks.Shape.{shape_and_check}
use openedx_webhook_relay.Tasks.Record.{Outcome, attempt_row, signal_of}
use openedx_webhook_relay.Tasks.Deliver.{if_enabled, deliver_webhook}
use openedx_webhook_relay.Tasks.Audit.{row_of, status_for}
use openedx_webhook_relay.Tasks.Runs.{Ran, silent, sent, crashed, delivery_of, deliver_webhook-Ran}
use openedx_webhook_relay.Tasks.Configs.{SameConfig}

-- The row and the signal that a run writes for the request, the endpoint and the shaped payload.
pub record IsAuditOf (d : Digests) (request : Request) (endpoint : Endpoint) (payload : Fields)
    (row : Attempt) (signal : Signal) : Type 0 where
  pub correlated : row.correlation_id ≡ request.correlation_id
  pub of_endpoint : row.endpoint_id ≡ endpoint.pk
  pub of_event : row.event ≡ request.event
  pub numbered : row.attempt_number ≡ request.retries + 1
  pub fingerprinted : row.payload_fingerprint ≡ payload_fingerprint d payload
  pub snapshot : row.payload_snapshot ≡ (
      if same_status row.status exhausted && endpoint.retain_payload_snapshot
      then some payload
      else none)
  pub same_status_sent : signal.status ≡ row.status
  pub same_correlation : signal.correlation_id ≡ request.correlation_id

-- What a run that ends without an exception has done.
pub record Accounted (d : Digests) (m : Moment) (request : Request) (endpoint : Endpoint)
    (payload : Fields) (should_send : Bool) (w w' : World) : Type 0 where
  pub row : Attempt
  pub signal : Signal
  pub one_row : w'.attempts ≡ w.attempts ++ row ∷ []
  pub one_signal : w'.emitted.signals ≡ w.emitted.signals ++ signal ∷ []
  pub audit : IsAuditOf d request endpoint payload row signal
  pub posts :
      ((w'.posts ≡ w.posts) × (row.status ≡ (if should_send then circuit_open else skipped)))
      ⊎ ((post : Post) × (w'.posts ≡ w.posts ++ post ∷ [])
          × (post.body ≡ serialize_payload d payload)
          × (status_for (request.retries + 1) endpoint.max_retries m.reply ≡ some row.status))

module _ (d : Digests) (m : Moment) (request : Request) (endpoint e : Endpoint)
    (payload : Fields) where
  audit_of :
      (outcome : Outcome)
      → SameConfig endpoint e
      → (outcome.status ≡ exhausted → outcome.payload ≡ some payload)
      → IsAuditOf d request endpoint payload
          (row_of m (record (delivery_of d request endpoint payload) { endpoint = e }) outcome)
          (signal_of e request outcome)
  unfolding attempt_row
  audit_of outcome same own = ground arith

skip_apart : (should_send : Bool) → (if should_send then circuit_open else skipped) ≢ exhausted
skip_apart true e = cc
skip_apart false e = cc

-- The delivery of the instance that the slot gave, and the way it was read before.
module _ (d : Digests) (m : Moment) (request : Request) (endpoint : Endpoint) (payload : Fields)
    (should_send : Bool) (w : World) (r : Ending × World) where
  Ran-Accounted :
      Ran d m
        (delivery_of d request endpoint payload)
        (if should_send then circuit_open else skipped)
        w
        r
      → r.0 ≢ raised
      → Accounted d m request endpoint payload should_send w r.1
  Ran-Accounted (silent e outcome same status empty uncoded logged quiet ends) ended = record {
    row = row_of m (record (delivery_of d request endpoint payload) { endpoint = e }) outcome;
    signal = signal_of e request outcome;
    one_row = logged.one_row;
    one_signal = logged.one_signal;
    audit =
        audit_of d m request endpoint e payload outcome same
          (λ p. absurd (skip_apart should_send (cc (p, status))));
    posts = inl (quiet, unfold attempt_row in status);
  }
  Ran-Accounted (sent e outcome post same fits logged body posts told) ended = record {
    row = row_of m (record (delivery_of d request endpoint payload) { endpoint = e }) outcome;
    signal = signal_of e request outcome;
    one_row = logged.one_row;
    one_signal = logged.one_signal;
    audit = audit_of d m request endpoint e payload outcome same fits.own_payload;
    posts = inr (post, posts, body, unfold attempt_row in fits.promised);
  }
  Ran-Accounted (crashed ending attempts emitted posts) ended = absurd (ended ending)

-- If the endpoint of a run exists and is enabled, the two filters accept the payload, and the run
-- does not end in an exception other than Celery's Retry, then the run appends exactly one audit row
-- and emits exactly one signal. The row has the request's correlation id and event, the endpoint's
-- key, the attempt number `retries + 1` and the fingerprint of the shaped payload, and it has the
-- shaped payload itself only if its status is exhausted and the endpoint opted in. Either the run
-- makes no POST and the status is circuit_open (or skipped, where the passing check forbids the
-- event), or it makes exactly one POST, whose body is the shaped payload serialized, and the status
-- is the one that the task's docstring promises for the receiver's reply.
pub deliver_webhook-Accounted :
    (d : Digests) (client : Client) (store : client.Store) (boto3_installed : Bool)
    (settings : Settings) (m : Moment) (request : Request) (w : World) (endpoint : Endpoint)
    (payload : Fields) (should_send : Bool)
    → if_enabled (find_row w.endpoints request.endpoint_id) ≡ some endpoint
    → shape_and_check request.raw_payload endpoint ≡ some (payload, should_send)
    → (deliver_webhook d client store boto3_installed settings m request w).0 ≢ raised
    → Accounted d m request endpoint payload should_send w
        (deliver_webhook d client store boto3_installed settings m request w).1
deliver_webhook-Accounted d client store boto3_installed settings m request w endpoint payload
      should_send found shaped ended =
    Ran-Accounted d m request endpoint payload should_send w _
      (deliver_webhook-Ran d client store boto3_installed settings m request w endpoint payload
        should_send found shaped)
      ended
