-- ===== src/Tasks/Record.antt =====
-- `_record_attempt` of tasks.py.
use openedx_webhook_relay.Base.{ℕ, String, ◌&&◌, Option, none, [], ◌∷◌, ◌++◌, if◌then◌else◌}
use openedx_webhook_relay.Json.{Fields}
use openedx_webhook_relay.Security.Signing.{take_text}
use openedx_webhook_relay.Settings.{Settings}
use openedx_webhook_relay.Models.{Status, exhausted, same_status, Endpoint, Attempt}
use openedx_webhook_relay.Metrics.{Signal, emit_delivery_metric}
use openedx_webhook_relay.Tasks.{Request, World}

-- The keyword arguments that differ between the callers; `endpoint` is never None.
pub record Outcome : Type 0 where
  pub status : Status
  pub http_status_code : Option ℕ
  pub duration_ms : Option ℕ
  pub error_message : String
  pub payload : Option Fields

-- The payload is kept only for an exhausted attempt of an endpoint that opted in.
unfoldable pub snapshot_of : Endpoint → Outcome → Option Fields
snapshot_of endpoint outcome =
    if same_status outcome.status exhausted && endpoint.retain_payload_snapshot
    then outcome.payload
    else none

-- The audit row of an outcome.
unfoldable pub attempt_row : ℕ → Endpoint → Request → ℕ → String → Outcome → Attempt
unfolding snapshot_of
attempt_row now endpoint request attempt_number fingerprint outcome = record {
  correlation_id = request.correlation_id;
  endpoint_id = endpoint.pk;
  event = request.event;
  attempt_number = attempt_number;
  status = outcome.status;
  http_status_code = outcome.http_status_code;
  duration_ms = outcome.duration_ms;
  error_message = take_text 4000 outcome.error_message;
  payload_fingerprint = fingerprint;
  payload_snapshot = snapshot_of endpoint outcome;
  created = now;
}

-- The arguments of the metric of an outcome.
abbrev pub signal_of : Endpoint → Request → Outcome → Signal
signal_of endpoint request outcome = record {
  status = outcome.status;
  endpoint_id = endpoint.pk;
  event = request.event;
  correlation_id = request.correlation_id;
  http_status_code = outcome.http_status_code;
}

unfoldable pub record_attempt :
    Settings → ℕ → Endpoint → Request → ℕ → String → Outcome → World → World
record_attempt settings now endpoint request attempt_number fingerprint outcome w = record w {
  attempts = w.attempts ++ attempt_row now endpoint request attempt_number fingerprint outcome ∷ [];
  emitted = emit_delivery_metric settings (signal_of endpoint request outcome) w.emitted;
}
