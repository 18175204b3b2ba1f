-- ===== src/Metrics.antt =====
-- metrics.py: the signal and the counter for each recorded attempt. An exception of a signal receiver
-- or of the client is caught, and changes nothing else.
use openedx_webhook_relay.Base.{
  ℕ, String, Bool, Option, none, some, List, [], ◌∷◌, ◌++◌, concat, if◌then◌else◌,
}
use openedx_webhook_relay.Settings.{Settings}
use openedx_webhook_relay.Models.{Status, succeeded, retrying, exhausted, skipped, circuit_open}

-- The keyword arguments of the signal.
pub record Signal : Type 0 where
  pub status : Status
  pub endpoint_id : ℕ
  pub event : String
  pub correlation_id : String
  pub http_status_code : Option ℕ

-- What has been sent, and which counters were incremented, in order.
pub record Emitted : Type 0 where
  pub signals : List Signal
  pub counters : List String

-- The values of `WebhookDeliveryAttempt.Status`.
abbrev pub status_value : Status → String
status_value succeeded = "succeeded"
status_value retrying = "retrying"
status_value exhausted = "exhausted"
status_value skipped = "skipped"
status_value circuit_open = "circuit_open"

abbrev pub metric_name : Status → String
metric_name status = concat "openedx_webhook_relay.delivery." (status_value status)

abbrev pub incr : Option (String → Bool) → String → List String → List String
incr none name counters = counters
incr (some raises) name counters = if raises name then counters else counters ++ name ∷ []

unfoldable pub emit_delivery_metric : Settings → Signal → Emitted → Emitted
emit_delivery_metric settings signal emitted = record {
  signals = emitted.signals ++ signal ∷ [];
  counters = incr settings.statsd_client (metric_name signal.status) emitted.counters;
}
