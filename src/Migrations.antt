-- ===== src/Migrations.antt =====
-- migrations/0001_initial.py and 0002_secret_rotation_circuit_breaker_and_snapshots.py: the tables of
-- the first release, and what the second migration makes of their rows.
pub mod Shared
use openedx_webhook_relay.Base.{ℕ, String, Bool, true, false, Option, none, List, map}
use openedx_webhook_relay.Json.{Value}
use openedx_webhook_relay.Models.{
  Endpoint, closed, Attempt, Status, succeeded, retrying, exhausted, skipped,
}

-- A row of WebhookEndpoint after 0001.
pub record OldEndpoint : Type 0 where
  pub pk : ℕ
  pub description : String
  pub event : String
  pub webhook_url : String
  pub enabled : Bool
  pub signing_secret : String
  pub custom_headers : Value
  pub only_on_passing : Bool
  pub timeout_seconds : ℕ
  pub max_retries : ℕ
  pub pii_allowlist : Value
  pub pii_denylist : Value

pub data OldStatus : Type 0 where
  old_succeeded old_retrying old_exhausted old_skipped : OldStatus

-- A row of WebhookDeliveryAttempt after 0001.
pub record OldAttempt : Type 0 where
  pub correlation_id : String
  pub endpoint_id : ℕ
  pub event : String
  pub attempt_number : ℕ
  pub status : OldStatus
  pub http_status_code : Option ℕ
  pub duration_ms : Option ℕ
  pub error_message : String
  pub payload_fingerprint : String
  pub created : ℕ

-- The AddField operations on endpoints. Django calls a callable default once for the operation, so
-- `reference`, the UUID that `uuid.uuid4` returns to it, is that of every row.
unfoldable pub migrate_endpoint : String → OldEndpoint → Endpoint
migrate_endpoint reference row = record {
  pk = row.pk;
  description = row.description;
  event = row.event;
  webhook_url = row.webhook_url;
  enabled = row.enabled;
  signing_secret = row.signing_secret;
  signing_secret_previous = "";
  secret_backend_reference = reference;
  custom_headers = row.custom_headers;
  only_on_passing = row.only_on_passing;
  timeout_seconds = row.timeout_seconds;
  max_retries = row.max_retries;
  retain_payload_snapshot = false;
  circuit_breaker_enabled = true;
  circuit_breaker_failure_threshold = 5;
  circuit_breaker_cooldown_seconds = 300;
  circuit_state = closed;
  consecutive_failures = 0;
  circuit_opened_at = none;
  pii_allowlist = row.pii_allowlist;
  pii_denylist = row.pii_denylist;
}

abbrev pub migrate_status : OldStatus → Status
migrate_status old_succeeded = succeeded
migrate_status old_retrying = retrying
migrate_status old_exhausted = exhausted
migrate_status old_skipped = skipped

-- The operations on attempts: a new column without values, and one more choice of a status.
unfoldable pub migrate_attempt : OldAttempt → Attempt
migrate_attempt row = record {
  correlation_id = row.correlation_id;
  endpoint_id = row.endpoint_id;
  event = row.event;
  attempt_number = row.attempt_number;
  status = migrate_status row.status;
  http_status_code = row.http_status_code;
  duration_ms = row.duration_ms;
  error_message = row.error_message;
  payload_fingerprint = row.payload_fingerprint;
  payload_snapshot = none;
  created = row.created;
}

unfoldable pub migrate_tables :
    String → List OldEndpoint → List OldAttempt → List Endpoint × List Attempt
unfolding migrate_endpoint migrate_attempt
migrate_tables reference endpoints attempts =
    (map (migrate_endpoint reference) endpoints, map migrate_attempt attempts)
