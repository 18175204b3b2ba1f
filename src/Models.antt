-- ===== src/Models.antt =====
-- models.py: the endpoint and the audit row, and the tables that hold them.
pub mod Rows
pub mod Circuit
pub mod Labels
pub mod Validation
use openedx_webhook_relay.Base.{
  ℕ, ◌+◌, String, Bool, true, false, ◌&&◌, Option, none, some, List, [], ◌∷◌, map, ◌==◌, filter,
  if◌then◌else◌,
}
use openedx_webhook_relay.Json.{Value, Fields}

-- `WebhookEndpoint.CircuitState`; `opened` is OPEN.
pub data CircuitState : Type 0 where
  closed opened half_open : CircuitState

-- `WebhookDeliveryAttempt.Status`.
pub data Status : Type 0 where
  succeeded retrying exhausted skipped circuit_open : Status

abbrev pub same_state : CircuitState → CircuitState → Bool
same_state closed closed = true
same_state opened opened = true
same_state half_open half_open = true
same_state _ _ = false

abbrev pub same_status : Status → Status → Bool
same_status succeeded succeeded = true
same_status retrying retrying = true
same_status exhausted exhausted = true
same_status skipped skipped = true
same_status circuit_open circuit_open = true
same_status _ _ = false

-- A row of WebhookEndpoint, and an instance of it in memory. Times are in microseconds.
pub record Endpoint : Type 0 where
  pub pk : ℕ
  pub description : String
  pub event : String
  pub webhook_url : String
  pub enabled : Bool
  pub signing_secret : String
  pub signing_secret_previous : String
  pub secret_backend_reference : String
  pub custom_headers : Value
  pub only_on_passing : Bool
  pub timeout_seconds : ℕ
  pub max_retries : ℕ
  pub retain_payload_snapshot : Bool
  pub circuit_breaker_enabled : Bool
  pub circuit_breaker_failure_threshold : ℕ
  pub circuit_breaker_cooldown_seconds : ℕ
  pub circuit_state : CircuitState
  pub consecutive_failures : ℕ
  pub circuit_opened_at : Option ℕ
  pub pii_allowlist : Value
  pub pii_denylist : Value

-- A row of WebhookDeliveryAttempt.
pub record Attempt : Type 0 where
  pub correlation_id : String
  pub endpoint_id : ℕ
  pub event : String
  pub attempt_number : ℕ
  pub status : Status
  pub http_status_code : Option ℕ
  pub duration_ms : Option ℕ
  pub error_message : String
  pub payload_fingerprint : String
  pub payload_snapshot : Option Fields
  pub created : ℕ

-- `objects.get(pk=pk)`: `none` is DoesNotExist.
unfoldable pub find_row : List Endpoint → ℕ → Option Endpoint
find_row [] pk = none
find_row (row ∷ rows) pk = let rest = find_row rows pk in if row.pk == pk then some row else rest

-- `objects.filter(pk=pk, …).update(…)`: one UPDATE statement over the rows that pass the test.
unfoldable pub update_rows :
    ℕ → (Endpoint → Bool) → (Endpoint → Endpoint) → List Endpoint → List Endpoint
update_rows pk test change [] = []
update_rows pk test change (row ∷ rows) =
    (if row.pk == pk && test row then change row else row) ∷ update_rows pk test change rows

-- The number of rows that the UPDATE changes, which it returns.
unfoldable pub count_rows : ℕ → (Endpoint → Bool) → List Endpoint → ℕ
count_rows pk test [] = 0
count_rows pk test (row ∷ rows) =
    (if row.pk == pk && test row then 1 else 0) + count_rows pk test rows

abbrev pub every_row : Endpoint → Bool
every_row row = true
