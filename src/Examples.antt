-- ===== src/Examples.antt =====
-- Concrete values for tests: an endpoint, settings, an event's payload, an AWS client, the digests.
use openedx_webhook_relay.Base.{ℕ, ◌+◌, true, none, some, [], ◌∷◌, concat, strip_prefix}
use openedx_webhook_relay.Json.{bool, str, arr, obj, nil, cons, Fields, end, field}
use openedx_webhook_relay.Security.Signing.{Digests}
use openedx_webhook_relay.Settings.{Settings}
use openedx_webhook_relay.Models.{Endpoint, Attempt, closed, opened, half_open, exhausted}
use openedx_webhook_relay.Secrets.{not_found, returned, Client}
use openedx_webhook_relay.Encryption.{Fernet}
use openedx_webhook_relay.Tasks.{Request, World, response, broken, Moment}
use openedx_webhook_relay.Receivers.{Event}

abbrev pub digests : Digests
digests = record {
  hmac_sha256 = λ secret payload_bytes. concat "c0ffee" secret;
  sha256 = λ payload_bytes. "0123456789abcdef0123456789abcdef";
  float_repr = λ bits. [];
}

abbrev pub client : Client
client = record {
  Store = ℕ;
  get_secret_value = λ store name. not_found;
  put_secret_value = λ store name plaintext. not_found;
  create_secret = λ store name plaintext. returned (store + 1);
  delete_secret = λ store name. not_found;
}

abbrev pub settings : Settings
settings = record {
  encryption_key = some "old";
  default_secret = none;
  signature_header = none;
  retry_backoff_seconds = none;
  retry_backoff_max_seconds = none;
  aws_secrets_manager_kwargs = none;
  secret_backend = none;
  aws_secret_name_prefix = none;
  audit_retention_days = none;
  auto_purge_enabled = none;
  purge_schedule_hour = none;
  purge_schedule_minute = none;
  celery_beat_schedule = none;
  statsd_client = none;
}

-- Three attempts, a breaker that opens at the second failure and cools down for a minute, and the
-- learner's name denied.
abbrev pub endpoint : Endpoint
endpoint = record {
  pk = 7;
  description = "grades";
  event = "COURSE_PASSING_STATUS_UPDATED";
  webhook_url = "https://example.org/hook";
  enabled = true;
  signing_secret = "s3cret";
  signing_secret_previous = "before";
  secret_backend_reference = "";
  custom_headers = obj end;
  only_on_passing = true;
  timeout_seconds = 10;
  max_retries = 3;
  retain_payload_snapshot = true;
  circuit_breaker_enabled = true;
  circuit_breaker_failure_threshold = 2;
  circuit_breaker_cooldown_seconds = 60;
  circuit_state = closed;
  consecutive_failures = 0;
  circuit_opened_at = none;
  pii_allowlist = arr (cons (str "event_metadata") (cons (str "data") nil));
  pii_denylist = arr (cons (str "data.name") nil);
}

abbrev pub data_fields : Fields
data_fields = field "name" (str "Ada") (field "is_passing" (bool true) end)

abbrev pub metadata : Fields
metadata = field "id" (str "e1") end

abbrev pub raw_payload : Fields
raw_payload = field "Grade" (obj data_fields) (field "event_metadata" (obj metadata) end)

-- The payload that leaves.
abbrev pub shaped_payload : Fields
shaped_payload =
    field "event_metadata" (obj metadata)
      (field "Grade" (obj (field "is_passing" (bool true) end)) end)

abbrev pub request : Request
request = record {
  endpoint_id = 7;
  event = "COURSE_PASSING_STATUS_UPDATED";
  raw_payload = raw_payload;
  correlation_id = "5f0c";
  retries = 0;
}

abbrev pub world : World
world = record {
  endpoints = endpoint ∷ [];
  attempts = [];
  emitted = record { signals = []; counters = [] };
  posts = [];
}

-- A run to which the receiver answers with the given status.
abbrev pub answered : ℕ → Moment
answered status = record {
  acquired_at = 1000;
  recorded_at = 2000;
  opened_at = 3000;
  duration = 12;
  reply = response status "";
}

abbrev pub open_endpoint : Endpoint
open_endpoint = record endpoint {
  circuit_state = opened;
  consecutive_failures = 2;
  circuit_opened_at = some 5000;
}

abbrev pub trial_endpoint : Endpoint
trial_endpoint = record open_endpoint { circuit_state = half_open; consecutive_failures = 0 }

abbrev pub attempt : ℕ → Attempt
attempt created = record {
  correlation_id = "5f0c";
  endpoint_id = 7;
  event = "COURSE_PASSING_STATUS_UPDATED";
  attempt_number = 3;
  status = exhausted;
  http_status_code = some 503;
  duration_ms = some 12;
  error_message = "";
  payload_fingerprint = "0123456789abcdef";
  payload_snapshot = some shaped_payload;
  created = created;
}

-- Tokens are the text behind the key's name.
abbrev pub fernet : Fernet
fernet = record {
  valid_key = λ key. true;
  encrypt = λ key nonce text. concat key text;
  decrypt = λ key token. strip_prefix key token;
}

abbrev pub event : Event
event = record { data_type = "Grade"; fields = data_fields; metadata = metadata }

-- A run after the cooldown of `open_endpoint`, whose POST raises another exception.
abbrev pub broken_run : Moment
broken_run = record (answered 200) { acquired_at = 70000000; reply = broken }

abbrev pub open_world : World
open_world = record world { endpoints = open_endpoint ∷ [] }
