-- ===== src/System/Truthful.antt =====
-- What an audit row says, and why the row of an outcome says it.
use openedx_webhook_relay.Base.{
  ℕ, zero, suc, String, ◌≤◌, ◌<◌, ◌≡◌, ◌≢◌, Bool, true, false, Option, none, some, arith,
  num_length, is_some, if◌then◌else◌,
}
use openedx_webhook_relay.Json.{Fields}
use openedx_webhook_relay.Security.Signing.{Digests, take_text, payload_fingerprint}
use openedx_webhook_relay.Models.{
  Attempt, Status, succeeded, exhausted, skipped, circuit_open, Endpoint,
}
use openedx_webhook_relay.Tasks.{Request, Reply, response, unreachable, broken, Moment}
use openedx_webhook_relay.Tasks.Record.{Outcome, snapshot_of, attempt_row}
use openedx_webhook_relay.Tasks.Audit.{row_of, code_of, status_for}
use openedx_webhook_relay.Tasks.Runs.{delivery_of}

pub take_text-bounded : (n : ℕ) (s : String) → num_length (take_text n s) ≤ n
unfolding take_text
take_text-bounded zero s = omega arith
take_text-bounded (suc n) String.[] = omega arith
take_text-bounded (suc n) (String.◌∷◌ c s) = omega (arith, take_text-bounded n s)

-- A row of the audit table keeps a payload only if it is exhausted, is numbered from 1, has a
-- bounded message and fingerprint, and has a status code that fits its status.
pub record IsTruthful (row : Attempt) : Type 0 where
  pub snapshot_exhausted : is_some row.payload_snapshot ≡ true → row.status ≡ exhausted
  pub numbered : 1 ≤ row.attempt_number
  pub message_bounded : num_length row.error_message ≤ 4000
  pub fingerprint_bounded : num_length row.payload_fingerprint ≤ 16
  pub accepted :
      row.status ≡ succeeded → (code : ℕ) × (row.http_status_code ≡ some code) × (code < 400)
  pub unsent : row.status ≡ skipped → row.http_status_code ≡ none
  pub gated : row.status ≡ circuit_open → row.http_status_code ≡ none

pub snapshot_of-exhausted :
    (endpoint : Endpoint) (outcome : Outcome)
    → is_some (snapshot_of endpoint outcome) ≡ true
    → outcome.status ≡ exhausted
unfolding snapshot_of
snapshot_of-exhausted endpoint outcome h = ground arith

pub fitting_code :
    (n limit : ℕ) (reply : Reply) (status : Status) (o : Option ℕ)
    → status_for n limit reply ≡ some status
    → o ≡ code_of reply
    → status ≡ succeeded
    → (code : ℕ) × (o ≡ some code) × (code < 400)
fitting_code n limit broken status o promised coded fine = absurd (cc)
fitting_code n limit (unreachable message) status o promised coded fine =
    absurd (ground (arith, promised, fine))
fitting_code n limit (response code text) status o promised coded fine =
    (code, coded, ground (arith, promised, fine))

pub sent_status :
    (n limit : ℕ) (reply : Reply) (status : Status)
    → status_for n limit reply ≡ some status
    → (status ≢ skipped) × (status ≢ circuit_open)
sent_status n limit broken status promised = absurd (cc)
sent_status n limit (unreachable message) status promised = (λ e. ground arith, λ e. ground arith)
sent_status n limit (response code text) status promised =
    (λ e. ground (arith, promised, e), λ e. ground (arith, promised, e))

pub skip_not_success :
    (should_send : Bool) → (if should_send then circuit_open else skipped) ≢ succeeded
skip_not_success true e = cc
skip_not_success false e = cc

-- What the rules above need of an outcome.
pub record IsFair (outcome : Outcome) : Type 0 where
  pub fair_accepted :
      outcome.status ≡ succeeded
      → (code : ℕ) × (outcome.http_status_code ≡ some code) × (code < 400)
  pub fair_unsent : outcome.status ≡ skipped → outcome.http_status_code ≡ none
  pub fair_gated : outcome.status ≡ circuit_open → outcome.http_status_code ≡ none

module _ (d : Digests) (m : Moment) (request : Request) (endpoint e : Endpoint)
    (payload : Fields) where
  unfoldable pub own_row : Outcome → Attempt
  own_row outcome =
      row_of m (record (delivery_of d request endpoint payload) { endpoint = e }) outcome

  pub own_row-IsTruthful : (outcome : Outcome) → IsFair outcome → IsTruthful (own_row outcome)
  unfolding own_row attempt_row payload_fingerprint
  own_row-IsTruthful outcome fair = record {
    snapshot_exhausted = snapshot_of-exhausted e outcome;
    numbered = omega arith;
    message_bounded = take_text-bounded 4000 outcome.error_message;
    fingerprint_bounded = take_text-bounded 16 _;
    accepted = fair.fair_accepted;
    unsent = fair.fair_unsent;
    gated = fair.fair_gated;
  }
