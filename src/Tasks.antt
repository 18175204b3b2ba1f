-- ===== src/Tasks.antt =====
-- tasks.py: the delivery task, step by step.
pub mod Shape
pub mod Record
pub mod Deliver
pub mod Backoff
pub mod Audit
pub mod Configs
pub mod Runs
pub mod Trail
pub mod Privacy
pub mod Retries
pub mod Recovery
pub mod Registered
pub mod Signed
pub mod Writes
pub mod Isolation
pub mod LostTrial
pub mod Accepted
pub mod Closing
pub mod Moves
pub mod Failures
pub mod Outage
pub mod Carried
use openedx_webhook_relay.Base.{ℕ, String, Option, List}
use openedx_webhook_relay.Json.{Fields}
use openedx_webhook_relay.Models.{Endpoint, Attempt}
use openedx_webhook_relay.Metrics.{Emitted}

-- The arguments of a run of `deliver_webhook`, and Celery's `self.request.retries`.
pub record Request : Type 0 where
  pub endpoint_id : ℕ
  pub event : String
  pub raw_payload : Fields
  pub correlation_id : String
  pub retries : ℕ

-- One POST to a receiver.
pub record Post : Type 0 where
  pub url : String
  pub body : List ℕ
  pub headers : Fields
  pub timeout : ℕ

-- What the task writes to: the two tables, the metrics and the network.
pub record World : Type 0 where
  pub endpoints : List Endpoint
  pub attempts : List Attempt
  pub emitted : Emitted
  pub posts : List Post

-- What `requests.post` does: a response, a ConnectionError or Timeout with its text, or another
-- exception, which the task does not catch.
pub data Reply : Type 0 where
  response : ℕ → String → Reply
  unreachable : String → Reply
  broken : Reply

-- What a run meets: the times at which it asks for a slot, records its attempt and opens the circuit,
-- the duration that it measures, and the receiver's reply.
pub record Moment : Type 0 where
  pub acquired_at : ℕ
  pub recorded_at : ℕ
  pub opened_at : ℕ
  pub duration : ℕ
  pub reply : Reply

-- How a run ends: it returns None, it raises Celery's Retry with a countdown, or another exception.
pub data Ending : Type 0 where
  done : Ending
  retry : ℕ → Ending
  raised : Ending
