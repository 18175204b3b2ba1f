-- ===== src/Tasks/LostTrial.antt =====
-- A trial delivery whose POST ends in an exception that the task does not catch.
use openedx_webhook_relay.Base.{
  ℕ, ◌+◌, ◌*◌, ◌≤◌, ◌≡◌, refl, ap, ◌∙◌, Bool, true, false, Option, none, some, List, arith, ◌==◌,
  ==_iff,
}
use openedx_webhook_relay.Json.{Fields}
use openedx_webhook_relay.Security.Signing.{Digests}
use openedx_webhook_relay.Settings.{Settings}
use openedx_webhook_relay.Models.{Endpoint, opened, half_open, find_row}
use openedx_webhook_relay.Models.Rows.{find_row-pk, count_rows-found, find_row-update_rows}
use openedx_webhook_relay.Models.Circuit.{
  is_open, set_half_open, take_trial, acquire_open, try_acquire_delivery_slot,
}
use openedx_webhook_relay.Models.Circuit.Wedge.{refused_on_trial}
use openedx_webhook_relay.Secrets.{Client}
use openedx_webhook_relay.Tasks.{Request, World, broken, Moment, Ending, raised}
use openedx_webhook_relay.Tasks.Shape.{shape_and_check}
use openedx_webhook_relay.Tasks.Deliver.{
  Delivery, if_enabled, send, send_signed, gate, deliver_shaped, deliver_found, deliver_webhook,
}
use openedx_webhook_relay.Tasks.Runs.{broken_raises, delivery_of}

-- The circuit is open and its cooldown has passed.
pub record DueForTrial (now : ℕ) (row : Endpoint) : Type 0 where
  pub enabled : row.enabled ≡ true
  pub breaker_on : row.circuit_breaker_enabled ≡ true
  pub is_opened : row.circuit_state ≡ opened
  pub since : ℕ
  pub since_is : row.circuit_opened_at ≡ some since
  pub cooled : since + row.circuit_breaker_cooldown_seconds * 1000000 ≤ now

trial_taken :
    (pk now : ℕ) (rows : List Endpoint) (row : Endpoint)
    → find_row rows pk ≡ some row
    → DueForTrial now row
    → ((try_acquire_delivery_slot now row rows).granted ≡ true)
      × (find_row (try_acquire_delivery_slot now row rows).rows pk ≡ some (set_half_open row))
unfolding try_acquire_delivery_slot acquire_open take_trial
trial_taken pk now rows row found due = ground (
  arith,
  due.breaker_on,
  due.is_opened,
  due.since_is,
  due.cooled,
  find_row-pk rows pk found,
  count_rows-found rows pk is_open found,
  find_row-update_rows pk is_open set_half_open rows (λ r. refl) found,
)

-- The run raises and has written neither an audit row nor the endpoints' rows.
abbrev Crashed : World → Ending × World → Type 0
Crashed w r = (r.0 ≡ raised) × (r.1.endpoints ≡ w.endpoints) × (r.1.attempts ≡ w.attempts)

module _ (d : Digests) (client : Client) (store : client.Store) (boto3_installed : Bool)
    (settings : Settings) (m : Moment) (breaks : m.reply ≡ broken) where
  send-Crashed :
      (v : Delivery) (headers : Option Fields) (w : World)
      → Crashed w (send d client store boto3_installed settings m v headers w)
  unfolding send
  send-Crashed v none w = (refl, refl, refl)
  send-Crashed v (some headers) w =
      rw (broken_raises settings m v m.reply _ breaks) (refl, refl, refl)

  send_signed-Crashed :
      (v : Delivery) (w : World)
      → Crashed w (send_signed d client store boto3_installed settings m v w)
  unfolding send_signed
  send_signed-Crashed v w = send-Crashed v _ w

  gate-Crashed :
      (v : Delivery) (w : World)
      → v.attempt_number ≡ 1
      → DueForTrial m.acquired_at v.endpoint
      → find_row w.endpoints v.endpoint.pk ≡ some v.endpoint
      → Crashed
          (record w {
            endpoints = (try_acquire_delivery_slot m.acquired_at v.endpoint w.endpoints).rows;
          })
          (gate d client store boto3_installed settings m v w)
  unfolding gate
  gate-Crashed v w first due found =
      let (granted, taken) =
        trial_taken v.endpoint.pk m.acquired_at w.endpoints v.endpoint found due in
      let one : (v.attempt_number == 1) ≡ true = (==_iff v.attempt_number 1).1 first in
      rw (one, granted) (send_signed-Crashed _ _)

  -- If a request's endpoint is enabled, its circuit is open with the cooldown passed, the payload
  -- is accepted and may be sent, and the POST of the first attempt ends in an exception other than
  -- ConnectionError and Timeout, then the run raises and leaves no audit row, the circuit is
  -- HALF_OPEN, and every later attempt to get a slot is refused.
  pub broken_trial_wedges :
      (request : Request) (w : World) (endpoint : Endpoint) (payload : Fields) (later : ℕ)
      → request.retries ≡ 0
      → find_row w.endpoints request.endpoint_id ≡ some endpoint
      → DueForTrial m.acquired_at endpoint
      → shape_and_check request.raw_payload endpoint ≡ some (payload, true)
      → (row' : Endpoint) × ((deliver_webhook d client store boto3_installed settings m request w).0
          ≡ raised)
        × ((deliver_webhook d client store boto3_installed settings m request w).1.attempts
            ≡ w.attempts)
        × (find_row
              (deliver_webhook d client store boto3_installed settings m request w).1.endpoints
              request.endpoint_id
            ≡ some row')
        × (row'.circuit_state ≡ half_open)
        × ((try_acquire_delivery_slot later row'
              (deliver_webhook d client store boto3_installed settings m request
                w).1.endpoints).granted
            ≡ false)
  unfolding deliver_webhook deliver_found deliver_shaped
  broken_trial_wedges request w endpoint payload later fresh found due shaped =
      let v = delivery_of d request endpoint payload in
      let own : endpoint.pk ≡ request.endpoint_id =
        find_row-pk w.endpoints request.endpoint_id found in
      let on : if_enabled (find_row w.endpoints request.endpoint_id) ≡ some endpoint =
        ground (arith, found, due.enabled) in
      let (ending, rows, attempts) =
        gate-Crashed v w (omega (arith, fresh)) due (ap (find_row w.endpoints) own ∙ found) in
      let (granted, taken) =
        trial_taken request.endpoint_id m.acquired_at w.endpoints endpoint found due in
      rw (on, shaped)
        (
          set_half_open endpoint,
          ending,
          attempts,
          rw rows taken,
          refl,
          (refused_on_trial later (set_half_open endpoint) _ due.breaker_on refl).0,
        )
