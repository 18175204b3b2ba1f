-- ===== src/Tasks/Moves.antt =====
-- What a run does to the circuit of its own endpoint: it moves the row as the machine moves, by the
-- calls that its attempt's number and the receiver's reply call for.
use openedx_webhook_relay.Base.{
  ℕ, ◌+◌, String, ◌≡◌, ◌≢◌, refl, sym, ap, subst, ◌∙◌, inl, inr, Bool, true, ◌||◌, Option, none,
  some, List, [], ◌∷◌, arith, ◌==◌, ltb, leb, if◌then◌else◌, Bool-cases,
}
use openedx_webhook_relay.Json.{Fields}
use openedx_webhook_relay.Security.Signing.{Digests, take_text}
use openedx_webhook_relay.Settings.{Settings}
use openedx_webhook_relay.Models.{Status, succeeded, retrying, exhausted, Endpoint, find_row}
use openedx_webhook_relay.Models.Rows.{find_row-pk, count_rows-found}
use openedx_webhook_relay.Models.Circuit.{
  is_open, take_trial, acquire_open, try_acquire_delivery_slot,
}
use openedx_webhook_relay.Models.Circuit.Breaker.{
  Config, Breaker, Op, acquire, success, failure, move, moves, admits, Represents, row_after,
  acquire_row, success_row, failure_row, row_after-Represents, granted-admits,
}
use openedx_webhook_relay.Secrets.{Client}
use openedx_webhook_relay.Tasks.{
  Request, World, Reply, response, unreachable, broken, Moment, Ending, raised,
}
use openedx_webhook_relay.Tasks.Shape.{shape_and_check}
use openedx_webhook_relay.Tasks.Record.{record_attempt}
use openedx_webhook_relay.Tasks.Audit.{status_for}
use openedx_webhook_relay.Tasks.Deliver.{
  Delivery, if_enabled, recorded, circuit_failure, fail_or_retry, after_reply, without_post, send,
  send_signed, gate, deliver_shaped, deliver_found, deliver_webhook,
}
use openedx_webhook_relay.Tasks.Runs.{broken_raises, delivery_of}
use openedx_webhook_relay.Tasks.Configs.{slot-SameConfig}

-- The calls after the POST, by the status that the reply is promised.
abbrev pub status_ops : Moment → Option Status → List (ℕ × Op)
status_ops m (some succeeded) = (m.opened_at, success) ∷ []
status_ops m (some exhausted) = (m.opened_at, failure) ∷ []
status_ops m _ = []

-- The calls of a run that may send its event: a first attempt asks for a slot, and goes on only if
-- it is admitted.
abbrev pub run_ops : Config → Breaker → Moment → ℕ → ℕ → List (ℕ × Op)
run_ops c b m attempt_number max_retries =
    let sent = status_ops m (status_for attempt_number max_retries m.reply) in
    if attempt_number == 1
    then (m.acquired_at, acquire) ∷ (if admits c m.acquired_at b then sent else [])
    else sent

-- The row of the endpoint stands for a state of the machine.
abbrev pub Stands : Config → ℕ → List Endpoint → Breaker → Type 0
Stands c pk rows b = (row : Endpoint) × (find_row rows pk ≡ some row) × Represents c row b

or_swap :
    (code : ℕ) {b : Bool} → (leb 500 code || code == 429) ≡ b → (code == 429 || leb 500 code) ≡ b
or_swap code h = ground (arith, h)

module _ (c : Config) (pk : ℕ) (b : Breaker) (settings : Settings) (m : Moment) (v : Delivery)
    (at_pk : v.endpoint.pk ≡ pk) (h : Represents c v.endpoint b) where
  circuit_failure-moves :
      (w : World)
      → find_row w.endpoints pk ≡ some v.endpoint
      → Stands c pk (circuit_failure settings m v w).1.endpoints (move c m.opened_at failure b)
  unfolding circuit_failure
  circuit_failure-moves w found =
      let (self', after, ran, left) = failure_row pk m.opened_at w.endpoints v.endpoint found in
      rw ran (
        row_after m.opened_at failure v.endpoint,
        left,
        row_after-Represents c v.endpoint b m.opened_at failure h,
      )

  fail_or_retry-moves :
      (code : Option ℕ) (message : String) (w : World)
      → find_row w.endpoints pk ≡ some v.endpoint
      → Stands c pk (fail_or_retry settings m v code message w).1.endpoints (
          moves c
            (status_ops m
              (some (if ltb v.attempt_number v.endpoint.max_retries then retrying else exhausted)))
            b)
  unfolding fail_or_retry recorded record_attempt
  fail_or_retry-moves code message w found =
      elim (Bool-cases (ltb v.attempt_number v.endpoint.max_retries)) [
        | inl e ↦ rw e (v.endpoint, found, h)
        | inr e ↦ rw e (circuit_failure-moves _ found)
      ]

  pub after_reply-moves :
      (reply : Reply) (w : World)
      → find_row w.endpoints pk ≡ some v.endpoint
      → reply ≢ broken
      → Stands c pk
          (after_reply settings m v reply w).1.endpoints
          (moves c (status_ops m (status_for v.attempt_number v.endpoint.max_retries reply)) b)
  unfolding after_reply recorded record_attempt
  after_reply-moves broken w found whole = absurd (whole refl)
  after_reply-moves (unreachable message) w found whole = fail_or_retry-moves none message w found
  after_reply-moves (response code text) w found whole =
      elim (Bool-cases (leb 500 code || code == 429)) [
        | inl e ↦
            rw (e, or_swap code e) (fail_or_retry-moves (some code) (take_text 2000 text) w found)
        | inr e ↦ elim (Bool-cases (leb 400 code)) [
          | inl e' ↦ rw (e, or_swap code e, e') (circuit_failure-moves _ found)
          | inr e' ↦
              rw (e, or_swap code e, e')
                (
                  row_after m.opened_at success v.endpoint,
                  success_row pk m.opened_at w.endpoints v.endpoint found,
                  row_after-Represents c v.endpoint b m.opened_at success h,
                )
        ]
      ]

module _ (c : Config) (pk : ℕ) (d : Digests) (client : Client) (store : client.Store)
    (boto3_installed : Bool) (settings : Settings) (m : Moment) where
  send-moves :
      (v : Delivery) (headers : Option Fields) (w : World) (b : Breaker)
      → v.endpoint.pk ≡ pk
      → Represents c v.endpoint b
      → find_row w.endpoints pk ≡ some v.endpoint
      → (send d client store boto3_installed settings m v headers w).0 ≢ raised
      → Stands c pk
          (send d client store boto3_installed settings m v headers w).1.endpoints
          (moves c (status_ops m (status_for v.attempt_number v.endpoint.max_retries m.reply)) b)
  unfolding send
  send-moves v none w b at_pk h found ended = absurd (ended refl)
  send-moves v (some headers) w b at_pk h found ended =
      after_reply-moves c pk b settings m v at_pk h m.reply _ found
        (λ e. ended (ap (λ (r : Ending × World). r.0) (broken_raises settings m v m.reply _ e)))

  send_signed-moves :
      (v : Delivery) (w : World) (b : Breaker)
      → v.endpoint.pk ≡ pk
      → Represents c v.endpoint b
      → find_row w.endpoints pk ≡ some v.endpoint
      → (send_signed d client store boto3_installed settings m v w).0 ≢ raised
      → Stands c pk
          (send_signed d client store boto3_installed settings m v w).1.endpoints
          (moves c (status_ops m (status_for v.attempt_number v.endpoint.max_retries m.reply)) b)
  unfolding send_signed
  send_signed-moves v w b at_pk h found ended = send-moves v _ w b at_pk h found ended

  -- The instance that a granted slot leaves is the row that it leaves.
  slot_instance :
      (now : ℕ) (rows : List Endpoint) (row : Endpoint)
      → find_row rows pk ≡ some row
      → (try_acquire_delivery_slot now row rows).granted ≡ true
      → (try_acquire_delivery_slot now row rows).instance ≡ row_after now acquire row
  unfolding try_acquire_delivery_slot acquire_open take_trial
  slot_instance now rows row found granted =
      ground (arith, granted, find_row-pk rows pk found, count_rows-found rows pk is_open found)

  gate-moves :
      (v : Delivery) (w : World) (b : Breaker)
      → v.endpoint.pk ≡ pk
      → Represents c v.endpoint b
      → find_row w.endpoints pk ≡ some v.endpoint
      → (gate d client store boto3_installed settings m v w).0 ≢ raised
      → Stands c pk
          (gate d client store boto3_installed settings m v w).1.endpoints
          (moves c (run_ops c b m v.attempt_number v.endpoint.max_retries) b)
  unfolding gate without_post recorded record_attempt
  gate-moves v w b at_pk h found ended =
      let slot = try_acquire_delivery_slot m.acquired_at v.endpoint w.endpoints in
      let w' : World = record w { endpoints = slot.rows } in
      let v' : Delivery = record v { endpoint = slot.instance } in
      let left = acquire_row pk m.acquired_at w.endpoints v.endpoint found in
      let moved = row_after-Represents c v.endpoint b m.acquired_at acquire h in
      let agrees = granted-admits c m.acquired_at w.endpoints pk v.endpoint b found h in
      elim (Bool-cases (v.attempt_number == 1)) [
        | inr later ↦ rw later (send_signed-moves v w b at_pk h found (rw later at ended))
        | inl first ↦ elim (Bool-cases slot.granted) [
          | inr refused ↦ rw (first, refused, sym agrees ∙ refused) (_, left, moved)
          | inl granted ↦
              let same = slot_instance m.acquired_at w.endpoints v.endpoint found granted in
              let config = slot-SameConfig m.acquired_at v.endpoint w.endpoints in
              rw (first, granted, sym agrees ∙ granted)
                (rw config.same_max at (
                  send_signed-moves v' w' (move c m.acquired_at acquire b) (config.same_pk ∙ at_pk)
                    (subst (λ (e : Endpoint). Represents c e (move c m.acquired_at acquire b))
                      (sym same) moved)
                    (left ∙ ap some (sym same)) (rw (first, granted) at ended)))
        ]
      ]

-- If a run's endpoint exists and is enabled, its payload is accepted and may be sent, its row stands
-- for a state of the breaker of ADR 0007 and has counted failures up to its threshold if its circuit
-- is not CLOSED, and the run does not end in an exception other than Celery's Retry, then the row
-- stands afterwards, in the same sense, for the state to which the breaker moves: a
-- first attempt asks for a slot, and where it is admitted, and at every later attempt, a success
-- counts as one, an exhausted attempt counts as a failure, and an attempt that is to be retried
-- counts as neither.
pub deliver_webhook-moves :
    (c : Config) (d : Digests) (client : Client) (store : client.Store) (boto3_installed : Bool)
    (settings : Settings) (m : Moment) (request : Request) (w : World) (endpoint : Endpoint)
    (payload : Fields) (b : Breaker)
    → find_row w.endpoints request.endpoint_id ≡ some endpoint
    → endpoint.enabled ≡ true
    → shape_and_check request.raw_payload endpoint ≡ some (payload, true)
    → Represents c endpoint b
    → (deliver_webhook d client store boto3_installed settings m request w).0 ≢ raised
    → Stands c request.endpoint_id
        (deliver_webhook d client store boto3_installed settings m request w).1.endpoints
        (moves c (run_ops c b m (request.retries + 1) endpoint.max_retries) b)
unfolding deliver_webhook deliver_found deliver_shaped
deliver_webhook-moves c d client store boto3_installed settings m request w endpoint payload b found
      enabled shaped h ended =
    let on : if_enabled (find_row w.endpoints request.endpoint_id) ≡ some endpoint =
      ground (arith, found, enabled) in
    rw (on, shaped)
      (gate-moves c request.endpoint_id d client store boto3_installed settings m
        (delivery_of d request endpoint payload) w b
        (find_row-pk w.endpoints request.endpoint_id found) h found (rw (on, shaped) at ended))
