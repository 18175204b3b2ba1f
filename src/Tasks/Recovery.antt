-- ===== src/Tasks/Recovery.antt =====
-- How a chain of runs ends: it does end, and in a delivery if the receiver recovers in time.
use openedx_webhook_relay.Base.{
  ℕ, String, ◌+◌, ◌-◌, ◌≤◌, ◌<◌, max, ◌≡◌, refl, ◌∙◌, ap, inl, inr, Bool, true, false, not, ◌||◌,
  Option, none, some, List, [], ◌∷◌, ◌++◌, All, arith, ◌==◌, lt→ltb, leb, length, if◌then◌else◌,
  Bool-cases,
}
use openedx_webhook_relay.Json.{Fields, is_none}
use openedx_webhook_relay.Security.Signing.{Digests, serialize_payload}
use openedx_webhook_relay.Settings.{Settings}
use openedx_webhook_relay.Models.{Endpoint, Attempt, succeeded, closed, same_state, find_row}
use openedx_webhook_relay.Models.Validation.{is_dict}
use openedx_webhook_relay.Models.Circuit.{try_acquire_delivery_slot}
use openedx_webhook_relay.Secrets.{Client, effective_secret}
use openedx_webhook_relay.Tasks.{
  Request, World, Reply, response, unreachable, broken, Moment, Ending, done,
}
use openedx_webhook_relay.Tasks.Record.{record_attempt, attempt_row}
use openedx_webhook_relay.Tasks.Shape.{shape_and_check}
use openedx_webhook_relay.Tasks.Deliver.{
  Delivery, recorded, if_enabled, fail_or_retry, after_reply, send, send_signed, gate,
  deliver_shaped, deliver_found, deliver_webhook,
}
use openedx_webhook_relay.Tasks.Accepted.{headers_of_made}
use openedx_webhook_relay.Tasks.Runs.{delivery_of}
use openedx_webhook_relay.Tasks.Retries.{
  Meeting, with_payload, next_request, asks_again, asks_again_lem, Allows, deliver_webhook-retries,
}

-- A reply that the task retries, and one that it takes for a success.
abbrev pub is_transient : Reply → Bool
is_transient (unreachable message) = true
is_transient (response code text) = leb 500 code || code == 429
is_transient broken = false

abbrev pub is_success : Reply → Bool
is_success (response code text) = not (leb 400 code)
is_success _ = false

abbrev pub reply_of : Meeting → Reply
reply_of (raw_payload, w, m) = m.reply

module _ (d : Digests) (client : Client) (store : client.Store) (boto3_installed : Bool)
    (settings : Settings) where
  -- How the last run of a task's chain ends, and the world after it; `none`: the task still waits.
  unfoldable pub chain_result : Request → List Meeting → Option (Ending × World)
  chain_result request [] = none
  chain_result request ((raw_payload, w, m) ∷ later) =
      let rest = chain_result (next_request request) later in
      let r =
        deliver_webhook d client store boto3_installed settings m (with_payload raw_payload request)
          w in
      if asks_again r.0 then rest else some r

  -- If the endpoint of a task never allows more than `limit` attempts, then the chain of a task ends
  -- as soon as it has met the attempts that are left of the limit, one at least: its last run returns
  -- or raises an exception other than Celery's Retry.
  pub chain_ends :
      (request : Request) (limit : ℕ) (meetings : List Meeting)
      → All (Allows d client store boto3_installed settings request.endpoint_id limit) meetings
      → max 1 (limit - request.retries) ≤ length meetings
      → (r : Ending × World) × (chain_result request meetings ≡ some r) × (asks_again r.0 ≡ false)
  unfolding chain_result
  chain_ends request limit [] allowed enough = absurd (omega (arith, enough))
  chain_ends request limit ((raw_payload, w, m) ∷ later) (now, after) enough =
      elim (Bool-cases (
        asks_again
          (deliver_webhook d client store boto3_installed settings m
            (with_payload raw_payload request) w).0)) [
              | inr stops ↦ rw stops (_, refl, stops)
              | inl again ↦
                  let (n, e) = asks_again_lem _ again in
                  let (endpoint, found, more, wait) =
                    deliver_webhook-retries d client store boto3_installed settings m
                      (with_payload raw_payload request) w n e in
                  rw again (
                    chain_ends (next_request request) limit later after
                      (omega (arith, more, now endpoint found, enough)))
            ]

  -- What a run needs to reach the receiver: the endpoint that it finds allows `limit` attempts and
  -- its breaker lets all pass, the filters accept the payload, and the headers and the secret can be
  -- had.
  pub record IsReady (pk limit : ℕ) (meeting : Meeting) : Type 0 where
    pub endpoint : Endpoint
    pub payload : Fields
    pub secret : String
    pub is_found : if_enabled (find_row meeting.1.endpoints pk) ≡ some endpoint
    pub allows : endpoint.max_retries ≡ limit
    pub passes :
        (not endpoint.circuit_breaker_enabled || same_state endpoint.circuit_state closed) ≡ true
    pub is_shaped : shape_and_check meeting.0 endpoint ≡ some (payload, true)
    pub has_headers : (is_none endpoint.custom_headers || is_dict endpoint.custom_headers) ≡ true
    pub has_secret : effective_secret client settings boto3_installed store endpoint ≡ some secret

  slot_passes :
      (now : ℕ) (self : Endpoint) (rows : List Endpoint)
      → (not self.circuit_breaker_enabled || same_state self.circuit_state closed) ≡ true
      → try_acquire_delivery_slot now self rows
        ≡ record { granted = true; instance = self; rows = rows }
  unfolding try_acquire_delivery_slot
  slot_passes now self rows passes = rw passes refl

  -- A ready run is what follows its POST, from the tables as they were.
  pub ready_run :
      (request : Request) (limit : ℕ) (raw_payload : Fields) (w : World) (m : Moment)
      (ready : IsReady request.endpoint_id limit (raw_payload, w, m))
      → (posted : World) × (posted.attempts ≡ w.attempts)
        × (posted.endpoints ≡ w.endpoints)
        × (deliver_webhook d client store boto3_installed settings m
              (with_payload raw_payload request)
              w
            ≡ after_reply settings m
                (delivery_of d (with_payload raw_payload request) ready.endpoint ready.payload)
                m.reply
                posted)
  unfolding deliver_webhook deliver_found deliver_shaped gate send_signed send
  ready_run request limit raw_payload w m ready =
      let (headers, made) =
        headers_of_made d settings (with_payload raw_payload request) ready.endpoint
          (serialize_payload d ready.payload) ready.secret ready.has_headers in
      elim (Bool-cases (request.retries + 1 == 1)) [
        | inl first ↦
            rw
              (
                ready.is_found,
                ready.is_shaped,
                first,
                slot_passes m.acquired_at ready.endpoint w.endpoints ready.passes,
                ready.has_secret,
                made,
              )
              (_, refl, refl, refl)
        | inr later ↦
            rw (ready.is_found, ready.is_shaped, later, ready.has_secret, made)
              (_, refl, refl, refl)
      ]

  transient_retries :
      (m : Moment) (v : Delivery) (reply : Reply) (w : World)
      → is_transient reply ≡ true
      → v.attempt_number < v.endpoint.max_retries
      → asks_again (after_reply settings m v reply w).0 ≡ true
  unfolding after_reply fail_or_retry
  transient_retries m v (unreachable message) w fails more = rw (lt→ltb _ _ more) refl
  transient_retries m v (response code text) w fails more = rw (fails, lt→ltb _ _ more) refl
  transient_retries m v broken w fails more = absurd (cc)

  success_delivers :
      (m : Moment) (v : Delivery) (reply : Reply) (w : World)
      → is_success reply ≡ true
      → ((after_reply settings m v reply w).0 ≡ done)
        × (row : Attempt) × ((after_reply settings m v reply w).1.attempts ≡ w.attempts ++ row ∷ [])
        × (row.status ≡ succeeded)
        × (row.attempt_number ≡ v.attempt_number)
        × (row.correlation_id ≡ v.request.correlation_id)
  unfolding after_reply recorded record_attempt attempt_row
  success_delivers m v (response code text) w fine =
      let below : leb 400 code ≡ false = ground (arith, fine) in
      let kept : (leb 500 code || code == 429) ≡ false = ground (arith, below) in
      rw (kept, below) (refl, _, refl, refl, refl, refl)
  success_delivers m v (unreachable message) w fine = absurd (cc)
  success_delivers m v broken w fine = absurd (cc)

  abbrev pub WillRetry : ℕ → ℕ → Meeting → Type 0
  WillRetry pk limit meeting = IsReady pk limit meeting × (is_transient (reply_of meeting) ≡ true)

  -- If the runs of a task are all ready, the receiver fails in a way that is retried at fewer runs
  -- than the attempts that are left after the next one, and then answers with a status below 400,
  -- then the chain ends there: its last run returns, and appends the row that says so, numbered
  -- after all the failures.
  pub recovered_in_time :
      (request : Request) (limit : ℕ) (failing : List Meeting) (meeting : Meeting)
      (later : List Meeting)
      → All (WillRetry request.endpoint_id limit) failing
      → IsReady request.endpoint_id limit meeting
      → is_success (reply_of meeting) ≡ true
      → request.retries + length failing < limit
      → (w' : World) × (chain_result request (failing ++ meeting ∷ later) ≡ some (done, w'))
        × (row : Attempt) × (w'.attempts ≡ meeting.1.attempts ++ row ∷ [])
        × (row.status ≡ succeeded)
        × (row.attempt_number ≡ request.retries + length failing + 1)
        × (row.correlation_id ≡ request.correlation_id)
  unfolding chain_result
  recovered_in_time request limit [] (raw_payload, w, m) later failed ready fine left =
      let (posted, same, same_rows, run) = ready_run request limit raw_payload w m ready in
      let v = delivery_of d (with_payload raw_payload request) ready.endpoint ready.payload in
      let (ends, row, added, status, number, correlation) =
        success_delivers m v m.reply posted fine in
      let r = after_reply settings m v m.reply posted in
      rw (run, ends)
        (
          r.1,
          refl,
          row,
          added ∙ ap (λ rows. rows ++ row ∷ []) same,
          status,
          omega (arith, number),
          correlation,
        )
  recovered_in_time request limit ((raw_payload, w, m) ∷ failing) meeting later
        ((ready', fails), failed) ready fine left =
      let (posted, same, same_rows, run) = ready_run request limit raw_payload w m ready' in
      let again : asks_again
            (deliver_webhook d client store boto3_installed settings m
              (with_payload raw_payload request) w).0
          ≡ true =
        rw run (transient_retries m _ m.reply posted fails (omega (arith, left, ready'.allows))) in
      let (w', ended, row, added, status, number, correlation) =
        recovered_in_time (next_request request) limit failing meeting later failed ready fine
          (omega (arith, left)) in
      rw again (w', ended, row, added, status, omega (arith, number), correlation)
