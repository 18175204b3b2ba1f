-- ===== src/Tasks/Closing.antt =====
-- A delivery that succeeds closes the circuit of its endpoint.
use openedx_webhook_relay.Base.{
  ℕ, ◌+◌, String, ◌≡◌, ◌≢◌, refl, sym, subst, ◌∙◌, inl, inr, Bool, true, false, not, ◌||◌, Option,
  none, some, List, [], ◌∷◌, ◌++◌, arith, ◌==◌, leb, Bool-cases,
}
use openedx_webhook_relay.Json.{Fields}
use openedx_webhook_relay.Security.Signing.{Digests, serialize_payload}
use openedx_webhook_relay.Settings.{Settings}
use openedx_webhook_relay.Models.{Endpoint, closed, find_row, every_row}
use openedx_webhook_relay.Models.Rows.{find_row-pk, find_row-update_rows}
use openedx_webhook_relay.Models.Circuit.{
  set_closed, try_acquire_delivery_slot, record_circuit_success,
}
use openedx_webhook_relay.Models.Circuit.Breaker.{row_after, acquire, acquire_row}
use openedx_webhook_relay.Secrets.{Client}
use openedx_webhook_relay.Tasks.{Request, World, Reply, response, Moment, raised}
use openedx_webhook_relay.Tasks.Shape.{shape_and_check}
use openedx_webhook_relay.Tasks.Record.{record_attempt}
use openedx_webhook_relay.Tasks.Deliver.{
  Delivery, if_enabled, recorded, after_reply, send, send_signed, gate, deliver_shaped,
  deliver_found, deliver_webhook,
}
use openedx_webhook_relay.Tasks.Runs.{delivery_of}
use openedx_webhook_relay.Tasks.Configs.{slot-SameConfig}

-- The row with this key is there, closed and without failures.
pub record IsClosed (pk : ℕ) (rows : List Endpoint) : Type 0 where
  pub row : Endpoint
  pub is_row : find_row rows pk ≡ some row
  pub is_closed : row.circuit_state ≡ closed
  pub no_failures : row.consecutive_failures ≡ 0
  pub not_opened : row.circuit_opened_at ≡ none

success-IsClosed :
    (pk : ℕ) (self row : Endpoint) (rows : List Endpoint)
    → self.pk ≡ pk
    → find_row rows pk ≡ some row
    → IsClosed pk (record_circuit_success self rows).1
unfolding record_circuit_success
success-IsClosed pk self row rows same found = record {
  row = set_closed row;
  is_row = rw same (find_row-update_rows pk every_row set_closed rows (λ r. refl) found);
  is_closed = refl;
  no_failures = refl;
  not_opened = refl;
}

module _ (d : Digests) (client : Client) (store : client.Store) (boto3_installed : Bool)
    (settings : Settings) (m : Moment) (pk code : ℕ) (text : String)
    (replies : m.reply ≡ response code text) (fine : leb 400 code ≡ false) where
  after_reply-IsClosed :
      (v : Delivery) (w : World) (row : Endpoint)
      → v.endpoint.pk ≡ pk
      → find_row w.endpoints pk ≡ some row
      → IsClosed pk (after_reply settings m v (response code text) w).1.endpoints
  unfolding after_reply recorded record_attempt
  after_reply-IsClosed v w row same found =
      let retryable : (leb 500 code || code == 429) ≡ false = ground arith in
      rw (retryable, fine) (success-IsClosed pk v.endpoint row w.endpoints same found)

  send-IsClosed :
      (v : Delivery) (headers : Option Fields) (w : World) (row : Endpoint)
      → v.endpoint.pk ≡ pk
      → find_row w.endpoints pk ≡ some row
      → (send d client store boto3_installed settings m v headers w).0 ≢ raised
      → IsClosed pk (send d client store boto3_installed settings m v headers w).1.endpoints
  unfolding send
  send-IsClosed v none w row same found ended = absurd (ended refl)
  send-IsClosed v (some headers) w row same found ended =
      let reached : World = record w {
        posts =
            w.posts
            ++ (record {
              url = v.endpoint.webhook_url;
              body = serialize_payload d v.payload;
              headers = headers;
              timeout = v.endpoint.timeout_seconds;
            })
              ∷ [];
      } in
      subst (λ (reply : Reply). IsClosed pk (after_reply settings m v reply reached).1.endpoints)
        (sym replies) (after_reply-IsClosed v reached row same found)

  send_signed-IsClosed :
      (v : Delivery) (w : World) (row : Endpoint)
      → v.endpoint.pk ≡ pk
      → find_row w.endpoints pk ≡ some row
      → (send_signed d client store boto3_installed settings m v w).0 ≢ raised
      → IsClosed pk (send_signed d client store boto3_installed settings m v w).1.endpoints
  unfolding send_signed
  send_signed-IsClosed v w row same found ended = send-IsClosed v _ w row same found ended

  -- Whether the breaker lets the run through: it gates first attempts only.
  abbrev pub passes_gate : Delivery → World → Bool
  passes_gate v w =
      not (v.attempt_number == 1)
      || (try_acquire_delivery_slot m.acquired_at v.endpoint w.endpoints).granted

  gate-IsClosed :
      (v : Delivery) (w : World)
      → v.endpoint.pk ≡ pk
      → find_row w.endpoints pk ≡ some v.endpoint
      → passes_gate v w ≡ true
      → (gate d client store boto3_installed settings m v w).0 ≢ raised
      → IsClosed pk (gate d client store boto3_installed settings m v w).1.endpoints
  unfolding gate
  gate-IsClosed v w same found passes ended =
      let slot = try_acquire_delivery_slot m.acquired_at v.endpoint w.endpoints in
      let w' : World = record w { endpoints = slot.rows } in
      let v' : Delivery = record v { endpoint = slot.instance } in
      elim (Bool-cases (v.attempt_number == 1)) [
        | inr later ↦ rw later (send_signed-IsClosed v w v.endpoint same found (rw later at ended))
        | inl first ↦
            let granted : slot.granted ≡ true = rw first at passes in
            rw (first, granted)
              (send_signed-IsClosed v' w' (row_after m.acquired_at acquire v.endpoint)
                ((slot-SameConfig m.acquired_at v.endpoint w.endpoints).same_pk ∙ same)
                (acquire_row pk m.acquired_at w.endpoints v.endpoint found)
                (rw (first, granted) at ended))
      ]

-- If a run's endpoint exists and is enabled, its payload is accepted and may be sent, the breaker
-- lets the run through, the receiver answers with a status below 400, and the run does not raise,
-- then the endpoint's row is left closed, with a failure count of 0 and no time of opening, whatever
-- its circuit was before.
pub deliver_webhook-closes :
    (d : Digests) (client : Client) (store : client.Store) (boto3_installed : Bool)
    (settings : Settings) (m : Moment) (code : ℕ) (text : String) (request : Request) (w : World)
    (endpoint : Endpoint) (payload : Fields)
    → m.reply ≡ response code text
    → leb 400 code ≡ false
    → find_row w.endpoints request.endpoint_id ≡ some endpoint
    → endpoint.enabled ≡ true
    → shape_and_check request.raw_payload endpoint ≡ some (payload, true)
    → (not (request.retries + 1 == 1)
        || (try_acquire_delivery_slot m.acquired_at endpoint w.endpoints).granted)
      ≡ true
    → (deliver_webhook d client store boto3_installed settings m request w).0 ≢ raised
    → IsClosed request.endpoint_id
        (deliver_webhook d client store boto3_installed settings m request w).1.endpoints
unfolding deliver_webhook deliver_found deliver_shaped
deliver_webhook-closes d client store boto3_installed settings m code text request w endpoint
      payload replies fine found enabled shaped passes ended =
    let v = delivery_of d request endpoint payload in
    let own : endpoint.pk ≡ request.endpoint_id =
      find_row-pk w.endpoints request.endpoint_id found in
    let on : if_enabled (find_row w.endpoints request.endpoint_id) ≡ some endpoint =
      ground (arith, found, enabled) in
    rw (on, shaped)
      (gate-IsClosed d client store boto3_installed settings m request.endpoint_id code text replies
        fine v w own found passes (rw (on, shaped) at ended))
