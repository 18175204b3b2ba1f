-- ===== src/Tasks/Writes.antt =====
-- What a run does to the endpoints' rows is made of the breaker's updates: a relation between two
-- tables that they keep is kept by the run.
use openedx_webhook_relay.Base.{
  sym, subst, arith, ℕ, String, ◌≡◌, refl, inl, inr, true, false, ◌||◌, Option, none, some, List,
  ◌==◌, leb, ltb, Bool, Bool-cases, Option-cases,
}
use openedx_webhook_relay.Json.{Fields}
use openedx_webhook_relay.Security.Signing.{Digests, take_text}
use openedx_webhook_relay.Settings.{Settings}
use openedx_webhook_relay.Models.Rows.{find_row-pk}
use openedx_webhook_relay.Models.Circuit.Updates.{
  KeepsUpdates, slot-KeepsUpdates, success-KeepsUpdates, failure-KeepsUpdates,
}
use openedx_webhook_relay.Models.{Endpoint}
use openedx_webhook_relay.Models.Circuit.{try_acquire_delivery_slot, record_circuit_failure}
use openedx_webhook_relay.Secrets.{Client}
use openedx_webhook_relay.Tasks.{Request, World, Reply, response, unreachable, broken, Moment}
use openedx_webhook_relay.Tasks.Shape.{shape_and_check}
use openedx_webhook_relay.Tasks.Record.{record_attempt}
use openedx_webhook_relay.Tasks.Deliver.{
  Delivery, if_enabled, recorded, circuit_failure, fail_or_retry, after_reply, without_post, send,
  send_signed, gate, deliver_shaped, deliver_found, deliver_webhook,
}
use openedx_webhook_relay.Tasks.Runs.{delivery_of}
use openedx_webhook_relay.Tasks.Configs.{slot-SameConfig}

pub if_enabled_lem :
    (found : Option Endpoint) (endpoint : Endpoint)
    → if_enabled found ≡ some endpoint
    → found ≡ some endpoint
if_enabled_lem none endpoint h = absurd (cc)
if_enabled_lem (some row) endpoint h = ground arith

module _ (P : ℕ → Type 0) (R : List Endpoint → List Endpoint → Type 0) (keeps : KeepsUpdates P R)
    (settings : Settings) (m : Moment) where
  module _ (v : Delivery) (holds : P v.endpoint.pk) where
    circuit_failure-kept : (w : World) → R w.endpoints (circuit_failure settings m v w).1.endpoints
    unfolding circuit_failure
    circuit_failure-kept w =
        elim (Option-cases (record_circuit_failure m.opened_at v.endpoint w.endpoints)) [
          | inl gone ↦ rw gone (keeps.same w.endpoints)
          | inr ((self', after), ran) ↦ rw ran (
              failure-KeepsUpdates P R keeps v.endpoint holds m.opened_at self' w.endpoints after
                ran)
        ]

    fail_or_retry-kept :
        (code : Option ℕ) (message : String) (w : World)
        → R w.endpoints (fail_or_retry settings m v code message w).1.endpoints
    unfolding fail_or_retry recorded record_attempt
    fail_or_retry-kept code message w =
        elim (Bool-cases (ltb v.attempt_number v.endpoint.max_retries)) [
          | inl e ↦ rw e (keeps.same w.endpoints)
          | inr e ↦ rw e (circuit_failure-kept _)
        ]

    after_reply-kept :
        (reply : Reply) (w : World) → R w.endpoints (after_reply settings m v reply w).1.endpoints
    unfolding after_reply recorded record_attempt
    after_reply-kept broken w = keeps.same w.endpoints
    after_reply-kept (unreachable message) w = fail_or_retry-kept none message w
    after_reply-kept (response code text) w = elim (Bool-cases (leb 500 code || code == 429)) [
      | inl e ↦ rw e (fail_or_retry-kept (some code) (take_text 2000 text) w)
      | inr e ↦ elim (Bool-cases (leb 400 code)) [
        | inl e' ↦ rw (e, e') (circuit_failure-kept _)
        | inr e' ↦ rw (e, e') (success-KeepsUpdates P R keeps v.endpoint holds w.endpoints)
      ]
    ]

  module _ (d : Digests) (client : Client) (store : client.Store) (boto3_installed : Bool) where
    send-kept :
        (v : Delivery) (headers : Option Fields) (w : World)
        → P v.endpoint.pk
        → R w.endpoints (send d client store boto3_installed settings m v headers w).1.endpoints
    unfolding send
    send-kept v none w holds = keeps.same w.endpoints
    send-kept v (some headers) w holds = after_reply-kept v holds m.reply _

    send_signed-kept :
        (v : Delivery) (w : World)
        → P v.endpoint.pk
        → R w.endpoints (send_signed d client store boto3_installed settings m v w).1.endpoints
    unfolding send_signed
    send_signed-kept v w holds = send-kept v _ w holds

    gate-kept :
        (v : Delivery) (w : World)
        → P v.endpoint.pk
        → R w.endpoints (gate d client store boto3_installed settings m v w).1.endpoints
    unfolding gate without_post recorded record_attempt
    gate-kept v w holds =
        let slot = try_acquire_delivery_slot m.acquired_at v.endpoint w.endpoints in
        let w' : World = record w { endpoints = slot.rows } in
        let v' : Delivery = record v { endpoint = slot.instance } in
        let taken = slot-KeepsUpdates P R keeps v.endpoint holds m.acquired_at w.endpoints in
        elim (Bool-cases (v.attempt_number == 1)) [
          | inr later ↦ rw later (send_signed-kept v w holds)
          | inl first ↦ elim (Bool-cases slot.granted) [
            | inl granted ↦
                rw (first, granted)
                  (keeps.chain w.endpoints slot.rows _ taken (
                    send_signed-kept v' w' (
                      subst P (sym ((slot-SameConfig m.acquired_at v.endpoint w.endpoints).same_pk))
                        holds)))
            | inr refused ↦ rw (first, refused) taken
          ]
        ]

    shaped-kept :
        (request : Request) (endpoint : Endpoint) (shaped : Option (Fields × Bool)) (w : World)
        → P endpoint.pk
        → R w.endpoints
            (deliver_shaped d client store boto3_installed settings m request endpoint shaped
              w).1.endpoints
    unfolding deliver_shaped without_post recorded record_attempt
    shaped-kept request endpoint none w holds = keeps.same w.endpoints
    shaped-kept request endpoint (some (payload, false)) w holds = keeps.same w.endpoints
    shaped-kept request endpoint (some (payload, true)) w holds =
        gate-kept (delivery_of d request endpoint payload) w holds

    found-kept :
        (request : Request) (found : Option Endpoint) (w : World)
        → ((endpoint : Endpoint) → found ≡ some endpoint → P endpoint.pk)
        → R w.endpoints
            (deliver_found d client store boto3_installed settings m request found w).1.endpoints
    unfolding deliver_found
    found-kept request none w holds = keeps.same w.endpoints
    found-kept request (some endpoint) w holds =
        shaped-kept request endpoint (shape_and_check request.raw_payload endpoint) w
          (holds endpoint refl)

    -- The relation is kept by a run, if `P` holds of the key that it asks for.
    pub deliver_webhook-kept :
        (request : Request) (w : World)
        → P request.endpoint_id
        → R w.endpoints
            (deliver_webhook d client store boto3_installed settings m request w).1.endpoints
    unfolding deliver_webhook
    deliver_webhook-kept request w holds = found-kept request _ w (λ endpoint found.
        subst P
          (sym (find_row-pk w.endpoints request.endpoint_id (if_enabled_lem _ endpoint found)))
          holds)
