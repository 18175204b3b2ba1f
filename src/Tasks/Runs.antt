-- ===== src/Tasks/Runs.antt =====
-- What one whole run of the task does.
use openedx_webhook_relay.Base.{
  ◌+◌, ◌≡◌, refl, ap₂, ◌∙◌, ◌⊎◌, inl, inr, Bool, true, false, Option, none, some, List, [], ◌∷◌,
  ◌++◌, arith, ◌==◌, if◌then◌else◌, Bool-cases,
}
use openedx_webhook_relay.Json.{Fields}
use openedx_webhook_relay.Security.Signing.{Digests, serialize_payload, payload_fingerprint}
use openedx_webhook_relay.Settings.{Settings}
use openedx_webhook_relay.Models.{Status, skipped, circuit_open, Endpoint, find_row}
use openedx_webhook_relay.Models.Circuit.{try_acquire_delivery_slot}
use openedx_webhook_relay.Secrets.{Client}
use openedx_webhook_relay.Metrics.{Emitted}
use openedx_webhook_relay.Tasks.{
  Request, Post, World, Reply, response, unreachable, broken, Moment, Ending, done, raised,
}
use openedx_webhook_relay.Tasks.Shape.{shape_and_check}
use openedx_webhook_relay.Tasks.Record.{Outcome, signal_of, record_attempt}
use openedx_webhook_relay.Tasks.Deliver.{
  Delivery, recorded, circuit_failure, fail_or_retry, after_reply, without_post, send, send_signed,
  gate, if_enabled, deliver_webhook,
}
use openedx_webhook_relay.Tasks.Audit.{
  Logged, Told, Fits, row_of, recorded-Logged, after_reply-Logged,
}
use openedx_webhook_relay.Tasks.Configs.{Reply-cases, SameConfig, slot-SameConfig}

after_reply-posts :
    (settings : Settings) (m : Moment) (v : Delivery) (reply : Reply) (w : World)
    → (after_reply settings m v reply w).1.posts ≡ w.posts
unfolding after_reply fail_or_retry circuit_failure recorded record_attempt
after_reply-posts settings m v broken w = refl
after_reply-posts settings m v (unreachable message) w = ground arith
after_reply-posts settings m v (response code text) w = ground arith

pub broken_raises :
    (settings : Settings) (m : Moment) (v : Delivery) (reply : Reply) (w : World)
    → reply ≡ broken
    → after_reply settings m v reply w ≡ (raised, w)
unfolding after_reply
broken_raises settings m v broken w e = refl
broken_raises settings m v reply w e = absurd (cc)

-- How a run ends, and what it leaves: `skip` is the status of a run that makes no POST.
pub data Ran (d : Digests) (m : Moment) (v : Delivery) (skip : Status) (w : World)
    (r : Ending × World) : Type 0 where
  silent :
      (endpoint : Endpoint) (outcome : Outcome)
      → SameConfig v.endpoint endpoint
      → outcome.status ≡ skip
      → outcome.payload ≡ none
      → outcome.http_status_code ≡ none
      → Logged m (record v { endpoint = endpoint }) w r.1 outcome
      → r.1.posts ≡ w.posts
      → r.0 ≡ done
      → Ran d m v skip w r
  sent :
      (endpoint : Endpoint) (outcome : Outcome) (post : Post)
      → SameConfig v.endpoint endpoint
      → Fits v m.reply outcome
      → Logged m (record v { endpoint = endpoint }) w r.1 outcome
      → post.body ≡ serialize_payload d v.payload
      → r.1.posts ≡ w.posts ++ post ∷ []
      → Told r.0 outcome
      → Ran d m v skip w r
  crashed :
      r.0 ≡ raised
      → r.1.attempts ≡ w.attempts
      → r.1.emitted ≡ w.emitted
      → (r.1.posts ≡ w.posts)
        ⊎ ((post : Post) × (post.body ≡ serialize_payload d v.payload)
            × (r.1.posts ≡ w.posts ++ post ∷ []))
      → Ran d m v skip w r

-- The log of a run that started from the same tables, on an endpoint with the same settings.
Logged-same :
    (m : Moment) (v v' : Delivery) (w w₀ w' : World) (outcome : Outcome)
    → Logged m v' w₀ w' outcome
    → v' ≡ v
    → w₀.attempts ≡ w.attempts
    → w₀.emitted ≡ w.emitted
    → Logged m v w w' outcome
Logged-same m v v' w w₀ w' outcome logged p q r = record {
  one_row = logged.one_row ∙ ap₂ (λ rows (u : Delivery). rows ++ row_of m u outcome ∷ []) q p;
  one_signal =
      logged.one_signal
      ∙ ap₂
          (λ (e : Emitted) (u : Delivery). e.signals ++ signal_of u.endpoint u.request outcome ∷ [])
          r p;
}

own_config : (e : Endpoint) → SameConfig e e
own_config e = record { same_pk = refl; same_max = refl; same_retain = refl }

module _ (d : Digests) (settings : Settings) (m : Moment) (v : Delivery) (w : World) where
  without_post-Ran : (skip : Status) → Ran d m v skip w (without_post settings m v skip w)
  unfolding without_post
  without_post-Ran skip =
      silent v.endpoint _ (own_config v.endpoint) refl refl refl (recorded-Logged settings m v _ w)
        (unfold recorded record_attempt in refl) refl

  post_of : Fields → Post
  post_of headers = record {
    url = v.endpoint.webhook_url;
    body = serialize_payload d v.payload;
    headers = headers;
    timeout = v.endpoint.timeout_seconds;
  }

  posted : Fields → World
  unfolding post_of
  posted headers = record w { posts = w.posts ++ post_of headers ∷ [] }

  posted-Ran :
      (skip : Status) (headers : Fields)
      → Ran d m v skip w (after_reply settings m v m.reply (posted headers))
  unfolding posted
  posted-Ran skip headers = elim (Reply-cases m.reply) [
    | inr whole ↦
        let (outcome, logged, fits, told) =
          after_reply-Logged settings m v (posted headers) m.reply whole in
        sent v.endpoint outcome (post_of headers) (own_config v.endpoint) fits
          (Logged-same m v v w (posted headers) _ outcome logged refl refl refl) refl
          (after_reply-posts settings m v m.reply (posted headers)) told
    | inl e ↦
        let r : after_reply settings m v m.reply (posted headers) ≡ (raised, posted headers) =
          broken_raises settings m v m.reply (posted headers) e in
        rw r (crashed refl refl refl (inr (post_of headers, refl, refl)))
  ]

-- A run from rows that a slot changed, on the instance that it gave, is a run from the first rows.
module _ (d : Digests) (m : Moment) (v : Delivery) (skip : Status) (w : World)
    (rows : List Endpoint) (r : Ending × World) where
  from_slot :
      (e : Endpoint)
      → SameConfig v.endpoint e
      → Ran d m (record v { endpoint = e }) skip (record w { endpoints = rows }) r
      → Ran d m v skip w r
  from_slot e same (silent endpoint outcome own status payload uncoded logged quiet ends) =
      silent endpoint outcome
        (record {
          same_pk = own.same_pk ∙ same.same_pk;
          same_max = own.same_max ∙ same.same_max;
          same_retain = own.same_retain ∙ same.same_retain;
        })
        status payload uncoded (record { one_row = logged.one_row; one_signal = logged.one_signal })
        quiet ends
  from_slot e same (sent endpoint outcome post own fits logged body posts told) =
      sent endpoint outcome post
        (record {
          same_pk = own.same_pk ∙ same.same_pk;
          same_max = own.same_max ∙ same.same_max;
          same_retain = own.same_retain ∙ same.same_retain;
        })
        (record {
          promised = rw same.same_max at fits.promised;
          coded = fits.coded;
          own_payload = fits.own_payload;
        })
        (record { one_row = logged.one_row; one_signal = logged.one_signal }) body posts told
  from_slot e same (crashed ending attempts emitted posts) = crashed ending attempts emitted posts

module _ (d : Digests) (client : Client) (store : client.Store) (boto3_installed : Bool)
    (settings : Settings) (m : Moment) where
  send-Ran :
      (v : Delivery) (w : World) (skip : Status) (headers : Option Fields)
      → Ran d m v skip w (send d client store boto3_installed settings m v headers w)
  unfolding send posted
  send-Ran v w skip none = crashed refl refl refl (inl refl)
  send-Ran v w skip (some headers) = posted-Ran d settings m v w skip headers

  send_signed-Ran :
      (v : Delivery) (w : World) (skip : Status)
      → Ran d m v skip w (send_signed d client store boto3_installed settings m v w)
  unfolding send_signed
  send_signed-Ran v w skip = send-Ran v w skip _

  gate-Ran :
      (v : Delivery) (w : World)
      → Ran d m v circuit_open w (gate d client store boto3_installed settings m v w)
  unfolding gate
  gate-Ran v w =
      let slot = try_acquire_delivery_slot m.acquired_at v.endpoint w.endpoints in
      let w' : World = record w { endpoints = slot.rows } in
      let v' : Delivery = record v { endpoint = slot.instance } in
      elim (Bool-cases (v.attempt_number == 1)) [
        | inr e ↦ rw e (send_signed-Ran v w circuit_open)
        | inl e ↦ elim (Bool-cases slot.granted) [
          | inl granted ↦
              rw (e, granted)
                (from_slot d m v circuit_open w slot.rows _ slot.instance
                  (slot-SameConfig m.acquired_at v.endpoint w.endpoints)
                  (send_signed-Ran v' w' circuit_open))
          | inr refused ↦
              rw (e, refused)
                (from_slot d m v circuit_open w slot.rows _ v.endpoint (own_config v.endpoint)
                  (without_post-Ran d settings m v w' circuit_open))
        ]
      ]

abbrev pub delivery_of : Digests → Request → Endpoint → Fields → Delivery
delivery_of d request endpoint payload = record {
  request = request;
  endpoint = endpoint;
  attempt_number = request.retries + 1;
  payload = payload;
  fingerprint = payload_fingerprint d payload;
}

module _ (d : Digests) (client : Client) (store : client.Store) (boto3_installed : Bool)
    (settings : Settings) (m : Moment) where
  pub deliver_webhook-Ran :
      (request : Request) (w : World) (endpoint : Endpoint) (payload : Fields) (should_send : Bool)
      → if_enabled (find_row w.endpoints request.endpoint_id) ≡ some endpoint
      → shape_and_check request.raw_payload endpoint ≡ some (payload, should_send)
      → Ran d m
          (delivery_of d request endpoint payload)
          (if should_send then circuit_open else skipped)
          w
          (deliver_webhook d client store boto3_installed settings m request w)
  unfolding deliver_webhook
  deliver_webhook-Ran request w endpoint payload true found shaped =
      rw (found, shaped)
        (gate-Ran d client store boto3_installed settings m (delivery_of d request endpoint payload)
          w)
  deliver_webhook-Ran request w endpoint payload false found shaped =
      rw (found, shaped)
        (without_post-Ran d settings m (delivery_of d request endpoint payload) w skipped)
