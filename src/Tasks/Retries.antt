-- ===== src/Tasks/Retries.antt =====
-- When a run asks Celery for another one, and how many runs a chain can have.
use openedx_webhook_relay.Base.{
  ℕ, suc, String, ◌+◌, ◌-◌, ◌*◌, ◌^◌, ◌≤◌, ◌<◌, min, max, ◌≡◌, refl, ◌∙◌, inl, inr, Bool, true,
  false, ◌||◌, Option, none, some, List, [], ◌∷◌, All, arith, ◌==◌, ltb, leb, ltb→lt, get_or,
  if◌then◌else◌, Bool-cases,
}
use openedx_webhook_relay.Json.{Fields}
use openedx_webhook_relay.Security.Signing.{Digests, take_text}
use openedx_webhook_relay.Settings.{Settings}
use openedx_webhook_relay.Models.{Endpoint, find_row}
use openedx_webhook_relay.Models.Circuit.{try_acquire_delivery_slot}
use openedx_webhook_relay.Secrets.{Client}
use openedx_webhook_relay.Tasks.{
  Request, World, Reply, response, unreachable, broken, Moment, Ending, done, retry, raised,
}
use openedx_webhook_relay.Tasks.Backoff.{backoff_seconds}
use openedx_webhook_relay.Tasks.Deliver.{
  Delivery, if_enabled, circuit_failure, fail_or_retry, after_reply, without_post, send,
  send_signed, gate, deliver_shaped, deliver_found, deliver_webhook,
}
use openedx_webhook_relay.Tasks.Runs.{delivery_of}
use openedx_webhook_relay.Tasks.Configs.{slot-SameConfig}

-- The wait that the settings ask for before attempt `attempt_number + 1`.
abbrev pub wait_before : Settings → ℕ → ℕ
wait_before settings retries =
    min (get_or settings.retry_backoff_seconds 30 * 2 ^ retries)
      (get_or settings.retry_backoff_max_seconds 900)

before_succ : (n : ℕ) → n + 1 - 1 ≡ n
before_succ n = omega arith

backoff_seconds-wait :
    (settings : Settings) (retries : ℕ)
    → backoff_seconds settings (retries + 1) ≡ wait_before settings retries
unfolding backoff_seconds
backoff_seconds-wait settings retries = rw before_succ

-- `ending` may be a retry only while attempts are left, and then with the right wait.
abbrev Bounded : Settings → ℕ → ℕ → Ending → Type 0
Bounded settings attempt_number max_retries ending =
    (n : ℕ)
    → ending ≡ retry n
    → (attempt_number < max_retries) × (n ≡ backoff_seconds settings attempt_number)

module _ (settings : Settings) (m : Moment) (v : Delivery) where
  circuit_failure-Bounded :
      (w : World)
      → Bounded settings v.attempt_number v.endpoint.max_retries (circuit_failure settings m v w).0
  unfolding circuit_failure
  circuit_failure-Bounded w n e = ground arith

  fail_or_retry-Bounded :
      (code : Option ℕ) (message : String) (w : World)
      → Bounded settings v.attempt_number v.endpoint.max_retries
          (fail_or_retry settings m v code message w).0
  unfolding fail_or_retry
  fail_or_retry-Bounded code message w n e =
      elim (Bool-cases (ltb v.attempt_number v.endpoint.max_retries)) [
        | inl more ↦ (ltb→lt _ _ more, cc (rw more at e))
        | inr last ↦ circuit_failure-Bounded _ n (rw last at e)
      ]

  after_reply-Bounded :
      (reply : Reply) (w : World)
      → Bounded settings v.attempt_number v.endpoint.max_retries
          (after_reply settings m v reply w).0
  unfolding after_reply
  after_reply-Bounded broken w n e = absurd (cc)
  after_reply-Bounded (unreachable message) w n e = fail_or_retry-Bounded none message w n e
  after_reply-Bounded (response code text) w n e = elim (Bool-cases (leb 500 code || code == 429)) [
    | inl fails ↦ fail_or_retry-Bounded (some code) (take_text 2000 text) w n (rw fails at e)
    | inr fine ↦ elim (Bool-cases (leb 400 code)) [
      | inl rejected ↦ circuit_failure-Bounded _ n (rw (fine, rejected) at e)
      | inr accepted ↦ absurd (cc (rw (fine, accepted) at e))
    ]
  ]

module _ (d : Digests) (client : Client) (store : client.Store) (boto3_installed : Bool)
    (settings : Settings) (m : Moment) where
  send-Bounded :
      (v : Delivery) (w : World) (headers : Option Fields)
      → Bounded settings v.attempt_number v.endpoint.max_retries
          (send d client store boto3_installed settings m v headers w).0
  unfolding send
  send-Bounded v w none n e = absurd (cc)
  send-Bounded v w (some headers) n e = after_reply-Bounded settings m v m.reply _ n e

  send_signed-Bounded :
      (v : Delivery) (w : World)
      → Bounded settings v.attempt_number v.endpoint.max_retries
          (send_signed d client store boto3_installed settings m v w).0
  unfolding send_signed
  send_signed-Bounded v w = send-Bounded v w _

  gate-Bounded :
      (v : Delivery) (w : World)
      → Bounded settings v.attempt_number v.endpoint.max_retries
          (gate d client store boto3_installed settings m v w).0
  unfolding gate without_post
  gate-Bounded v w n e =
      let slot = try_acquire_delivery_slot m.acquired_at v.endpoint w.endpoints in
      let w' : World = record w { endpoints = slot.rows } in
      let v' : Delivery = record v { endpoint = slot.instance } in
      elim (Bool-cases (v.attempt_number == 1)) [
        | inr later ↦ send_signed-Bounded v w n (rw later at e)
        | inl first ↦ elim (Bool-cases slot.granted) [
          | inl granted ↦
              let (more, wait) = send_signed-Bounded v' w' n (rw (first, granted) at e) in
              (rw (slot-SameConfig m.acquired_at v.endpoint w.endpoints).same_max at more, wait)
          | inr refused ↦ absurd (cc (rw (first, refused) at e))
        ]
      ]

  deliver_shaped-Bounded :
      (request : Request) (endpoint : Endpoint) (shaped : Option (Fields × Bool)) (w : World)
      → Bounded settings
          (request.retries + 1)
          endpoint.max_retries
          (deliver_shaped d client store boto3_installed settings m request endpoint shaped w).0
  unfolding deliver_shaped without_post
  deliver_shaped-Bounded request endpoint none w n e = absurd (cc)
  deliver_shaped-Bounded request endpoint (some (payload, false)) w n e = absurd (cc)
  deliver_shaped-Bounded request endpoint (some (payload, true)) w n e =
      gate-Bounded (delivery_of d request endpoint payload) w n e

  deliver_found-retries :
      (request : Request) (found : Option Endpoint) (w : World) (n : ℕ)
      → (deliver_found d client store boto3_installed settings m request found w).0 ≡ retry n
      → (endpoint : Endpoint) × (found ≡ some endpoint)
        × (request.retries + 2 ≤ endpoint.max_retries)
        × (n ≡ wait_before settings request.retries)
  unfolding deliver_found
  deliver_found-retries request none w n e = absurd (cc)
  deliver_found-retries request (some endpoint) w n e =
      let (more, wait) = deliver_shaped-Bounded request endpoint _ w n e in
      (endpoint, refl, omega (arith, more), wait ∙ backoff_seconds-wait settings request.retries)

  -- If a run ends in a retry with the countdown `n`, then its endpoint exists and is enabled, the run
  -- after it has a number up to the endpoint's `max_retries`, and `n` is the base wait doubled at each
  -- retry before this one, up to the ceiling, with no jitter.
  pub deliver_webhook-retries :
      (request : Request) (w : World) (n : ℕ)
      → (deliver_webhook d client store boto3_installed settings m request w).0 ≡ retry n
      → (endpoint : Endpoint) × (if_enabled (find_row w.endpoints request.endpoint_id)
          ≡ some endpoint)
        × (request.retries + 2 ≤ endpoint.max_retries)
        × (n ≡ wait_before settings request.retries)
  unfolding deliver_webhook
  deliver_webhook-retries request w n e = deliver_found-retries request _ w n e

-- Celery runs a task again, with one more retry, for as long as its runs end in a retry.
abbrev pub asks_again : Ending → Bool
asks_again (retry n) = true
asks_again _ = false

abbrev pub next_request : Request → Request
next_request request = record request { retries = request.retries + 1 }

-- A run of a chain: its payload, the world and the moment that it meets. The payload of a retry is
-- the first one, from whose nested dictionaries the runs before have deleted what the denylist
-- names; here it is any payload.
abbrev pub Meeting : Type 0
Meeting = Fields × World × Moment

abbrev pub with_payload : Fields → Request → Request
with_payload raw_payload request = record request { raw_payload = raw_payload }

pub asks_again_lem : (ending : Ending) → asks_again ending ≡ true → (n : ℕ) × (ending ≡ retry n)
asks_again_lem (retry n) h = (n, refl)
asks_again_lem done h = absurd (cc)
asks_again_lem raised h = absurd (cc)

module _ (d : Digests) (client : Client) (store : client.Store) (boto3_installed : Bool)
    (settings : Settings) where
  -- The number of runs of one task: between two runs other tasks and admins may change everything.
  unfoldable pub runs_made : Request → List Meeting → ℕ
  runs_made request [] = 0
  runs_made request ((raw_payload, w, m) ∷ later) =
      let rest = runs_made (next_request request) later in
      if asks_again
        (deliver_webhook d client store boto3_installed settings m
          (with_payload raw_payload request) w).0
      then suc rest
      else 1

  -- Whenever the endpoint is found, it allows at most `limit` attempts.
  abbrev pub Allows : ℕ → ℕ → Meeting → Type 0
  Allows pk limit (raw_payload, w, m) =
      (endpoint : Endpoint)
      → if_enabled (find_row w.endpoints pk) ≡ some endpoint
      → endpoint.max_retries ≤ limit

  runs_made-bounded :
      (request : Request) (limit : ℕ) (worlds : List Meeting)
      → All (Allows request.endpoint_id limit) worlds
      → runs_made request worlds ≤ max 1 (limit - request.retries)
  unfolding runs_made
  runs_made-bounded request limit [] allowed = omega arith
  runs_made-bounded request limit ((raw_payload, w, m) ∷ later) (now, after) =
      elim (Bool-cases (
        asks_again
          (deliver_webhook d client store boto3_installed settings m
            (with_payload raw_payload request) w).0)) [
              | inr stops ↦ rw stops (omega arith)
              | inl again ↦
                  let (n, e) = asks_again_lem _ again in
                  let (endpoint, found, more, wait) =
                    deliver_webhook-retries d client store boto3_installed settings m
                      (with_payload raw_payload request) w n e in
                  rw again (
                    omega (
                      arith,
                      more,
                      now endpoint found,
                      runs_made-bounded (next_request request) limit later after,
                    ))
            ]

  -- Whatever payloads, worlds and moments its runs could meet, a task that starts without retries makes at most
  -- `limit` runs (and at most one if `limit` is 0), if the endpoint never allows more attempts.
  pub runs_made_limit :
      (request : Request) (limit : ℕ) (worlds : List Meeting)
      → request.retries ≡ 0
      → All (Allows request.endpoint_id limit) worlds
      → runs_made request worlds ≤ max 1 limit
  runs_made_limit request limit worlds fresh allowed =
      omega (arith, fresh, runs_made-bounded request limit worlds allowed)
