-- ===== src/Tasks/Failures.antt =====
-- Exhausted deliveries to an endpoint, one after another: the circuit opens at the threshold.
use openedx_webhook_relay.Base.{
  ℕ, suc, ◌+◌, ◌≡◌, ◌≢◌, refl, sym, ap, subst, ◌∙◌, inl, inr, Bool, true, not, ◌||◌, some, List, [],
  ◌∷◌, ◌++◌, All, arith, length, Option-cases, String,
}
use openedx_webhook_relay.Json.{Fields, is_none}
use openedx_webhook_relay.Security.Signing.{Digests}
use openedx_webhook_relay.Settings.{Settings}
use openedx_webhook_relay.Models.{Endpoint, exhausted, find_row, closed, same_state}
use openedx_webhook_relay.Models.Rows.{find_row-pk}
use openedx_webhook_relay.Models.Validation.{is_dict}
use openedx_webhook_relay.Models.Circuit.{set_closed}
use openedx_webhook_relay.Models.Circuit.Columns.{SameSettings, keeps_settings, same_settings}
use openedx_webhook_relay.Models.Circuit.Breaker.{Config, shut, tripped, failure, move, Represents}
use openedx_webhook_relay.Secrets.{
  Client, Backend, database, aws_secrets_manager, get_secret_backend, secret_name, get_secret,
  effective_secret,
}
use openedx_webhook_relay.Tasks.{Request, World, Reply, broken, Moment}
use openedx_webhook_relay.Tasks.Shape.{shape_and_check}
use openedx_webhook_relay.Tasks.Audit.{status_for}
use openedx_webhook_relay.Tasks.Deliver.{if_enabled, deliver_webhook}
use openedx_webhook_relay.Tasks.Writes.{deliver_webhook-kept}
use openedx_webhook_relay.Tasks.Runs.{delivery_of}
use openedx_webhook_relay.Tasks.Recovery.{IsReady, ready_run}
use openedx_webhook_relay.Tasks.Moves.{Stands, after_reply-moves}

-- Whether an endpoint is enabled, has headers that can be merged, and a secret.
pub record IsUsable (client : Client) (store : client.Store) (boto3_installed : Bool)
    (settings : Settings) (row : Endpoint) : Type 0 where
  pub enabled : row.enabled ≡ true
  pub has_headers : (is_none row.custom_headers || is_dict row.custom_headers) ≡ true
  pub secret : String
  pub has_secret : effective_secret client settings boto3_installed store row ≡ some secret

-- A run of the endpoint that is the last attempt at an event that may be sent, and fails.
pub record IsExhausting (row : Endpoint) (run : Request × Moment) : Type 0 where
  pub own : run.0.endpoint_id ≡ row.pk
  pub payload : Fields
  pub is_shaped : shape_and_check run.0.raw_payload row ≡ some (payload, true)
  pub last : status_for (run.0.retries + 1) row.max_retries run.1.reply ≡ some exhausted

-- The circuit of a row has no part in these.
pub shape_and_check-set_closed :
    (raw : Fields) (row : Endpoint) → shape_and_check raw (set_closed row) ≡ shape_and_check raw row
unfolding shape_and_check
shape_and_check-set_closed raw row = refl

get_secret-set_closed :
    (client : Client) (settings : Settings) (backend : Backend) (store : client.Store)
    (row : Endpoint)
    → get_secret client settings backend store (set_closed row)
      ≡ get_secret client settings backend store row
unfolding get_secret secret_name
get_secret-set_closed client settings database store row = refl
get_secret-set_closed client settings aws_secrets_manager store row = refl

effective_secret-set_closed :
    (client : Client) (settings : Settings) (boto3_installed : Bool) (store : client.Store)
    (row : Endpoint)
    → effective_secret client settings boto3_installed store (set_closed row)
      ≡ effective_secret client settings boto3_installed store row
unfolding effective_secret
effective_secret-set_closed client settings boto3_installed store row =
    elim (Option-cases (get_secret_backend settings boto3_installed)) [
      | inl gone ↦ rw gone refl
      | inr (backend, there) ↦
          rw (there, get_secret-set_closed client settings backend store row) refl
    ]

-- A row with other values in the circuit's columns only.
module _ (row row' : Endpoint) (same : set_closed row' ≡ set_closed row) where
  IsUsable_same :
      (client : Client) (store : client.Store) (boto3_installed : Bool) (settings : Settings)
      → IsUsable client store boto3_installed settings row
      → IsUsable client store boto3_installed settings row'
  IsUsable_same client store boto3_installed settings usable = record {
    enabled = ap (λ (r : Endpoint). r.enabled) same ∙ usable.enabled;
    has_headers =
        ap (λ (r : Endpoint). is_none r.custom_headers || is_dict r.custom_headers) same
        ∙ usable.has_headers;
    secret = usable.secret;
    has_secret =
        sym (effective_secret-set_closed client settings boto3_installed store row')
        ∙ ap (effective_secret client settings boto3_installed store) same
        ∙ effective_secret-set_closed client settings boto3_installed store row
        ∙ usable.has_secret;
  }

  IsExhausting-same : (run : Request × Moment) → IsExhausting row run → IsExhausting row' run
  IsExhausting-same run exhausts = record {
    own = exhausts.own ∙ sym (ap (λ (r : Endpoint). r.pk) same);
    payload = exhausts.payload;
    is_shaped =
        sym (shape_and_check-set_closed run.0.raw_payload row')
        ∙ ap (shape_and_check run.0.raw_payload) same
        ∙ shape_and_check-set_closed run.0.raw_payload row
        ∙ exhausts.is_shaped;
    last =
        ap (λ (r : Endpoint). status_for (run.0.retries + 1) r.max_retries run.1.reply) same
        ∙ exhausts.last;
  }

shut_passes :
    (c : Config) (row : Endpoint) (k : ℕ)
    → Represents c row (shut k)
    → (not row.circuit_breaker_enabled || same_state row.circuit_state closed) ≡ true
shut_passes c row k h = ground (arith, h.state)

exhausts_whole :
    (n limit : ℕ) (reply : Reply) → status_for n limit reply ≡ some exhausted → reply ≢ broken
exhausts_whole n limit reply e b = cc (rw b at e)

module _ (c : Config) (d : Digests) (client : Client) (store : client.Store)
    (boto3_installed : Bool) (settings : Settings) where
  -- An exhausting run on a closed circuit counts as a failure.
  exhausted_once :
      (w : World) (pk : ℕ) (row : Endpoint) (k : ℕ) (run : Request × Moment)
      → find_row w.endpoints pk ≡ some row
      → IsUsable client store boto3_installed settings row
      → IsExhausting row run
      → Represents c row (shut k)
      → Stands c pk
          (deliver_webhook d client store boto3_installed settings run.1 run.0 w).1.endpoints
          (move c run.1.opened_at failure (shut k))
  exhausted_once w pk row k (request, m) found usable exhausts h =
      let on : if_enabled (find_row w.endpoints request.endpoint_id) ≡ some row =
        ground (arith, found, usable.enabled, exhausts.own, find_row-pk w.endpoints pk found) in
      let ready : IsReady d client store boto3_installed settings request.endpoint_id
          row.max_retries (request.raw_payload, w, m) =
        record {
          endpoint = row;
          payload = exhausts.payload;
          secret = usable.secret;
          is_found = on;
          allows = refl;
          passes = shut_passes c row k h;
          is_shaped = exhausts.is_shaped;
          has_headers = usable.has_headers;
          has_secret = usable.has_secret;
        } in
      let (posted, same, same_rows, run) =
        ready_run d client store boto3_installed settings request row.max_retries
          request.raw_payload w m ready in
      rw run (
        rw exhausts.last at (
          after_reply-moves c pk (shut k) settings m (delivery_of d request row exhausts.payload)
            (find_row-pk w.endpoints pk found) h m.reply posted (rw same_rows found)
            (exhausts_whole (request.retries + 1) row.max_retries m.reply exhausts.last)))

  unfoldable pub run_all : List (Request × Moment) → World → World
  run_all [] w = w
  run_all ((request, m) ∷ rest) w =
      run_all rest (deliver_webhook d client store boto3_installed settings m request w).1

  opens_at :
      (k : ℕ) (now : ℕ)
      → k + 1 ≡ c.threshold
      → move c now failure (shut k) ≡ tripped c.threshold now
  opens_at k now e = ground (arith, e)

  stays_shut :
      (k n now : ℕ) → k + suc n + 1 ≡ c.threshold → move c now failure (shut k) ≡ shut (k + 1)
  stays_shut k n now e = ground (arith, e)

  pub run_all-opens :
      (w : World) (pk : ℕ) (base row : Endpoint) (k : ℕ) (before : List (Request × Moment))
      (last : Request × Moment)
      → find_row w.endpoints pk ≡ some row
      → set_closed row ≡ set_closed base
      → Represents c row (shut k)
      → IsUsable client store boto3_installed settings base
      → All (IsExhausting base) before
      → IsExhausting base last
      → k + length before + 1 ≡ c.threshold
      → Stands c pk
          (run_all (before ++ last ∷ []) w).endpoints
          (tripped c.threshold last.1.opened_at)
  unfolding run_all
  run_all-opens w pk base row k [] last found same h usable earlier exhausts reaches =
      subst
        (Stands c pk
          (deliver_webhook d client store boto3_installed settings last.1 last.0 w).1.endpoints)
        (opens_at k last.1.opened_at (omega (arith, reaches)))
        (exhausted_once w pk row k last found
          (IsUsable_same base row same client store boto3_installed settings usable)
          (IsExhausting-same base row same last exhausts) h)
  run_all-opens w pk base row k ((request, m) ∷ before) last found same h usable (now, later)
        exhausts reaches =
      let w' = (deliver_webhook d client store boto3_installed settings m request w).1 in
      let (row', found', h') =
        exhausted_once w pk row k (request, m) found
          (IsUsable_same base row same client store boto3_installed settings usable)
          (IsExhausting-same base row same (request, m) now) h in
      let kept : SameSettings w.endpoints w'.endpoints =
        deliver_webhook-kept (λ pk. Unit) SameSettings keeps_settings settings m d client store
          boto3_installed request w tt in
      run_all-opens w' pk base row' (k + 1) before last found'
        (same_settings w.endpoints w'.endpoints pk row row' kept found found' ∙ same)
        (subst (Represents c row')
          (stays_shut k (length before) m.opened_at (omega (arith, reaches))) h')
        usable later exhausts (omega (arith, reaches))
