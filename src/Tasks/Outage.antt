-- ===== src/Tasks/Outage.antt =====
-- An outage of a receiver: its circuit opens after as many exhausted deliveries as the threshold, and
-- then no delivery is tried until the cooldown has passed.
use openedx_webhook_relay.Base.{
  ℕ, ◌+◌, ◌*◌, ◌<◌, ◌≡◌, refl, sym, ap, ◌∙◌, Bool, true, false, some, List, [], ◌∷◌, ◌++◌, All,
  arith, length,
}
use openedx_webhook_relay.Json.{Fields}
use openedx_webhook_relay.Security.Signing.{Digests}
use openedx_webhook_relay.Settings.{Settings}
use openedx_webhook_relay.Models.{Attempt, circuit_open, Endpoint, find_row}
use openedx_webhook_relay.Models.Circuit.Columns.{SameSettings, keeps_settings, same_settings}
use openedx_webhook_relay.Models.Circuit.Breaker.{
  Config, shut, tripped, admits, Represents, granted-admits,
}
use openedx_webhook_relay.Secrets.{Client}
use openedx_webhook_relay.Tasks.{Request, World, Moment, Ending, done}
use openedx_webhook_relay.Tasks.Shape.{shape_and_check}
use openedx_webhook_relay.Tasks.Deliver.{
  if_enabled, recorded, without_post, gate, deliver_shaped, deliver_found, deliver_webhook,
}
use openedx_webhook_relay.Tasks.Record.{record_attempt, attempt_row}
use openedx_webhook_relay.Models.Circuit.{try_acquire_delivery_slot}
use openedx_webhook_relay.Tasks.Writes.{deliver_webhook-kept}
use openedx_webhook_relay.Tasks.Moves.{Stands}
use openedx_webhook_relay.Tasks.Failures.{
  IsUsable, IsExhausting, shape_and_check-set_closed, run_all, run_all-opens,
}

-- The run returns after it recorded that the circuit is open, and posts nothing.
pub record IsRefusal (w : World) (r : Ending × World) : Type 0 where
  pub ends : r.0 ≡ done
  pub no_post : r.1.posts ≡ w.posts
  pub attempt : Attempt
  pub recorded_once : r.1.attempts ≡ w.attempts ++ attempt ∷ []
  pub is_gated : attempt.status ≡ circuit_open

module _ (c : Config) (d : Digests) (client : Client) (store : client.Store)
    (boto3_installed : Bool) (settings : Settings) where
  -- A first attempt at an open circuit within the cooldown is recorded and not sent.
  refused :
      (w : World) (pk f since : ℕ) (row : Endpoint) (payload : Fields) (request : Request)
      (m : Moment)
      → find_row w.endpoints pk ≡ some row
      → row.enabled ≡ true
      → Represents c row (tripped f since)
      → c.switched_on ≡ true
      → request.endpoint_id ≡ pk
      → request.retries ≡ 0
      → shape_and_check request.raw_payload row ≡ some (payload, true)
      → m.acquired_at < since + c.cooldown * 1000000
      → IsRefusal w (deliver_webhook d client store boto3_installed settings m request w)
  unfolding deliver_webhook deliver_found deliver_shaped gate without_post recorded record_attempt
      attempt_row
  refused w pk f since row payload request m found enabled h switched own fresh shaped early =
      let on : if_enabled (find_row w.endpoints request.endpoint_id) ≡ some row =
        ground (arith, found, enabled, own) in
      let denies : admits c m.acquired_at (tripped f since) ≡ false =
        ground (arith, switched, early) in
      let slot : (try_acquire_delivery_slot m.acquired_at row w.endpoints).granted ≡ false =
        granted-admits c m.acquired_at w.endpoints pk row (tripped f since) found h ∙ denies in
      rw (on, shaped, fresh, slot)
        (record { ends = refl; no_post = refl; attempt = _; recorded_once = refl; is_gated = refl })

  run_all-SameSettings :
      (runs : List (Request × Moment)) (w : World)
      → SameSettings w.endpoints
          (run_all c d client store boto3_installed settings runs w).endpoints
  unfolding run_all
  run_all-SameSettings [] w = refl
  run_all-SameSettings ((request, m) ∷ rest) w =
      run_all-SameSettings rest
        (deliver_webhook d client store boto3_installed settings m request w).1
      ∙ deliver_webhook-kept (λ pk. Unit) SameSettings keeps_settings settings m d client store
          boto3_installed request w tt

  -- If a usable endpoint's circuit is closed after `k` failures, and then, with no other run between
  -- them, as many of its runs as the threshold has left are last attempts that fail, then the
  -- circuit is open from the last of them on; and if the breaker is on, the next first attempt at an
  -- event for the endpoint, made before the cooldown has passed, posts nothing, returns, and appends
  -- one row, which says that the circuit is open.
  pub outage_opens :
      (w : World) (pk k : ℕ) (row : Endpoint) (before : List (Request × Moment))
      (last next : Request × Moment) (payload : Fields)
      → find_row w.endpoints pk ≡ some row
      → Represents c row (shut k)
      → IsUsable client store boto3_installed settings row
      → All (IsExhausting row) before
      → IsExhausting row last
      → k + length before + 1 ≡ c.threshold
      → c.switched_on ≡ true
      → next.0.endpoint_id ≡ pk
      → next.0.retries ≡ 0
      → shape_and_check next.0.raw_payload row ≡ some (payload, true)
      → next.1.acquired_at < last.1.opened_at + c.cooldown * 1000000
      → Stands c pk
          (run_all c d client store boto3_installed settings (before ++ last ∷ []) w).endpoints
          (tripped c.threshold last.1.opened_at)
        × IsRefusal (run_all c d client store boto3_installed settings (before ++ last ∷ []) w) (
            deliver_webhook d client store boto3_installed settings next.1 next.0
              (run_all c d client store boto3_installed settings (before ++ last ∷ []) w))
  outage_opens w pk k row before last next payload found h usable earlier exhausts reaches switched
        own fresh shaped early =
      let w' = run_all c d client store boto3_installed settings (before ++ last ∷ []) w in
      let (row', found', h') =
        run_all-opens c d client store boto3_installed settings w pk row row k before last found
          refl h usable earlier exhausts reaches in
      let same =
        same_settings w.endpoints w'.endpoints pk row row' (run_all-SameSettings _ w) found
          found' in
      (
        (row', found', h'),
        refused w' pk c.threshold last.1.opened_at row' payload next.0 next.1 found'
            (ap (λ (r : Endpoint). r.enabled) same ∙ usable.enabled) h' switched own fresh
            (sym (shape_and_check-set_closed next.0.raw_payload row')
              ∙ ap (shape_and_check next.0.raw_payload) same
              ∙ shape_and_check-set_closed next.0.raw_payload row
              ∙ shaped)
            early,
      )
