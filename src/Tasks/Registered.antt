-- ===== src/Tasks/Registered.antt =====
-- The task under the registered settings.
use openedx_webhook_relay.Base.{ℕ, ◌≡◌, ◌∙◌, refl, inl, inr, Bool, true, List, get_or, Bool-cases}
use openedx_webhook_relay.Retention.{
  resolve_retention_days, purge_old_delivery_attempts, purge_old_delivery_attempts_task,
}
use openedx_webhook_relay.Security.Signing.{Digests}
use openedx_webhook_relay.Settings.{Settings}
use openedx_webhook_relay.Settings.Plugin.{register_defaults, schedule_purge, plugin_settings}
use openedx_webhook_relay.Models.{Attempt}
use openedx_webhook_relay.Secrets.{
  Client, get_secret_backend, secret_name, get_secret, effective_secret,
}
use openedx_webhook_relay.Metrics.{emit_delivery_metric}
use openedx_webhook_relay.Tasks.{Request, World, Moment}
use openedx_webhook_relay.Tasks.Backoff.{backoff_seconds}
use openedx_webhook_relay.Tasks.Record.{record_attempt}
use openedx_webhook_relay.Tasks.Deliver.{
  headers_of, sign_header, recorded, fail_or_retry, circuit_failure, after_reply, without_post,
  send, send_signed, gate, deliver_shaped, deliver_found, deliver_webhook,
}

purge_task-plugin_settings :
    (settings : Settings) (now : ℕ) (rows : List Attempt)
    → purge_old_delivery_attempts_task (plugin_settings settings) now rows
      ≡ purge_old_delivery_attempts_task settings now rows
unfolding purge_old_delivery_attempts_task purge_old_delivery_attempts resolve_retention_days
    schedule_purge register_defaults plugin_settings
purge_task-plugin_settings settings now rows =
    elim (Bool-cases (get_or settings.auto_purge_enabled true)) [
      | inl on ↦ rw on refl
      | inr off ↦ rw off refl
    ]

module _ (d : Digests) (client : Client) (store : client.Store) (boto3_installed : Bool)
    (settings : Settings) where
  pub deliver_webhook-register_defaults :
      (m : Moment) (request : Request) (w : World)
      → deliver_webhook d client store boto3_installed (register_defaults settings) m request w
        ≡ deliver_webhook d client store boto3_installed settings m request w
  unfolding deliver_webhook deliver_found deliver_shaped gate send_signed send after_reply
      fail_or_retry circuit_failure recorded record_attempt emit_delivery_metric without_post
      headers_of sign_header backoff_seconds effective_secret get_secret secret_name
      get_secret_backend register_defaults
  deliver_webhook-register_defaults m request w = refl

  deliver_webhook-schedule_purge :
      (m : Moment) (request : Request) (w : World)
      → deliver_webhook d client store boto3_installed (schedule_purge settings) m request w
        ≡ deliver_webhook d client store boto3_installed settings m request w
  unfolding deliver_webhook deliver_found deliver_shaped gate send_signed send after_reply
      fail_or_retry circuit_failure recorded record_attempt emit_delivery_metric without_post
      headers_of sign_header backoff_seconds effective_secret get_secret secret_name
      get_secret_backend schedule_purge
  deliver_webhook-schedule_purge m request w =
      elim (Bool-cases (get_or settings.auto_purge_enabled true)) [
        | inl on ↦ rw on refl
        | inr off ↦ rw off refl
      ]

module _ (d : Digests) (client : Client) (store : client.Store) (boto3_installed : Bool)
    (settings : Settings) where
  -- Registering the plugin's settings changes nothing for its tasks: each delivery and each
  -- scheduled purge does what it does where a setting is not there.
  pub plugin_settings-same :
      (m : Moment) (request : Request) (w : World) (now : ℕ) (rows : List Attempt)
      → (deliver_webhook d client store boto3_installed (plugin_settings settings) m request w
          ≡ deliver_webhook d client store boto3_installed settings m request w)
        × (purge_old_delivery_attempts_task (plugin_settings settings) now rows
            ≡ purge_old_delivery_attempts_task settings now rows)
  unfolding plugin_settings
  plugin_settings-same m request w now rows = (
    deliver_webhook-schedule_purge d client store boto3_installed (register_defaults settings) m
          request w
        ∙ deliver_webhook-register_defaults d client store boto3_installed settings m request w,
    purge_task-plugin_settings settings now rows,
  )
