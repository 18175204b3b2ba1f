-- ===== src/Settings/Plugin.antt =====
-- settings/common.py: `plugin_settings`, which registers the defaults and the scheduled purge.
pub mod Defaults
use openedx_webhook_relay.Base.{
  ℕ, String, Bool, true, false, Option, none, some, List, [], ◌∷◌, str_eq, get_or, if◌then◌else◌,
}
use openedx_webhook_relay.Base.Int.{ℤ, pos}
use openedx_webhook_relay.Json.{end}
use openedx_webhook_relay.Settings.{Settings, Schedule, crontab, BeatEntry}

abbrev pub purge_entry_name : String
purge_entry_name = "openedx-webhook-relay-purge-old-delivery-attempts"

-- `beat_schedule[name] = entry`, and `beat_schedule.get(name)`.
unfoldable pub set_entry :
    List (String × BeatEntry) → String → BeatEntry → List (String × BeatEntry)
set_entry [] name entry = (name, entry) ∷ []
set_entry ((other, e) ∷ rest) name entry =
    let after = set_entry rest name entry in
    if str_eq other name then (other, entry) ∷ rest else (other, e) ∷ after

unfoldable pub get_entry : List (String × BeatEntry) → String → Option BeatEntry
get_entry [] name = none
get_entry ((other, e) ∷ rest) name =
    let found = get_entry rest name in if str_eq other name then some e else found

-- `getattr` with a default, and the assignment of the result.
unfoldable pub register_defaults : Settings → Settings
register_defaults settings = record settings {
  default_secret = some (get_or settings.default_secret "");
  signature_header = some (get_or settings.signature_header "X-OpenEdX-Webhook-Signature");
  retry_backoff_seconds = some (get_or settings.retry_backoff_seconds 30);
  retry_backoff_max_seconds = some (get_or settings.retry_backoff_max_seconds 900);
  secret_backend = some (get_or settings.secret_backend "database");
  aws_secret_name_prefix = some (get_or settings.aws_secret_name_prefix "openedx-webhook-relay");
  aws_secrets_manager_kwargs = some (get_or settings.aws_secrets_manager_kwargs end);
  audit_retention_days = some (get_or settings.audit_retention_days (pos 90));
  auto_purge_enabled = some (get_or settings.auto_purge_enabled true);
  purge_schedule_hour = some (get_or settings.purge_schedule_hour 3);
  purge_schedule_minute = some (get_or settings.purge_schedule_minute 17);
}

unfoldable pub purge_entry : Settings → BeatEntry
purge_entry settings = record {
  task = "openedx_webhook_relay.tasks.purge_old_delivery_attempts_task";
  schedule =
      crontab (get_or settings.purge_schedule_hour 3) (get_or settings.purge_schedule_minute 17);
}

unfoldable pub schedule_purge : Settings → Settings
unfolding set_entry purge_entry
schedule_purge settings =
    if get_or settings.auto_purge_enabled true
    then record settings {
      celery_beat_schedule = some (
          set_entry (get_or settings.celery_beat_schedule []) purge_entry_name
            (purge_entry settings));
    }
    else settings

unfoldable pub plugin_settings : Settings → Settings
unfolding register_defaults schedule_purge
plugin_settings settings = schedule_purge (register_defaults settings)
