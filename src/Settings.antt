-- ===== src/Settings.antt =====
-- The Django settings that the code reads, each with its name less the prefix OPENEDX_WEBHOOK_RELAY_.
-- `none`: the setting is not there, and `getattr` gives the default that the code names.
pub mod Plugin
use openedx_webhook_relay.Base.{ℕ, String, Bool, Option, List}
use openedx_webhook_relay.Base.Int.{ℤ}
use openedx_webhook_relay.Json.{Fields}

-- A schedule of Celery beat: `crontab(hour=, minute=)`, or another, of which only its text matters.
pub data Schedule : Type 0 where
  crontab : ℕ → ℕ → Schedule
  other_schedule : String → Schedule

-- An entry of CELERY_BEAT_SCHEDULE.
pub record BeatEntry : Type 0 where
  pub task : String
  pub schedule : Schedule

pub record Settings : Type 0 where
  pub encryption_key : Option String
  pub default_secret : Option String
  pub signature_header : Option String
  pub retry_backoff_seconds : Option ℕ
  pub retry_backoff_max_seconds : Option ℕ
  pub aws_secrets_manager_kwargs : Option Fields
  pub secret_backend : Option String
  pub aws_secret_name_prefix : Option String
  pub audit_retention_days : Option ℤ
  pub auto_purge_enabled : Option Bool
  pub purge_schedule_hour : Option ℕ
  pub purge_schedule_minute : Option ℕ
  -- CELERY_BEAT_SCHEDULE, which has no prefix.
  pub celery_beat_schedule : Option (List (String × BeatEntry))
  -- The client's `incr`, whether it raises; the client is an object that the deployment supplies.
  pub statsd_client : Option (String → Bool)
