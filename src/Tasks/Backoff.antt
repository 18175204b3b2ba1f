-- ===== src/Tasks/Backoff.antt =====
-- `_backoff_seconds` of tasks.py.
use openedx_webhook_relay.Base.{ℕ, ◌-◌, ◌*◌, ◌^◌, min, get_or}
use openedx_webhook_relay.Settings.{Settings}

-- Attempts are numbered from 1.
unfoldable pub backoff_seconds : Settings → ℕ → ℕ
backoff_seconds settings attempt_number =
    let base = get_or settings.retry_backoff_seconds 30 in
    let ceiling = get_or settings.retry_backoff_max_seconds 900 in
    min (base * 2 ^ (attempt_number - 1)) ceiling
