-- ===== src/Retention.antt =====
-- retention.py and the scheduled task of tasks.py: the audit rows past the retention window are
-- deleted.
pub mod Purged
pub mod Command
use openedx_webhook_relay.Base.{
  ℕ, ◌*◌, String, Bool, true, false, not, ◌&&◌, ◌||◌, Option, none, some, List, [], ◌∷◌, filter,
  length, ◌==◌, str_eq, get_or, if◌then◌else◌,
}
use openedx_webhook_relay.Base.Int.{ℤ, pos, ◌-ℤ◌, scale, ltb_ℤ}
use openedx_webhook_relay.Settings.{Settings}
use openedx_webhook_relay.Models.{Attempt}
use openedx_webhook_relay.Metrics.{status_value}

pub record PurgeResult : Type 0 where
  pub matched : ℕ
  pub deleted : ℕ
  pub cutoff : ℤ
  pub days : ℤ
  pub status_filter : Option String

unfoldable pub resolve_retention_days : Settings → Option ℤ → ℤ
resolve_retention_days settings none = get_or settings.audit_retention_days (pos 90)
resolve_retention_days settings (some days) = days

-- `now - timedelta(days=days)`, in microseconds.
abbrev pub cutoff_of : ℕ → ℤ → ℤ
cutoff_of now days = pos now -ℤ scale 86400000000 days

abbrev pub status_passes : Option String → Attempt → Bool
status_passes none row = true
status_passes (some status) row =
    if str_eq status "" then true else str_eq (status_value row.status) status

-- The rows of the queryset.
unfoldable pub is_due : ℤ → Option String → Attempt → Bool
is_due cutoff status row = ltb_ℤ (pos row.created) cutoff && status_passes status row

-- The result, and the table after the pass.
unfoldable pub purge_old_delivery_attempts :
    Settings → ℕ → Option ℤ → Option String → Bool → List Attempt → PurgeResult × List Attempt
unfolding resolve_retention_days
purge_old_delivery_attempts settings now days status dry_run rows =
    let resolved_days = resolve_retention_days settings days in
    let cutoff = cutoff_of now resolved_days in
    let matched = length (filter (is_due cutoff status) rows) in
    if dry_run || matched == 0
    then (
      record {
        matched = matched;
        deleted = 0;
        cutoff = cutoff;
        days = resolved_days;
        status_filter = status;
      },
      rows,
    )
    else (
      record {
        matched = matched;
        deleted = length (filter (is_due cutoff status) rows);
        cutoff = cutoff;
        days = resolved_days;
        status_filter = status;
      },
      filter (λ row. not (is_due cutoff status row)) rows,
    )

-- `none` is the answer `{"skipped": True}`; else the counts of deleted rows and days.
unfoldable pub purge_old_delivery_attempts_task :
    Settings → ℕ → List Attempt → Option (ℕ × ℤ) × List Attempt
unfolding purge_old_delivery_attempts
purge_old_delivery_attempts_task settings now rows =
    let result = purge_old_delivery_attempts settings now none none false rows in
    if not (get_or settings.auto_purge_enabled true)
    then (none, rows)
    else (some (result.0.deleted, result.0.days), result.1)
