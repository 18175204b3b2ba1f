-- ===== src/Retention/Command.antt =====
-- management/commands/purge_old_delivery_attempts.py.
pub mod Reported
use openedx_webhook_relay.Base.{
  ℕ, Bool, not, Option, String, List, ◌∷◌, [], ◌==◌, if◌then◌else◌, str_eq, ◌||◌, true, false,
}
use openedx_webhook_relay.Base.Int.{ℤ}
use openedx_webhook_relay.Settings.{Settings}
use openedx_webhook_relay.Models.{Attempt, succeeded, retrying, exhausted, skipped, circuit_open}
use openedx_webhook_relay.Metrics.{status_value}
use openedx_webhook_relay.Retention.{PurgeResult, purge_old_delivery_attempts}

-- The options. The parser admits one of the statuses' values only.
pub record Options : Type 0 where
  pub days : Option ℤ
  pub status : Option String
  pub confirmed : Bool

-- What the command says: that no attempts are older than so many days, how many it would delete with
-- the cutoff, or how many it deleted.
pub data Said : Type 0 where
  none_older : ℤ → Said
  would_delete : ℕ → ℤ → ℤ → Said
  deleted : ℕ → Said

abbrev say : Bool → PurgeResult → Said
say confirmed result =
    if result.matched == 0
    then none_older result.days
    else if not confirmed
    then would_delete result.matched result.days result.cutoff
    else deleted result.deleted

-- What it says, and the table after it.
unfoldable pub handle : Settings → ℕ → Options → List Attempt → Said × List Attempt
handle settings now options rows =
    let result =
      purge_old_delivery_attempts settings now options.days options.status (not options.confirmed)
        rows in
    (say options.confirmed result.0, result.1)
