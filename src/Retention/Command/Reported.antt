-- ===== src/Retention/Command/Reported.antt =====
-- What the purge command says before is what it does after.
use openedx_webhook_relay.Base.{
  ℕ, String, ◌+◌, ◌≡◌, ◌≢◌, ◌⊎◌, refl, inl, inr, Bool, true, false, Option, List, arith, ◌==◌,
  ==_iff, filter, length, Bool-cases,
}
use openedx_webhook_relay.Base.Int.{ℤ}
use openedx_webhook_relay.Base.Members.{length-filter}
use openedx_webhook_relay.Settings.{Settings}
use openedx_webhook_relay.Models.{Attempt}
use openedx_webhook_relay.Retention.{
  cutoff_of, is_due, resolve_retention_days, purge_old_delivery_attempts,
}
use openedx_webhook_relay.Retention.Command.{Options, none_older, would_delete, deleted, handle}

module _ (settings : Settings) (now : ℕ) (days : Option ℤ) (status : Option String)
    (rows : List Attempt) where
  abbrev asked : Bool → Options
  asked confirmed = record { days = days; status = status; confirmed = confirmed }

  -- Without `--yes` the command leaves the table. Either it says that nothing is old enough, and
  -- then it says and does the same with `--yes`; or it says how many attempts it would delete, at
  -- least one, and then with `--yes`, at the same time, it says that it deleted as many, and the
  -- table has lost as many.
  pub handle-preview :
      ((handle settings now (asked false) rows).1 ≡ rows)
      × ((((handle settings now (asked false) rows).0
              ≡ none_older (resolve_retention_days settings days))
            × (handle settings now (asked true) rows ≡ handle settings now (asked false) rows))
          ⊎ ((n : ℕ) × (n ≢ 0)
              × ((handle settings now (asked false) rows).0
                  ≡ would_delete n
                      (resolve_retention_days settings days)
                      (cutoff_of now (resolve_retention_days settings days)))
              × ((handle settings now (asked true) rows).0 ≡ deleted n)
              × (length (handle settings now (asked true) rows).1 + n ≡ length rows)))
  unfolding handle purge_old_delivery_attempts
  handle-preview =
      let due = is_due (cutoff_of now (resolve_retention_days settings days)) status in
      elim (Bool-cases (length (filter due rows) == 0)) [
        | inl e ↦ rw (e, e) (refl, inl (refl, refl))
        | inr e ↦
            rw (e, e)
              (
                refl,
                inr (
                  length (filter due rows),
                  λ z. cc (e, (==_iff _ 0).1 z),
                  refl,
                  refl,
                  omega (arith, length-filter due rows),
                ),
              )
      ]
