-- ===== src/Retention/Purged.antt =====
-- Exactly the rows past the retention window go, and a second pass finds none.
use mathlib.Core.List.{Memᴰ}
use openedx_webhook_relay.Base.{
  ℕ, String, ◌+◌, ◌*◌, ◌<◌, ◌≡◌, ◌↔◌, refl, sym, ◌∙◌, inl, inr, Bool, true, false, not, Option,
  some, List, arith, ◌==◌, ==_iff, filter, length, Bool-cases,
}
use openedx_webhook_relay.Base.Members.{length-filter, filter_none, filter_all, Memᴰ-filter}
use openedx_webhook_relay.Base.Int.{pos}
use openedx_webhook_relay.Settings.{Settings}
use openedx_webhook_relay.Models.{Attempt}
use openedx_webhook_relay.Retention.{
  PurgeResult, cutoff_of, status_passes, is_due, resolve_retention_days,
  purge_old_delivery_attempts,
}

-- A row is past the window of `days` days, and has the status that the pass asks for.
abbrev pub Expired : ℕ → ℕ → Option String → Attempt → Type 0
Expired now days status row =
    (row.created + days * 86400000000 < now) × (status_passes status row ≡ true)

is_due_iff :
    (now days : ℕ) (status : Option String) (row : Attempt)
    → (is_due (cutoff_of now (pos days)) status row ≡ true) ↔ Expired now days status row
unfolding is_due
is_due_iff now days status row = ground arith

module _ (settings : Settings) (now days : ℕ) (status : Option String) (rows : List Attempt) where
  due : Attempt → Bool
  due = is_due (cutoff_of now (pos days)) status

  kept_rows : List Attempt
  unfolding due
  kept_rows = filter (λ row. not (due row)) rows

  abbrev pub purged : Bool → PurgeResult × List Attempt
  purged dry_run = purge_old_delivery_attempts settings now (some (pos days)) status dry_run rows

  -- A pass that is not a dry run leaves the rows that are not due, whichever branch it takes.
  purged_rows :
      ((purged false).1 ≡ kept_rows)
      × ((purged false).0.matched ≡ (purged false).0.deleted)
      × ((purged false).0.deleted ≡ length (filter due rows))
  unfolding purge_old_delivery_attempts resolve_retention_days kept_rows due
  purged_rows =
      elim (Bool-cases (length (filter (is_due (cutoff_of now (pos days)) status) rows) == 0)) [
        | inl e ↦
            let none_due = (==_iff _ 0).0 e in
            rw e (sym (filter_all _ rows none_due), none_due, sym none_due)
        | inr e ↦ rw e (refl, refl, refl)
      ]

  matched_lem :
      (table : List Attempt) (dry_run : Bool)
      → (purge_old_delivery_attempts settings now (some (pos days)) status dry_run table).0.matched
        ≡ length (filter due table)
  unfolding purge_old_delivery_attempts resolve_retention_days due
  matched_lem table true = refl
  matched_lem table false =
      elim (Bool-cases (length (filter (is_due (cutoff_of now (pos days)) status) table) == 0)) [
        | inl e ↦ rw e refl
        | inr e ↦ rw e refl
      ]

  dry_lem : ((purged true).0.deleted ≡ 0) × ((purged true).1 ≡ rows)
  unfolding purge_old_delivery_attempts
  dry_lem = (refl, refl)

  not-due_iff : (row : Attempt) → (not (due row) ≡ true) ↔ (¬ Expired now days status row)
  unfolding due
  not-due_iff row =
      let (to, from) = is_due_iff now days status row in
      elim (Bool-cases (is_due (cutoff_of now (pos days)) status row)) [
        | inl e ↦ (λ h. absurd (cc (e, h)), λ h. absurd (h (to e)))
        | inr e ↦ (λ h x. absurd (cc (e, from x)), λ h. rw e)
      ]

  -- A pass that is not a dry run deletes exactly the rows created more than `days` days ago (and,
  -- where a status is asked for, of that status): a row is in the table afterwards if and only if it
  -- was before and is not expired.
  pub purge_old_delivery_attempts-Expired :
      (row : Attempt)
      → Memᴰ row (purged false).1 ↔ (Memᴰ row rows × (¬ Expired now days status row))
  unfolding kept_rows
  purge_old_delivery_attempts-Expired row =
      let (to, from) = Memᴰ-filter (λ r. not (due r)) rows row in
      let (not_expired, not_due) = not-due_iff row in
      rw (purged_rows.0) ((λ h. ((to h).0, not_expired (to h).1)), (λ h. from (h.0, not_due h.1)))

  -- A pass that is not a dry run reports as many deleted rows as it matched, and as the table has
  -- lost; the same pass at the same time finds nothing more. A dry run matches as many, deletes
  -- none and leaves the table.
  pub purge_old_delivery_attempts-counts :
      ((purged false).0.deleted + length (purged false).1 ≡ length rows)
      × ((purged false).0.matched ≡ (purged false).0.deleted)
      × ((purge_old_delivery_attempts settings now
            (some (pos days))
            status
            false
            (purged false).1).0.matched
          ≡ 0)
      × ((purged true).0.matched ≡ (purged false).0.matched)
      × ((purged true).0.deleted ≡ 0)
      × ((purged true).1 ≡ rows)
  unfolding kept_rows
  purge_old_delivery_attempts-counts =
      let (left, same, gone) = purged_rows in
      (
        rw (gone, left) (length-filter due rows),
        same,
        rw left (matched_lem kept_rows false ∙ filter_none due rows),
        matched_lem rows true ∙ sym (matched_lem rows false),
        dry_lem.0,
        dry_lem.1,
      )
