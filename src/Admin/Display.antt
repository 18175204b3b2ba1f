-- ===== src/Admin/Display.antt =====
-- What the admin shows of the rows, and whom it lets change them.
use openedx_webhook_relay.Base.{
  String, ◌≡◌, refl, ap, ◌∙◌, inl, inr, Bool, false, none, some, List, [], ◌∷◌, filter, map,
  is_some, concat, Option-cases, not,
}
use openedx_webhook_relay.Models.{
  Status, succeeded, retrying, exhausted, skipped, circuit_open, Endpoint, Attempt,
}
use openedx_webhook_relay.Models.Labels.{circuit_state_label, status_label}
use openedx_webhook_relay.Redeliver.{lacks_payload, task_of}
use openedx_webhook_relay.Admin.{is_exhausted, requeue_selected}
use openedx_webhook_relay.Admin.Requeued.{requeue_selected-tasks}

unfoldable pub circuit_state_display : Endpoint → String
circuit_state_display row = circuit_state_label row.circuit_state

unfoldable pub status_color : Status → String
status_color succeeded = "#1a7f37"
status_color retrying = "#9a6700"
status_color exhausted = "#cf222e"
status_color skipped = "#57606a"
status_color circuit_open = "#8250df"

-- Neither text has a character that `format_html` escapes.
unfoldable pub status_badge : Attempt → String
unfolding status_color
status_badge row = concat "<span style=\"color:" (
    concat (status_color row.status)
      (concat "; font-weight:600;\">" (concat (status_label row.status) "</span>")))

unfoldable pub has_snapshot : Attempt → Bool
has_snapshot row = is_some row.payload_snapshot

abbrev pub has_add_permission : Bool
has_add_permission = false

abbrev pub has_change_permission : Bool
has_change_permission = false

-- By whether the user is a superuser.
abbrev pub has_delete_permission : Bool → Bool
has_delete_permission is_superuser = is_superuser

marked_lem :
    (rows : List Attempt)
    → filter (λ row. not (lacks_payload none row)) rows ≡ filter has_snapshot rows
unfolding has_snapshot
marked_lem [] = refl
marked_lem (row ∷ rows) = elim (Option-cases row.payload_snapshot) [
  | inl e ↦ rw e (marked_lem rows)
  | inr (snapshot, e) ↦
      rw e (ap (λ more. record row { payload_snapshot = some snapshot } ∷ more) (marked_lem rows))
]

-- The action requeues the exhausted attempts that the list marks with a snapshot.
pub requeue_selected-has_snapshot :
    (queryset : List Attempt)
    → (requeue_selected queryset).tasks
      ≡ map (task_of none) (filter has_snapshot (filter is_exhausted queryset))
requeue_selected-has_snapshot queryset =
    (requeue_selected-tasks queryset).0
    ∙ ap (map (task_of none)) (marked_lem (filter is_exhausted queryset))
