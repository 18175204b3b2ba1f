-- ===== src/Models/Labels.antt =====
-- How models.py shows its rows: the labels of the two enumerations, and `__str__` of an endpoint.
use openedx_webhook_relay.Base.{◌≡◌, ◌∙◌, ap, sym, refl, String, str_eq, concat, if◌then◌else◌}
use openedx_webhook_relay.Models.{
  CircuitState, closed, opened, half_open, Status, succeeded, retrying, exhausted, skipped,
  circuit_open, Endpoint,
}

unfoldable pub circuit_state_label : CircuitState → String
circuit_state_label closed = "Closed (normal)"
circuit_state_label opened = "Open (skipping deliveries)"
circuit_state_label half_open = "Half-open (trial delivery in flight)"

unfoldable pub status_label : Status → String
status_label succeeded = "Succeeded"
status_label retrying = "Retrying"
status_label exhausted = "Exhausted (needs attention)"
status_label skipped = "Skipped (filtered out)"
status_label circuit_open = "Skipped (circuit breaker open)"

unfoldable pub endpoint_str : Endpoint → String
endpoint_str self =
    concat (if str_eq self.description "" then self.event else self.description)
      (concat " → " self.webhook_url)

-- A status is read back from its label.
status_of_label : String → Status
status_of_label text =
    if str_eq text "Succeeded"
    then succeeded
    else if str_eq text "Retrying"
    then retrying
    else if str_eq text "Exhausted (needs attention)"
    then exhausted
    else if str_eq text "Skipped (filtered out)"
    then skipped
    else circuit_open

status_of_label-status_label : (s : Status) → status_of_label (status_label s) ≡ s
unfolding status_label status_of_label
status_of_label-status_label succeeded = refl
status_of_label-status_label retrying = refl
status_of_label-status_label exhausted = refl
status_of_label-status_label skipped = refl
status_of_label-status_label circuit_open = refl

-- No two statuses have the same label.
pub status_label-injective : (s t : Status) → status_label s ≡ status_label t → s ≡ t
status_label-injective s t e =
    sym (status_of_label-status_label s) ∙ ap status_of_label e ∙ status_of_label-status_label t
