-- ===== src/Models/Circuit/Wedge.antt =====
-- How an endpoint gets stuck in HALF_OPEN: its trial fails while the count is below the threshold,
-- which `record_circuit_failure` leaves without a move. The count gets there when the threshold is
-- raised while the circuit is open, or when a success resets the count between the two UPDATEs.
use openedx_webhook_relay.Base.{ℕ, ◌+◌, ◌≤◌, ◌<◌, ◌≡◌, refl, true, false, some, List, arith}
use openedx_webhook_relay.Models.{Endpoint, opened, half_open, find_row, update_rows, every_row}
use openedx_webhook_relay.Models.Rows.{find_row-pk, find_row-update_rows}
use openedx_webhook_relay.Models.Circuit.{
  try_acquire_delivery_slot, add_failure, set_closed, set_open, count_failure, open_if_past,
  record_circuit_failure, record_circuit_success,
}

module _ (pk now : ℕ) (rows : List Endpoint) (row : Endpoint)
    (found : find_row rows pk ≡ some row) where
  counted : find_row (update_rows pk every_row add_failure rows) pk ≡ some (add_failure row)
  counted = find_row-update_rows pk every_row add_failure rows (λ r. refl) found

  counts :
      count_failure row rows ≡ some (add_failure row, update_rows pk every_row add_failure rows)
  unfolding count_failure
  counts = ground (arith, find_row-pk rows pk found, counted)

  stays_below :
      row.consecutive_failures + 1 < row.circuit_breaker_failure_threshold
      → record_circuit_failure now row rows
        ≡ some (add_failure row, update_rows pk every_row add_failure rows)
  unfolding record_circuit_failure open_if_past
  stays_below below = ground (arith, counts)

pub refused_on_trial :
    (now : ℕ) (row : Endpoint) (rows : List Endpoint)
    → row.circuit_breaker_enabled ≡ true
    → row.circuit_state ≡ half_open
    → ((try_acquire_delivery_slot now row rows).granted ≡ false)
      × ((try_acquire_delivery_slot now row rows).rows ≡ rows)
unfolding try_acquire_delivery_slot
refused_on_trial now row rows on trial = ground arith

-- If the breaker is on, the circuit is HALF_OPEN and one more failure does not reach the
-- threshold, then the failure of the trial leaves a row on which every later attempt to get a slot
-- is refused, at any time, and which such an attempt does not change.
pub trial_failure_wedges :
    (pk now later : ℕ) (rows : List Endpoint) (row : Endpoint)
    → find_row rows pk ≡ some row
    → row.circuit_breaker_enabled ≡ true
    → row.circuit_state ≡ half_open
    → row.consecutive_failures + 1 < row.circuit_breaker_failure_threshold
    → (self' row' : Endpoint) × (after : List Endpoint) × (record_circuit_failure now row rows
        ≡ some (self', after))
      × (find_row after pk ≡ some row')
      × ((try_acquire_delivery_slot later row' after).granted ≡ false)
      × ((try_acquire_delivery_slot later row' after).rows ≡ after)
trial_failure_wedges pk now later rows row found on trial below =
    let after = update_rows pk every_row add_failure rows in
    let (no_slot, same) = refused_on_trial later (add_failure row) after on trial in
    (
      add_failure row,
      add_failure row,
      after,
      stays_below pk now rows row found below,
      counted pk now rows row found,
      no_slot,
      same,
    )

-- If a failure reaches the threshold, and between its two UPDATEs the success of another worker on
-- the same row is recorded, then the row is left OPEN with a failure count of 0.
pub success_between_updates :
    (pk now : ℕ) (rows : List Endpoint) (row other : Endpoint)
    → find_row rows pk ≡ some row
    → other.pk ≡ pk
    → row.circuit_breaker_failure_threshold ≤ row.consecutive_failures + 1
    → (self' row' : Endpoint) × (mid : List Endpoint) × (count_failure row rows ≡ some (self', mid))
      × (find_row (open_if_past now self' (record_circuit_success other mid).1).1 pk ≡ some row')
      × (row'.circuit_state ≡ opened)
      × (row'.consecutive_failures ≡ 0)
unfolding open_if_past record_circuit_success
success_between_updates pk now rows row other found same_pk reached =
    let mid = update_rows pk every_row add_failure rows in
    let reset = update_rows pk every_row set_closed mid in
    let on_mid = counted pk now rows row found in
    let on_reset = find_row-update_rows pk every_row set_closed mid (λ r. refl) on_mid in
    (
      add_failure row,
      set_open now (set_closed (add_failure row)),
      mid,
      counts pk now rows row found,
      ground (
        arith,
        find_row-pk rows pk found,
        find_row-update_rows pk every_row (set_open now) reset (λ r. refl) on_reset,
      ),
      refl,
      refl,
    )
