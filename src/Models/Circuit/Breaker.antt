-- ===== src/Models/Circuit/Breaker.antt =====
-- The breaker of docs/decisions/0007-circuit-breaker.rst, and how the rows of the table implement it:
-- the methods, called one after another, each on an instance that was just loaded, move the row as
-- the machine moves, while a circuit that is not closed has counted failures up to the threshold.
use openedx_webhook_relay.Base.{
  ℕ, ◌+◌, ◌*◌, ◌≡◌, refl, Bool, true, false, not, ◌&&◌, ◌||◌, Option, none, some, List, [], ◌∷◌,
  arith, leb, if◌then◌else◌,
}
use openedx_webhook_relay.Models.{
  CircuitState, closed, opened, half_open, Endpoint, find_row, update_rows, every_row,
}
use openedx_webhook_relay.Models.Rows.{find_row-update_rows, find_row-pk, count_rows-found}
use openedx_webhook_relay.Models.Circuit.{
  is_open, set_half_open, take_trial, acquire_open, try_acquire_delivery_slot, set_closed,
  record_circuit_success, add_failure, set_open, count_failure, open_if_past,
  record_circuit_failure,
}

pub record Config : Type 0 where
  pub switched_on : Bool
  pub threshold : ℕ
  pub cooldown : ℕ

-- The machine: how many failures since the last success, and since when it is open. A failure at the
-- threshold opens it; after the cooldown one trial is let through; a success resets it; a failure of
-- the trial, or one that comes in late while it is open, opens it anew and restarts the cooldown.
pub data Breaker : Type 0 where
  shut : ℕ → Breaker
  tripped on_trial : ℕ → ℕ → Breaker

pub data Op : Type 0 where
  acquire success failure : Op

module _ (c : Config) (now : ℕ) where
  abbrev pub move : Op → Breaker → Breaker
  move acquire (tripped failures since) =
      if c.switched_on && leb (since + c.cooldown * 1000000) now
      then on_trial failures since
      else tripped failures since
  move acquire b = b
  move success b = shut 0
  move failure (shut failures) =
      if leb c.threshold (failures + 1) then tripped (failures + 1) now else shut (failures + 1)
  move failure (tripped failures since) = tripped (failures + 1) now
  move failure (on_trial failures since) = tripped (failures + 1) now

  -- Whether a delivery may proceed.
  abbrev pub admits : Breaker → Bool
  admits (shut failures) = true
  admits (tripped failures since) = not c.switched_on || leb (since + c.cooldown * 1000000) now
  admits (on_trial failures since) = not c.switched_on

abbrev pub moves : Config → List (ℕ × Op) → Breaker → Breaker
moves c [] b = b
moves c ((now, op) ∷ rest) b = moves c rest (move c now op b)

-- One call on an instance loaded from the rows; `none` if there is no such row.
pub call_op : ℕ → ℕ → Op → List Endpoint → Option (List Endpoint)
call_op pk now op rows = elim (find_row rows pk) [
  | none ↦ none
  | some self ↦ elim op [
    | acquire ↦ some (try_acquire_delivery_slot now self rows).rows
    | success ↦ some (record_circuit_success self rows).1
    | failure ↦ elim (record_circuit_failure now self rows) [
      | none ↦ none
      | some (self', after) ↦ some after
    ]
  ]
]

pub call_ops : ℕ → List (ℕ × Op) → List Endpoint → Option (List Endpoint)
call_ops pk [] rows = some rows
call_ops pk ((now, op) ∷ rest) rows = elim (call_op pk now op rows) [
  | none ↦ none
  | some after ↦ call_ops pk rest after
]

abbrev pub view_of : CircuitState → Option ℕ → ℕ → Option Breaker
view_of closed none failures = some (shut failures)
view_of opened (some since) failures = some (tripped failures since)
view_of half_open (some since) failures = some (on_trial failures since)
view_of _ _ _ = none

-- A circuit that is not closed has counted as many failures as the threshold.
abbrev pub reaches : ℕ → Breaker → Bool
reaches threshold (shut failures) = true
reaches threshold (tripped failures since) = leb threshold failures
reaches threshold (on_trial failures since) = leb threshold failures

-- The row stands for the machine's state, in which the count fits the threshold.
pub record Represents (c : Config) (row : Endpoint) (b : Breaker) : Type 0 where
  pub switched : row.circuit_breaker_enabled ≡ c.switched_on
  pub at_threshold : row.circuit_breaker_failure_threshold ≡ c.threshold
  pub cools : row.circuit_breaker_cooldown_seconds ≡ c.cooldown
  pub state : view_of row.circuit_state row.circuit_opened_at row.consecutive_failures ≡ some b
  pub reached : reaches c.threshold b ≡ true

abbrev pub due : Option ℕ → ℕ → ℕ → Bool
due none cooldown now = false
due (some since) cooldown now = leb (since + cooldown * 1000000) now

-- The row after a call, by the row alone, where an open circuit has its time.
abbrev pub row_after : ℕ → Op → Endpoint → Endpoint
row_after now acquire row =
    if row.circuit_breaker_enabled
      && (is_open row && due row.circuit_opened_at row.circuit_breaker_cooldown_seconds now)
    then set_half_open row
    else row
row_after now success row = set_closed row
row_after now failure row =
    if leb row.circuit_breaker_failure_threshold (row.consecutive_failures + 1)
    then set_open now (add_failure row)
    else add_failure row

module _ (pk now : ℕ) (rows : List Endpoint) (row : Endpoint)
    (found : find_row rows pk ≡ some row) where
  pub acquire_row :
      find_row (try_acquire_delivery_slot now row rows).rows pk ≡ some (row_after now acquire row)
  unfolding try_acquire_delivery_slot acquire_open take_trial
  acquire_row = ground (
    arith,
    find_row-pk rows pk found,
    count_rows-found rows pk is_open found,
    find_row-update_rows pk is_open set_half_open rows (λ r. refl) found,
  )

  pub success_row :
      find_row (record_circuit_success row rows).1 pk ≡ some (row_after now success row)
  unfolding record_circuit_success
  success_row = ground (
    arith,
    find_row-pk rows pk found,
    find_row-update_rows pk every_row set_closed rows (λ r. refl) found,
  )

  counted_row : find_row (update_rows pk every_row add_failure rows) pk ≡ some (add_failure row)
  counted_row = find_row-update_rows pk every_row add_failure rows (λ r. refl) found

  count_failure_lem :
      count_failure row rows ≡ some (add_failure row, update_rows pk every_row add_failure rows)
  unfolding count_failure
  count_failure_lem = ground (arith, find_row-pk rows pk found, counted_row)

  opened_row :
      find_row (open_if_past now (add_failure row) (update_rows pk every_row add_failure rows)).1 pk
      ≡ some (row_after now failure row)
  unfolding open_if_past
  opened_row = ground (
    arith,
    find_row-pk rows pk found,
    counted_row,
    find_row-update_rows pk every_row (set_open now) (update_rows pk every_row add_failure rows)
        (λ r. refl) counted_row,
  )

  pub failure_row :
      (self' : Endpoint) × (after : List Endpoint) × (record_circuit_failure now row rows
        ≡ some (self', after))
      × (find_row after pk ≡ some (row_after now failure row))
  unfolding record_circuit_failure
  failure_row =
      let counted = update_rows pk every_row add_failure rows in
      let left = open_if_past now (add_failure row) counted in
      (left.0, left.1, rw (record_circuit_failure, count_failure_lem), opened_row)

  -- A call on a fresh instance leaves the row that `row_after` gives.
  call_op-row :
      (op : Op)
      → (after : List Endpoint) × (call_op pk now op rows ≡ some after)
        × (find_row after pk ≡ some (row_after now op row))
  unfolding call_op
  call_op-row acquire =
      ((try_acquire_delivery_slot now row rows).rows, rw (call_op, found), acquire_row)
  call_op-row success = ((record_circuit_success row rows).1, rw (call_op, found), success_row)
  call_op-row failure =
      let (self', after, ran, left) = failure_row in (after, rw (call_op, found) (rw ran), left)

pub row_after-Represents :
    (c : Config) (row : Endpoint) (b : Breaker) (now : ℕ) (op : Op)
    → Represents c row b
    → Represents c (row_after now op row) (move c now op b)
row_after-Represents c row b now acquire h = ground arith
row_after-Represents c row b now success h = ground arith
row_after-Represents c row b now failure h = ground arith

-- If the endpoint's row stands for a state of the breaker of ADR 0007, and has counted failures up to
-- its threshold if its circuit is not CLOSED, then any sequence of calls of the three methods, each
-- on an instance that was just loaded, runs and leaves such a row, for the state to which the breaker
-- moves: among others, every failed trial opens the circuit again and restarts the cooldown.
pub call_ops-moves :
    (c : Config) (pk : ℕ) (calls : List (ℕ × Op)) (rows : List Endpoint) (row : Endpoint)
    (b : Breaker)
    → find_row rows pk ≡ some row
    → Represents c row b
    → (after : List Endpoint) × (row' : Endpoint) × (call_ops pk calls rows ≡ some after)
      × (find_row after pk ≡ some row')
      × Represents c row' (moves c calls b)
unfolding call_ops
call_ops-moves c pk [] rows row b found h = (rows, row, refl, found, h)
call_ops-moves c pk ((now, op) ∷ rest) rows row b found h =
    let (mid, ran, left) = call_op-row pk now rows row found op in
    let (after, row', ran', found', h') =
      call_ops-moves c pk rest mid (row_after now op row) (move c now op b) left
        (row_after-Represents c row b now op h) in
    (after, row', rw (call_ops, ran) ran', found', h')

-- If the endpoint's row stands for a state of the machine, then a call on an instance that was
-- just loaded gets a slot exactly when the machine admits a delivery.
pub granted-admits :
    (c : Config) (now : ℕ) (rows : List Endpoint) (pk : ℕ) (row : Endpoint) (b : Breaker)
    → find_row rows pk ≡ some row
    → Represents c row b
    → (try_acquire_delivery_slot now row rows).granted ≡ admits c now b
unfolding try_acquire_delivery_slot acquire_open take_trial
granted-admits c now rows pk row b found h =
    ground (arith, find_row-pk rows pk found, count_rows-found rows pk is_open found)
