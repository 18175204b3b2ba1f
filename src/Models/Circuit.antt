-- ===== src/Models/Circuit.antt =====
-- The circuit breaker of WebhookEndpoint. A method works on an instance, `self`, that was loaded at
-- some earlier time, and on the table's rows as they are now.
pub mod Race
pub mod Breaker
pub mod Wedge
pub mod Updates
pub mod Columns
pub mod Consistent
use openedx_webhook_relay.Base.{
  ℕ, ◌+◌, ◌*◌, Bool, true, false, not, ◌||◌, Option, none, some, List, ◌==◌, ltb, leb,
  if◌then◌else◌,
}
use openedx_webhook_relay.Models.{
  CircuitState, closed, opened, half_open, Endpoint, same_state, find_row, update_rows, count_rows,
  every_row,
}

-- What a method leaves: its result, the instance and the rows.
pub record Slot : Type 0 where
  pub granted : Bool
  pub instance : Endpoint
  pub rows : List Endpoint

abbrev pub is_open : Endpoint → Bool
is_open row = same_state row.circuit_state opened

abbrev pub set_half_open : Endpoint → Endpoint
set_half_open row = record row { circuit_state = half_open }

-- The conditional UPDATE from OPEN to HALF_OPEN.
unfoldable pub take_trial : Endpoint → List Endpoint → Slot
take_trial self rows =
    let updated = count_rows self.pk is_open rows in
    if updated == 0 then record { granted = false; instance = self; rows = rows } else record {
      granted = true;
      instance = set_half_open self;
      rows = update_rows self.pk is_open set_half_open rows;
    }

-- The part of `try_acquire_delivery_slot` for OPEN. `elapsed < cooldown`, without the subtraction.
unfoldable pub acquire_open : ℕ → Option ℕ → Endpoint → List Endpoint → Slot
acquire_open now none self rows = record { granted = true; instance = self; rows = rows }
acquire_open now (some opened_at) self rows =
    if ltb now (opened_at + self.circuit_breaker_cooldown_seconds * 1000000)
    then record { granted = false; instance = self; rows = rows }
    else take_trial self rows

unfoldable pub try_acquire_delivery_slot : ℕ → Endpoint → List Endpoint → Slot
try_acquire_delivery_slot now self rows =
    if not self.circuit_breaker_enabled || same_state self.circuit_state closed
    then record { granted = true; instance = self; rows = rows }
    else if same_state self.circuit_state half_open
    then record { granted = false; instance = self; rows = rows }
    else acquire_open now self.circuit_opened_at self rows

abbrev pub set_closed : Endpoint → Endpoint
set_closed row = record row {
  circuit_state = closed;
  consecutive_failures = 0;
  circuit_opened_at = none;
}

unfoldable pub record_circuit_success : Endpoint → List Endpoint → Endpoint × List Endpoint
record_circuit_success self rows = (set_closed self, update_rows self.pk every_row set_closed rows)

abbrev pub add_failure : Endpoint → Endpoint
add_failure row = record row { consecutive_failures = row.consecutive_failures + 1 }

abbrev pub set_open : ℕ → Endpoint → Endpoint
set_open now row = record row { circuit_state = opened; circuit_opened_at = some now }

-- The first UPDATE of `record_circuit_failure`, and the instance after `refresh_from_db`; `none` is
-- DoesNotExist, where the row was deleted.
unfoldable pub count_failure : Endpoint → List Endpoint → Option (Endpoint × List Endpoint)
count_failure self rows =
    let counted = update_rows self.pk every_row add_failure rows in
    elim (find_row counted self.pk) [
      | none ↦ none
      | some row ↦ some (record self { consecutive_failures = row.consecutive_failures }, counted)
    ]

-- The second UPDATE, past the threshold.
unfoldable pub open_if_past : ℕ → Endpoint → List Endpoint → Endpoint × List Endpoint
open_if_past now self rows =
    if leb self.circuit_breaker_failure_threshold self.consecutive_failures
    then (set_open now self, update_rows self.pk every_row (set_open now) rows)
    else (self, rows)

unfoldable pub record_circuit_failure :
    ℕ → Endpoint → List Endpoint → Option (Endpoint × List Endpoint)
record_circuit_failure now self rows = elim (count_failure self rows) [
  | none ↦ none
  | some (counted, after) ↦ some (open_if_past now counted after)
]
