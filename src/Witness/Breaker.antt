-- ===== src/Witness/Breaker.antt =====
-- The circuit breaker on one open endpoint.
use openedx_webhook_relay.Base.{
  ℕ, ◌≡◌, refl, true, false, not, ◌&&◌, some, List, [], ◌∷◌, ◌==◌, arith, if◌then◌else◌,
}
use openedx_webhook_relay.Models.{Endpoint, opened, find_row, count_rows}
use openedx_webhook_relay.Models.Circuit.{
  is_open, try_acquire_delivery_slot, record_circuit_failure, record_circuit_success, count_failure,
  open_if_past,
}
use openedx_webhook_relay.Models.Circuit.Race.{
  Call, LoadedOpen, any_past, slots_granted, slots_granted_lem,
}
use openedx_webhook_relay.Models.Circuit.Breaker.{
  Config, tripped, Op, acquire, success, failure, moves, call_ops, Represents, call_ops-moves,
}
use openedx_webhook_relay.Models.Circuit.Wedge.{trial_failure_wedges, success_between_updates}
use openedx_webhook_relay.Examples.{endpoint, open_endpoint, trial_endpoint}

abbrev config : Config
config = record { switched_on = true; threshold = 2; cooldown = 60 }

stands : Represents config open_endpoint (tripped 2 5000)
stands = record { switched = refl; at_threshold = refl; cools = refl; state = refl; reached = refl }

found : find_row (open_endpoint ∷ []) 7 ≡ some open_endpoint
unfolding find_row
found = refl

abbrev calls : List (ℕ × Op)
calls = (70000000, acquire) ∷ (70000001, failure) ∷ (140000000, acquire) ∷ (140000001, success) ∷ []

call_ops-moves_example :
    (after : List Endpoint) × (row' : Endpoint) × (call_ops 7 calls (open_endpoint ∷ [])
      ≡ some after)
    × (find_row after 7 ≡ some row')
    × Represents config row' (moves config calls (tripped 2 5000))
call_ops-moves_example =
    call_ops-moves config 7 calls (open_endpoint ∷ []) open_endpoint (tripped 2 5000) found stands

was_open : LoadedOpen 7 open_endpoint
was_open = record {
  same_pk = refl;
  breaker_on = refl;
  was_open = refl;
  opened_at = 5000;
  opened_at_is = refl;
}

-- One call before the cooldown has passed, and two after.
abbrev workers : List Call
workers =
    (record { now = 6000; self = open_endpoint })
    ∷ (record { now = 70000000; self = open_endpoint })
    ∷ (record { now = 70000001; self = open_endpoint })
    ∷ []

slots_granted_example :
    slots_granted workers (open_endpoint ∷ [])
    ≡ (if any_past workers && not (count_rows 7 is_open (open_endpoint ∷ []) == 0) then 1 else 0)
slots_granted_example =
    slots_granted_lem 7 workers (open_endpoint ∷ []) (was_open, (was_open, (was_open, tt)))

found_trial : find_row (trial_endpoint ∷ []) 7 ≡ some trial_endpoint
unfolding find_row
found_trial = refl

trial_failure_wedges_example :
    (self' row' : Endpoint) × (after : List Endpoint) × (record_circuit_failure 70000000
        trial_endpoint
        (trial_endpoint ∷ [])
      ≡ some (self', after))
    × (find_row after 7 ≡ some row')
    × ((try_acquire_delivery_slot 99000000 row' after).granted ≡ false)
    × ((try_acquire_delivery_slot 99000000 row' after).rows ≡ after)
trial_failure_wedges_example =
    trial_failure_wedges 7 70000000 99000000 (trial_endpoint ∷ []) trial_endpoint found_trial refl
      refl (omega arith)

abbrev failed_once : Endpoint
failed_once = record endpoint { consecutive_failures = 1 }

found_once : find_row (failed_once ∷ []) 7 ≡ some failed_once
unfolding find_row
found_once = refl

success_between_updates_example :
    (self' row' : Endpoint) × (mid : List Endpoint) × (count_failure failed_once (failed_once ∷ [])
      ≡ some (self', mid))
    × (find_row (open_if_past 9000 self' (record_circuit_success failed_once mid).1).1 7
        ≡ some row')
    × (row'.circuit_state ≡ opened)
    × (row'.consecutive_failures ≡ 0)
success_between_updates_example =
    success_between_updates 7 9000 (failed_once ∷ []) failed_once failed_once found_once refl
      (omega arith)
