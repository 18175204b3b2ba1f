-- ===== src/Witness/System.antt =====
-- A run of a task on the plugin's tables.
use openedx_webhook_relay.Base.{
  ℕ, ◌+◌, ◌*◌, ◌≤◌, ◌≡◌, refl, some, true, false, [], ◌∷◌, ◌++◌, arith,
}
use openedx_webhook_relay.Models.{find_row, count_rows}
use openedx_webhook_relay.Models.Circuit.{try_acquire_delivery_slot, acquire_open, take_trial}
use openedx_webhook_relay.Tasks.Deliver.{deliver_webhook}
use openedx_webhook_relay.System.Steps.{Platform, task_run, Reach, here, next, after_ending}
use openedx_webhook_relay.System.Sound.{IsSound}
use openedx_webhook_relay.System.Invariant.{Reach-IsSound, granted_after_cooldown}
use openedx_webhook_relay.Examples.{
  digests, client, settings, request, raw_payload, world, answered, open_endpoint, open_world,
}

abbrev start : Platform
start = record { world = world; queue = request ∷ []; loaded = [] }

abbrev after_run : Platform
after_run = record {
  world = (deliver_webhook digests client 0 false settings (answered 503) request world).1;
  queue =
      []
      ++ ([]
          ++ after_ending
              (deliver_webhook digests client 0 false settings (answered 503) request world).0
              request raw_payload);
  loaded = [];
}

start-IsSound : IsSound start
start-IsSound = record {
  consistent = (refl, tt);
  loaded_consistent = tt;
  truthful = tt;
  owned = tt;
  signalled = omega arith;
  warranted = (omega arith, tt);
}

runs : Reach digests client false settings start after_run
runs = next here (task_run 0 (answered 503) [] [] request raw_payload refl refl)

Reach-IsSound_example : IsSound after_run
Reach-IsSound_example =
    Reach-IsSound digests client false settings start after_run runs start-IsSound

abbrev tripped : Platform
tripped = record { world = open_world; queue = []; loaded = [] }

tripped-IsSound : IsSound tripped
tripped-IsSound = record {
  consistent = (refl, tt);
  loaded_consistent = tt;
  truthful = tt;
  owned = tt;
  signalled = omega arith;
  warranted = tt;
}

found : find_row tripped.world.endpoints 7 ≡ some open_endpoint
unfolding find_row
found = refl

granted : (try_acquire_delivery_slot 70000000 open_endpoint tripped.world.endpoints).granted ≡ true
unfolding try_acquire_delivery_slot acquire_open take_trial count_rows
granted = refl

granted_after_cooldown_example :
    (since : ℕ) × (open_endpoint.circuit_opened_at ≡ some since)
    × (since + open_endpoint.circuit_breaker_cooldown_seconds * 1000000 ≤ 70000000)
granted_after_cooldown_example =
    granted_after_cooldown tripped 70000000 7 open_endpoint tripped-IsSound found refl refl granted
