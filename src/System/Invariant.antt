-- ===== src/System/Invariant.antt =====
-- Every platform that the plugin reaches from a sound one is sound.
use openedx_webhook_relay.Base.Members.{length-filter}
use openedx_webhook_relay.Base.{
  All-filter, not, ◌==◌, ℕ, ◌+◌, ◌*◌, ◌≤◌, ◌≡◌, inl, inr, Bool, true, some, arith, Option-cases,
}
use openedx_webhook_relay.Security.Signing.{Digests}
use openedx_webhook_relay.Settings.{Settings}
use openedx_webhook_relay.Models.{Endpoint, Attempt, opened, find_row}
use openedx_webhook_relay.Models.Circuit.{try_acquire_delivery_slot, acquire_open, take_trial}
use openedx_webhook_relay.Models.Circuit.Consistent.{IsConsistent}
use openedx_webhook_relay.Secrets.{Client}
use openedx_webhook_relay.Receivers.{process_event}
use openedx_webhook_relay.Admin.{requeue_selected}
use openedx_webhook_relay.System.Truthful.{IsTruthful}
use openedx_webhook_relay.System.Steps.{
  Platform, Step, Reach, here, next, event_received, task_run, purged, requeued_by_admin,
  redelivered, created, edit_begun, edit_saved, secret_rotated, endpoint_deleted,
}
use openedx_webhook_relay.System.Rotated.{
  rotate_signing_secret-IsConsistent, rotate_signing_secret-KeepsKeys,
}
use openedx_webhook_relay.System.Owned.{deleted-IsOwned}
use openedx_webhook_relay.System.Sound.{
  IsSound, requests-IsWarranted, events-IsWarranted, save_model-circuit, edited-IsConsistent,
  find_row-All,
}
use openedx_webhook_relay.System.Operations.{
  more_queue, saved-IsSound, created-IsSound, rotated-IsSound, begun-IsSound, run-IsSound,
  purge-IsSound,
}

module _ (d : Digests) (client : Client) (boto3_installed : Bool) (settings : Settings) where
  Step-IsSound :
      (p q : Platform) → Step d client boto3_installed settings p q → IsSound p → IsSound q
  unfolding process_event
  Step-IsSound p q (event_received event_name event correlation_id e) sound = rw e (
      more_queue p _ sound
        (events-IsWarranted p.world.emitted.signals event_name event correlation_id _))
  Step-IsSound p q (task_run store m before after request carried waits e) sound = rw e (
      run-IsSound d client boto3_installed settings p store m before after request carried waits
        sound)
  Step-IsSound p q (purged now e) sound = rw e (purge-IsSound settings p now sound)
  Step-IsSound p q (requeued_by_admin queryset e) sound = rw e (
      more_queue p _ sound
        (requests-IsWarranted p.world.emitted.signals (requeue_selected queryset).tasks))
  Step-IsSound p q (redelivered options tasks ran e) sound =
      rw e (more_queue p _ sound (requests-IsWarranted p.world.emitted.signals tasks))
  Step-IsSound p q (created row state opening e) sound =
      rw e (created-IsSound p row (rw (state, opening)) sound)
  Step-IsSound p q (edit_begun pk row found e) sound = rw e (begun-IsSound p pk row found sound)
  Step-IsSound p q
        (edit_saved before after row edited saved form cleaned store store' loads edit ran e)
        sound =
      rw e (
        saved-IsSound p before after row saved loads
          (edited-IsConsistent row edited saved edit (
            save_model-circuit client settings boto3_installed form cleaned edited saved store
              store' ran))
          sound)
  Step-IsSound p q (secret_rotated options rows store store' ran e) sound = rw e (
      rotated-IsSound p rows sound
        (rotate_signing_secret-IsConsistent client settings boto3_installed options
          p.world.endpoints rows store store' ran sound.consistent)
        (rotate_signing_secret-KeepsKeys client settings boto3_installed options p.world.endpoints
          rows store store' ran))
  Step-IsSound p q (endpoint_deleted pk e) sound = rw e (record {
    consistent = All-filter IsConsistent _ p.world.endpoints sound.consistent;
    loaded_consistent = sound.loaded_consistent;
    truthful = All-filter IsTruthful _ p.world.attempts sound.truthful;
    owned = deleted-IsOwned pk p.world.endpoints p.world.attempts sound.owned;
    signalled = omega (
      arith,
      sound.signalled,
      length-filter (λ (row : Attempt). not (row.endpoint_id == pk)) p.world.attempts,
    );
    warranted = sound.warranted;
  })

  -- If a platform is sound, then so is each that the plugin can make of it by events, runs of
  -- tasks, purges, redeliveries, and the creation, edits, rotations and deletions of endpoints, in
  -- any order: a row of an endpoint, or one that an admin has loaded, has a time of opening
  -- exactly while its circuit is not CLOSED; an audit row is of an endpoint that is in the table, has
  -- a payload only if it is exhausted, is numbered from 1, has an error message of at most 4000 and a
  -- fingerprint of at most 16 characters, and has a status code below 400 if it succeeded and none
  -- if it says that the attempt was skipped or the circuit was open; there are no more audit rows
  -- than signals; and for a task in the queue there are at least as many signals of a retry as it
  -- has retries.
  pub Reach-IsSound :
      (p q : Platform) → Reach d client boto3_installed settings p q → IsSound p → IsSound q
  Reach-IsSound p q here sound = sound
  Reach-IsSound p q (next reached step) sound =
      Step-IsSound _ q step (Reach-IsSound p _ reached sound)

-- In a sound platform, a slot of an endpoint in the table whose breaker is on and whose circuit is
-- open is granted only if the row has a time of opening and the cooldown has passed since.
pub granted_after_cooldown :
    (p : Platform) (now : ℕ) (pk : ℕ) (row : Endpoint)
    → IsSound p
    → find_row p.world.endpoints pk ≡ some row
    → row.circuit_breaker_enabled ≡ true
    → row.circuit_state ≡ opened
    → (try_acquire_delivery_slot now row p.world.endpoints).granted ≡ true
    → (since : ℕ) × (row.circuit_opened_at ≡ some since)
      × (since + row.circuit_breaker_cooldown_seconds * 1000000 ≤ now)
unfolding try_acquire_delivery_slot acquire_open take_trial
granted_after_cooldown p now pk row sound found on is_opened granted =
    let fits = find_row-All IsConsistent p.world.endpoints pk row sound.consistent found in
    elim (Option-cases row.circuit_opened_at) [
      | inl e ↦ absurd (cc (rw (is_opened, e) at fits))
      | inr (since, e) ↦ (since, e, ground (arith, granted))
    ]
