-- ===== src/Witness/Audit.antt =====
-- Retention, redelivery, the receivers and the serializer.
use mathlib.Core.List.{Memᴰ}
use openedx_webhook_relay.Base.{
  ◌+◌, ◌≡◌, ◌≢◌, ◌↔◌, refl, ap, sym, ◌∙◌, Bool, true, false, some, none, List, [], ◌∷◌, map, not,
  length, filter, str_eq,
}
use openedx_webhook_relay.Json.{null, bool, str, arr, nil, cons, obj, end, field}
use openedx_webhook_relay.Json.Dict.{get}
use openedx_webhook_relay.Security.{event_data_key}
use openedx_webhook_relay.Models.{Endpoint, Attempt, find_row}
use openedx_webhook_relay.Retention.Purged.{Expired, purged, purge_old_delivery_attempts-Expired}
use openedx_webhook_relay.Redeliver.{
  Options, Enqueued, requeued, matches, lacks_payload, task_of, handle,
}
use openedx_webhook_relay.Redeliver.Requeue.{matched, handle-requeued}
use openedx_webhook_relay.Receivers.{Event, request_for, raw_payload_of, process_event}
use openedx_webhook_relay.Receivers.{course_passing_status_updated_receiver}
use openedx_webhook_relay.Receivers.Dispatch.{
  registrations, supported_events, is_supported, signal_of_event, call_receiver, send_signal,
  send_signal_sound,
}
use openedx_webhook_relay.Receivers.Passing.{without_status, denied_status_always_sent}
use openedx_webhook_relay.Serializers.{Node, attributes, scope_ids, value_serializer}
use openedx_webhook_relay.Serializers.Bounded.{has_plain_ids, is_plain, value_serializer-plain}
use openedx_webhook_relay.Admin.{requeue_selected, is_exhausted}
use openedx_webhook_relay.Admin.Requeued.{requeue_selected-tasks}
use openedx_webhook_relay.Tasks.{Request}
use openedx_webhook_relay.Tasks.Deliver.{if_enabled}
use openedx_webhook_relay.Tasks.Shape.{as_paths, shape_and_check}
use openedx_webhook_relay.Examples.{settings, endpoint, attempt, event}

-- Two days after the first row.
abbrev rows : List Attempt
rows = attempt 1000 ∷ attempt 172800000000 ∷ []

purge_old_delivery_attempts-Expired_example :
    Memᴰ (attempt 1000) (purged settings 172800001000 1 none rows false).1
    ↔ (Memᴰ (attempt 1000) rows × (¬ Expired 172800001000 1 none (attempt 1000)))
purge_old_delivery_attempts-Expired_example =
    purge_old_delivery_attempts-Expired settings 172800001000 1 none rows (attempt 1000)

abbrev requeue_options : Options
requeue_options = record {
  correlation_id = none;
  endpoint_id = some 7;
  requeue = true;
  payload_file = none;
}

chosen : matches requeue_options (attempt 1000) ≡ true
unfolding matches
chosen = refl

all_have :
    (r : Attempt) → Memᴰ r rows → matches requeue_options r ≡ true → lacks_payload none r ≡ false
all_have r (Memᴰ.head p) m = ap (lacks_payload none) p
all_have r (Memᴰ.tail (Memᴰ.head p)) m = ap (lacks_payload none) p
all_have r (Memᴰ.tail (Memᴰ.tail among)) m = elim among [ ]

handle-requeued_example :
    (tasks : List Enqueued) × (handle requeue_options rows ≡ requeued tasks)
    × (length tasks ≡ length (matched requeue_options rows))
    × Memᴰ (task_of none (attempt 1000)) tasks
handle-requeued_example =
    handle-requeued requeue_options rows (attempt 1000) refl (Memᴰ.head refl) chosen all_have

one_row : (r s : Endpoint) → Memᴰ r (endpoint ∷ []) → Memᴰ s (endpoint ∷ []) → r.pk ≡ s.pk → r ≡ s
one_row r s (Memᴰ.head p) (Memᴰ.head q) e = p ∙ sym q
one_row r s (Memᴰ.tail among) m e = elim among [ ]
one_row r s (Memᴰ.head p) (Memᴰ.tail among) e = elim among [ ]

not_metadata : event.data_type ≢ "event_metadata"
not_metadata e = cc (ap (λ s. str_eq s "Grade") e)

abbrev first_request : Request
first_request = request_for "COURSE_PASSING_STATUS_UPDATED" event "5f0c" endpoint

enqueued : Memᴰ first_request (
    send_signal registrations
      (signal_of_event "COURSE_PASSING_STATUS_UPDATED")
      event
      "5f0c"
      (endpoint ∷ []))
unfolding send_signal call_receiver course_passing_status_updated_receiver process_event
enqueued = Memᴰ.head refl

send_signal_sound_example :
    (is_supported "COURSE_PASSING_STATUS_UPDATED" supported_events ≡ true)
    × (first_request.event ≡ "COURSE_PASSING_STATUS_UPDATED")
    × ((row : Endpoint) × (if_enabled (find_row (endpoint ∷ []) 7) ≡ some row)
        × (row.event ≡ "COURSE_PASSING_STATUS_UPDATED")
        × (first_request.retries ≡ 0)
        × (first_request.correlation_id ≡ "5f0c")
        × (event_data_key (raw_payload_of event) ≡ some "Grade")
        × (get (raw_payload_of event) "Grade" ≡ some (obj event.fields))
        × (get (raw_payload_of event) "event_metadata" ≡ some (obj event.metadata)))
send_signal_sound_example =
    send_signal_sound "COURSE_PASSING_STATUS_UPDATED" event "5f0c" (endpoint ∷ []) first_request
      one_row not_metadata enqueued

abbrev open_to_all : Endpoint
open_to_all = record endpoint { pii_allowlist = arr nil; pii_denylist = arr nil }

bare : get event.metadata "is_passing" ≡ none
unfolding get
bare = refl

abbrev failing : Event
failing = record {
  data_type = "Grade";
  fields = field "is_passing" (bool false) end;
  metadata = event.metadata;
}

abbrev denying : Endpoint
denying = record open_to_all { pii_denylist = arr (cons (str "data.is_passing") nil) }

denied_status_always_sent_example :
    shape_and_check (raw_payload_of failing) denying ≡ some (without_status failing, true)
denied_status_always_sent_example =
    denied_status_always_sent failing denying not_metadata refl bare refl (unfold as_paths in refl)
      (unfold as_paths in refl)

-- An object that holds itself under two names, and a ScopeIds.
abbrev cycle : Bool → Node Bool
cycle true =
    attributes ((some "self", true) ∷ (some "_private", true) ∷ (some "scope_ids", false) ∷ [])
cycle false = scope_ids (str "problem") "d1" "u1" null

cycle_ids : (a : Bool) → has_plain_ids (cycle a) ≡ true
unfolding has_plain_ids is_plain
cycle_ids true = refl
cycle_ids false = refl

value_serializer-plain_example : is_plain 16 (value_serializer cycle true) ≡ true
value_serializer-plain_example = value_serializer-plain Bool cycle true cycle_ids

requeue_selected-tasks_example :
    ((requeue_selected rows).tasks
      ≡ map
          (task_of none)
          (filter (λ row. not (lacks_payload none row)) (filter is_exhausted rows)))
    × ((requeue_selected rows).requeued ≡ length (requeue_selected rows).tasks)
    × ((requeue_selected rows).requeued + (requeue_selected rows).skipped_no_snapshot
        ≡ length (filter is_exhausted rows))
requeue_selected-tasks_example = requeue_selected-tasks rows
