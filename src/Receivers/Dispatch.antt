-- ===== src/Receivers/Dispatch.antt =====
-- apps.py: the events that the plugin supports, and the receivers that it has registered for their
-- signals.
use mathlib.Core.Option.{some-injective}
use openedx_webhook_relay.Base.{
  strip_prefix, strip_prefix-concat, append_nil, sym, ap, subst, ◌∙◌, String, ◌≡◌, ◌≢◌, refl, inl,
  inr, Bool, true, false, some, List, [], ◌∷◌, ◌++◌, arith, concat, str_eq, str_eq_iff,
  if◌then◌else◌, Bool-cases,
}
use mathlib.Core.List.{Memᴰ}
use openedx_webhook_relay.Json.{obj}
use openedx_webhook_relay.Json.Dict.{get}
use openedx_webhook_relay.Security.{event_data_key}
use openedx_webhook_relay.Tasks.Deliver.{if_enabled}
use openedx_webhook_relay.Receivers.Enqueue.{UniqueKeys, process_event_sound, process_event-event}
use openedx_webhook_relay.Models.{Endpoint, find_row}
use openedx_webhook_relay.Tasks.{Request}
use openedx_webhook_relay.Receivers.{
  Event, process_event, course_passing_status_updated_receiver,
  ccx_course_passing_status_updated_receiver,
}

abbrev pub supported_events : List String
supported_events = "COURSE_PASSING_STATUS_UPDATED" ∷ "CCX_COURSE_PASSING_STATUS_UPDATED" ∷ []

-- An entry of "receivers": the function by its name, and the path of the signal.
pub record Registration : Type 0 where
  pub receiver_func_name : String
  pub signal_path : String

abbrev pub registrations : List Registration
registrations =
    (record {
      receiver_func_name = "course_passing_status_updated_receiver";
      signal_path = "openedx_events.learning.signals.COURSE_PASSING_STATUS_UPDATED";
    })
    ∷ (record {
      receiver_func_name = "ccx_course_passing_status_updated_receiver";
      signal_path = "openedx_events.learning.signals.CCX_COURSE_PASSING_STATUS_UPDATED";
    })
    ∷ []

-- The function of that name in receivers.py.
unfoldable pub call_receiver : String → Event → String → List Endpoint → List Request
call_receiver name event correlation_id rows =
    if str_eq name "course_passing_status_updated_receiver"
    then course_passing_status_updated_receiver event correlation_id rows
    else if str_eq name "ccx_course_passing_status_updated_receiver"
    then ccx_course_passing_status_updated_receiver event correlation_id rows
    else []

-- A signal is sent: each receiver that is registered for it is called. Each call makes a UUID of its
-- own; only one receiver is registered for a signal.
unfoldable pub send_signal :
    List Registration → String → Event → String → List Endpoint → List Request
unfolding call_receiver
send_signal [] path event correlation_id rows = []
send_signal (entry ∷ entries) path event correlation_id rows =
    let later = send_signal entries path event correlation_id rows in
    if str_eq entry.signal_path path
    then call_receiver entry.receiver_func_name event correlation_id rows ++ later
    else later

abbrev pub signal_of_event : String → String
signal_of_event event_name = concat "openedx_events.learning.signals." event_name

abbrev pub is_supported : String → List String → Bool
is_supported event_name [] = false
is_supported event_name (e ∷ es) = if str_eq e event_name then true else is_supported event_name es

path_eq : (p s t : String) → str_eq (concat p s) (concat p t) ≡ str_eq s t
path_eq p s t = elim (Bool-cases (str_eq s t)) [
  | inl e ↦ (str_eq_iff _ _).1 (ap (concat p) ((str_eq_iff s t).0 e)) ∙ sym e
  | inr e ↦ elim (Bool-cases (str_eq (concat p s) (concat p t))) [
    | inr f ↦ f ∙ sym e
    | inl f ↦
        let same : s ≡ t = some-injective s t (
          sym (strip_prefix-concat p s)
          ∙ ap (strip_prefix p) ((str_eq_iff _ _).0 f)
          ∙ strip_prefix-concat p t) in
        absurd (cc (e, (str_eq_iff s t).1 same))
  ]
]

registered :
    (name : String) (event : Event) (correlation_id : String) (rows : List Endpoint)
    → is_supported name supported_events ≡ true
    → send_signal registrations (signal_of_event name) event correlation_id rows
      ≡ process_event name event correlation_id rows
unfolding send_signal call_receiver course_passing_status_updated_receiver
    ccx_course_passing_status_updated_receiver
registered name event correlation_id rows supported =
    elim (Bool-cases (str_eq "COURSE_PASSING_STATUS_UPDATED" name)) [
      | inl e ↦
          subst
            (λ n.
              send_signal registrations (signal_of_event n) event correlation_id rows
              ≡ process_event n event correlation_id rows)
            ((str_eq_iff "COURSE_PASSING_STATUS_UPDATED" name).0 e)
            (append_nil (process_event "COURSE_PASSING_STATUS_UPDATED" event correlation_id rows))
      | inr e ↦ elim (Bool-cases (str_eq "CCX_COURSE_PASSING_STATUS_UPDATED" name)) [
        | inl f ↦
            subst
              (λ n.
                send_signal registrations (signal_of_event n) event correlation_id rows
                ≡ process_event n event correlation_id rows)
              ((str_eq_iff "CCX_COURSE_PASSING_STATUS_UPDATED" name).0 f)
              (append_nil
                (process_event "CCX_COURSE_PASSING_STATUS_UPDATED" event correlation_id rows))
        | inr f ↦ absurd (cc (rw (e, f) at supported))
      ]
    ]

unsupported :
    (name : String)
    → is_supported name supported_events ≡ false
    → (str_eq "COURSE_PASSING_STATUS_UPDATED" name ≡ false)
      × (str_eq "CCX_COURSE_PASSING_STATUS_UPDATED" name ≡ false)
unsupported name h = ground arith

-- The signal of a supported event enqueues the tasks of that event, from whichever of the
-- registered receivers; no other signal of the same module enqueues a task.
pub send_signal-process_event :
    (name : String) (event : Event) (correlation_id : String) (rows : List Endpoint)
    → send_signal registrations (signal_of_event name) event correlation_id rows ≡ (
        if is_supported name supported_events
        then process_event name event correlation_id rows
        else [])
unfolding send_signal
send_signal-process_event name event correlation_id rows =
    elim (Bool-cases (is_supported name supported_events)) [
      | inl e ↦ rw e (registered name event correlation_id rows e)
      | inr e ↦
          let (first, second) = unsupported name e in
          rw
            (
              e,
              path_eq "openedx_events.learning.signals." "COURSE_PASSING_STATUS_UPDATED" name
                  ∙ first,
              path_eq "openedx_events.learning.signals." "CCX_COURSE_PASSING_STATUS_UPDATED" name
                  ∙ second,
            )
            refl
    ]

-- If no two rows have one key and the event's class is not named "event_metadata", then each task
-- that the signal of any event enqueues is a first attempt with the call's correlation id, its event
-- is one that the plugin supports and it is the signal's, its run finds an endpoint of the same table
-- that is enabled and listens to the event, and in its payload the alias "data" stands for the
-- event's data.
pub send_signal_sound :
    (name : String) (event : Event) (correlation_id : String) (rows : List Endpoint)
    (request : Request)
    → UniqueKeys rows
    → event.data_type ≢ "event_metadata"
    → Memᴰ request (send_signal registrations (signal_of_event name) event correlation_id rows)
    → (is_supported name supported_events ≡ true)
      × (request.event ≡ name)
      × ((row : Endpoint) × (if_enabled (find_row rows request.endpoint_id) ≡ some row)
          × (row.event ≡ request.event)
          × (request.retries ≡ 0)
          × (request.correlation_id ≡ correlation_id)
          × (event_data_key request.raw_payload ≡ some event.data_type)
          × (get request.raw_payload event.data_type ≡ some (obj event.fields))
          × (get request.raw_payload "event_metadata" ≡ some (obj event.metadata)))
send_signal_sound name event correlation_id rows request unique apart among =
    let tasks = send_signal-process_event name event correlation_id rows in
    elim (Bool-cases (is_supported name supported_events)) [
      | inr e ↦ elim (rw (tasks, e) at among) [ ]
      | inl e ↦
          let enqueued : Memᴰ request (process_event name event correlation_id rows) =
            rw (tasks, e) at among in
          (
            e,
            process_event-event name event correlation_id rows request enqueued,
            process_event_sound name event correlation_id rows request unique apart enqueued,
          )
    ]
