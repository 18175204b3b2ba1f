-- ===== src/Receivers.antt =====
-- receivers.py: an event becomes one delivery task for each endpoint that listens to it.
pub mod Passing
pub mod Enqueue
pub mod Dispatch
use openedx_webhook_relay.Base.{
  ℕ, String, Bool, ◌&&◌, List, [], ◌∷◌, filter, map, str_eq, if◌then◌else◌,
}
use openedx_webhook_relay.Json.{obj, Fields, end, field}
use openedx_webhook_relay.Json.Dict.{put}
use openedx_webhook_relay.Models.{Endpoint}
use openedx_webhook_relay.Tasks.{Request}

-- The data of an event: the name of its class, what `attrs.asdict` makes of it, and of the metadata.
pub record Event : Type 0 where
  pub data_type : String
  pub fields : Fields
  pub metadata : Fields

abbrev pub listens : String → Endpoint → Bool
listens event_name row = row.enabled && str_eq row.event event_name

unfoldable pub raw_payload_of : Event → Fields
raw_payload_of event =
    put (field event.data_type (obj event.fields) end) "event_metadata" (obj event.metadata)

-- A call of `deliver_webhook.delay`, as the first run sees it.
abbrev pub request_for : String → Event → String → Endpoint → Request
request_for event_name event correlation_id row = record {
  endpoint_id = row.pk;
  event = event_name;
  raw_payload = raw_payload_of event;
  correlation_id = correlation_id;
  retries = 0;
}

-- `correlation_id` is the text of a fresh UUID.
unfoldable pub process_event : String → Event → String → List Endpoint → List Request
process_event event_name event correlation_id rows =
    map (request_for event_name event correlation_id) (filter (listens event_name) rows)

-- The two receivers.
unfoldable pub course_passing_status_updated_receiver :
    Event → String → List Endpoint → List Request
unfolding process_event
course_passing_status_updated_receiver = process_event "COURSE_PASSING_STATUS_UPDATED"

unfoldable pub ccx_course_passing_status_updated_receiver :
    Event → String → List Endpoint → List Request
unfolding process_event
ccx_course_passing_status_updated_receiver = process_event "CCX_COURSE_PASSING_STATUS_UPDATED"
