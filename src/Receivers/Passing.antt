-- ===== src/Receivers/Passing.antt =====
-- An endpoint that wants passing events only, with and without a filter on the field `is_passing`.
use openedx_webhook_relay.Base.{
  String, ◌≡◌, ◌≢◌, ap, ◌∙◌, inl, inr, Bool, true, false, Option, none, some, [], ◌∷◌, arith,
  str_eq, str_eq_iff, strip_prefix, split_dots, if◌then◌else◌, Bool-cases,
}
use openedx_webhook_relay.Json.{Value, obj, Fields, end, field, is_none, truthy}
use openedx_webhook_relay.Json.Dict.{get, put, pop, get-pop}
use openedx_webhook_relay.Security.{event_data_key}
use openedx_webhook_relay.Security.Nested.{delete_nested_path, delete_path}
use openedx_webhook_relay.Security.Allowlist.{apply_allowlist}
use openedx_webhook_relay.Security.Denylist.{drop_nested, drop_path, drop_paths, apply_denylist}
use openedx_webhook_relay.Security.Passing.{first_status, should_send_passing_event}
use openedx_webhook_relay.Models.{Endpoint}
use openedx_webhook_relay.Tasks.Shape.{as_paths, shape_and_check}
use openedx_webhook_relay.Tasks.Privacy.{shape_and_check_lem}
use openedx_webhook_relay.Receivers.{Event, raw_payload_of}

-- The verdict on a status: an event without one is sent.
abbrev pub verdict : Option Value → Bool
verdict none = true
verdict (some v) = if is_none v then true else truthy v

raw_payload_lem :
    (event : Event)
    → event.data_type ≢ "event_metadata"
    → raw_payload_of event
      ≡ field event.data_type (obj event.fields) (field "event_metadata" (obj event.metadata) end)
unfolding raw_payload_of put
raw_payload_lem event apart = elim (Bool-cases (str_eq event.data_type "event_metadata")) [
  | inl e ↦ absurd (apart ((str_eq_iff event.data_type "event_metadata").0 e))
  | inr e ↦ rw e
]

-- The first of two entries decides, where the second has no status.
first_status-two :
    (key : String) (fields metadata : Fields)
    → get metadata "is_passing" ≡ none
    → first_status (field key (obj fields) (field "event_metadata" (obj metadata) end))
      ≡ verdict (get fields "is_passing")
unfolding first_status
first_status-two key fields metadata bare = ground (arith, bare)

-- The payload without the field.
abbrev pub without_status : Event → Fields
without_status event =
    field event.data_type (obj (pop event.fields "is_passing"))
      (field "event_metadata" (obj event.metadata) end)

denied_status :
    (event : Event)
    → event.data_type ≢ "event_metadata"
    → str_eq event.data_type "" ≡ false
    → apply_denylist
        (field event.data_type (obj event.fields) (field "event_metadata" (obj event.metadata) end))
        ("data.is_passing" ∷ [])
      ≡ without_status event
unfolding apply_denylist drop_paths drop_path drop_nested strip_prefix event_data_key
    delete_nested_path delete_path split_dots get put
denied_status event apart named = elim (Bool-cases (str_eq event.data_type "event_metadata")) [
  | inl e ↦ absurd (apart ((str_eq_iff event.data_type "event_metadata").0 e))
  | inr e ↦ ground (arith, e, named, str_eq_iff event.data_type event.data_type)
]

-- If an endpoint that wants passing events only has an empty allowlist and the denylist
-- "data.is_passing", then every event whose class has a name, other than "event_metadata", and
-- whose metadata has no status of its own, is sent without its status, a failing one as well: the
-- status is looked up after the denylist.
pub denied_status_always_sent :
    (event : Event) (endpoint : Endpoint)
    → event.data_type ≢ "event_metadata"
    → str_eq event.data_type "" ≡ false
    → get event.metadata "is_passing" ≡ none
    → endpoint.only_on_passing ≡ true
    → as_paths endpoint.pii_allowlist ≡ some []
    → as_paths endpoint.pii_denylist ≡ some ("data.is_passing" ∷ [])
    → shape_and_check (raw_payload_of event) endpoint ≡ some (without_status event, true)
unfolding should_send_passing_event apply_allowlist
denied_status_always_sent event endpoint apart named bare only allow deny =
    let shaped =
      ap (λ p. apply_denylist p ("data.is_passing" ∷ [])) (raw_payload_lem event apart)
      ∙ denied_status event apart named in
    let gone : get (pop event.fields "is_passing") "is_passing" ≡ none =
      get-pop event.fields "is_passing" "is_passing" in
    shape_and_check_lem (raw_payload_of event) endpoint [] ("data.is_passing" ∷ []) allow deny
    ∙ rw (only, shaped)
        (ap (λ b. some (without_status event, b))
          (first_status-two event.data_type (pop event.fields "is_passing") event.metadata bare
            ∙ ap verdict gone))
