-- ===== src/Receivers/Enqueue.antt =====
-- The tasks that an event enqueues, up to their first run.
use mathlib.Core.List.{Memᴰ}
use openedx_webhook_relay.Base.{
  String, ◌≡◌, ◌≢◌, refl, ap, sym, inl, inr, true, some, List, [], ◌∷◌, arith, ◌==◌, ==_iff, filter,
  map, length, length-map, str_eq, str_eq_iff, Bool-cases,
}
use openedx_webhook_relay.Base.Members.{Memᴰ-filter}
use openedx_webhook_relay.Json.{obj}
use openedx_webhook_relay.Json.Dict.{get, put}
use openedx_webhook_relay.Security.{event_data_key}
use openedx_webhook_relay.Models.{Endpoint, find_row}
use openedx_webhook_relay.Tasks.{Request}
use openedx_webhook_relay.Tasks.Deliver.{if_enabled}
use openedx_webhook_relay.Receivers.{Event, listens, raw_payload_of, request_for, process_event}

module _ {A B : Type 0} (g : A → B) where
  Memᴰ-map_to : (xs : List A) (x : A) → Memᴰ x xs → Memᴰ (g x) (map g xs)
  Memᴰ-map_to [] x among = elim among [ ]
  Memᴰ-map_to (y ∷ ys) x (Memᴰ.head p) = Memᴰ.head (ap g p)
  Memᴰ-map_to (y ∷ ys) x (Memᴰ.tail among) = Memᴰ.tail (Memᴰ-map_to ys x among)

  Memᴰ-map_from : (xs : List A) (b : B) → Memᴰ b (map g xs) → (x : A) × Memᴰ x xs × (b ≡ g x)
  Memᴰ-map_from [] b among = elim among [ ]
  Memᴰ-map_from (y ∷ ys) b (Memᴰ.head p) = (y, Memᴰ.head refl, p)
  Memᴰ-map_from (y ∷ ys) b (Memᴰ.tail among) =
      let (x, inside, e) = Memᴰ-map_from ys b among in (x, Memᴰ.tail inside, e)

-- No two rows have one key.
abbrev pub UniqueKeys : List Endpoint → Type 0
UniqueKeys rows = (r s : Endpoint) → Memᴰ r rows → Memᴰ s rows → r.pk ≡ s.pk → r ≡ s

found_in :
    (rows : List Endpoint) (row : Endpoint)
    → Memᴰ row rows
    → ((s : Endpoint) → Memᴰ s rows → s.pk ≡ row.pk → s ≡ row)
    → find_row rows row.pk ≡ some row
unfolding find_row
found_in [] row among only = elim among [ ]
found_in (first ∷ rest) row (Memᴰ.head p) only =
    rw ((==_iff first.pk row.pk).1 (ap (λ (r : Endpoint). r.pk) (sym p))) (ap some (sym p))
found_in (first ∷ rest) row (Memᴰ.tail among) only = elim (Bool-cases (first.pk == row.pk)) [
  | inl e ↦ rw e (ap some (only first (Memᴰ.head refl) ((==_iff first.pk row.pk).0 e)))
  | inr e ↦ rw e (found_in rest row among (λ s m. only s (Memᴰ.tail m)))
]

-- The payload's key that the alias "data" stands for is the class of the event's data.
event_data_key-raw :
    (event : Event)
    → event.data_type ≢ "event_metadata"
    → event_data_key (raw_payload_of event) ≡ some event.data_type
unfolding event_data_key raw_payload_of put
event_data_key-raw event apart = elim (Bool-cases (str_eq event.data_type "event_metadata")) [
  | inl e ↦ absurd (apart ((str_eq_iff event.data_type "event_metadata").0 e))
  | inr e ↦ rw (e, e)
]

raw_payload_lookups :
    (event : Event)
    → event.data_type ≢ "event_metadata"
    → (get (raw_payload_of event) event.data_type ≡ some (obj event.fields))
      × (get (raw_payload_of event) "event_metadata" ≡ some (obj event.metadata))
unfolding raw_payload_of get put
raw_payload_lookups event apart = elim (Bool-cases (str_eq event.data_type "event_metadata")) [
  | inl e ↦ absurd (apart ((str_eq_iff event.data_type "event_metadata").0 e))
  | inr e ↦ (ground (arith, e, str_eq_iff event.data_type event.data_type), rw (e, e) refl)
]

listens_lem :
    (event_name : String) (row : Endpoint)
    → listens event_name row ≡ true
    → (row.enabled ≡ true) × (row.event ≡ event_name)
listens_lem event_name row h = ground (arith, str_eq_iff row.event event_name)

module _ (event_name : String) (event : Event) (correlation_id : String)
    (rows : List Endpoint) where
  -- Each enabled endpoint that listens to an event gets a task, and there are as many tasks as such
  -- endpoints.
  pub process_event-reaches :
      (row : Endpoint)
      → Memᴰ row rows
      → row.enabled ≡ true
      → row.event ≡ event_name
      → Memᴰ
          (request_for event_name event correlation_id row)
          (process_event event_name event correlation_id rows)
        × (length (process_event event_name event correlation_id rows)
            ≡ length (filter (listens event_name) rows))
  unfolding process_event
  process_event-reaches row among enabled event_is =
      let hears : listens event_name row ≡ true =
        ground (arith, enabled, (str_eq_iff row.event event_name).1 event_is) in
      (
        Memᴰ-map_to (request_for event_name event correlation_id) _ row
            ((Memᴰ-filter (listens event_name) rows row).1 (among, hears)),
        length-map _ _,
      )

  pub process_event-event :
      (request : Request)
      → Memᴰ request (process_event event_name event correlation_id rows)
      → request.event ≡ event_name
  unfolding process_event
  process_event-event request among =
      let (row, inside, made) =
        Memᴰ-map_from (request_for event_name event correlation_id) _ request among in
      rw made refl

  -- If no two rows have one key and the event's class is not named "event_metadata", then each task
  -- of an event is a first attempt with the event's correlation id, its run finds an endpoint of the
  -- same table that is enabled and listens to the event, and in its payload the alias "data" stands
  -- for the event's data.
  pub process_event_sound :
      (request : Request)
      → UniqueKeys rows
      → event.data_type ≢ "event_metadata"
      → Memᴰ request (process_event event_name event correlation_id rows)
      → (row : Endpoint) × (if_enabled (find_row rows request.endpoint_id) ≡ some row)
        × (row.event ≡ request.event)
        × (request.retries ≡ 0)
        × (request.correlation_id ≡ correlation_id)
        × (event_data_key request.raw_payload ≡ some event.data_type)
        × (get request.raw_payload event.data_type ≡ some (obj event.fields))
        × (get request.raw_payload "event_metadata" ≡ some (obj event.metadata))
  unfolding process_event
  process_event_sound request unique apart among =
      let (row, inside, made) =
        Memᴰ-map_from (request_for event_name event correlation_id) _ request among in
      let (in_rows, hears) = (Memᴰ-filter (listens event_name) rows row).0 inside in
      let (enabled, event_is) = listens_lem event_name row hears in
      let found = found_in rows row in_rows (λ s m e. unique s row m in_rows e) in
      let (at_type, at_metadata) = raw_payload_lookups event apart in
      (
        row,
        rw (made, found, enabled) refl,
        rw made event_is,
        rw made refl,
        rw made refl,
        rw made (event_data_key-raw event apart),
        rw made at_type,
        rw made at_metadata,
      )
