-- ===== src/Redeliver.antt =====
-- management/commands/redeliver_failed_webhooks.py: the exhausted attempts are listed, or their
-- deliveries are enqueued again.
pub mod Requeue
use openedx_webhook_relay.Base.{
  ℕ, String, Bool, true, false, not, ◌&&◌, ◌||◌, Option, none, some, List, [], ◌∷◌, filter, map,
  length, leb, ◌==◌, str_eq, get_or, is_some, if◌then◌else◌,
}
use openedx_webhook_relay.Json.{Value, null, obj, Fields}
use openedx_webhook_relay.Models.{Attempt, exhausted, same_status}

-- The arguments of a call of `deliver_webhook.delay`.
pub record Enqueued : Type 0 where
  pub endpoint_id : ℕ
  pub event : String
  pub payload : Value
  pub correlation_id : String

-- The options; a JSON file of which only the value matters stands for the payload file.
pub record Options : Type 0 where
  pub correlation_id : Option String
  pub endpoint_id : Option ℕ
  pub requeue : Bool
  pub payload_file : Option Value

-- What the command does: it finds nothing, it lists, it stops with a CommandError that counts the
-- attempts without a payload, or it enqueues.
pub data Outcome : Type 0 where
  no_match : Outcome
  listed : List Attempt → Outcome
  missing_payload : ℕ → Outcome
  requeued : List Enqueued → Outcome

abbrev pub correlation_passes : Option String → Attempt → Bool
correlation_passes none row = true
correlation_passes (some id) row = if str_eq id "" then true else str_eq row.correlation_id id

abbrev pub endpoint_passes : Option ℕ → Attempt → Bool
endpoint_passes none row = true
endpoint_passes (some id) row = if id == 0 then true else row.endpoint_id == id

unfoldable pub matches : Options → Attempt → Bool
matches options row =
    same_status row.status exhausted
    && (correlation_passes options.correlation_id row && endpoint_passes options.endpoint_id row)

-- `order_by("-created")`.
unfoldable pub insert_newest : Attempt → List Attempt → List Attempt
insert_newest row [] = row ∷ []
insert_newest row (other ∷ rest) =
    let after = insert_newest row rest in
    if leb other.created row.created then row ∷ other ∷ rest else other ∷ after

unfoldable pub newest_first : List Attempt → List Attempt
unfolding insert_newest
newest_first [] = []
newest_first (row ∷ rows) = insert_newest row (newest_first rows)

-- A file that holds `null` gives no payload.
abbrev pub explicit_payload : Option Value → Option Value
explicit_payload none = none
explicit_payload (some null) = none
explicit_payload (some v) = some v

abbrev snapshot_value : Option Fields → Option Value
snapshot_value none = none
snapshot_value (some m) = some (obj m)

abbrev pub payload_for : Option Value → Attempt → Option Value
payload_for none row = snapshot_value row.payload_snapshot
payload_for (some v) row = some v

abbrev pub lacks_payload : Option Value → Attempt → Bool
lacks_payload explicit row = not (is_some (payload_for explicit row))

abbrev pub task_of : Option Value → Attempt → Enqueued
task_of explicit row = record {
  endpoint_id = row.endpoint_id;
  event = row.event;
  payload = get_or (payload_for explicit row) null;
  correlation_id = row.correlation_id;
}

abbrev pub requeue : Option Value → List Attempt → Outcome
requeue explicit attempts =
    let missing = length (filter (lacks_payload explicit) attempts) in
    if missing == 0 then requeued (map (task_of explicit) attempts) else missing_payload missing

unfoldable pub handle : Options → List Attempt → Outcome
unfolding matches newest_first
handle options rows =
    let qs = newest_first (filter (matches options) rows) in
    if length qs == 0
    then no_match
    else if not options.requeue
    then listed qs
    else requeue (explicit_payload options.payload_file) qs
