-- ===== src/System/Steps.antt =====
-- The plugin as a whole: what its workers, its scheduler and its admins do, one whole operation at a
-- time, in any order. A time of each operation, and a reply of each run, is any.
use openedx_webhook_relay.Base.{
  filter, not, is_some, if◌then◌else◌, ◌==◌, ℕ, ◌≡◌, Bool, Option, some, String, List, [], ◌∷◌,
  ◌++◌,
}
use openedx_webhook_relay.Json.{Fields, Value, obj}
use openedx_webhook_relay.Security.Signing.{Digests}
use openedx_webhook_relay.Settings.{Settings}
use openedx_webhook_relay.Models.{Endpoint, Attempt, closed, find_row, update_rows, every_row}
use openedx_webhook_relay.Secrets.{Client}
use openedx_webhook_relay.Retention.{purge_old_delivery_attempts_task}
use openedx_webhook_relay.Receivers.{Event, process_event}
use openedx_webhook_relay.Redeliver.{Enqueued, Options, requeued, handle}
use openedx_webhook_relay.Admin.{Form, Cleaned, requeue_selected, save_model}
use openedx_webhook_relay.Rotation.Secret
use openedx_webhook_relay.Rotation.Secret.{changed, rotate_signing_secret}
use openedx_webhook_relay.Tasks.{Request, World, Moment, Ending, done, retry, raised}
use openedx_webhook_relay.Tasks.Deliver.{deliver_webhook}
use openedx_webhook_relay.Tasks.Retries.{next_request, with_payload}

-- The tables and what has been sent, the tasks in Celery's queue, and the endpoints that admins have
-- loaded to edit.
pub record Platform : Type 0 where
  pub world : World
  pub queue : List Request
  pub loaded : List Endpoint

-- What a run leaves in the queue for its task: a retry has one more, and carries on a payload from
-- which the filters may have deleted.
abbrev pub after_ending : Ending → Request → Fields → List Request
after_ending (retry n) request carried = with_payload carried (next_request request) ∷ []
after_ending done request carried = []
after_ending raised request carried = []

-- The requests of the calls of `deliver_webhook.delay` with a dictionary. A payload file with
-- another value is left out.
abbrev pub first_request : Enqueued → Fields → Request
first_request task payload = record {
  endpoint_id = task.endpoint_id;
  event = task.event;
  raw_payload = payload;
  correlation_id = task.correlation_id;
  retries = 0;
}

abbrev pub add_request : Value → Enqueued → List Request → List Request
add_request (obj payload) task rest = first_request task payload ∷ rest
add_request _ task rest = rest

abbrev pub requests : List Enqueued → List Request
requests [] = []
requests (task ∷ tasks) = add_request task.payload task (requests tasks)

-- The form's own fields are not the circuit's, which the admin only shows.
pub record IsEdited (row edited : Endpoint) : Type 0 where
  pub same_key : edited.pk ≡ row.pk
  pub same_circuit : edited.circuit_state ≡ row.circuit_state
  pub same_opening : edited.circuit_opened_at ≡ row.circuit_opened_at

-- `save()` of an instance: an UPDATE of its row, or an INSERT if there is no such row any more.
unfoldable pub save_row : Endpoint → List Endpoint → List Endpoint
save_row saved rows =
    if is_some (find_row rows saved.pk)
    then update_rows saved.pk every_row (λ r. saved) rows
    else rows ++ saved ∷ []

module _ (d : Digests) (client : Client) (boto3_installed : Bool) (settings : Settings) where
  pub data Step (p q : Platform) : Type 0 where
    event_received :
        (event_name : String) (event : Event) (correlation_id : String)
        → q ≡ record p {
          queue = p.queue ++ process_event event_name event correlation_id p.world.endpoints;
        }
        → Step p q
    task_run :
        (store : client.Store) (m : Moment) (before after : List Request) (request : Request)
        (carried : Fields)
        → p.queue ≡ before ++ request ∷ after
        → q ≡ record p {
          world = (deliver_webhook d client store boto3_installed settings m request p.world).1;
          queue =
              before
              ++ (after
                  ++ after_ending
                      (deliver_webhook d client store boto3_installed settings m request p.world).0
                      request
                      carried);
        }
        → Step p q
    purged :
        (now : ℕ)
        → q ≡ record p {
          world = record p.world {
            attempts = (purge_old_delivery_attempts_task settings now p.world.attempts).1;
          };
        }
        → Step p q
    requeued_by_admin :
        (queryset : List Attempt)
        → q ≡ record p { queue = p.queue ++ requests (requeue_selected queryset).tasks }
        → Step p q
    redelivered :
        (options : Options) (tasks : List Enqueued)
        → handle options p.world.attempts ≡ requeued tasks
        → q ≡ record p { queue = p.queue ++ requests tasks }
        → Step p q
    created :
        (row : Endpoint)
        → row.circuit_state ≡ closed
        → row.circuit_opened_at ≡ Option.none
        → q ≡ record p { world = record p.world { endpoints = p.world.endpoints ++ row ∷ [] } }
        → Step p q
    edit_begun :
        (pk : ℕ) (row : Endpoint)
        → find_row p.world.endpoints pk ≡ some row
        → q ≡ record p { loaded = row ∷ p.loaded }
        → Step p q
    edit_saved :
        (before after : List Endpoint) (row edited saved : Endpoint) (form : Form)
        (cleaned : Cleaned) (store store' : client.Store)
        → p.loaded ≡ before ++ row ∷ after
        → IsEdited row edited
        → save_model client settings boto3_installed form cleaned edited store
          ≡ some (saved, store')
        → q ≡ record p {
          world = record p.world { endpoints = save_row saved p.world.endpoints };
          loaded = before ++ after;
        }
        → Step p q
    secret_rotated :
        (options : Secret.Options) (rows : List Endpoint) (store store' : client.Store)
        → rotate_signing_secret client settings boto3_installed options p.world.endpoints store
          ≡ changed rows store'
        → q ≡ record p { world = record p.world { endpoints = rows } }
        → Step p q
    endpoint_deleted :
        (pk : ℕ)
        → q ≡ record p {
          world = record p.world {
            endpoints = filter (λ (row : Endpoint). not (row.pk == pk)) p.world.endpoints;
            attempts = filter (λ (row : Attempt). not (row.endpoint_id == pk)) p.world.attempts;
          };
        }
        → Step p q

  -- The platforms that `p` can become.
  pub data Reach (p : Platform) : Platform → Type 0 where
    here : Reach p p
    next : {q r : Platform} → Reach p q → Step q r → Reach p r
