-- ===== src/Admin.antt =====
-- admin.py: saving an endpoint with its secrets, and the action that requeues exhausted attempts.
pub mod Requeued
pub mod Saved
pub mod Display
use openedx_webhook_relay.Base.{
  ℕ, suc, String, Bool, true, false, not, ◌&&◌, Option, none, some, List, [], ◌∷◌, filter, str_eq,
  is_some, get_or, if◌then◌else◌,
}
use openedx_webhook_relay.Json.{obj, Fields}
use openedx_webhook_relay.Settings.{Settings}
use openedx_webhook_relay.Models.{Endpoint, Attempt, exhausted, same_status}
use openedx_webhook_relay.Secrets.{
  Client, Backend, database, aws_secrets_manager, get_secret_backend, set_secret,
}
use openedx_webhook_relay.Redeliver.{Enqueued}

-- The fields of the form that its own code reads.
pub record Form : Type 0 where
  pub signing_secret : String
  pub clear_signing_secret : Bool
  pub rotate_keeping_previous : Bool
  pub clear_previous_signing_secret : Bool

-- What `clean` of the form leaves: the cleaned secret, and the two attributes for `save_model`.
pub record Cleaned : Type 0 where
  pub signing_secret : String
  pub new_secret_provided : Bool
  pub old_secret_before_edit : String

-- `instance` is the row in edit, or none for a new one.
unfoldable pub clean_form : Option Endpoint → Form → Cleaned
clean_form instance form =
    let old = get_or (elim instance [ none ↦ none | some row ↦ some row.signing_secret ]) "" in
    record {
      signing_secret =
          if form.clear_signing_secret
          then ""
          else if str_eq form.signing_secret ""
          then old
          else form.signing_secret;
      new_secret_provided = not (str_eq form.signing_secret "");
      old_secret_before_edit = old;
    }

abbrev is_database : Backend → Bool
is_database database = true
is_database aws_secrets_manager = false

-- The action's tasks, the count of attempts requeued, and of those skipped for want of a snapshot.
pub record Requeue : Type 0 where
  pub tasks : List Enqueued
  pub requeued : ℕ
  pub skipped_no_snapshot : ℕ

abbrev pub requeue_one : Option Fields → Attempt → Requeue → Requeue
requeue_one none row rest = record rest { skipped_no_snapshot = suc rest.skipped_no_snapshot }
requeue_one (some snapshot) row rest = record {
  tasks =
      (record {
        endpoint_id = row.endpoint_id;
        event = row.event;
        payload = obj snapshot;
        correlation_id = row.correlation_id;
      })
      ∷ rest.tasks;
  requeued = suc rest.requeued;
  skipped_no_snapshot = rest.skipped_no_snapshot;
}

-- The loop over the exhausted attempts.
unfoldable pub requeue_all : List Attempt → Requeue
requeue_all [] = record { tasks = []; requeued = 0; skipped_no_snapshot = 0 }
requeue_all (row ∷ rows) = requeue_one row.payload_snapshot row (requeue_all rows)

abbrev pub is_exhausted : Attempt → Bool
is_exhausted row = same_status row.status exhausted

unfoldable pub requeue_selected : List Attempt → Requeue
unfolding requeue_all
requeue_selected queryset = requeue_all (filter is_exhausted queryset)

-- `save_model` up to `super().save_model`, on the instance `edited` that the form has filled in: the
-- instance to save and the external store; `none`: it raises.
module _ (client : Client) (settings : Settings) where
  abbrev set_or_keep :
      Backend → Form → Cleaned → Endpoint → client.Store → Option (Endpoint × client.Store)
  set_or_keep backend form cleaned edited store =
      if cleaned.new_secret_provided
      then set_secret client settings backend store
          (if form.rotate_keeping_previous
              && (not (str_eq cleaned.old_secret_before_edit "") && is_database backend)
            then record edited { signing_secret_previous = cleaned.old_secret_before_edit }
            else edited)
          cleaned.signing_secret
      else if form.clear_signing_secret
      then set_secret client settings backend store edited ""
      else some (edited, store)

  abbrev after_set : Bool → Option (Endpoint × client.Store) → Option (Endpoint × client.Store)
  after_set clear_previous none = none
  after_set clear_previous (some (edited, store)) =
      some
        (if clear_previous then record edited { signing_secret_previous = "" } else edited, store)

  abbrev with_backend :
      Option Backend → Form → Cleaned → Endpoint → client.Store → Option (Endpoint × client.Store)
  with_backend none form cleaned edited store = none
  with_backend (some backend) form cleaned edited store =
      after_set form.clear_previous_signing_secret (set_or_keep backend form cleaned edited store)

  unfoldable pub save_model :
      Bool → Form → Cleaned → Endpoint → client.Store → Option (Endpoint × client.Store)
  save_model boto3_installed form cleaned edited store =
      with_backend (get_secret_backend settings boto3_installed) form cleaned edited store
