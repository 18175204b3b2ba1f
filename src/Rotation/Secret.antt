-- ===== src/Rotation/Secret.antt =====
-- management/commands/rotate_signing_secret.py.
pub mod Window
use openedx_webhook_relay.Base.{
  ℕ, String, Bool, true, false, not, ◌&&◌, Option, none, some, List, str_eq, strip, is_some,
  if◌then◌else◌,
}
use openedx_webhook_relay.Settings.{Settings}
use openedx_webhook_relay.Models.{Endpoint, find_row, update_rows, every_row}
use openedx_webhook_relay.Secrets.{
  Client, Backend, database, aws_secrets_manager, get_secret_backend, get_secret, set_secret,
}
use openedx_webhook_relay.Rotation.{File, readable, unreadable}

-- The command's options; `new_secret_file` is `none` where it is not given or empty.
pub record Options : Type 0 where
  pub endpoint_id : ℕ
  pub new_secret_file : Option File
  pub clear_previous : Bool
  pub no_keep_previous : Bool

-- How the command stops before it saves: CommandError in its five forms, OSError, or, as
-- `misconfigured`, ImproperlyConfigured or an exception of the AWS client.
pub data SecretError : Type 0 where
  no_endpoint no_option misconfigured could_not_read is_empty keep_unsupported : SecretError

-- `Left` is what a step leaves: an error, or the endpoint in memory with the external store.
module _ (client : Client) (settings : Settings) where
  pub data Left : Type 0 where
    stopped : SecretError → Left
    left : Endpoint → client.Store → Left

  abbrev pub is_database : Backend → Bool
  is_database database = true
  is_database aws_secrets_manager = false

  -- The old secret becomes the previous one, where there is one.
  abbrev pub remember : Option String → Endpoint → Endpoint
  remember none endpoint = endpoint
  remember (some old_secret) endpoint =
      if str_eq old_secret ""
      then endpoint
      else record endpoint { signing_secret_previous = old_secret }

  abbrev or_stopped : Option (Endpoint × client.Store) → Left
  or_stopped none = stopped misconfigured
  or_stopped (some (endpoint, store)) = left endpoint store

  unfoldable pub put_new_secret : Backend → Bool → String → Endpoint → client.Store → Left
  put_new_secret backend keep_previous new_secret endpoint store =
      if str_eq new_secret ""
      then stopped is_empty
      else if keep_previous && not (is_database backend)
      then stopped keep_unsupported
      else or_stopped (
          set_secret client settings backend store
            (if keep_previous
              then remember (get_secret client settings backend store endpoint) endpoint
              else endpoint)
            new_secret)

  unfoldable pub with_file : Option File → Backend → Bool → Endpoint → client.Store → Left
  unfolding put_new_secret
  with_file none backend keep_previous endpoint store = left endpoint store
  with_file (some unreadable) backend keep_previous endpoint store = stopped could_not_read
  with_file (some (readable text)) backend keep_previous endpoint store =
      put_new_secret backend keep_previous (strip text) endpoint store

  abbrev pub cleared : Bool → Endpoint → Endpoint
  cleared clear_previous endpoint =
      if clear_previous then record endpoint { signing_secret_previous = "" } else endpoint

  -- The table and the store after the command, or the error, with what it left of the store: none
  -- of the errors comes after a write.
  pub data Done : Type 0 where
    refused : SecretError → Done
    changed : List Endpoint → client.Store → Done

  -- `endpoint.save()` writes every column of the instance.
  abbrev save : Bool → List Endpoint → Left → Done
  save clear_previous rows (stopped e) = refused e
  save clear_previous rows (left endpoint store) =
      changed (update_rows endpoint.pk every_row (λ row. cleared clear_previous endpoint) rows)
        store

  abbrev with_backend : Options → Option Backend → Endpoint → List Endpoint → client.Store → Done
  with_backend options none endpoint rows store = refused misconfigured
  with_backend options (some backend) endpoint rows store =
      save options.clear_previous rows
        (with_file options.new_secret_file backend (not options.no_keep_previous) endpoint store)

  abbrev with_endpoint : Bool → Options → Option Endpoint → List Endpoint → client.Store → Done
  with_endpoint boto3_installed options none rows store = refused no_endpoint
  with_endpoint boto3_installed options (some endpoint) rows store =
      if not (is_some options.new_secret_file) && not options.clear_previous
      then refused no_option
      else with_backend options (get_secret_backend settings boto3_installed) endpoint rows store

  unfoldable pub rotate_signing_secret : Bool → Options → List Endpoint → client.Store → Done
  unfolding with_file
  rotate_signing_secret boto3_installed options rows store =
      with_endpoint boto3_installed options (find_row rows options.endpoint_id) rows store
