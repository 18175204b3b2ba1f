-- ===== src/Secrets.antt =====
-- secrets_backend.py: where an endpoint's signing secret is kept. The AWS client is a parameter.
pub mod Documented
pub mod Stored
use openedx_webhook_relay.Base.{
  String, Bool, Option, none, some, str_eq, concat, get_or, if◌then◌else◌,
}
use openedx_webhook_relay.Settings.{Settings}
use openedx_webhook_relay.Models.{Endpoint}

-- How a call of boto3's client ends: it returns, or it raises ResourceNotFoundException or another
-- exception, such as InvalidRequestException for a secret that is scheduled for deletion.
pub data Answer (A : Type 0) : Type 0 where
  returned : A → Answer A
  not_found failed : Answer A

-- boto3's Secrets Manager client, over the state of the external store.
pub record Client : Type 1 where
  pub Store : Type 0
  pub get_secret_value : Store → String → Answer String
  pub put_secret_value : Store → String → String → Answer Store
  pub create_secret : Store → String → String → Answer Store
  pub delete_secret : Store → String → Answer Store

-- The classes DatabaseSecretBackend and AWSSecretsManagerBackend.
pub data Backend : Type 0 where
  database aws_secrets_manager : Backend

-- `none` is ImproperlyConfigured: an unknown name, or boto3 missing.
unfoldable pub get_secret_backend : Settings → Bool → Option Backend
get_secret_backend settings boto3_installed =
    let backend_name = get_or settings.secret_backend "database" in
    if str_eq backend_name "database"
    then some database
    else if str_eq backend_name "aws_secrets_manager"
    then (if boto3_installed then some aws_secrets_manager else none)
    else none

-- `none` is ImproperlyConfigured.
unfoldable pub secret_name : Settings → Endpoint → Option String
secret_name settings endpoint =
    let prefix = get_or settings.aws_secret_name_prefix "openedx-webhook-relay" in
    if str_eq endpoint.secret_backend_reference ""
    then none
    else some (concat (concat prefix "/") endpoint.secret_backend_reference)

module _ (client : Client) (settings : Settings) where
  abbrev value_or_empty : Answer String → Option String
  value_or_empty (returned value) = some value
  value_or_empty not_found = some ""
  value_or_empty failed = none

  abbrev named_value : Option String → client.Store → Option String
  named_value none store = none
  named_value (some name) store = value_or_empty (client.get_secret_value store name)

  -- `backend.get_secret(endpoint)`, for both classes; `none`: it raises.
  unfoldable pub get_secret : Backend → client.Store → Endpoint → Option String
  get_secret database store endpoint = some endpoint.signing_secret
  get_secret aws_secrets_manager store endpoint =
      if str_eq endpoint.secret_backend_reference ""
      then some ""
      else named_value (secret_name settings endpoint) store

  abbrev stored : Endpoint → Answer client.Store → Option (Endpoint × client.Store)
  stored endpoint (returned store) = some (endpoint, store)
  stored endpoint _ = none

  abbrev after_delete :
      Endpoint → client.Store → Answer client.Store → Option (Endpoint × client.Store)
  after_delete endpoint store not_found = some (endpoint, store)
  after_delete endpoint store answer = stored endpoint answer

  abbrev after_put :
      Endpoint → Answer client.Store → Answer client.Store → Option (Endpoint × client.Store)
  after_put endpoint not_found created = stored endpoint created
  after_put endpoint answer created = stored endpoint answer

  -- `backend.set_secret(endpoint, plaintext)`: the endpoint in memory and the external store after
  -- it; `none`: it raises.
  abbrev write_named :
      Option String → client.Store → Endpoint → String → Option (Endpoint × client.Store)
  write_named none store endpoint plaintext = none
  write_named (some name) store endpoint plaintext =
      if str_eq plaintext ""
      then after_delete endpoint store (client.delete_secret store name)
      else after_put endpoint (client.put_secret_value store name plaintext)
          (client.create_secret store name plaintext)

  unfoldable pub set_secret :
      Backend → client.Store → Endpoint → String → Option (Endpoint × client.Store)
  set_secret database store endpoint plaintext =
      some (record endpoint { signing_secret = plaintext }, store)
  set_secret aws_secrets_manager store endpoint plaintext =
      write_named (secret_name settings endpoint) store endpoint plaintext

  -- `WebhookEndpoint.effective_secret`; `none` where the backend cannot be had or raises.
  abbrev or_default : Option String → Option String
  or_default none = none
  or_default (some secret) =
      some (if str_eq secret "" then get_or settings.default_secret "" else secret)

  abbrev read_with : Option Backend → client.Store → Endpoint → Option String
  read_with none store self = none
  read_with (some backend) store self = get_secret backend store self

  unfoldable pub effective_secret : Bool → client.Store → Endpoint → Option String
  unfolding get_secret
  effective_secret boto3_installed store self =
      or_default (read_with (get_secret_backend settings boto3_installed) store self)

-- `WebhookEndpoint.effective_previous_secret`.
abbrev pub effective_previous_secret : Endpoint → String
effective_previous_secret self = self.signing_secret_previous
