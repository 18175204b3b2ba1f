-- ===== src/Admin/Saved.antt =====
-- An endpoint's secrets after it was saved in the admin.
use openedx_webhook_relay.Base.{◌≡◌, refl, Bool, true, false, some, str_eq}
use openedx_webhook_relay.Settings.{Settings}
use openedx_webhook_relay.Models.{Endpoint}
use openedx_webhook_relay.Secrets.{Client, database, get_secret_backend, set_secret}
use openedx_webhook_relay.Rotation.Secret.Window.{rotated}
use openedx_webhook_relay.Admin.{Form, clean_form, save_model}

-- The instance that the form fills in: `ModelForm` writes the cleaned secret into it.
abbrev pub filled : Form → Endpoint → Endpoint
filled form row = record row { signing_secret = (clean_form (some row) form).signing_secret }

module _ (client : Client) (settings : Settings) (boto3_installed : Bool) (store : client.Store)
    (form : Form) (row : Endpoint)
    (in_database : get_secret_backend settings boto3_installed ≡ some database)
    (keeps_secret : form.clear_signing_secret ≡ false)
    (keeps_previous : form.clear_previous_signing_secret ≡ false) where
  -- If secrets are kept in the database, and neither box to clear one is ticked, then a form without
  -- a new secret saves the endpoint with the secrets that it has.
  pub save_model-keeps :
      str_eq form.signing_secret "" ≡ true
      → save_model client settings boto3_installed form
          (clean_form (some row) form)
          (filled form row)
          store
        ≡ some (row, store)
  unfolding save_model set_secret clean_form
  save_model-keeps empty = rw (in_database, keeps_secret, keeps_previous, empty) refl

  -- If secrets are kept in the database, neither box to clear one is ticked, the box to keep the
  -- old secret is, and the endpoint has a secret, then a form with a new secret saves the endpoint
  -- that the rotation command would save.
  pub save_model-rotates :
      str_eq form.signing_secret "" ≡ false
      → form.rotate_keeping_previous ≡ true
      → str_eq row.signing_secret "" ≡ false
      → save_model client settings boto3_installed form
          (clean_form (some row) form)
          (filled form row)
          store
        ≡ some (rotated form.signing_secret row, store)
  unfolding save_model set_secret clean_form
  save_model-rotates new keep old =
      rw (in_database, keeps_secret, keeps_previous, new, keep, old) refl
