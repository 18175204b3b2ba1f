-- ===== src/Rotation/Secret/Window.antt =====
-- After rotate_signing_secret, deliveries carry a signature for the new secret and one for the old.
use openedx_webhook_relay.Base.{
  ℕ, String, ◌≡◌, Bool, true, false, some, List, str_eq, strip, concat,
}
use openedx_webhook_relay.Json.{Fields}
use openedx_webhook_relay.Security.Signing.{Digests, is_ascii}
use openedx_webhook_relay.Settings.{Settings}
use openedx_webhook_relay.Models.{Endpoint, find_row, update_rows, every_row}
use openedx_webhook_relay.Models.Rows.{find_row-save}
use openedx_webhook_relay.Secrets.{
  Client, database, get_secret_backend, get_secret, set_secret, effective_secret,
}
use openedx_webhook_relay.Tasks.{Request}
use openedx_webhook_relay.Tasks.Deliver.{headers_of}
use openedx_webhook_relay.Tasks.Signed.{
  Accepts, header_name, headers_of-verify, headers_of-verify_previous,
}
use openedx_webhook_relay.Rotation.{readable}
use openedx_webhook_relay.Rotation.Secret.{
  Options, changed, with_file, put_new_secret, rotate_signing_secret,
}

abbrev pub rotated : String → Endpoint → Endpoint
rotated new_secret endpoint = record endpoint {
  signing_secret = new_secret;
  signing_secret_previous = endpoint.signing_secret;
}

-- `--endpoint-id` and `--new-secret-file` alone.
abbrev pub new_secret_options : ℕ → String → Options
new_secret_options endpoint_id text = record {
  endpoint_id = endpoint_id;
  new_secret_file = some (readable text);
  clear_previous = false;
  no_keep_previous = false;
}

module _ (client : Client) (settings : Settings) (boto3_installed : Bool) (store : client.Store)
    (in_database : get_secret_backend settings boto3_installed ≡ some database) where
  -- With the database backend the secret is the endpoint's, if it has one.
  effective_secret-database :
      (endpoint : Endpoint)
      → str_eq endpoint.signing_secret "" ≡ false
      → effective_secret client settings boto3_installed store endpoint
        ≡ some endpoint.signing_secret
  unfolding effective_secret get_secret
  effective_secret-database endpoint nonempty = rw (in_database, nonempty)

  rotate_signing_secret-keeps :
      (rows : List Endpoint) (endpoint : Endpoint) (text : String)
      → find_row rows endpoint.pk ≡ some endpoint
      → str_eq endpoint.signing_secret "" ≡ false
      → str_eq (strip text) "" ≡ false
      → rotate_signing_secret client settings boto3_installed
          (new_secret_options endpoint.pk text)
          rows
          store
        ≡ changed
            (update_rows endpoint.pk every_row (λ row. rotated (strip text) endpoint) rows)
            store
  unfolding rotate_signing_secret with_file put_new_secret set_secret get_secret
  rotate_signing_secret-keeps rows endpoint text found old new = rw (found, in_database, new, old)

  -- If secrets are kept in the database, the endpoint has one, and the command is run with no
  -- option but the endpoint and a file whose stripped text is not empty, then the row that it
  -- leaves has the new secret and, as its previous one, the old secret; and any headers that a
  -- delivery to this row makes are accepted, by the one header or the other, by a receiver that
  -- holds the new secret and by one that holds the old, if the HMAC's hexadecimal texts are ASCII.
  pub rotate_signing_secret-window :
      (d : Digests) (rows : List Endpoint) (endpoint : Endpoint) (text : String) (request : Request)
      (body : List ℕ) (headers : Fields)
      → find_row rows endpoint.pk ≡ some endpoint
      → str_eq endpoint.signing_secret "" ≡ false
      → str_eq (strip text) "" ≡ false
      → headers_of d settings request
          (rotated (strip text) endpoint)
          body
          (effective_secret client settings boto3_installed store (rotated (strip text) endpoint))
        ≡ some headers
      → is_ascii (d.hmac_sha256 (strip text) body) ≡ true
      → is_ascii (d.hmac_sha256 endpoint.signing_secret body) ≡ true
      → (after : List Endpoint) × (rotate_signing_secret client settings boto3_installed
            (new_secret_options endpoint.pk text)
            rows
            store
          ≡ changed after store)
        × (find_row after endpoint.pk ≡ some (rotated (strip text) endpoint))
        × Accepts d body headers (header_name settings) (strip text)
        × Accepts d body headers (concat (header_name settings) "-Previous") endpoint.signing_secret
  rotate_signing_secret-window d rows endpoint text request body headers found old new made hex_new
        hex_old =
      let after = update_rows endpoint.pk every_row (λ row. rotated (strip text) endpoint) rows in
      let made' = rw (effective_secret-database (rotated (strip text) endpoint) new) at made in
      (
        after,
        rotate_signing_secret-keeps rows endpoint text found old new,
        find_row-save rows endpoint (rotated (strip text) endpoint) found,
        headers_of-verify d settings request (rotated (strip text) endpoint) body (strip text)
            headers made' new hex_new,
        headers_of-verify_previous d settings request (rotated (strip text) endpoint) body
            (strip text) headers made' old hex_old,
      )
