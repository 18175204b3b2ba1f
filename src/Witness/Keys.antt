-- ===== src/Witness/Keys.antt =====
-- Encryption and the rotation commands.
use mathlib.Core.List.{Memᴰ}
use openedx_webhook_relay.Base.{
  ℕ, String, ◌≡◌, ◌⊎◌, ◌↔◌, is_some, refl, true, false, some, List, [], ◌∷◌, concat, str_eq, strip,
  strip_prefix, strip_prefix-concat,
}
use openedx_webhook_relay.Models.{Endpoint, find_row}
use openedx_webhook_relay.Secrets.{database, get_secret_backend, get_secret, effective_secret}
use openedx_webhook_relay.Json.{Fields, str, end, field}
use openedx_webhook_relay.Json.Dict.{put}
use openedx_webhook_relay.Security.Signing.{sign_payload}
use openedx_webhook_relay.Encryption.{converted, get_fernet, get_prep_value, from_db_value}
use openedx_webhook_relay.Encryption.RoundTrip.{from_db_value-get_prep_value}
use openedx_webhook_relay.Rotation.{readable}
use openedx_webhook_relay.Rotation.Keys.{
  Secrets, Nonces, key_file, inline_key, key, resolve_key, rewritten, rotate_encryption_key,
}
use openedx_webhook_relay.Rotation.Keys.Steps.{find_secrets}
use openedx_webhook_relay.Rotation.Keys.Reads.{
  ReadsAs, Decrypts, rotate_encryption_key-reads, rotate_encryption_key-erases,
}
use openedx_webhook_relay.Rotation.Keys.Writes.{OnlyRow}
use openedx_webhook_relay.Rotation.Secret.{changed, rotate_signing_secret}
use openedx_webhook_relay.Rotation.Secret.Window.{
  rotated, new_secret_options, rotate_signing_secret-window,
}
use openedx_webhook_relay.Checks.{check_encryption_key}
use openedx_webhook_relay.Checks.Agreement.{check_encryption_key-get_fernet}
use openedx_webhook_relay.Tasks.Deliver.{headers_of, sign_header}
use openedx_webhook_relay.Tasks.Signed.{Accepts, header_name}
use openedx_webhook_relay.Examples.{digests, client, settings, endpoint, request, fernet}

has_key : get_fernet fernet (some "old") ≡ some "old"
unfolding get_fernet
has_key = refl

from_db_value-get_prep_value_example :
    (stored : String) × (get_prep_value fernet (some "old") 0 "s3cret" ≡ converted stored)
    × (from_db_value fernet (some "old") stored ≡ converted "s3cret")
    × ((str_eq "s3cret" "" ≡ true) ⊎ ((token : String) × (stored ≡ concat "enc::" token)))
from_db_value-get_prep_value_example =
    from_db_value-get_prep_value fernet (some "old") "old" has_key 0 "s3cret"
      (unfold strip_prefix in refl) (strip_prefix-concat "old" "s3cret")

abbrev nonces : Nonces
nonces = record { of_secret = λ pk. pk; of_previous = λ pk. pk }

abbrev stored_row : Secrets
stored_row = record {
  pk = 7;
  signing_secret = "enc::olds3cret";
  signing_secret_previous = "enc::oldbefore";
}

abbrev lost_row : Secrets
lost_row = record {
  pk = 7;
  signing_secret = "enc::others3cret";
  signing_secret_previous = "enc::oldbefore";
}

only_one : (row : Secrets) → OnlyRow row (row ∷ [])
only_one row r (Memᴰ.head p) e = p
only_one row r (Memᴰ.tail among) e = elim among [ ]

found : find_secrets (stored_row ∷ []) 7 ≡ some stored_row
unfolding find_secrets
found = refl

found_lost : find_secrets (lost_row ∷ []) 7 ≡ some lost_row
unfolding find_secrets
found_lost = refl

reads : ReadsAs fernet "old" stored_row "s3cret" "before"
unfolding from_db_value strip_prefix get_fernet
reads = (refl, refl)

reads_previous : from_db_value fernet (some "old") "enc::oldbefore" ≡ converted "before"
unfolding from_db_value strip_prefix get_fernet
reads_previous = refl

decrypts : Decrypts fernet "new"
decrypts nonce text = strip_prefix-concat "new" text

resolves : resolve_key (key_file (readable "new\n")) ≡ key "new"
unfolding resolve_key strip
resolves = refl

resolves_inline : resolve_key (inline_key "old") ≡ key "old"
unfolding resolve_key
resolves_inline = refl

rotate_encryption_key-reads_example :
    (count : ℕ) × (after : List Secrets) × (row' : Secrets) × (rotate_encryption_key fernet nonces
        (inline_key "old")
        (key_file (readable "new\n"))
        false
        (stored_row ∷ [])
      ≡ rewritten count after)
    × (find_secrets after 7 ≡ some row')
    × ReadsAs fernet "new" row' "s3cret" "before"
rotate_encryption_key-reads_example =
    rotate_encryption_key-reads fernet nonces (inline_key "old") (key_file (readable "new\n")) "old"
      "new" (stored_row ∷ []) stored_row "s3cret" "before" resolves_inline resolves (refl, refl)
      (refl, refl) decrypts (Memᴰ.head refl) found (only_one stored_row) reads
      (unfold strip_prefix in refl) (unfold strip_prefix in refl) refl

rotate_encryption_key-erases_example :
    (count : ℕ) × (after : List Secrets) × (row' : Secrets) × (rotate_encryption_key fernet nonces
        (inline_key "old")
        (key_file (readable "new\n"))
        false
        (lost_row ∷ [])
      ≡ rewritten count after)
    × (find_secrets after 7 ≡ some row')
    × ReadsAs fernet "new" row' "" "before"
rotate_encryption_key-erases_example =
    rotate_encryption_key-erases fernet nonces (inline_key "old") (key_file (readable "new\n"))
      "old" "new" (lost_row ∷ []) lost_row "others3cret" "before" resolves_inline resolves
      (refl, refl) (refl, refl) decrypts (Memᴰ.head refl) found_lost (only_one lost_row) refl
      (unfold strip_prefix in refl) reads_previous refl (unfold strip_prefix in refl)

in_database : get_secret_backend settings false ≡ some database
unfolding get_secret_backend
in_database = refl

found_endpoint : find_row (endpoint ∷ []) 7 ≡ some endpoint
unfolding find_row
found_endpoint = refl

abbrev body : List ℕ
body = 123 ∷ 125 ∷ []

abbrev headers : Fields
headers = field "Content-Type" (str "application/json") (
    field "Accept" (str "application/json") (
      field "X-OpenEdX-Webhook-Correlation-Id" (str "5f0c") (
        field "X-OpenEdX-Webhook-Signature" (str "sha256=c0ffeenext")
          (field "X-OpenEdX-Webhook-Signature-Previous" (str "sha256=c0ffees3cret") end))))

nonempty : str_eq (strip "next\n") "" ≡ false
unfolding strip
nonempty = refl

makes :
    headers_of digests settings request
      (rotated (strip "next\n") endpoint)
      body
      (effective_secret client settings false 0 (rotated (strip "next\n") endpoint))
    ≡ some headers
unfolding headers_of sign_header put sign_payload strip effective_secret get_secret
    get_secret_backend
makes = refl

rotate_signing_secret-window_example :
    (after : List Endpoint) × (rotate_signing_secret client settings false
        (new_secret_options 7 "next\n")
        (endpoint ∷ [])
        0
      ≡ changed after 0)
    × (find_row after 7 ≡ some (rotated (strip "next\n") endpoint))
    × Accepts digests body headers (header_name settings) (strip "next\n")
    × Accepts digests body headers (concat (header_name settings) "-Previous") "s3cret"
rotate_signing_secret-window_example =
    rotate_signing_secret-window client settings false 0 in_database digests (endpoint ∷ [])
      endpoint "next\n" request body headers found_endpoint refl nonempty makes
      (unfold strip in refl) refl

check_encryption_key-get_fernet_example :
    (check_encryption_key fernet settings ≡ [])
    ↔ (is_some (get_fernet fernet settings.encryption_key) ≡ true)
check_encryption_key-get_fernet_example = check_encryption_key-get_fernet fernet settings
