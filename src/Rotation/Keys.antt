-- ===== src/Rotation/Keys.antt =====
-- management/commands/rotate_encryption_key.py, on the columns as the table holds them.
pub mod Steps
pub mod Writes
pub mod Reads
use openedx_webhook_relay.Base.{
  ℕ, String, Bool, true, false, not, ◌||◌, Option, none, some, List, [], ◌∷◌, map, filter, length,
  ◌==◌, str_eq, strip, if◌then◌else◌,
}
use openedx_webhook_relay.Encryption.{
  Fernet, Converted, converted, misconfigured, get_prep_value, from_db_value,
}
use openedx_webhook_relay.Rotation.{File, readable, unreadable}

-- The key and the two encrypted columns of a row of WebhookEndpoint; also an instance of it, with
-- the two secrets in plain.
pub record Secrets : Type 0 where
  pub pk : ℕ
  pub signing_secret : String
  pub signing_secret_previous : String

-- One of `--old-key-file` and `--old-key`, of which argparse lets exactly one through.
pub data KeyOption : Type 0 where
  key_file : File → KeyOption
  inline_key : String → KeyOption

pub data RotationError : Type 0 where
  could_not_read is_empty invalid_key configuration : RotationError

-- What the command does: it stops with an error, it reports a number of endpoints, or it also
-- leaves new rows.
pub data Rotated : Type 0 where
  failed : RotationError → Rotated
  dry : ℕ → Rotated
  rewritten : ℕ → List Secrets → Rotated

pub data Resolved : Type 0 where
  key : String → Resolved
  no_key : RotationError → Resolved

unfoldable pub resolve_key : KeyOption → Resolved
resolve_key (inline_key text) = key text
resolve_key (key_file unreadable) = no_key could_not_read
resolve_key (key_file (readable text)) =
    if str_eq (strip text) "" then no_key is_empty else key (strip text)

abbrev with_columns : ℕ → Converted → Converted → Option Secrets
with_columns pk (converted secret) (converted previous) =
    some (record { pk = pk; signing_secret = secret; signing_secret_previous = previous })
with_columns pk _ _ = none

-- A row through a conversion of its columns; `none` is SecretConfigurationError.
abbrev pub through : (String → Converted) → (String → Converted) → Secrets → Option Secrets
through secret previous row =
    with_columns row.pk (secret row.signing_secret) (previous row.signing_secret_previous)

abbrev pub loaded : Fernet → String → Secrets → Option Secrets
loaded f encryption_key =
    through (from_db_value f (some encryption_key)) (from_db_value f (some encryption_key))

abbrev pub has_secret : Secrets → Bool
has_secret e = not (str_eq e.signing_secret "") || not (str_eq e.signing_secret_previous "")

abbrev pub add_loaded : Option Secrets → Option (List Secrets) → Option (List Secrets)
add_loaded (some e) (some rest) = some (if has_secret e then e ∷ rest else rest)
add_loaded _ _ = none

-- The endpoints that the command rewrites. `from_db_value` never raises InvalidToken, so no endpoint
-- gets on the list `decrypt_errors`.
unfoldable pub load_endpoints : Fernet → String → List Secrets → Option (List Secrets)
load_endpoints f old_key [] = some []
load_endpoints f old_key (row ∷ rows) =
    add_loaded (loaded f old_key row) (load_endpoints f old_key rows)

unfoldable pub write_row : Secrets → List Secrets → List Secrets
write_row new [] = []
write_row new (row ∷ rows) = (if row.pk == new.pk then new else row) ∷ write_row new rows

-- The random bytes and the time of the tokens of a row's two columns, by the row's key.
pub record Nonces : Type 0 where
  pub of_secret : ℕ → ℕ
  pub of_previous : ℕ → ℕ

abbrev pub saved : Fernet → Nonces → String → Secrets → Option Secrets
saved f nonces encryption_key e =
    through (get_prep_value f (some encryption_key) (nonces.of_secret e.pk))
      (get_prep_value f (some encryption_key) (nonces.of_previous e.pk)) e

abbrev write_saved : Option Secrets → List Secrets → Option (List Secrets)
write_saved none rows = none
write_saved (some new) rows = some (write_row new rows)

-- The loop of `save(update_fields=…)`; `none`: a save raises.
unfoldable pub save_endpoints :
    Fernet → Nonces → String → List Secrets → List Secrets → Option (List Secrets)
save_endpoints f nonces new_key [] rows = some rows
save_endpoints f nonces new_key (e ∷ rest) rows =
    elim (write_saved (saved f nonces new_key e) rows) [
      | none ↦ none
      | some after ↦ save_endpoints f nonces new_key rest after
    ]

abbrev or_failed : ℕ → Option (List Secrets) → Rotated
or_failed count none = failed configuration
or_failed count (some rows) = rewritten count rows

abbrev rewrite : Fernet → Nonces → String → Bool → Option (List Secrets) → List Secrets → Rotated
rewrite f nonces new_key dry_run none rows = failed configuration
rewrite f nonces new_key dry_run (some endpoints) rows =
    if dry_run
    then dry (length endpoints)
    else or_failed (length endpoints) (save_endpoints f nonces new_key endpoints rows)

abbrev with_keys : Fernet → Nonces → Bool → Resolved → Resolved → List Secrets → Rotated
with_keys f nonces dry_run (no_key e) _ rows = failed e
with_keys f nonces dry_run (key old_key) (no_key e) rows = failed e
with_keys f nonces dry_run (key old_key) (key new_key) rows =
    if not (f.valid_key old_key) || not (f.valid_key new_key)
    then failed invalid_key
    else rewrite f nonces new_key dry_run (load_endpoints f old_key rows) rows

unfoldable pub rotate_encryption_key :
    Fernet → Nonces → KeyOption → KeyOption → Bool → List Secrets → Rotated
unfolding resolve_key load_endpoints save_endpoints
rotate_encryption_key f nonces old new dry_run rows =
    with_keys f nonces dry_run (resolve_key old) (resolve_key new) rows
