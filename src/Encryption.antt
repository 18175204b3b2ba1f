-- ===== src/Encryption.antt =====
-- fields.py: the column type that encrypts a secret on its way to the database and decrypts it on the
-- way back. Fernet is a parameter.
pub mod RoundTrip
pub mod Mask
use openedx_webhook_relay.Base.{
  ℕ, String, Bool, Option, none, some, str_eq, is_some, concat, strip_prefix, if◌then◌else◌,
}

-- `Fernet(key)`: whether the key is valid, and on texts `encrypt` (with the time and the random
-- bytes that go into a token) and `decrypt`, where `none` is InvalidToken.
pub record Fernet : Type 0 where
  pub valid_key : String → Bool
  pub encrypt : String → ℕ → String → String
  pub decrypt : String → String → Option String

-- What a conversion of a value gives: a value, or SecretConfigurationError.
pub data Converted : Type 0 where
  converted : String → Converted
  misconfigured : Converted

abbrev pub usable : Fernet → String → Option String
usable f key = if str_eq key "" then none else if f.valid_key key then some key else none

-- `_get_fernet()`, as the key that it takes from the setting; `none` is SecretConfigurationError.
unfoldable pub get_fernet : Fernet → Option String → Option String
get_fernet f none = none
get_fernet f (some key) = usable f key

module _ (f : Fernet) (encryption_key : Option String) where
  abbrev encrypt_with : Option String → ℕ → String → Converted
  encrypt_with none nonce value = misconfigured
  encrypt_with (some key) nonce value = converted (concat "enc::" (f.encrypt key nonce value))

  -- A text only: the columns that use the field are not nullable.
  unfoldable pub get_prep_value : ℕ → String → Converted
  unfolding get_fernet
  get_prep_value nonce value =
      if str_eq value ""
      then converted value
      else if is_some (strip_prefix "enc::" value)
      then converted value
      else encrypt_with (get_fernet f encryption_key) nonce value

  abbrev pub or_empty : Option String → String
  or_empty none = ""
  or_empty (some plaintext) = plaintext

  abbrev decrypt_with : Option String → String → Converted
  decrypt_with none token = misconfigured
  decrypt_with (some key) token = converted (or_empty (f.decrypt key token))

  unfoldable pub from_db_value : String → Converted
  unfolding get_fernet
  from_db_value value =
      if str_eq value "" then converted value else elim (strip_prefix "enc::" value) [
        | none ↦ converted value
        | some token ↦ decrypt_with (get_fernet f encryption_key) token
      ]
