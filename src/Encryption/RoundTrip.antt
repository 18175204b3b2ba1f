-- ===== src/Encryption/RoundTrip.antt =====
-- What is read back after a secret was saved, under the same key and under another.
use openedx_webhook_relay.Base.{
  ℕ, String, ◌≡◌, refl, inl, inr, true, false, ◌⊎◌, Option, none, some, str_eq, str_eq_iff,
  strip_prefix, strip_prefix-concat, concat, behind_prefix, Bool-cases,
}
use openedx_webhook_relay.Encryption.{Fernet, converted, get_fernet, get_prep_value, from_db_value}

module _ (f : Fernet) (encryption_key : Option String) (key : String)
    (has_key : get_fernet f encryption_key ≡ some key) where
  -- A value behind the prefix is decrypted.
  from_db_value-token :
      (token plaintext : String)
      → f.decrypt key token ≡ some plaintext
      → from_db_value f encryption_key (concat "enc::" token) ≡ converted plaintext
  unfolding from_db_value
  from_db_value-token token plaintext decrypts = rw (
    behind_prefix "enc::" token "" (unfold strip_prefix in refl),
    strip_prefix-concat "enc::" token,
    has_key,
    decrypts,
  )

  -- A token that the key does not decrypt reads as the empty text.
  pub from_db_value-undecryptable :
      (token : String)
      → f.decrypt key token ≡ none
      → from_db_value f encryption_key (concat "enc::" token) ≡ converted ""
  unfolding from_db_value
  from_db_value-undecryptable token fails = rw (
    behind_prefix "enc::" token "" (unfold strip_prefix in refl),
    strip_prefix-concat "enc::" token,
    has_key,
    fails,
  )

  get_prep_value-token :
      (nonce : ℕ) (value : String)
      → str_eq value "" ≡ false
      → strip_prefix "enc::" value ≡ none
      → get_prep_value f encryption_key nonce value
        ≡ converted (concat "enc::" (f.encrypt key nonce value))
  unfolding get_prep_value
  get_prep_value-token nonce value nonempty plain = rw (nonempty, plain, has_key)

  from_db_value-empty : from_db_value f encryption_key "" ≡ converted ""
  unfolding from_db_value
  from_db_value-empty = refl

  get_prep_value-empty : (nonce : ℕ) → get_prep_value f encryption_key nonce "" ≡ converted ""
  unfolding get_prep_value
  get_prep_value-empty nonce = refl

  -- If there is a key, and it decrypts what it encrypted, then a secret that does not begin with
  -- the prefix is saved, and reading it back gives the secret; if it is not empty, what is saved
  -- is the prefix with a token behind it.
  pub from_db_value-get_prep_value :
      (nonce : ℕ) (value : String)
      → strip_prefix "enc::" value ≡ none
      → f.decrypt key (f.encrypt key nonce value) ≡ some value
      → (stored : String) × (get_prep_value f encryption_key nonce value ≡ converted stored)
        × (from_db_value f encryption_key stored ≡ converted value)
        × ((str_eq value "" ≡ true) ⊎ ((token : String) × (stored ≡ concat "enc::" token)))
  from_db_value-get_prep_value nonce value plain inverse = elim (Bool-cases (str_eq value "")) [
    | inl e ↦
        let empty : value ≡ "" = (str_eq_iff value "").0 e in
        ("", rw empty (get_prep_value-empty nonce), rw empty from_db_value-empty, inl e)
    | inr e ↦ (
      concat "enc::" (f.encrypt key nonce value),
      get_prep_value-token nonce value e plain,
      from_db_value-token (f.encrypt key nonce value) value inverse,
      inr (f.encrypt key nonce value, refl),
    )
  ]

-- A value that begins with the prefix is saved as it is, whatever key is configured, even none.
pub get_prep_value-prefixed :
    (f : Fernet) (encryption_key : Option String) (nonce : ℕ) (rest : String)
    → get_prep_value f encryption_key nonce (concat "enc::" rest) ≡ converted (concat "enc::" rest)
unfolding get_prep_value
get_prep_value-prefixed f encryption_key nonce rest =
    rw (
      behind_prefix "enc::" rest "" (unfold strip_prefix in refl),
      strip_prefix-concat "enc::" rest,
    )
