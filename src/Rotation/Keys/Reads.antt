-- ===== src/Rotation/Keys/Reads.antt =====
-- What can be read after rotate_encryption_key has run.
use mathlib.Core.List.{Memᴰ}
use openedx_webhook_relay.Base.{
  ℕ, String, ◌≡◌, refl, true, false, none, some, List, concat, length, str_eq, strip_prefix,
}
use openedx_webhook_relay.Encryption.{Fernet, converted, get_fernet, from_db_value}
use openedx_webhook_relay.Encryption.RoundTrip.{
  from_db_value-undecryptable, from_db_value-get_prep_value,
}
use openedx_webhook_relay.Rotation.Keys.{
  Secrets, Nonces, KeyOption, rewritten, loaded, has_secret, saved, rotate_encryption_key,
  resolve_key, key as resolved,
}
use openedx_webhook_relay.Rotation.Keys.Steps.{
  find_secrets, load_endpoints-total, load_endpoints-has,
}
use openedx_webhook_relay.Rotation.Keys.Writes.{OnlyRow, loaded_only, save_endpoints-writes}

-- A key that `Fernet` takes and that is not empty.
abbrev pub Usable : Fernet → String → Type 0
Usable f key = (str_eq key "" ≡ false) × (f.valid_key key ≡ true)

usable_lem : (f : Fernet) (key : String) → Usable f key → get_fernet f (some key) ≡ some key
unfolding get_fernet
usable_lem f key (nonempty, valid) = rw (nonempty, valid)

-- The two texts are read back from the row under the key.
abbrev pub ReadsAs : Fernet → String → Secrets → String → String → Type 0
ReadsAs f key row secret previous =
    (from_db_value f (some key) row.signing_secret ≡ converted secret)
    × (from_db_value f (some key) row.signing_secret_previous ≡ converted previous)

-- The new key decrypts what it encrypted, as Fernet's documentation says of every key.
abbrev pub Decrypts : Fernet → String → Type 0
Decrypts f key = (nonce : ℕ) (text : String) → f.decrypt key (f.encrypt key nonce text) ≡ some text

module _ (f : Fernet) (nonces : Nonces) (key : String) (usable : Usable f key)
    (decrypts : Decrypts f key) (e : Secrets) (plain : strip_prefix "enc::" e.signing_secret ≡ none)
    (plain' : strip_prefix "enc::" e.signing_secret_previous ≡ none) where
  saved-ReadsAs :
      (new : Secrets) × (saved f nonces key e ≡ some new)
      × (new.pk ≡ e.pk)
      × ReadsAs f key new e.signing_secret e.signing_secret_previous
  saved-ReadsAs =
      let has = usable_lem f key usable in
      let (secret, p, read, shape) =
        from_db_value-get_prep_value f (some key) key has (nonces.of_secret e.pk) e.signing_secret
          plain (decrypts _ _) in
      let (previous, q, read', shape') =
        from_db_value-get_prep_value f (some key) key has (nonces.of_previous e.pk)
          e.signing_secret_previous plain' (decrypts _ _) in
      (
        record { pk = e.pk; signing_secret = secret; signing_secret_previous = previous },
        rw (p, q) refl,
        refl,
        (read, read'),
      )

-- If both keys are usable, the new one decrypts what it encrypted, the row's key is its own, and its
-- two secrets, not both empty and neither beginning with the prefix, are read under the old key,
-- then the command, without `--dry-run`, rewrites the table, and the same two secrets are read from
-- the row under the new key.
pub rotate_encryption_key-reads :
    (f : Fernet) (nonces : Nonces) (old new : KeyOption) (old_key new_key : String)
    (rows : List Secrets) (row : Secrets) (secret previous : String)
    → resolve_key old ≡ resolved old_key
    → resolve_key new ≡ resolved new_key
    → Usable f old_key
    → Usable f new_key
    → Decrypts f new_key
    → Memᴰ row rows
    → find_secrets rows row.pk ≡ some row
    → OnlyRow row rows
    → ReadsAs f old_key row secret previous
    → strip_prefix "enc::" secret ≡ none
    → strip_prefix "enc::" previous ≡ none
    → has_secret
        (record { pk = row.pk; signing_secret = secret; signing_secret_previous = previous })
      ≡ true
    → (count : ℕ) × (after : List Secrets) × (row' : Secrets) × (rotate_encryption_key f nonces old
          new false rows
        ≡ rewritten count after)
      × (find_secrets after row.pk ≡ some row')
      × ReadsAs f new_key row' secret previous
unfolding rotate_encryption_key
rotate_encryption_key-reads f nonces old new old_key new_key rows row secret previous old_is new_is
      old_usable new_usable decrypts among there only (reads, reads') plain plain' some_secret =
    let e : Secrets = record {
      pk = row.pk;
      signing_secret = secret;
      signing_secret_previous = previous;
    } in
    let old_has = usable_lem f old_key old_usable in
    let new_has = usable_lem f new_key new_usable in
    let load : loaded f old_key row ≡ some e = rw (reads, reads') refl in
    let (es, loads) = load_endpoints-total f old_key old_has rows in
    let (row', written, same, read) =
      saved-ReadsAs f nonces new_key new_usable decrypts e plain plain' in
    let (after, ran, left) =
      save_endpoints-writes f nonces new_key new_has e row' written same es rows row
        (loaded_only f old_key old_has rows es row e loads load only refl)
        (load_endpoints-has f old_key old_has rows es row e loads among load some_secret) there in
    (
      length es,
      after,
      row',
      rw (old_is, new_is, old_usable.1, new_usable.1, loads, ran) refl,
      left,
      read,
    )

-- If both keys are usable, the new one decrypts what it encrypted, the row's key is its own, its
-- signing secret is a token that the old key does not decrypt, and its previous secret is read
-- under the old key, is not empty and does not begin with the prefix, then the command, without
-- `--dry-run`, reports no error: it rewrites the table, and under the new key the signing secret
-- reads as the empty text.
pub rotate_encryption_key-erases :
    (f : Fernet) (nonces : Nonces) (old new : KeyOption) (old_key new_key : String)
    (rows : List Secrets) (row : Secrets) (token previous : String)
    → resolve_key old ≡ resolved old_key
    → resolve_key new ≡ resolved new_key
    → Usable f old_key
    → Usable f new_key
    → Decrypts f new_key
    → Memᴰ row rows
    → find_secrets rows row.pk ≡ some row
    → OnlyRow row rows
    → row.signing_secret ≡ concat "enc::" token
    → f.decrypt old_key token ≡ none
    → from_db_value f (some old_key) row.signing_secret_previous ≡ converted previous
    → str_eq previous "" ≡ false
    → strip_prefix "enc::" previous ≡ none
    → (count : ℕ) × (after : List Secrets) × (row' : Secrets) × (rotate_encryption_key f nonces old
          new false rows
        ≡ rewritten count after)
      × (find_secrets after row.pk ≡ some row')
      × ReadsAs f new_key row' "" previous
rotate_encryption_key-erases f nonces old new old_key new_key rows row token previous old_is new_is
      old_usable new_usable decrypts among there only stored fails reads' nonempty plain =
    rotate_encryption_key-reads f nonces old new old_key new_key rows row "" previous old_is new_is
      old_usable new_usable decrypts among there only
      (
        rw stored (
            from_db_value-undecryptable f (some old_key) old_key (usable_lem f old_key old_usable)
              token fails),
        reads',
      )
      (unfold strip_prefix in refl) plain (rw nonempty)
