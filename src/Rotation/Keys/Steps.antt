-- ===== src/Rotation/Keys/Steps.antt =====
-- The loops of rotate_encryption_key, row by row.
use mathlib.Core.List.{Memᴰ}
use openedx_webhook_relay.Base.{
  ℕ, String, ◌≡◌, ◌≢◌, refl, ap, ◌∙◌, sym, inl, inr, true, Option, none, some, List, [], ◌∷◌, arith,
  ◌==◌, ==_iff, str_eq, strip_prefix, concat, if◌then◌else◌, Bool-cases, Option-cases,
}
use openedx_webhook_relay.Encryption.{
  Fernet, converted, or_empty, get_fernet, get_prep_value, from_db_value,
}
use openedx_webhook_relay.Rotation.Keys.{
  Secrets, Nonces, loaded, has_secret, load_endpoints, write_row, saved,
}

unfoldable pub find_secrets : List Secrets → ℕ → Option Secrets
find_secrets [] pk = none
find_secrets (row ∷ rows) pk =
    let rest = find_secrets rows pk in if row.pk == pk then some row else rest

pub find_secrets-write_row :
    (new : Secrets) (rows : List Secrets) (pk : ℕ) (r : Secrets)
    → new.pk ≡ pk
    → find_secrets rows pk ≡ some r
    → find_secrets (write_row new rows) pk ≡ some new
unfolding find_secrets write_row
find_secrets-write_row new [] pk r same h = absurd (cc)
find_secrets-write_row new (row ∷ rows) pk r same h = elim (Bool-cases (row.pk == pk)) [
  | inl e ↦ ground (arith, e, same, ==_iff row.pk pk, ==_iff new.pk pk, ==_iff row.pk new.pk)
  | inr e ↦ ground (
    arith,
    e,
    same,
    ==_iff row.pk pk,
    ==_iff row.pk new.pk,
    find_secrets-write_row new rows pk r same (rw e at h),
  )
]

pub find_secrets-write_other :
    (new : Secrets) (rows : List Secrets) (pk : ℕ)
    → new.pk ≢ pk
    → find_secrets (write_row new rows) pk ≡ find_secrets rows pk
unfolding find_secrets write_row
find_secrets-write_other new [] pk apart = refl
find_secrets-write_other new (row ∷ rows) pk apart = ground (
  arith,
  find_secrets-write_other new rows pk apart,
  ==_iff row.pk new.pk,
  ==_iff new.pk pk,
  ==_iff row.pk pk,
)

pub some_inj : {a b : Secrets} → some a ≡ some b → a ≡ b
some_inj h = cc

module _ (f : Fernet) (key : String) (has_key : get_fernet f (some key) ≡ some key) where
  from_db_value-total :
      (value : String)
      → (plaintext : String) × (from_db_value f (some key) value ≡ converted plaintext)
  unfolding from_db_value
  from_db_value-total value = elim (Bool-cases (str_eq value "")) [
    | inl e ↦ (value, rw e)
    | inr e ↦ elim (Option-cases (strip_prefix "enc::" value)) [
      | inl plain ↦ (value, rw (e, plain))
      | inr (token, behind) ↦
          (or_empty f (some key) (f.decrypt key token), rw (e, behind, has_key) refl)
    ]
  ]

  pub loaded-total : (row : Secrets) → (e : Secrets) × (loaded f key row ≡ some e) × (e.pk ≡ row.pk)
  loaded-total row =
      let (secret, e) = from_db_value-total row.signing_secret in
      let (previous, e') = from_db_value-total row.signing_secret_previous in
      (
        record { pk = row.pk; signing_secret = secret; signing_secret_previous = previous },
        rw (e, e') refl,
        refl,
      )

  pub load_endpoints-total :
      (rows : List Secrets) → (es : List Secrets) × (load_endpoints f key rows ≡ some es)
  unfolding load_endpoints
  load_endpoints-total [] = ([], refl)
  load_endpoints-total (row ∷ rows) =
      let (e, first, same) = loaded-total row in
      let (es, later) = load_endpoints-total rows in
      (if has_secret e then e ∷ es else es, rw (first, later) refl)

  get_prep_value-total :
      (nonce : ℕ) (value : String)
      → (stored : String) × (get_prep_value f (some key) nonce value ≡ converted stored)
  unfolding get_prep_value
  get_prep_value-total nonce value = elim (Bool-cases (str_eq value "")) [
    | inl e ↦ (value, rw e)
    | inr e ↦ elim (Option-cases (strip_prefix "enc::" value)) [
      | inr (token, behind) ↦ (value, rw (e, behind))
      | inl plain ↦ (concat "enc::" (f.encrypt key nonce value), rw (e, plain, has_key) refl)
    ]
  ]

  pub saved-total :
      (nonces : Nonces) (e : Secrets)
      → (new : Secrets) × (saved f nonces key e ≡ some new) × (new.pk ≡ e.pk)
  saved-total nonces e =
      let (secret, p) = get_prep_value-total (nonces.of_secret e.pk) e.signing_secret in
      let (previous, q) =
        get_prep_value-total (nonces.of_previous e.pk) e.signing_secret_previous in
      (
        record { pk = e.pk; signing_secret = secret; signing_secret_previous = previous },
        rw (p, q) refl,
        refl,
      )

  load_endpoints-cons :
      (first : Secrets) (rows es : List Secrets)
      → load_endpoints f key (first ∷ rows) ≡ some es
      → (e : Secrets) × (later : List Secrets) × (loaded f key first ≡ some e)
        × (load_endpoints f key rows ≡ some later)
        × (es ≡ (if has_secret e then e ∷ later else later))
  unfolding load_endpoints
  load_endpoints-cons first rows es h =
      let (e, is_e, same) = loaded-total first in
      let (later, is_later) = load_endpoints-total rows in
      (e, later, is_e, is_later, cc (rw (is_e, is_later) at h))

  -- A row that is loaded with a secret is among the endpoints.
  pub load_endpoints-has :
      (rows es : List Secrets) (row e : Secrets)
      → load_endpoints f key rows ≡ some es
      → Memᴰ row rows
      → loaded f key row ≡ some e
      → has_secret e ≡ true
      → Memᴰ e es
  load_endpoints-has [] es row e h among load secret = elim among [ ]
  load_endpoints-has (first ∷ rows) es row e h (Memᴰ.head p) load secret =
      let (e1, later, is_e1, is_later, parts) = load_endpoints-cons first rows es h in
      let same : e1 ≡ e = some_inj (sym is_e1 ∙ ap (loaded f key) (sym p) ∙ load) in
      rw (parts, same, secret) (Memᴰ.head refl)
  load_endpoints-has (first ∷ rows) es row e h (Memᴰ.tail among) load secret =
      let (e1, later, is_e1, is_later, parts) = load_endpoints-cons first rows es h in
      let inside = load_endpoints-has rows later row e is_later among load secret in
      elim (Bool-cases (has_secret e1)) [
        | inl with_secret ↦ rw (parts, with_secret) (Memᴰ.tail inside)
        | inr without ↦ rw (parts, without) inside
      ]

  -- Each of the endpoints is a row, loaded.
  pub load_endpoints-from :
      (rows es : List Secrets) (e : Secrets)
      → load_endpoints f key rows ≡ some es
      → Memᴰ e es
      → (row : Secrets) × Memᴰ row rows × (loaded f key row ≡ some e)
  unfolding load_endpoints
  load_endpoints-from [] es e h among = let empty : es ≡ [] = cc in elim (rw empty at among) [ ]
  load_endpoints-from (first ∷ rows) es e h among =
      let (e1, later, is_e1, is_later, parts) = load_endpoints-cons first rows es h in
      elim (Bool-cases (has_secret e1)) [
        | inr without ↦
            let (row, inside, load) =
              load_endpoints-from rows later e is_later (rw (parts, without) at among) in
            (row, Memᴰ.tail inside, load)
        | inl with_secret ↦ elim (rw (parts, with_secret) at among) [
          | Memᴰ.head p ↦ (first, Memᴰ.head refl, cc)
          | Memᴰ.tail inside ↦
              let (row, older, load) = load_endpoints-from rows later e is_later inside in
              (row, Memᴰ.tail older, load)
        ]
      ]
