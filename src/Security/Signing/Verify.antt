-- ===== src/Security/Signing/Verify.antt =====
-- What a receiver that holds the secret learns from `verify_signature`.
use Prim.Native.Char.{code}
use text.Mathlib.TextLemmas.{nil-append, cons-append}
use openedx_webhook_relay.Base.{
  ℕ, String, ◌≡◌, refl, ◌↔◌, inl, inr, true, false, some, List, arith, concat, str_eq, str_eq_iff,
  behind_prefix, strip_prefix, ltb, Bool-cases,
}
use openedx_webhook_relay.Security.Signing.{Digests, is_ascii, sign_payload, verify_signature}

is_ascii-concat :
    (s t : String) → is_ascii s ≡ true → is_ascii t ≡ true → is_ascii (concat s t) ≡ true
is_ascii-concat String.[] t ascii_s ascii_t = rw nil-append ascii_t
is_ascii-concat (String.◌∷◌ c s) t ascii_s ascii_t = elim (Bool-cases (ltb (code c) 128)) [
  | inr e ↦ absurd (cc (rw e at ascii_s))
  | inl e ↦ rw (cons-append, e) (is_ascii-concat s t (rw e at ascii_s) ascii_t)
]

module _ (d : Digests) (payload_bytes : List ℕ) (secret : String)
    (hex : is_ascii (d.hmac_sha256 secret payload_bytes) ≡ true) where
  pub sign_payload-ascii : is_ascii (sign_payload d payload_bytes secret) ≡ true
  unfolding sign_payload
  sign_payload-ascii = is_ascii-concat "sha256=" (d.hmac_sha256 secret payload_bytes) refl hex

  sign_payload-not_empty : str_eq (sign_payload d payload_bytes secret) "" ≡ false
  unfolding sign_payload
  sign_payload-not_empty = behind_prefix "sha256=" _ "" (unfold strip_prefix in refl)

  -- If the HMAC's hexadecimal text is ASCII, then of all received texts that are ASCII the
  -- signature is the only one that `verify_signature` accepts.
  pub verify_signature-accepts :
      (received : String)
      → is_ascii received ≡ true
      → (verify_signature d payload_bytes secret received ≡ some true)
        ↔ (received ≡ sign_payload d payload_bytes secret)
  unfolding verify_signature
  verify_signature-accepts received ascii = ground (
    arith,
    sign_payload-ascii,
    sign_payload-not_empty,
    ascii,
    str_eq_iff (sign_payload d payload_bytes secret) received,
  )
