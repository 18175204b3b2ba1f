-- ===== src/Security/Signing.antt =====
-- Signing, verification, serialization and the fingerprint of security.py. The two digests of
-- `hmac` and `hashlib` are parameters.
pub mod Verify
pub mod Determined
use Prim.Native.Char.{code}
use Prim.Native.String
use openedx_webhook_relay.Base.{
  ℕ, zero, suc, String, Bool, true, false, ◌&&◌, Option, none, some, List, str_eq, concat, ltb,
  if◌then◌else◌,
}
use openedx_webhook_relay.Json.{obj, Fields}
use openedx_webhook_relay.Json.Dumps.{dumps}

-- `hmac.new(secret.encode(), payload, sha256).hexdigest()` of a secret and the bytes of a payload,
-- `sha256(payload).hexdigest()`, and the text of a float.
pub record Digests : Type 0 where
  pub hmac_sha256 : String → List ℕ → String
  pub sha256 : List ℕ → String
  pub float_repr : ℕ → List ℕ

-- `text[:n]`.
unfoldable pub take_text : ℕ → String → String
take_text zero s = String.[]
take_text (suc n) String.[] = String.[]
take_text (suc n) (String.◌∷◌ c s) = String.◌∷◌ c (take_text n s)

abbrev pub is_ascii : String → Bool
is_ascii String.[] = true
is_ascii (String.◌∷◌ c s) = ltb (code c) 128 && is_ascii s

module _ (d : Digests) where
  unfoldable pub sign_payload : List ℕ → String → String
  sign_payload payload_bytes secret = concat "sha256=" (d.hmac_sha256 secret payload_bytes)

  -- `none`: `compare_digest` raises a TypeError for texts that are not ASCII.
  unfoldable pub verify_signature : List ℕ → String → String → Option Bool
  unfolding sign_payload
  verify_signature payload_bytes secret received_signature =
      let expected = sign_payload payload_bytes secret in
      if str_eq received_signature ""
      then some false
      else if is_ascii expected && is_ascii received_signature
      then some (str_eq expected received_signature)
      else none

  unfoldable pub serialize_payload : Fields → List ℕ
  serialize_payload payload = dumps d.float_repr (obj payload)

  unfoldable pub payload_fingerprint : Fields → String
  payload_fingerprint payload = take_text 16 (d.sha256 (serialize_payload payload))
