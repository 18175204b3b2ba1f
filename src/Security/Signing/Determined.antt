-- ===== src/Security/Signing/Determined.antt =====
-- What of a payload its signature and its fingerprint depend on.
use openedx_webhook_relay.Base.{ℕ, String, ◌≡◌, ap}
use openedx_webhook_relay.Json.{obj, Fields}
use openedx_webhook_relay.Json.Dumps.Ascii.{IsAscii, dumps-IsAscii}
use openedx_webhook_relay.Json.Dumps.Order.{SameFields, objects, dumps-SameValue}
use openedx_webhook_relay.Security.Signing.{
  Digests, serialize_payload, sign_payload, payload_fingerprint, take_text,
}

-- If two payloads differ only in the order of the keys of their dictionaries, at any depth, then
-- they have the same bytes, hence the same signature under any secret and the same fingerprint.
pub serialize_payload_order :
    (d : Digests) (payload payload' : Fields) (secret : String)
    → SameFields payload payload'
    → (serialize_payload d payload ≡ serialize_payload d payload')
      × (sign_payload d (serialize_payload d payload) secret
          ≡ sign_payload d (serialize_payload d payload') secret)
      × (payload_fingerprint d payload ≡ payload_fingerprint d payload')
unfolding serialize_payload payload_fingerprint
serialize_payload_order d payload payload' secret same =
    let bytes = dumps-SameValue d.float_repr (objects same) in
    (bytes, ap (λ b. sign_payload d b secret) bytes, ap (λ b. take_text 16 (d.sha256 b)) bytes)

-- If the text of every float is ASCII, then every byte of a serialized payload is, so that the text
-- and its encoding as UTF-8 are the same sequence of numbers.
pub serialize_payload-IsAscii :
    (d : Digests) (payload : Fields)
    → ((bits : ℕ) → IsAscii (d.float_repr bits))
    → IsAscii (serialize_payload d payload)
unfolding serialize_payload
serialize_payload-IsAscii d payload floats = dumps-IsAscii d.float_repr floats (obj payload)
