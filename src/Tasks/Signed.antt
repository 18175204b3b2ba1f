-- ===== src/Tasks/Signed.antt =====
-- The signature headers of a delivery, as a receiver checks them.
use openedx_webhook_relay.Base.{
  ℕ, String, ◌≡◌, refl, inl, inr, true, false, some, List, arith, concat, concat-longer, str_eq,
  str_eq_iff, get_or, Option-cases,
}
use openedx_webhook_relay.Json.{str, Fields, end, field}
use openedx_webhook_relay.Json.Dict.{get, get-put}
use openedx_webhook_relay.Security.Signing.{Digests, is_ascii, sign_payload, verify_signature}
use openedx_webhook_relay.Security.Signing.Verify.{sign_payload-ascii, verify_signature-accepts}
use openedx_webhook_relay.Settings.{Settings}
use openedx_webhook_relay.Models.{Endpoint}
use openedx_webhook_relay.Secrets.{effective_previous_secret}
use openedx_webhook_relay.Tasks.{Request}
use openedx_webhook_relay.Tasks.Deliver.{merge_custom, sign_header, headers_of}

-- A header of this name that the receiver accepts with the secret.
abbrev pub Accepts : Digests → List ℕ → Fields → String → String → Type 0
Accepts d body headers name secret =
    (signature : String) × (get headers name ≡ some (str signature))
    × (verify_signature d body secret signature ≡ some true)

abbrev pub header_name : Settings → String
header_name settings = get_or settings.signature_header "X-OpenEdX-Webhook-Signature"

module _ (d : Digests) (body : List ℕ) where
  signed-Accepts :
      (headers : Fields) (name secret : String)
      → str_eq secret "" ≡ false
      → is_ascii (d.hmac_sha256 secret body) ≡ true
      → Accepts d body (sign_header d headers name body secret) name secret
  unfolding sign_header
  signed-Accepts headers name secret nonempty hex = (
    sign_payload d body secret,
    rw nonempty (
        ground (
          arith,
          get-put headers name name (str (sign_payload d body secret)),
          str_eq_iff name name,
        )),
    (verify_signature-accepts d body secret hex _ (sign_payload-ascii d body secret hex)).1 refl,
  )

  -- The header for the previous secret has another name.
  beside-Accepts :
      (headers : Fields) (name secret previous : String)
      → Accepts d body headers name secret
      → Accepts d body (sign_header d headers (concat name "-Previous") body previous) name secret
  unfolding sign_header
  beside-Accepts headers name secret previous (signature, there, verifies) = (
    signature,
    ground (
      arith,
      there,
      get-put headers (concat name "-Previous") name (str (sign_payload d body previous)),
      str_eq_iff (concat name "-Previous") name,
      str_eq_iff name (concat name "-Previous"),
      concat-longer name "-Previous" refl,
    ),
    verifies,
  )

module _ (d : Digests) (settings : Settings) (request : Request) (endpoint : Endpoint)
    (body : List ℕ) (secret : String) (headers : Fields)
    (made : headers_of d settings request endpoint body (some secret) ≡ some headers) where
  -- The headers before the signatures, to which the custom ones are added.
  signed_headers :
      (plain : Fields) × (headers
        ≡ sign_header d
            (sign_header d plain (header_name settings) body secret)
            (concat (header_name settings) "-Previous")
            body
            (effective_previous_secret endpoint))
  unfolding headers_of
  signed_headers =
      let base = field "Content-Type" (str "application/json") (
        field "Accept" (str "application/json")
          (field "X-OpenEdX-Webhook-Correlation-Id" (str request.correlation_id) end)) in
      elim (Option-cases (merge_custom base endpoint.custom_headers)) [
        | inl e ↦ absurd (cc (rw (headers_of, e) at made))
        | inr (plain, e) ↦ (plain, cc (rw (headers_of, e) at made))
      ]

  -- If a delivery's headers can be made and the secret is not empty, then the signature header that
  -- the settings name is there, whatever custom headers the endpoint has, and a receiver that holds
  -- the secret accepts it for the body, if the HMAC's hexadecimal text is ASCII.
  pub headers_of-verify :
      str_eq secret "" ≡ false
      → is_ascii (d.hmac_sha256 secret body) ≡ true
      → Accepts d body headers (header_name settings) secret
  headers_of-verify nonempty hex =
      let (plain, e) = signed_headers in
      rw e (
        beside-Accepts d body _ (header_name settings) secret (effective_previous_secret endpoint)
          (signed-Accepts d body plain (header_name settings) secret nonempty hex))

  -- If a delivery's headers can be made and the endpoint has a previous secret, then the header
  -- for that one is there as well, and a receiver that still holds the previous secret accepts it
  -- for the body, if the HMAC's hexadecimal text is ASCII.
  pub headers_of-verify_previous :
      str_eq endpoint.signing_secret_previous "" ≡ false
      → is_ascii (d.hmac_sha256 endpoint.signing_secret_previous body) ≡ true
      → Accepts d body headers
          (concat (header_name settings) "-Previous")
          endpoint.signing_secret_previous
  headers_of-verify_previous nonempty hex =
      let (plain, e) = signed_headers in
      rw e (signed-Accepts d body _ _ endpoint.signing_secret_previous nonempty hex)
