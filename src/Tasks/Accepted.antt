-- ===== src/Tasks/Accepted.antt =====
-- What `clean` on an endpoint guarantees to the task.
use openedx_webhook_relay.Base.{
  ℕ, String, ◌≡◌, refl, Bool, true, false, ◌||◌, ◌&&◌, inl, inr, Bool-cases, none, some, List, [],
  ◌∷◌, arith, str_eq, is_some, concat, strip_prefix,
}
use openedx_webhook_relay.Json.{
  Value, null, str, arr, obj, Items, nil, cons, Fields, end, field, is_none, truthy,
}
use openedx_webhook_relay.Json.Dict.{put}
use openedx_webhook_relay.Security.Signing.{Digests, sign_payload}
use openedx_webhook_relay.Settings.{Settings}
use openedx_webhook_relay.Models.{Endpoint}
use openedx_webhook_relay.Secrets.{effective_previous_secret}
use openedx_webhook_relay.Tasks.{Request}
use openedx_webhook_relay.Models.Validation.{clean, is_list, is_dict}
use openedx_webhook_relay.Tasks.Shape.{texts, as_paths, shape_and_check}
use openedx_webhook_relay.Tasks.Deliver.{merge, merge_custom, sign_header, headers_of}
use openedx_webhook_relay.Tasks.Signed.{header_name}
use openedx_webhook_relay.Tasks.Privacy.{shape_and_check_lem}

-- Each item of an array is a text.
abbrev pub all_texts : Items → Bool
all_texts nil = true
all_texts (cons (str s) xs) = all_texts xs
all_texts (cons v xs) = false

abbrev pub holds_texts : Value → Bool
holds_texts (arr xs) = all_texts xs
holds_texts v = true

texts-total : (xs : Items) → all_texts xs ≡ true → (ss : List String) × (texts xs ≡ some ss)
texts-total nil h = ([], refl)
texts-total (cons (str s) xs) h = let (ss, e) = texts-total xs h in (s ∷ ss, rw e)
texts-total (cons v xs) h = absurd (cc)

paths-total :
    (v : Value)
    → (is_none v || is_list v) ≡ true
    → holds_texts v ≡ true
    → (paths : List String) × (as_paths v ≡ some paths)
unfolding as_paths truthy
paths-total null accepted items = ([], refl)
paths-total (arr xs) accepted items = texts-total xs items
paths-total v accepted items = absurd (cc)

-- The values of a dictionary are texts, as requests wants those of headers.
abbrev pub text_value : Value → Bool
text_value (str s) = true
text_value v = false

unfoldable pub text_values : Fields → Bool
text_values end = true
text_values (field k v m) = text_value v && text_values m

unfoldable pub holds_text_values : Value → Bool
unfolding text_values
holds_text_values (obj m) = text_values m
holds_text_values v = true

put-text_values :
    (m : Fields) (k : String) (v : Value)
    → text_values m ≡ true
    → text_value v ≡ true
    → text_values (put m k v) ≡ true
unfolding put text_values
put-text_values end k v h t = rw t refl
put-text_values (field j w m) k v h t = ground (arith, h, t, put-text_values m k v)

merge-text_values :
    (base m : Fields)
    → text_values base ≡ true
    → text_values m ≡ true
    → text_values (merge base m) ≡ true
unfolding text_values
merge-text_values base end h t = h
merge-text_values base (field k v rest) h t =
    merge-text_values (put base k v) rest (put-text_values base k v h (ground (arith, t)))
      (ground (arith, t))

custom-total :
    (v : Value) (base : Fields)
    → (is_none v || is_dict v) ≡ true
    → (headers : Fields) × (merge_custom base v ≡ some headers)
unfolding truthy
custom-total null base accepted = (base, refl)
custom-total (obj m) base accepted = (merge base m, refl)
custom-total v base accepted = absurd (cc)

custom-text_values :
    (v : Value) (base : Fields)
    → (is_none v || is_dict v) ≡ true
    → holds_text_values v ≡ true
    → text_values base ≡ true
    → (headers : Fields) × (merge_custom base v ≡ some headers) × (text_values headers ≡ true)
unfolding truthy holds_text_values
custom-text_values null base accepted t h = (base, refl, h)
custom-text_values (obj m) base accepted t h = (merge base m, refl, merge-text_values base m h t)
custom-text_values v base accepted t h = absurd (cc)

sign_header-text_values :
    (d : Digests) (headers : Fields) (name : String) (body : List ℕ) (secret : String)
    → text_values headers ≡ true
    → text_values (sign_header d headers name body secret) ≡ true
unfolding sign_header
sign_header-text_values d headers name body secret h = elim (Bool-cases (str_eq secret "")) [
  | inl e ↦ rw e h
  | inr e ↦ rw e (put-text_values headers name (str (sign_payload d body secret)) h refl)
]

clean-accepts :
    (self : Endpoint)
    → clean self ≡ none
    → ((is_none self.custom_headers || is_dict self.custom_headers) ≡ true)
      × ((is_none self.pii_allowlist || is_list self.pii_allowlist) ≡ true)
      × ((is_none self.pii_denylist || is_list self.pii_denylist) ≡ true)
      × ((str_eq self.webhook_url "" || is_some (strip_prefix "https://" self.webhook_url)) ≡ true)
unfolding clean
clean-accepts self h = ground arith

-- The headers with the two signatures.
abbrev signed : Digests → Settings → Endpoint → List ℕ → String → Fields → Fields
signed d settings self body secret plain =
    sign_header d (sign_header d plain (header_name settings) body secret)
      (concat (header_name settings) "-Previous") body (effective_previous_secret self)

-- The headers before the custom ones.
unfoldable base_of : Request → Fields
base_of request = field "Content-Type" (str "application/json") (
    field "Accept" (str "application/json")
      (field "X-OpenEdX-Webhook-Correlation-Id" (str request.correlation_id) end))

module _ (d : Digests) (settings : Settings) (request : Request) (self : Endpoint) (body : List ℕ)
    (secret : String)
    (dict : (is_none self.custom_headers || is_dict self.custom_headers) ≡ true) where
  headers_of-signed :
      (plain : Fields)
      → merge_custom (base_of request) self.custom_headers ≡ some plain
      → headers_of d settings request self body (some secret)
        ≡ some (signed d settings self body secret plain)
  unfolding headers_of base_of
  headers_of-signed plain merged = rw (headers_of, merged) refl

  pub headers_of_made :
      (headers : Fields) × (headers_of d settings request self body (some secret) ≡ some headers)
  headers_of_made =
      let (plain, merged) = custom-total self.custom_headers (base_of request) dict in
      (signed d settings self body secret plain, headers_of-signed plain merged)

  headers_of-text_values :
      holds_text_values self.custom_headers ≡ true
      → (headers : Fields) × (headers_of d settings request self body (some secret) ≡ some headers)
        × (text_values headers ≡ true)
  unfolding base_of text_values
  headers_of-text_values texts =
      let (plain, merged, plain_texts) =
        custom-text_values self.custom_headers (base_of request) dict texts refl in
      (
        signed d settings self body secret plain,
        headers_of-signed plain merged,
        sign_header-text_values d _ (concat (header_name settings) "-Previous") body
            (effective_previous_secret self)
            (sign_header-text_values d plain (header_name settings) body secret plain_texts),
      )

-- If `clean` accepts an endpoint, the items of its two lists are texts and so are the values of its
-- custom headers, then whatever the payload, the filters return a shaped payload, and whatever the
-- request, the body and the secret, the dictionary of headers is made, and its values are texts.
pub clean_prepares :
    (d : Digests) (settings : Settings) (self : Endpoint) (raw : Fields) (request : Request)
    (body : List ℕ) (secret : String)
    → clean self ≡ none
    → holds_texts self.pii_allowlist ≡ true
    → holds_texts self.pii_denylist ≡ true
    → holds_text_values self.custom_headers ≡ true
    → ((payload : Fields) × (should_send : Bool) × (shape_and_check raw self
          ≡ some (payload, should_send)))
      × ((headers : Fields) × (headers_of d settings request self body (some secret) ≡ some headers)
          × (text_values headers ≡ true))
clean_prepares d settings self raw request body secret accepted allow_texts deny_texts
      header_texts =
    let (dict, allow_list, deny_list, https) = clean-accepts self accepted in
    let (allowlist, allow) = paths-total self.pii_allowlist allow_list allow_texts in
    let (denylist, deny) = paths-total self.pii_denylist deny_list deny_texts in
    (
      (_, _, shape_and_check_lem raw self allowlist denylist allow deny),
      headers_of-text_values d settings request self body secret dict header_texts,
    )
