-- ===== src/Models/Validation.antt =====
-- `WebhookEndpoint.clean` of models.py.
use openedx_webhook_relay.Base.{
  Bool, true, false, not, ◌&&◌, Option, none, some, str_eq, is_some, strip_prefix, if◌then◌else◌,
}
use openedx_webhook_relay.Json.{Value, arr, obj, is_none}
use openedx_webhook_relay.Models.{Endpoint}

pub data FieldError : Type 0 where
  not_https headers_not_object allowlist_not_array denylist_not_array : FieldError

abbrev pub is_dict : Value → Bool
is_dict (obj m) = true
is_dict _ = false

abbrev pub is_list : Value → Bool
is_list (arr xs) = true
is_list _ = false

-- `none`: the endpoint is accepted.
unfoldable pub clean : Endpoint → Option FieldError
clean self =
    if not (str_eq self.webhook_url "") && not (is_some (strip_prefix "https://" self.webhook_url))
    then some not_https
    else if not (is_none self.custom_headers) && not (is_dict self.custom_headers)
    then some headers_not_object
    else if not (is_none self.pii_allowlist) && not (is_list self.pii_allowlist)
    then some allowlist_not_array
    else if not (is_none self.pii_denylist) && not (is_list self.pii_denylist)
    then some denylist_not_array
    else none
