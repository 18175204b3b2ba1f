-- ===== src/Witness/Plugin.antt =====
-- The settings, the purge command, the secrets' store and displays, and the serialization.
use openedx_webhook_relay.Base.{
  ℕ, ◌+◌, ◌≡◌, ◌≢◌, ◌⊎◌, refl, Bool, true, false, some, none, List, [], ◌∷◌, length, num_length,
}
use openedx_webhook_relay.Base.Int.{pos}
use openedx_webhook_relay.Json.{obj, Fields, end, field}
use openedx_webhook_relay.Json.Dumps.Order.{SameFields, swap}
use openedx_webhook_relay.Security.Signing.{serialize_payload, sign_payload, payload_fingerprint}
use openedx_webhook_relay.Security.Signing.Determined.{serialize_payload_order}
use openedx_webhook_relay.Settings.Plugin.{plugin_settings}
use openedx_webhook_relay.Models.{Attempt}
use openedx_webhook_relay.Encryption.Mask.{secret_status, secret_status-hides}
use openedx_webhook_relay.Retention.{
  cutoff_of, resolve_retention_days, purge_old_delivery_attempts_task,
}
use openedx_webhook_relay.Retention.Command.{Options, none_older, would_delete, deleted, handle}
use openedx_webhook_relay.Retention.Command.Reported.{handle-preview}
use openedx_webhook_relay.Tasks.Deliver.{deliver_webhook}
use openedx_webhook_relay.Tasks.Registered.{plugin_settings-same}
use openedx_webhook_relay.Examples.{
  digests, client, settings, endpoint, request, world, answered, attempt, data_fields, metadata,
  raw_payload,
}

abbrev rows : List Attempt
rows = attempt 1000 ∷ attempt 172800000000 ∷ []

abbrev asked_for : Bool → Options
asked_for confirmed = record { days = some (pos 1); status = none; confirmed = confirmed }

handle-preview_example :
    ((handle settings 172800001000 (asked_for false) rows).1 ≡ rows)
    × ((((handle settings 172800001000 (asked_for false) rows).0
            ≡ none_older (resolve_retention_days settings (some (pos 1))))
          × (handle settings 172800001000 (asked_for true) rows
              ≡ handle settings 172800001000 (asked_for false) rows))
        ⊎ ((n : ℕ) × (n ≢ 0)
            × ((handle settings 172800001000 (asked_for false) rows).0
                ≡ would_delete n
                    (resolve_retention_days settings (some (pos 1)))
                    (cutoff_of 172800001000 (resolve_retention_days settings (some (pos 1)))))
            × ((handle settings 172800001000 (asked_for true) rows).0 ≡ deleted n)
            × (length (handle settings 172800001000 (asked_for true) rows).1 + n ≡ length rows)))
handle-preview_example = handle-preview settings 172800001000 (some (pos 1)) none rows

plugin_settings-same_example :
    (deliver_webhook digests client 0 false (plugin_settings settings) (answered 503) request world
      ≡ deliver_webhook digests client 0 false settings (answered 503) request world)
    × (purge_old_delivery_attempts_task (plugin_settings settings) 172800001000 rows
        ≡ purge_old_delivery_attempts_task settings 172800001000 rows)
plugin_settings-same_example =
    plugin_settings-same digests client 0 false settings (answered 503) request world 172800001000
      rows

secret_status-hides_example :
    (secret_status (some (record endpoint { signing_secret = "alphacret" }))
      ≡ secret_status (some (record endpoint { signing_secret = "betcret" })))
    × (num_length (secret_status (some (record endpoint { signing_secret = "alphacret" }))) ≡ 12)
secret_status-hides_example =
    secret_status-hides (record endpoint { signing_secret = "alphacret" })
      (record endpoint { signing_secret = "betcret" }) "alpha" "bet" "cret" refl refl refl refl refl

abbrev reordered : Fields
reordered = field "event_metadata" (obj metadata) (field "Grade" (obj data_fields) end)

reorders : SameFields raw_payload reordered
reorders = swap refl

serialize_payload_order_example :
    (serialize_payload digests raw_payload ≡ serialize_payload digests reordered)
    × (sign_payload digests (serialize_payload digests raw_payload) "s3cret"
        ≡ sign_payload digests (serialize_payload digests reordered) "s3cret")
    × (payload_fingerprint digests raw_payload ≡ payload_fingerprint digests reordered)
serialize_payload_order_example =
    serialize_payload_order digests raw_payload reordered "s3cret" reorders
