-- ===== src/Tasks/Isolation.antt =====
-- A run writes to the row of its own endpoint only.
use openedx_webhook_relay.Base.{ℕ, ◌≡◌, refl, ◌∙◌, Bool, false, List, ◌==◌}
use openedx_webhook_relay.Security.Signing.{Digests}
use openedx_webhook_relay.Settings.{Settings}
use openedx_webhook_relay.Models.{Endpoint, find_row, every_row}
use openedx_webhook_relay.Models.Rows.{find_row-update_other}
use openedx_webhook_relay.Models.Circuit.{is_open, set_half_open, set_closed, set_open, add_failure}
use openedx_webhook_relay.Secrets.{Client}
use openedx_webhook_relay.Tasks.{Request, World, Moment}
use openedx_webhook_relay.Tasks.Deliver.{deliver_webhook}
use openedx_webhook_relay.Models.Circuit.Updates.{KeepsUpdates}
use openedx_webhook_relay.Tasks.Writes.{deliver_webhook-kept}

-- The row with the key `other` is the same in both tables.
abbrev Same : ℕ → List Endpoint → List Endpoint → Type 0
Same other rows rows' = find_row rows' other ≡ find_row rows other

module _ (other : ℕ) where
  keeps_others : KeepsUpdates (λ pk. (pk == other) ≡ false) (Same other)
  keeps_others = record {
    same = λ rows. refl;
    chain = λ a b c p q. q ∙ p;
    half_opens = λ pk rows apart.
        find_row-update_other pk other is_open set_half_open rows (λ r. refl) apart;
    closes =
        λ pk rows apart. find_row-update_other pk other every_row set_closed rows (λ r. refl) apart;
    counts = λ pk rows apart.
        find_row-update_other pk other every_row add_failure rows (λ r. refl) apart;
    opens = λ pk now rows apart.
        find_row-update_other pk other every_row (set_open now) rows (λ r. refl) apart;
  }

module _ (d : Digests) (client : Client) (store : client.Store) (boto3_installed : Bool)
    (settings : Settings) (m : Moment) (other : ℕ) where
  -- However a run ends, each row of the endpoint table with another key than the request's is as it
  -- was: its circuit, its secrets and its settings.
  pub deliver_webhook-leaves :
      (request : Request) (w : World)
      → (request.endpoint_id == other) ≡ false
      → find_row
          (deliver_webhook d client store boto3_installed settings m request w).1.endpoints
          other
        ≡ find_row w.endpoints other
  deliver_webhook-leaves request w apart =
      deliver_webhook-kept (λ pk. (pk == other) ≡ false) (Same other) (keeps_others other) settings
        m d client store boto3_installed request w apart
