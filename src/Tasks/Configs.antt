-- ===== src/Tasks/Configs.antt =====
-- The instance that a slot gives.
use openedx_webhook_relay.Base.{ℕ, ◌≡◌, ◌≢◌, refl, ◌⊎◌, inl, inr, List, arith}
use openedx_webhook_relay.Models.{Endpoint}
use openedx_webhook_relay.Models.Circuit.{take_trial, acquire_open, try_acquire_delivery_slot}
use openedx_webhook_relay.Tasks.{Reply, response, unreachable, broken}

pub Reply-cases : (reply : Reply) → (reply ≡ broken) ⊎ (reply ≢ broken)
Reply-cases broken = inl refl
Reply-cases (unreachable message) = inr (λ p. cc)
Reply-cases (response code text) = inr (λ p. cc)

-- The instance that a slot gives differs in the circuit's state only.
pub record SameConfig (e e' : Endpoint) : Type 0 where
  pub same_pk : e'.pk ≡ e.pk
  pub same_max : e'.max_retries ≡ e.max_retries
  pub same_retain : e'.retain_payload_snapshot ≡ e.retain_payload_snapshot

pub slot-SameConfig :
    (now : ℕ) (e : Endpoint) (rows : List Endpoint)
    → SameConfig e (try_acquire_delivery_slot now e rows).instance
unfolding try_acquire_delivery_slot acquire_open take_trial
slot-SameConfig now e rows = ground arith
