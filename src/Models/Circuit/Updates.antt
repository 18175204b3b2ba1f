-- ===== src/Models/Circuit/Updates.antt =====
-- The breaker's methods write by four UPDATE statements: a relation between two tables that each of
-- these keeps is kept by the methods.
use openedx_webhook_relay.Base.{
  ℕ, ◌≡◌, sym, subst, inl, inr, ◌⊎◌, some, List, arith, leb, Bool-cases, Option-cases,
}
use openedx_webhook_relay.Models.{Endpoint, update_rows, every_row}
use openedx_webhook_relay.Models.Circuit.{
  is_open, set_half_open, set_closed, set_open, add_failure, take_trial, acquire_open,
  try_acquire_delivery_slot, record_circuit_success, count_failure, open_if_past,
  record_circuit_failure,
}

-- Updates of the rows with a key of which `P` holds are in `R`.
pub record KeepsUpdates (P : ℕ → Type 0) (R : List Endpoint → List Endpoint → Type 0) : Type 0 where
  pub same : (rows : List Endpoint) → R rows rows
  pub chain : (a b c : List Endpoint) → R a b → R b c → R a c
  pub half_opens :
      (pk : ℕ) (rows : List Endpoint) → P pk → R rows (update_rows pk is_open set_half_open rows)
  pub closes :
      (pk : ℕ) (rows : List Endpoint) → P pk → R rows (update_rows pk every_row set_closed rows)
  pub counts :
      (pk : ℕ) (rows : List Endpoint) → P pk → R rows (update_rows pk every_row add_failure rows)
  pub opens :
      (pk now : ℕ) (rows : List Endpoint)
      → P pk
      → R rows (update_rows pk every_row (set_open now) rows)

slot_cases :
    (now : ℕ) (self : Endpoint) (rows : List Endpoint)
    → ((try_acquire_delivery_slot now self rows).rows ≡ rows)
      ⊎ ((try_acquire_delivery_slot now self rows).rows
          ≡ update_rows self.pk is_open set_half_open rows)
unfolding try_acquire_delivery_slot acquire_open take_trial
slot_cases now self rows = ground arith

counted :
    (self self' : Endpoint) (rows after : List Endpoint)
    → count_failure self rows ≡ some (self', after)
    → (after ≡ update_rows self.pk every_row add_failure rows) × (self'.pk ≡ self.pk)
unfolding count_failure
counted self self' rows after ran = ground arith

some_second : {p q : Endpoint × List Endpoint} → some p ≡ some q → p.1 ≡ q.1
some_second h = cc

module _ (P : ℕ → Type 0) (R : List Endpoint → List Endpoint → Type 0) (keeps : KeepsUpdates P R)
    (self : Endpoint) (holds : P self.pk) where
  pub slot-KeepsUpdates :
      (now : ℕ) (rows : List Endpoint) → R rows (try_acquire_delivery_slot now self rows).rows
  slot-KeepsUpdates now rows = elim (slot_cases now self rows) [
    | inl e ↦ rw e (keeps.same rows)
    | inr e ↦ rw e (keeps.half_opens self.pk rows holds)
  ]

  pub success-KeepsUpdates : (rows : List Endpoint) → R rows (record_circuit_success self rows).1
  unfolding record_circuit_success
  success-KeepsUpdates rows = keeps.closes self.pk rows holds

  opened-KeepsUpdates :
      (now : ℕ) (counted : Endpoint) (rows : List Endpoint)
      → counted.pk ≡ self.pk
      → R rows (open_if_past now counted rows).1
  unfolding open_if_past
  opened-KeepsUpdates now counted rows same =
      elim (Bool-cases
        (leb counted.circuit_breaker_failure_threshold counted.consecutive_failures)) [
          | inl e ↦ rw e (keeps.opens counted.pk now rows (subst P (sym same) holds))
          | inr e ↦ rw e (keeps.same rows)
        ]

  pub failure-KeepsUpdates :
      (now : ℕ) (self' : Endpoint) (rows after : List Endpoint)
      → record_circuit_failure now self rows ≡ some (self', after)
      → R rows after
  unfolding record_circuit_failure
  failure-KeepsUpdates now self' rows after ran = elim (Option-cases (count_failure self rows)) [
    | inl gone ↦ absurd (cc (rw (record_circuit_failure, gone) at ran))
    | inr ((loaded, mid), e) ↦
        let (mid_is, same) = counted self loaded rows mid e in
        rw⁻¹ (some_second (rw (record_circuit_failure, e) at ran)) (
          keeps.chain rows mid _ (subst (R rows) (sym mid_is) (keeps.counts self.pk rows holds))
            (opened-KeepsUpdates now loaded mid same))
  ]
