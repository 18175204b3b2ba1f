-- ===== src/Models/Circuit/Race.antt =====
-- Several workers that loaded the endpoint while it was OPEN race for the trial delivery.
use openedx_webhook_relay.Base.{
  ℕ, ◌+◌, ◌*◌, ◌≡◌, refl, inl, inr, Bool, true, false, not, ◌&&◌, ◌||◌, Option, none, some, List,
  [], ◌∷◌, arith, ◌==◌, leb, ==_iff, if◌then◌else◌, Bool-cases, All,
}
use openedx_webhook_relay.Models.{opened, Endpoint, count_rows}
use openedx_webhook_relay.Models.Rows.{count_rows-update_rows}
use openedx_webhook_relay.Models.Circuit.{
  Slot, is_open, set_half_open, take_trial, acquire_open, try_acquire_delivery_slot,
}

-- A worker's call: the time of the call, and the instance that the worker loaded before.
pub record Call : Type 0 where
  pub now : ℕ
  pub self : Endpoint

-- How many of the calls, in the order of their statements at the database, get a slot.
pub slots_granted : List Call → List Endpoint → ℕ
slots_granted [] rows = 0
slots_granted (call ∷ calls) rows =
    let slot = try_acquire_delivery_slot call.now call.self rows in
    (if slot.granted then 1 else 0) + slots_granted calls slot.rows

-- The instance was loaded from the endpoint `pk` while its circuit was OPEN.
pub record LoadedOpen (pk : ℕ) (self : Endpoint) : Type 0 where
  pub same_pk : self.pk ≡ pk
  pub breaker_on : self.circuit_breaker_enabled ≡ true
  pub was_open : self.circuit_state ≡ opened
  pub opened_at : ℕ
  pub opened_at_is : self.circuit_opened_at ≡ some opened_at

-- The cooldown of the instance has passed at the time of the call.
abbrev pub cooled_down : Option ℕ → ℕ → ℕ → Bool
cooled_down none cooldown now = false
cooled_down (some opened_at) cooldown now = leb (opened_at + cooldown * 1000000) now

abbrev pub past_cooldown : Call → Bool
past_cooldown call =
    cooled_down call.self.circuit_opened_at call.self.circuit_breaker_cooldown_seconds call.now

abbrev pub any_past : List Call → Bool
any_past [] = false
any_past (call ∷ calls) = past_cooldown call || any_past calls

abbrev slot_of : Call → List Endpoint → Slot
slot_of call rows = try_acquire_delivery_slot call.now call.self rows

module _ (pk : ℕ) (call : Call) (rows : List Endpoint) (loaded : LoadedOpen pk call.self) where
  refused_once_taken :
      count_rows pk is_open rows ≡ 0
      → ((slot_of call rows).granted ≡ false) × ((slot_of call rows).rows ≡ rows)
  unfolding try_acquire_delivery_slot acquire_open take_trial
  refused_once_taken none_open = ground arith

  refused_while_hot :
      past_cooldown call ≡ false
      → ((slot_of call rows).granted ≡ false) × ((slot_of call rows).rows ≡ rows)
  unfolding try_acquire_delivery_slot acquire_open
  refused_while_hot hot = ground arith

  granted_and_taken :
      past_cooldown call ≡ true
      → (count_rows pk is_open rows == 0) ≡ false
      → ((slot_of call rows).granted ≡ true) × (count_rows pk is_open (slot_of call rows).rows ≡ 0)
  unfolding try_acquire_delivery_slot acquire_open take_trial
  granted_and_taken past one_open =
      ground
        (arith, count_rows-update_rows pk is_open set_half_open rows (λ row. refl) (λ row. refl))

module _ (pk : ℕ) where
  none_after_taken :
      (calls : List Call) (rows : List Endpoint)
      → All (λ (call : Call). LoadedOpen pk call.self) calls
      → count_rows pk is_open rows ≡ 0
      → slots_granted calls rows ≡ 0
  unfolding slots_granted
  none_after_taken [] rows loaded none_open = refl
  none_after_taken (call ∷ calls) rows loaded none_open =
      let (no_slot, same) = refused_once_taken pk call rows loaded.0 none_open in
      ground (
        arith,
        no_slot,
        none_after_taken calls (slot_of call rows).rows loaded.1 (rw same none_open),
      )

-- Whatever the order of the workers' statements, of all the workers that loaded the endpoint while
-- its circuit was OPEN exactly one gets a slot if some call comes past the cooldown and the row is
-- still OPEN, and no one does otherwise.
pub slots_granted_lem :
    (pk : ℕ) (calls : List Call) (rows : List Endpoint)
    → All (λ (call : Call). LoadedOpen pk call.self) calls
    → slots_granted calls rows
      ≡ (if any_past calls && not (count_rows pk is_open rows == 0) then 1 else 0)
unfolding slots_granted
slots_granted_lem pk [] rows loaded = refl
slots_granted_lem pk (call ∷ calls) rows loaded =
    elim (Bool-cases (count_rows pk is_open rows == 0)) [
      | inl e ↦ ground (arith, none_after_taken pk (call ∷ calls) rows loaded ((==_iff _ 0).0 e))
      | inr e ↦ elim (Bool-cases (past_cooldown call)) [
        | inl past ↦
            let (slot, taken) = granted_and_taken pk call rows loaded.0 past e in
            ground (arith, slot, none_after_taken pk calls (slot_of call rows).rows loaded.1 taken)
        | inr hot ↦
            let (no_slot, same) = refused_while_hot pk call rows loaded.0 hot in
            ground
              (arith, no_slot, slots_granted_lem pk calls (slot_of call rows).rows loaded.1, same)
      ]
    ]
