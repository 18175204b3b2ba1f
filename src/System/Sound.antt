-- ===== src/System/Sound.antt =====
-- What holds of the plugin in every order of its operations.
use openedx_webhook_relay.Base.{
  ℕ, String, ◌+◌, ◌≤◌, ◌==◌, ◌⊎◌, ◌≡◌, refl, ap, subst, ◌∙◌, inl, inr, Bool, true, false, none,
  some, List, [], ◌∷◌, ◌++◌, map, arith, length, length-append, filter, filter-append, All,
  All-filter, All-weaker, Bool-cases, get_or,
}
use mathlib.Core.Option.{some-injective}
use openedx_webhook_relay.Base.Members.{length-filter}
use openedx_webhook_relay.Json.{Fields, Value, obj}
use openedx_webhook_relay.Settings.{Settings}
use openedx_webhook_relay.Models.{Endpoint, Attempt, find_row}
use openedx_webhook_relay.Models.Circuit.Consistent.{IsConsistent}
use openedx_webhook_relay.Secrets.{Client, set_secret}
use openedx_webhook_relay.Metrics.{Signal}
use openedx_webhook_relay.Retention.{
  is_due, cutoff_of, resolve_retention_days, purge_old_delivery_attempts,
  purge_old_delivery_attempts_task,
}
use openedx_webhook_relay.Receivers.{Event, request_for}
use openedx_webhook_relay.Redeliver.{Enqueued}
use openedx_webhook_relay.Admin.{Form, Cleaned, save_model}
use openedx_webhook_relay.Tasks.{Request, Ending, done, retry, raised}
use openedx_webhook_relay.System.Rows.{retries_told, is_retry_of}
use openedx_webhook_relay.System.Truthful.{IsTruthful}
use openedx_webhook_relay.System.Owned.{IsOwned}
use openedx_webhook_relay.System.Steps.{Platform, IsEdited, requests, add_request, after_ending}

-- A task that waits for its next run has announced each of its retries.
abbrev pub IsWarranted : List Signal → Request → Type 0
IsWarranted signals request = request.retries ≤ retries_told request signals

-- The rows of the two tables, the signals and the queue agree.
pub record IsSound (p : Platform) : Type 0 where
  pub consistent : All IsConsistent p.world.endpoints
  pub loaded_consistent : All IsConsistent p.loaded
  pub truthful : All IsTruthful p.world.attempts
  pub owned : All (IsOwned p.world.endpoints) p.world.attempts
  pub signalled : length p.world.attempts ≤ length p.world.emitted.signals
  pub warranted : All (IsWarranted p.world.emitted.signals) p.queue

pub fresh-IsWarranted :
    (signals : List Signal) (request : Request) → request.retries ≡ 0 → IsWarranted signals request
fresh-IsWarranted signals request fresh = omega (arith, fresh)

added-IsWarranted :
    (signals : List Signal) (payload : Value) (task : Enqueued) (rest : List Request)
    → All (IsWarranted signals) rest
    → All (IsWarranted signals) (add_request payload task rest)
added-IsWarranted signals (obj payload) task rest h = (omega arith, h)
added-IsWarranted signals payload task rest h = h

pub requests-IsWarranted :
    (signals : List Signal) (tasks : List Enqueued) → All (IsWarranted signals) (requests tasks)
requests-IsWarranted signals [] = tt
requests-IsWarranted signals (task ∷ tasks) =
    added-IsWarranted signals task.payload task _ (requests-IsWarranted signals tasks)

pub events-IsWarranted :
    (signals : List Signal) (event_name : String) (event : Event) (correlation_id : String)
    (rows : List Endpoint)
    → All (IsWarranted signals) (map (request_for event_name event correlation_id) rows)
events-IsWarranted signals event_name event correlation_id [] = tt
events-IsWarranted signals event_name event correlation_id (row ∷ rows) =
    (omega arith, events-IsWarranted signals event_name event correlation_id rows)

retries_told-append :
    (request : Request) (signals more : List Signal)
    → retries_told request (signals ++ more)
      ≡ retries_told request signals + retries_told request more
retries_told-append request signals more =
    ap length (filter-append (is_retry_of request) signals more)
    ∙ length-append (filter (is_retry_of request) signals) (filter (is_retry_of request) more)

pub later-IsWarranted :
    (signals more : List Signal) (queue : List Request)
    → All (IsWarranted signals) queue
    → All (IsWarranted (signals ++ more)) queue
later-IsWarranted signals more queue h =
    All-weaker _ (IsWarranted (signals ++ more)) queue
      (λ request told. omega (arith, told, retries_told-append request signals more)) h

pub retry-IsWarranted :
    (ending : Ending) (request : Request) (carried : Fields) (signals more : List Signal)
    → IsWarranted signals request
    → ((n : ℕ) → ending ≡ retry n → retries_told request more ≡ 1)
    → All (IsWarranted (signals ++ more)) (after_ending ending request carried)
retry-IsWarranted done request carried signals more told one = tt
retry-IsWarranted raised request carried signals more told one = tt
retry-IsWarranted (retry n) request carried signals more told one =
    (omega (arith, told, one n refl, retries_told-append request signals more), tt)

-- Saving a form writes secrets, not the circuit.
pub save_model-circuit :
    (client : Client) (settings : Settings) (boto3_installed : Bool) (form : Form)
    (cleaned : Cleaned) (edited saved : Endpoint) (store store' : client.Store)
    → save_model client settings boto3_installed form cleaned edited store ≡ some (saved, store')
    → (saved.circuit_state ≡ edited.circuit_state)
      × (saved.circuit_opened_at ≡ edited.circuit_opened_at)
unfolding save_model set_secret
save_model-circuit client settings boto3_installed form cleaned edited saved store store' h =
    ground (arith, h)

pub edited-IsConsistent :
    (row edited saved : Endpoint)
    → IsEdited row edited
    → (saved.circuit_state ≡ edited.circuit_state)
      × (saved.circuit_opened_at ≡ edited.circuit_opened_at)
    → IsConsistent row
    → IsConsistent saved
edited-IsConsistent row edited saved edit same h =
    rw (same.0, same.1, edit.same_circuit, edit.same_opening) h

pub find_row-All :
    (P : Endpoint → Type 0) (rows : List Endpoint) (pk : ℕ) (row : Endpoint)
    → All P rows
    → find_row rows pk ≡ some row
    → P row
unfolding find_row
find_row-All P [] pk row h found = absurd (cc)
find_row-All P (first ∷ rest) pk row h found = elim (Bool-cases (first.pk == pk)) [
  | inl e ↦ subst P (some-injective _ _ (rw e at found)) h.0
  | inr e ↦ find_row-All P rest pk row h.1 (rw e at found)
]

-- The scheduled task deletes rows, whatever it answers.
pub IsPart : List Attempt → List Attempt → Type 0
IsPart part rows = (part ≡ rows) ⊎ ((test : Attempt → Bool) × (part ≡ filter test rows))

purge-IsPart :
    (settings : Settings) (now : ℕ) (rows : List Attempt)
    → IsPart (purge_old_delivery_attempts settings now none none false rows).1 rows
unfolding IsPart purge_old_delivery_attempts
purge-IsPart settings now rows =
    elim (Bool-cases (
      length (filter (is_due (cutoff_of now (resolve_retention_days settings none)) none) rows)
      == 0)) [ inl e ↦ rw e (inl refl) | inr e ↦ rw e (inr (_, refl)) ]

pub purge_task-IsPart :
    (settings : Settings) (now : ℕ) (rows : List Attempt)
    → IsPart (purge_old_delivery_attempts_task settings now rows).1 rows
unfolding IsPart purge_old_delivery_attempts_task
purge_task-IsPart settings now rows = elim (Bool-cases (get_or settings.auto_purge_enabled true)) [
  | inl e ↦ rw e (unfold IsPart in purge-IsPart settings now rows)
  | inr e ↦ rw e (inl refl)
]

pub IsPart-All :
    (P : Attempt → Type 0) (part rows : List Attempt)
    → IsPart part rows
    → All P rows
    → All P part × (length part ≤ length rows)
unfolding IsPart
IsPart-All P part rows (inl e) h = rw e (h, omega arith)
IsPart-All P part rows (inr (test, e)) h =
    rw e (All-filter P test rows h, omega (arith, length-filter test rows))
