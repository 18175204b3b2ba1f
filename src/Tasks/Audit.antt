-- ===== src/Tasks/Audit.antt =====
-- What a run of the task leaves in the audit trail, the metrics and the network.
use openedx_webhook_relay.Base.{
  ℕ, String, ◌≡◌, ◌≢◌, refl, inl, inr, ◌||◌, Option, none, some, [], ◌∷◌, ◌++◌, arith, ◌==◌, ltb,
  leb, if◌then◌else◌, Bool-cases,
}
use openedx_webhook_relay.Security.Signing.{take_text}
use openedx_webhook_relay.Settings.{Settings}
use openedx_webhook_relay.Models.{Attempt, Status, succeeded, retrying, exhausted}
use openedx_webhook_relay.Models.Circuit.{record_circuit_success}
use openedx_webhook_relay.Metrics.{emit_delivery_metric}
use openedx_webhook_relay.Tasks.{World, Reply, response, unreachable, broken, Moment, Ending, retry}
use openedx_webhook_relay.Tasks.Record.{Outcome, attempt_row, signal_of, record_attempt}
use openedx_webhook_relay.Tasks.Deliver.{
  Delivery, recorded, circuit_failure, fail_or_retry, after_reply,
}

abbrev pub row_of : Moment → Delivery → Outcome → Attempt
row_of m v outcome =
    attempt_row m.recorded_at v.endpoint v.request v.attempt_number v.fingerprint outcome

-- The run has written one row and one signal, of one outcome.
pub record Logged (m : Moment) (v : Delivery) (w w' : World) (outcome : Outcome) : Type 0 where
  pub one_row : w'.attempts ≡ w.attempts ++ row_of m v outcome ∷ []
  pub one_signal :
      w'.emitted.signals ≡ w.emitted.signals ++ signal_of v.endpoint v.request outcome ∷ []

module _ (settings : Settings) (m : Moment) (v : Delivery) where
  pub recorded-Logged :
      (outcome : Outcome) (w : World) → Logged m v w (recorded settings m v outcome w) outcome
  unfolding recorded record_attempt emit_delivery_metric
  recorded-Logged outcome w = record { one_row = refl; one_signal = refl }

  circuit_failure-Logged :
      (outcome : Outcome) (w w' : World)
      → Logged m v w w' outcome
      → Logged m v w (circuit_failure settings m v w').1 outcome
  unfolding circuit_failure
  circuit_failure-Logged outcome w w' h = ground arith

  circuit_failure_ends : (w : World) (n : ℕ) → (circuit_failure settings m v w).0 ≢ retry n
  unfolding circuit_failure
  circuit_failure_ends w n e = ground arith

-- The status that the task's docstring promises for a reply; `none` where nothing is recorded.
abbrev pub or_exhausted : ℕ → ℕ → Status
or_exhausted attempt_number max_retries =
    if ltb attempt_number max_retries then retrying else exhausted

abbrev pub status_for : ℕ → ℕ → Reply → Option Status
status_for attempt_number max_retries (unreachable message) =
    some (or_exhausted attempt_number max_retries)
status_for attempt_number max_retries broken = none
status_for attempt_number max_retries (response code text) =
    if code == 429 || leb 500 code
    then some (or_exhausted attempt_number max_retries)
    else if leb 400 code
    then some exhausted
    else some succeeded

-- The status code of a reply, if it has one.
abbrev pub code_of : Reply → Option ℕ
code_of (response code text) = some code
code_of _ = none

-- A run that asks for a retry has told so in its row.
abbrev pub Told : Ending → Outcome → Type 0
Told ending outcome = (n : ℕ) → ending ≡ retry n → outcome.status ≡ retrying

-- What holds of the outcome that a reply leads to.
pub record Fits (v : Delivery) (reply : Reply) (outcome : Outcome) : Type 0 where
  pub promised : status_for v.attempt_number v.endpoint.max_retries reply ≡ some outcome.status
  pub coded : outcome.http_status_code ≡ code_of reply
  pub own_payload : outcome.status ≡ exhausted → outcome.payload ≡ some v.payload

module _ (settings : Settings) (m : Moment) (v : Delivery) (w : World) where
  fail_or_retry-Logged :
      (code : Option ℕ) (message : String)
      → (outcome : Outcome) × Logged m v w (fail_or_retry settings m v code message w).1 outcome
        × (outcome.status ≡ or_exhausted v.attempt_number v.endpoint.max_retries)
        × (outcome.http_status_code ≡ code)
        × (outcome.status ≡ exhausted → outcome.payload ≡ some v.payload)
        × Told (fail_or_retry settings m v code message w).0 outcome
  unfolding fail_or_retry
  fail_or_retry-Logged code message =
      elim (Bool-cases (ltb v.attempt_number v.endpoint.max_retries)) [
        | inl e ↦ rw e (_, recorded-Logged settings m v _ w, refl, refl, λ p. cc, λ n p. refl)
        | inr e ↦ rw e (
          _,
          circuit_failure-Logged settings m v _ w _ (recorded-Logged settings m v _ w),
          refl,
          refl,
          λ p. refl,
          λ n p. absurd (circuit_failure_ends settings m v _ n p),
        )
      ]

  after_success :
      (outcome : Outcome)
      → Logged m v w (recorded settings m v outcome w) outcome
      → Logged m v w
          (record (recorded settings m v outcome w) {
            endpoints =
                (record_circuit_success v.endpoint (recorded settings m v outcome w).endpoints).1;
          })
          outcome
  after_success outcome h = record { one_row = h.one_row; one_signal = h.one_signal }

  pub after_reply-Logged :
      (reply : Reply)
      → reply ≢ broken
      → (outcome : Outcome) × Logged m v w (after_reply settings m v reply w).1 outcome
        × Fits v reply outcome
        × Told (after_reply settings m v reply w).0 outcome
  unfolding after_reply
  after_reply-Logged broken whole = absurd (whole refl)
  after_reply-Logged (unreachable message) whole =
      let (outcome, logged, status, code_is, own, told) = fail_or_retry-Logged none message in
      (outcome, logged, record { promised = cc; coded = code_is; own_payload = own }, told)
  after_reply-Logged (response code text) whole = elim (Bool-cases (leb 500 code || code == 429)) [
    | inl e ↦
        let (outcome, logged, status, code_is, own, told) =
          fail_or_retry-Logged (some code) (take_text 2000 text) in
        rw e (
          outcome,
          logged,
          record { promised = ground (arith, status); coded = code_is; own_payload = own },
          told,
        )
    | inr e ↦ elim (Bool-cases (leb 400 code)) [
      | inl e' ↦
          rw (e, e')
            (
              _,
              circuit_failure-Logged settings m v _ w _ (recorded-Logged settings m v _ w),
              record { promised = ground arith; coded = refl; own_payload = λ p. refl },
              λ n p. absurd (circuit_failure_ends settings m v _ n p),
            )
      | inr e' ↦
          rw (e, e')
            (
              _,
              after_success _ (recorded-Logged settings m v _ w),
              record { promised = ground arith; coded = refl; own_payload = λ p. cc },
              λ n p. absurd (cc),
            )
    ]
  ]
