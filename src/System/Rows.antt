-- ===== src/System/Rows.antt =====
-- What every audit row that a run writes says.
use openedx_webhook_relay.Base.{
  ℕ, ◌≡◌, ◌≢◌, refl, ap, sym, ◌∙◌, inl, inr, Bool, true, ◌&&◌, List, [], ◌∷◌, ◌++◌, arith, ◌==◌,
  ==_iff, str_eq, str_eq_iff, filter, length, append_nil, All, if◌then◌else◌, Option-cases,
}
use openedx_webhook_relay.Json.{Fields}
use openedx_webhook_relay.Security.Signing.{Digests}
use openedx_webhook_relay.Settings.{Settings}
use openedx_webhook_relay.Models.{
  Attempt, retrying, skipped, circuit_open, same_status, Endpoint, find_row,
}
use openedx_webhook_relay.Secrets.{Client}
use openedx_webhook_relay.Metrics.{Signal, Emitted}
use openedx_webhook_relay.Tasks.{Request, World, Moment, Ending, done, retry, raised}
use openedx_webhook_relay.Tasks.Shape.{shape_and_check}
use openedx_webhook_relay.Tasks.Record.{Outcome, signal_of, attempt_row}
use openedx_webhook_relay.Tasks.Deliver.{Delivery, if_enabled, deliver_webhook}
use openedx_webhook_relay.Tasks.Audit.{Logged, Told, row_of}
use openedx_webhook_relay.Models.Rows.{find_row-pk}
use openedx_webhook_relay.Tasks.Writes.{if_enabled_lem}
use openedx_webhook_relay.Tasks.Runs.{Ran, silent, sent, crashed, delivery_of, deliver_webhook-Ran}
use openedx_webhook_relay.System.Owned.{IsOwned, has_row}
use openedx_webhook_relay.System.Truthful.{
  IsTruthful, fitting_code, own_row, own_row-IsTruthful, sent_status, skip_not_success,
}

-- A signal that an attempt of the request is to be retried, and how many of them there are.
abbrev pub is_retry_of : Request → Signal → Bool
is_retry_of request signal =
    same_status signal.status retrying
    && (signal.endpoint_id == request.endpoint_id
        && (str_eq signal.event request.event
            && str_eq signal.correlation_id request.correlation_id))

abbrev pub retries_told : Request → List Signal → ℕ
retries_told request signals = length (filter (is_retry_of request) signals)

-- A run adds one truthful row, of an endpoint that is there, and one signal, or neither; one that
-- asks for a retry has told so.
pub record Adds (request : Request) (w : World) (r : Ending × World) : Type 0 where
  pub new_rows : List Attempt
  pub new_signals : List Signal
  pub rows_added : r.1.attempts ≡ w.attempts ++ new_rows
  pub signals_added : r.1.emitted.signals ≡ w.emitted.signals ++ new_signals
  pub one_each : length new_rows ≡ length new_signals
  pub truthful : All IsTruthful new_rows
  pub owned : All (IsOwned w.endpoints) new_rows
  pub told : (n : ℕ) → r.0 ≡ retry n → retries_told request new_signals ≡ 1

append_nothing {ℓ} : {A : Type ℓ} (xs ys : List A) → ys ≡ xs → ys ≡ xs ++ []
append_nothing xs ys h = h ∙ sym (append_nil xs)

Adds-nothing :
    (request : Request) (w : World) (r : Ending × World)
    → ((n : ℕ) → r.0 ≢ retry n)
    → r.1.attempts ≡ w.attempts
    → r.1.emitted ≡ w.emitted
    → Adds request w r
Adds-nothing request w r ends rows signals = record {
  new_rows = [];
  new_signals = [];
  rows_added = append_nothing w.attempts r.1.attempts rows;
  signals_added =
      append_nothing w.emitted.signals r.1.emitted.signals
        (ap (λ (x : Emitted). x.signals) signals);
  one_each = refl;
  truthful = tt;
  owned = tt;
  told = λ n e. absurd (ends n e);
}

told_lem :
    (endpoint : Endpoint) (request : Request) (outcome : Outcome)
    → endpoint.pk ≡ request.endpoint_id
    → outcome.status ≡ retrying
    → is_retry_of request (signal_of endpoint request outcome) ≡ true
told_lem endpoint request outcome own status =
    rw (status, own)
      (ground (
        arith,
        ==_iff request.endpoint_id request.endpoint_id,
        str_eq_iff request.event request.event,
        str_eq_iff request.correlation_id request.correlation_id,
      ))

Adds-one :
    (m : Moment) (v : Delivery) (w : World) (r : Ending × World) (outcome : Outcome)
    → v.endpoint.pk ≡ v.request.endpoint_id
    → has_row w.endpoints v.request.endpoint_id ≡ true
    → Logged m v w r.1 outcome
    → Told r.0 outcome
    → IsTruthful (row_of m v outcome)
    → Adds v.request w r
unfolding attempt_row
Adds-one m v w r outcome own there logged told truth = record {
  new_rows = row_of m v outcome ∷ [];
  new_signals = signal_of v.endpoint v.request outcome ∷ [];
  rows_added = logged.one_row;
  signals_added = logged.one_signal;
  one_each = refl;
  truthful = (truth, tt);
  owned = (rw own there, tt);
  told = λ n e. rw (told_lem v.endpoint v.request outcome own (told n e)) refl;
}

done_apart : {ending : Ending} → ending ≡ done → (n : ℕ) → ending ≢ retry n
done_apart h n e = cc

raised_apart : {ending : Ending} → ending ≡ raised → (n : ℕ) → ending ≢ retry n
raised_apart h n e = cc

module _ (d : Digests) (m : Moment) (request : Request) (endpoint : Endpoint) (payload : Fields)
    (should_send : Bool) (w : World) (r : Ending × World) (own : endpoint.pk ≡ request.endpoint_id)
    (there : has_row w.endpoints request.endpoint_id ≡ true) where
  Ran-Adds :
      Ran d m
        (delivery_of d request endpoint payload)
        (if should_send then circuit_open else skipped)
        w
        r
      → Adds request w r
  unfolding own_row
  Ran-Adds (silent e outcome same status empty uncoded logged quiet ends) =
      Adds-one m _ w r outcome (same.same_pk ∙ own) there logged
        (λ n p. absurd (done_apart ends n p))
        (own_row-IsTruthful d m request endpoint e payload outcome (record {
          fair_accepted = λ p. absurd (skip_not_success should_send (sym status ∙ p));
          fair_unsent = λ p. uncoded;
          fair_gated = λ p. uncoded;
        }))
  Ran-Adds (sent e outcome post same fits logged body posts told) =
      let (not_skipped, not_gated) = sent_status _ _ m.reply outcome.status fits.promised in
      Adds-one m _ w r outcome (same.same_pk ∙ own) there logged told (
        own_row-IsTruthful d m request endpoint e payload outcome (record {
          fair_accepted =
              fitting_code _ _ m.reply outcome.status outcome.http_status_code fits.promised
                fits.coded;
          fair_unsent = λ p. absurd (not_skipped p);
          fair_gated = λ p. absurd (not_gated p);
        }))
  Ran-Adds (crashed ending attempts emitted posts) =
      Adds-nothing request w r (raised_apart ending) attempts emitted

module _ (d : Digests) (client : Client) (store : client.Store) (boto3_installed : Bool)
    (settings : Settings) (m : Moment) (request : Request) (w : World) where
  pub deliver_webhook-Adds :
      Adds request w (deliver_webhook d client store boto3_installed settings m request w)
  unfolding deliver_webhook
  deliver_webhook-Adds =
      elim (Option-cases (if_enabled (find_row w.endpoints request.endpoint_id))) [
        | inl gone ↦ rw gone (Adds-nothing request w (done, w) (done_apart refl) refl refl)
        | inr (endpoint, found) ↦
            elim (Option-cases (shape_and_check request.raw_payload endpoint)) [
              | inl raises ↦
                  rw (found, raises)
                    (Adds-nothing request w (raised, w) (raised_apart refl) refl refl)
              | inr ((payload, should_send), shaped) ↦
                  Ran-Adds d m request endpoint payload should_send w _
                    (find_row-pk w.endpoints request.endpoint_id (if_enabled_lem _ endpoint found))
                    (rw (if_enabled_lem _ endpoint found) refl)
                    (deliver_webhook-Ran d client store boto3_installed settings m request w
                      endpoint payload should_send found shaped)
            ]
      ]
