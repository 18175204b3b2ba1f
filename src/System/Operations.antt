-- ===== src/System/Operations.antt =====
-- Each operation keeps the plugin sound.
use openedx_webhook_relay.Base.{
  ℕ, ◌+◌, ◌≤◌, ◌≡◌, Bool, some, List, [], ◌∷◌, ◌++◌, arith, length, length-append, All, All-append,
  All-append_parts, Bool-cases, is_some, inl, inr,
}
use openedx_webhook_relay.Json.{Fields}
use openedx_webhook_relay.Security.Signing.{Digests}
use openedx_webhook_relay.Settings.{Settings}
use openedx_webhook_relay.Models.{Endpoint, Attempt, find_row, every_row}
use openedx_webhook_relay.Models.Circuit.Consistent.{
  IsConsistent, update_rows-All, keeps_IsConsistent,
}
use openedx_webhook_relay.Secrets.{Client}
use openedx_webhook_relay.Retention.{purge_old_delivery_attempts_task}
use openedx_webhook_relay.Tasks.{Request, Moment}
use openedx_webhook_relay.Tasks.Deliver.{deliver_webhook}
use openedx_webhook_relay.Tasks.Writes.{deliver_webhook-kept}
use openedx_webhook_relay.System.Rows.{deliver_webhook-Adds}
use openedx_webhook_relay.System.Truthful.{IsTruthful}
use openedx_webhook_relay.System.Owned.{
  IsOwned, KeepsKeys, KeepsKeys-IsOwned, keeps_KeepsKeys, append-KeepsKeys, save_row-KeepsKeys,
}
use openedx_webhook_relay.System.Steps.{Platform, after_ending, save_row}
use openedx_webhook_relay.System.Sound.{
  IsWarranted, IsSound, later-IsWarranted, retry-IsWarranted, find_row-All, purge_task-IsPart,
  IsPart-All,
}

pub more_queue :
    (p : Platform) (more : List Request)
    → IsSound p
    → All (IsWarranted p.world.emitted.signals) more
    → IsSound (record p { queue = p.queue ++ more })
more_queue p more sound added = record {
  consistent = sound.consistent;
  loaded_consistent = sound.loaded_consistent;
  truthful = sound.truthful;
  owned = sound.owned;
  signalled = sound.signalled;
  warranted = All-append _ p.queue more sound.warranted added;
}

more_rows :
    (rows new : List Attempt) (n k : ℕ)
    → length rows ≤ n
    → length new ≡ k
    → length (rows ++ new) ≤ n + k
more_rows rows new n k h e = omega (arith, h, e, length-append rows new)

save_row-All :
    (P : Endpoint → Type 0) (saved : Endpoint) (rows : List Endpoint)
    → P saved
    → All P rows
    → All P (save_row saved rows)
unfolding save_row
save_row-All P saved rows holds h = elim (Bool-cases (is_some (find_row rows saved.pk))) [
  | inl e ↦ rw e (update_rows-All P saved.pk every_row (λ r. saved) rows (λ r was there. holds) h)
  | inr e ↦ rw e (All-append P rows (saved ∷ []) h (holds, tt))
]

pub saved-IsSound :
    (p : Platform) (before after : List Endpoint) (row saved : Endpoint)
    → p.loaded ≡ before ++ row ∷ after
    → (IsConsistent row → IsConsistent saved)
    → IsSound p
    → IsSound (record p {
      world = record p.world { endpoints = save_row saved p.world.endpoints };
      loaded = before ++ after;
    })
saved-IsSound p before after row saved loads keeps sound =
    let (early, others) =
      All-append_parts IsConsistent before (row ∷ after) (rw loads at sound.loaded_consistent) in
    record {
      consistent =
          save_row-All IsConsistent saved p.world.endpoints (keeps others.0) sound.consistent;
      loaded_consistent = All-append IsConsistent before after early others.1;
      truthful = sound.truthful;
      owned =
          KeepsKeys-IsOwned p.world.endpoints _ p.world.attempts
            (save_row-KeepsKeys saved p.world.endpoints) sound.owned;
      signalled = sound.signalled;
      warranted = sound.warranted;
    }

pub created-IsSound :
    (p : Platform) (row : Endpoint)
    → IsConsistent row
    → IsSound p
    → IsSound (record p { world = record p.world { endpoints = p.world.endpoints ++ row ∷ [] } })
created-IsSound p row fits sound = record {
  consistent = All-append IsConsistent p.world.endpoints (row ∷ []) sound.consistent (fits, tt);
  loaded_consistent = sound.loaded_consistent;
  truthful = sound.truthful;
  owned =
      KeepsKeys-IsOwned p.world.endpoints _ p.world.attempts
        (append-KeepsKeys p.world.endpoints (row ∷ [])) sound.owned;
  signalled = sound.signalled;
  warranted = sound.warranted;
}

pub rotated-IsSound :
    (p : Platform) (rows : List Endpoint)
    → IsSound p
    → All IsConsistent rows
    → KeepsKeys p.world.endpoints rows
    → IsSound (record p { world = record p.world { endpoints = rows } })
rotated-IsSound p rows sound fits keeps = record {
  consistent = fits;
  loaded_consistent = sound.loaded_consistent;
  truthful = sound.truthful;
  owned = KeepsKeys-IsOwned p.world.endpoints rows p.world.attempts keeps sound.owned;
  signalled = sound.signalled;
  warranted = sound.warranted;
}

pub begun-IsSound :
    (p : Platform) (pk : ℕ) (row : Endpoint)
    → find_row p.world.endpoints pk ≡ some row
    → IsSound p
    → IsSound (record p { loaded = row ∷ p.loaded })
begun-IsSound p pk row found sound = record {
  consistent = sound.consistent;
  loaded_consistent = (
    find_row-All IsConsistent p.world.endpoints pk row sound.consistent found,
    sound.loaded_consistent,
  );
  truthful = sound.truthful;
  owned = sound.owned;
  signalled = sound.signalled;
  warranted = sound.warranted;
}

module _ (d : Digests) (client : Client) (boto3_installed : Bool) (settings : Settings) where
  pub run-IsSound :
      (p : Platform) (store : client.Store) (m : Moment) (before after : List Request)
      (request : Request) (carried : Fields)
      → p.queue ≡ before ++ request ∷ after
      → IsSound p
      → IsSound (record p {
        world = (deliver_webhook d client store boto3_installed settings m request p.world).1;
        queue =
            before
            ++ (after
                ++ after_ending
                    (deliver_webhook d client store boto3_installed settings m request p.world).0
                    request
                    carried);
      })
  run-IsSound p store m before after request carried waits sound =
      let r = deliver_webhook d client store boto3_installed settings m request p.world in
      let adds = deliver_webhook-Adds d client store boto3_installed settings m request p.world in
      let signals = p.world.emitted.signals in
      let (early, others) =
        All-append_parts (IsWarranted signals) before (request ∷ after)
          (rw waits at sound.warranted) in
      record {
        consistent =
            deliver_webhook-kept _ _ keeps_IsConsistent settings m d client store boto3_installed
              request p.world tt sound.consistent;
        loaded_consistent = sound.loaded_consistent;
        truthful =
            rw adds.rows_added
              (All-append IsTruthful p.world.attempts adds.new_rows sound.truthful adds.truthful);
        owned = rw adds.rows_added (
            KeepsKeys-IsOwned p.world.endpoints r.1.endpoints (p.world.attempts ++ adds.new_rows)
              (deliver_webhook-kept _ _ keeps_KeepsKeys settings m d client store boto3_installed
                request p.world tt)
              (All-append (IsOwned p.world.endpoints) p.world.attempts adds.new_rows sound.owned
                adds.owned));
        signalled =
            rw (adds.rows_added, adds.signals_added, length-append signals adds.new_signals)
              (more_rows p.world.attempts adds.new_rows _ _ sound.signalled adds.one_each);
        warranted = rw adds.signals_added (
            All-append _ before _ (later-IsWarranted signals adds.new_signals before early) (
              All-append _ after _ (later-IsWarranted signals adds.new_signals after others.1) (
                retry-IsWarranted r.0 request carried signals adds.new_signals others.0
                  adds.told)));
      }

module _ (settings : Settings) where
  pub purge-IsSound :
      (p : Platform) (now : ℕ)
      → IsSound p
      → IsSound (record p {
        world = record p.world {
          attempts = (purge_old_delivery_attempts_task settings now p.world.attempts).1;
        };
      })
  purge-IsSound p now sound =
      let (kept, fewer) =
        IsPart-All IsTruthful _ _ (purge_task-IsPart settings now p.world.attempts)
          sound.truthful in
      record {
        consistent = sound.consistent;
        loaded_consistent = sound.loaded_consistent;
        truthful = kept;
        owned =
            (IsPart-All (IsOwned p.world.endpoints) _ _
              (purge_task-IsPart settings now p.world.attempts) sound.owned).0;
        signalled = omega (arith, fewer, sound.signalled);
        warranted = sound.warranted;
      }
