-- ===== src/Migrations/Shared.antt =====
-- Endpoints that were there before the second migration share one secret in an external store.
use mathlib.Core.List.{Memᴰ}
use openedx_webhook_relay.Base.{
  String, ◌≡◌, ◌≢◌, ap, sym, ◌∙◌, Bool, false, some, List, [], ◌∷◌, map, str_eq,
}
use openedx_webhook_relay.Settings.{Settings}
use openedx_webhook_relay.Models.{Endpoint}
use openedx_webhook_relay.Secrets.{
  Client, aws_secrets_manager, get_secret_backend, secret_name, set_secret, effective_secret,
}
use openedx_webhook_relay.Secrets.Stored.{set_current, reads_current}
use openedx_webhook_relay.Secrets.Documented.{Documented, scheduled}
use openedx_webhook_relay.Migrations.{OldEndpoint, OldAttempt, migrate_endpoint, migrate_tables}

migrated_references :
    (reference : String) (endpoints : List OldEndpoint) (row : Endpoint)
    → Memᴰ row (map (migrate_endpoint reference) endpoints)
    → row.secret_backend_reference ≡ reference
unfolding migrate_endpoint
migrated_references reference [] row among = elim among [ ]
migrated_references reference (old ∷ olds) row (Memᴰ.head p) =
    ap (λ (r : Endpoint). r.secret_backend_reference) p
migrated_references reference (old ∷ olds) row (Memᴰ.tail among) =
    migrated_references reference olds row among

-- If secrets are kept in AWS, whose client does as documented, and the secret's name is not scheduled
-- for deletion, then after the second migration a secret that is set for one of the endpoints that
-- were there is the secret that each of the others signs with: they have the one reference to which
-- the default of the new column was evaluated.
pub migrated_share_secret :
    (client : Client) (settings : Settings) (boto3_installed : Bool) (reference : String)
    (endpoints : List OldEndpoint) (attempts : List OldAttempt) (store : client.Store)
    (row other : Endpoint) (name plaintext : String) (documented : Documented client)
    → get_secret_backend settings boto3_installed ≡ some aws_secrets_manager
    → str_eq reference "" ≡ false
    → str_eq plaintext "" ≡ false
    → secret_name settings row ≡ some name
    → documented.standing store name ≢ scheduled
    → Memᴰ row (migrate_tables reference endpoints attempts).0
    → Memᴰ other (migrate_tables reference endpoints attempts).0
    → (after : Endpoint) × (store' : client.Store) × (set_secret client settings aws_secrets_manager
          store row plaintext
        ≡ some (after, store'))
      × (effective_secret client settings boto3_installed store' other ≡ some plaintext)
unfolding migrate_tables secret_name
migrated_share_secret client settings boto3_installed reference endpoints attempts store row other
      name plaintext documented aws named new is_name free among other_among =
    let same = migrated_references reference endpoints row among in
    let other_same = migrated_references reference endpoints other other_among in
    let (store', ran, stands) =
      set_current client settings documented boto3_installed store row name plaintext is_name new
        free in
    (
      row,
      store',
      ran,
      reads_current client settings documented boto3_installed store' other name plaintext aws
          (rw (other_same ∙ sym same) is_name) (rw other_same named) new stands,
    )
