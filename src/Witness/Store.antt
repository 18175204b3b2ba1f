-- ===== src/Witness/Store.antt =====
-- AWS's store in memory, and secrets that are set in it.
use mathlib.Core.List.{Memᴰ}
use openedx_webhook_relay.Base.{
  ℕ, String, ◌≡◌, ◌≢◌, refl, true, some, [], ◌∷◌, str_eq, str_eq_iff, if◌then◌else◌,
}
use openedx_webhook_relay.Json.{arr, nil, obj, end}
use openedx_webhook_relay.Settings.{Settings}
use openedx_webhook_relay.Models.{Endpoint}
use openedx_webhook_relay.Secrets.{
  secret_name, returned, not_found, failed, Client, aws_secrets_manager, get_secret_backend,
  set_secret, effective_secret,
}
use openedx_webhook_relay.Secrets.Stored.{SetEnds, effective_secret-set_secret}
use openedx_webhook_relay.Secrets.Documented.{Standing, absent, current, scheduled, Documented}
use openedx_webhook_relay.Migrations.{OldEndpoint, migrate_endpoint, migrate_tables}
use openedx_webhook_relay.Migrations.Shared.{migrated_share_secret}
use openedx_webhook_relay.Examples.{settings, endpoint}

abbrev Store : Type 0
Store = String → Standing

abbrev put_under : Store → String → Standing → Store
put_under store name s other = if str_eq name other then s else store other

abbrev memory : Client
memory = record {
  Store = Store;
  get_secret_value = λ store name. elim (store name) [
    | absent ↦ not_found
    | current text ↦ returned text
    | scheduled ↦ failed
  ];
  put_secret_value = λ store name plaintext. elim (store name) [
    | absent ↦ not_found
    | current text ↦ returned (put_under store name (current plaintext))
    | scheduled ↦ failed
  ];
  create_secret = λ store name plaintext. elim (store name) [
    | absent ↦ returned (put_under store name (current plaintext))
    | current text ↦ failed
    | scheduled ↦ failed
  ];
  delete_secret = λ store name. elim (store name) [
    | absent ↦ not_found
    | current text ↦ returned (put_under store name scheduled)
    | scheduled ↦ failed
  ];
}

put_under_same : (store : Store) (name : String) (s : Standing) → put_under store name s name ≡ s
put_under_same store name s = rw ((str_eq_iff name name).1 refl) refl

abbrev memory_documented : Documented memory
memory_documented = record {
  standing = λ store name. store name;
  get_absent = λ store name e. rw e refl;
  get_current = λ store name text e. rw e refl;
  get_scheduled = λ store name e. rw e refl;
  put_absent = λ store name text e. rw e refl;
  put_current = λ store name old text e.
      (put_under store name (current text), rw e refl, put_under_same store name (current text));
  put_scheduled = λ store name text e. rw e refl;
  create_absent = λ store name text e.
      (put_under store name (current text), rw e refl, put_under_same store name (current text));
  delete_absent = λ store name e. rw e refl;
  delete_current = λ store name old e.
      (put_under store name scheduled, rw e refl, put_under_same store name scheduled);
  delete_scheduled = λ store name e. rw e refl;
}

abbrev empty_store : Store
empty_store name = absent

abbrev aws_settings : Settings
aws_settings = record settings { secret_backend = some "aws_secrets_manager" }

in_aws : get_secret_backend aws_settings true ≡ some aws_secrets_manager
unfolding get_secret_backend
in_aws = refl

abbrev referred : Endpoint
referred = record endpoint { secret_backend_reference = "0f3a" }

effective_secret-set_secret_example :
    SetEnds memory aws_settings memory_documented true aws_secrets_manager empty_store referred
      "next"
effective_secret-set_secret_example =
    effective_secret-set_secret memory aws_settings memory_documented true aws_secrets_manager
      empty_store referred "next" in_aws refl

abbrev old_endpoint : ℕ → OldEndpoint
old_endpoint pk = record {
  pk = pk;
  description = "grades";
  event = "COURSE_PASSING_STATUS_UPDATED";
  webhook_url = "https://example.org/hook";
  enabled = true;
  signing_secret = "";
  custom_headers = obj end;
  only_on_passing = true;
  timeout_seconds = 10;
  max_retries = 5;
  pii_allowlist = arr nil;
  pii_denylist = arr nil;
}

first_migrated :
    Memᴰ
      (migrate_endpoint "0f3a" (old_endpoint 1))
      (migrate_tables "0f3a" (old_endpoint 1 ∷ old_endpoint 2 ∷ []) []).0
unfolding migrate_tables
first_migrated = Memᴰ.head refl

second_migrated :
    Memᴰ
      (migrate_endpoint "0f3a" (old_endpoint 2))
      (migrate_tables "0f3a" (old_endpoint 1 ∷ old_endpoint 2 ∷ []) []).0
unfolding migrate_tables
second_migrated = Memᴰ.tail (Memᴰ.head refl)

is_named :
    secret_name aws_settings (migrate_endpoint "0f3a" (old_endpoint 1))
    ≡ some "openedx-webhook-relay/0f3a"
unfolding secret_name migrate_endpoint
is_named = refl

is_free : absent ≢ scheduled
is_free e = cc

migrated_share_secret_example :
    (after : Endpoint) × (store' : Store) × (set_secret memory aws_settings aws_secrets_manager
        empty_store
        (migrate_endpoint "0f3a" (old_endpoint 1))
        "next"
      ≡ some (after, store'))
    × (effective_secret memory aws_settings true store' (migrate_endpoint "0f3a" (old_endpoint 2))
        ≡ some "next")
migrated_share_secret_example =
    migrated_share_secret memory aws_settings true "0f3a" (old_endpoint 1 ∷ old_endpoint 2 ∷ []) []
      empty_store (migrate_endpoint "0f3a" (old_endpoint 1))
      (migrate_endpoint "0f3a" (old_endpoint 2)) "openedx-webhook-relay/0f3a" "next"
      memory_documented in_aws refl refl is_named is_free first_migrated second_migrated
