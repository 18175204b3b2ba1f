-- ===== src/Secrets/Documented.antt =====
-- What AWS documents of the Secrets Manager calls that the code makes.
use openedx_webhook_relay.Base.{String, ◌≡◌, ◌⊎◌, inl, inr, refl}
use openedx_webhook_relay.Secrets.{returned, not_found, failed, Client}

-- What Secrets Manager has under a name.
pub data Standing : Type 0 where
  absent : Standing
  current : String → Standing
  scheduled : Standing

-- What AWS documents of the four calls: a deletion schedules the secret, and until the recovery window
-- is over, calls on a secret that is scheduled for deletion raise InvalidRequestException.
pub record Documented (client : Client) : Type 0 where
  pub standing : client.Store → String → Standing
  pub get_absent :
      (store : client.Store) (name : String)
      → standing store name ≡ absent
      → client.get_secret_value store name ≡ not_found
  pub get_current :
      (store : client.Store) (name text : String)
      → standing store name ≡ current text
      → client.get_secret_value store name ≡ returned text
  pub get_scheduled :
      (store : client.Store) (name : String)
      → standing store name ≡ scheduled
      → client.get_secret_value store name ≡ failed
  pub put_absent :
      (store : client.Store) (name text : String)
      → standing store name ≡ absent
      → client.put_secret_value store name text ≡ not_found
  pub put_current :
      (store : client.Store) (name old text : String)
      → standing store name ≡ current old
      → (store' : client.Store) × (client.put_secret_value store name text ≡ returned store')
        × (standing store' name ≡ current text)
  pub put_scheduled :
      (store : client.Store) (name text : String)
      → standing store name ≡ scheduled
      → client.put_secret_value store name text ≡ failed
  pub create_absent :
      (store : client.Store) (name text : String)
      → standing store name ≡ absent
      → (store' : client.Store) × (client.create_secret store name text ≡ returned store')
        × (standing store' name ≡ current text)
  pub delete_absent :
      (store : client.Store) (name : String)
      → standing store name ≡ absent
      → client.delete_secret store name ≡ not_found
  pub delete_current :
      (store : client.Store) (name old : String)
      → standing store name ≡ current old
      → (store' : client.Store) × (client.delete_secret store name ≡ returned store')
        × (standing store' name ≡ scheduled)
  pub delete_scheduled :
      (store : client.Store) (name : String)
      → standing store name ≡ scheduled
      → client.delete_secret store name ≡ failed

pub Standing-cases :
    (s : Standing) → (s ≡ absent) ⊎ (((old : String) × (s ≡ current old)) ⊎ (s ≡ scheduled))
Standing-cases absent = inl refl
Standing-cases (current old) = inr (inl (old, refl))
Standing-cases scheduled = inr (inr refl)
