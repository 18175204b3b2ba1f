-- ===== src/System/Rotated.antt =====
-- The rotation of a signing secret writes an endpoint back with the circuit that it was read with.
use openedx_webhook_relay.Base.{
  ◌⊎◌, ◌≡◌, subst, refl, inl, inr, Bool, Option, some, List, All, arith, is_some, not, ◌&&◌,
  Bool-cases, Option-cases,
}
use openedx_webhook_relay.Settings.{Settings}
use openedx_webhook_relay.Models.{Endpoint, find_row, every_row, update_rows}
use openedx_webhook_relay.Models.Circuit.Consistent.{IsConsistent, update_rows-All}
use openedx_webhook_relay.Secrets.{Client, Backend, get_secret_backend, set_secret}
use openedx_webhook_relay.Rotation.{File}
use openedx_webhook_relay.Rotation.Secret.{
  Options, SecretError, Left, left, stopped, Done, with_file, put_new_secret, cleared, changed,
  refused, rotate_signing_secret,
}
use openedx_webhook_relay.System.Owned.{KeepsKeys, update_rows-KeepsKeys}
use openedx_webhook_relay.System.Sound.{find_row-All}

module _ (client : Client) (settings : Settings) (boto3_installed : Bool) where
  with_file-IsConsistent :
      (file : Option File) (backend : Backend) (keep : Bool) (row row' : Endpoint)
      (store store' : client.Store)
      → with_file client settings file backend keep row store ≡ left row' store'
      → IsConsistent row
      → IsConsistent row'
  unfolding with_file put_new_secret set_secret
  with_file-IsConsistent file backend keep row row' store store' ran fits = ground (arith, ran)

  saved-IsConsistent :
      (row' : Endpoint) (clear_previous : Bool) (rows : List Endpoint)
      → IsConsistent row'
      → All IsConsistent rows
      → All IsConsistent
          (update_rows row'.pk every_row (λ r. cleared client settings clear_previous row') rows)
  saved-IsConsistent row' clear_previous rows fits h =
      update_rows-All IsConsistent row'.pk every_row
        (λ r. cleared client settings clear_previous row') rows (λ r c o. ground (arith, fits)) h

  Left-cases :
      (l : Left client settings)
      → ((e : SecretError) × (l ≡ stopped e))
        ⊎ ((row : Endpoint) × (store : client.Store) × (l ≡ left row store))
  Left-cases (stopped e) = inl (e, refl)
  Left-cases (left row store) = inr (row, store, refl)

  changed_rows :
      {rows rows' : List Endpoint} {store store' : client.Store}
      → ◌≡◌ {A = Done client settings} (changed rows store) (changed rows' store')
      → rows ≡ rows'
  changed_rows h = cc

  refused_apart :
      {e : SecretError} {rows : List Endpoint} {store : client.Store}
      → ¬ (◌≡◌ {A = Done client settings} (refused e) (changed rows store))
  refused_apart h = cc

  -- The command's write: the instance that it loaded, changed, is saved.
  pub rotate_signing_secret-saves :
      (options : Options) (rows rows' : List Endpoint) (store store' : client.Store)
      → rotate_signing_secret client settings boto3_installed options rows store
        ≡ changed rows' store'
      → (row row' : Endpoint) × (backend : Backend) × (after : client.Store) × (find_row rows
            options.endpoint_id
          ≡ some row)
        × (with_file client settings options.new_secret_file backend
              (not options.no_keep_previous)
              row
              store
            ≡ left row' after)
        × (update_rows row'.pk every_row
              (λ r. cleared client settings options.clear_previous row')
              rows
            ≡ rows')
  unfolding rotate_signing_secret
  rotate_signing_secret-saves options rows rows' store store' ran =
      elim (Option-cases (find_row rows options.endpoint_id)) [
        | inl gone ↦ absurd (refused_apart (rw gone at ran))
        | inr (row, found) ↦
            elim (Bool-cases
              (not (is_some options.new_secret_file) && not options.clear_previous)) [
                | inl nothing ↦ absurd (refused_apart (rw (found, nothing) at ran))
                | inr some_option ↦
                    elim (Option-cases (get_secret_backend settings boto3_installed)) [
                      | inl none_there ↦
                          absurd (refused_apart (rw (found, some_option, none_there) at ran))
                      | inr (backend, there) ↦
                          elim (Left-cases (
                            with_file client settings options.new_secret_file backend
                              (not options.no_keep_previous) row store)) [
                                | inl (e, stops) ↦
                                    absurd
                                      (refused_apart (rw (found, some_option, there, stops) at ran))
                                | inr (row', after, leaves) ↦ (
                                  row,
                                  row',
                                  backend,
                                  after,
                                  found,
                                  leaves,
                                  changed_rows (rw (found, some_option, there, leaves) at ran),
                                )
                              ]
                    ]
              ]
      ]

  module _ (options : Options) (rows rows' : List Endpoint) (store store' : client.Store)
      (ran : rotate_signing_secret client settings boto3_installed options rows store
        ≡ changed rows' store') where
    pub rotate_signing_secret-IsConsistent : All IsConsistent rows → All IsConsistent rows'
    rotate_signing_secret-IsConsistent h =
        let (row, row', backend, after, found, leaves, saves) =
          rotate_signing_secret-saves options rows rows' store store' ran in
        subst (All IsConsistent) saves (
          saved-IsConsistent row' options.clear_previous rows
            (with_file-IsConsistent options.new_secret_file backend (not options.no_keep_previous)
              row row' store after leaves
              (find_row-All IsConsistent rows options.endpoint_id row h found))
            h)

    pub rotate_signing_secret-KeepsKeys : KeepsKeys rows rows'
    rotate_signing_secret-KeepsKeys =
        let (row, row', backend, after, found, leaves, saves) =
          rotate_signing_secret-saves options rows rows' store store' ran in
        subst (KeepsKeys rows) saves (
          update_rows-KeepsKeys row'.pk every_row
            (λ r. cleared client settings options.clear_previous row') rows (λ r e. ground arith))
