-- ===== src/Secrets/Stored.antt =====
-- Which secret deliveries are signed with after it was set or cleared.
use openedx_webhook_relay.Base.{
  String, ◌≡◌, ◌≢◌, ◌⊎◌, inl, inr, refl, sym, subst, ◌∙◌, Bool, false, some, none, concat, str_eq,
  str_eq_iff, get_or, if◌then◌else◌, Bool-cases,
}
use openedx_webhook_relay.Settings.{Settings}
use openedx_webhook_relay.Models.{Endpoint}
use openedx_webhook_relay.Secrets.{
  Client, Backend, database, aws_secrets_manager, get_secret_backend, secret_name, get_secret,
  set_secret, effective_secret,
}
use openedx_webhook_relay.Secrets.Documented.{
  Documented, Standing, Standing-cases, absent, current, scheduled,
}

apart_absent : absent ≢ scheduled
apart_absent e = cc

apart_current : (old : String) → current old ≢ scheduled
apart_current old e = cc

module _ (client : Client) (settings : Settings) (documented : Documented client)
    (boto3_installed : Bool) where
  -- With AWS: what another endpoint with the same name reads.
  pub reads_current :
      (store : client.Store) (other : Endpoint) (name text : String)
      → get_secret_backend settings boto3_installed ≡ some aws_secrets_manager
      → secret_name settings other ≡ some name
      → str_eq other.secret_backend_reference "" ≡ false
      → str_eq text "" ≡ false
      → documented.standing store name ≡ current text
      → effective_secret client settings boto3_installed store other ≡ some text
  unfolding effective_secret get_secret
  reads_current store other name text chosen is_name named new stands =
      rw (chosen, named, is_name, documented.get_current store name text stands, new) refl

  reads_absent :
      (store : client.Store) (other : Endpoint) (name : String)
      → get_secret_backend settings boto3_installed ≡ some aws_secrets_manager
      → secret_name settings other ≡ some name
      → str_eq other.secret_backend_reference "" ≡ false
      → documented.standing store name ≡ absent
      → effective_secret client settings boto3_installed store other
        ≡ some (get_or settings.default_secret "")
  unfolding effective_secret get_secret
  reads_absent store other name chosen is_name named stands =
      rw (chosen, named, is_name, documented.get_absent store name stands) refl

  reads_scheduled :
      (store : client.Store) (other : Endpoint) (name : String)
      → get_secret_backend settings boto3_installed ≡ some aws_secrets_manager
      → secret_name settings other ≡ some name
      → str_eq other.secret_backend_reference "" ≡ false
      → documented.standing store name ≡ scheduled
      → effective_secret client settings boto3_installed store other ≡ none
  unfolding effective_secret get_secret
  reads_scheduled store other name chosen is_name named stands =
      rw (chosen, named, is_name, documented.get_scheduled store name stands) refl

  -- With AWS: a secret that is not empty is stored, unless the name is scheduled for deletion.
  pub set_current :
      (store : client.Store) (endpoint : Endpoint) (name plaintext : String)
      → secret_name settings endpoint ≡ some name
      → str_eq plaintext "" ≡ false
      → documented.standing store name ≢ scheduled
      → (store' : client.Store) × (set_secret client settings aws_secrets_manager store endpoint
            plaintext
          ≡ some (endpoint, store'))
        × (documented.standing store' name ≡ current plaintext)
  unfolding set_secret
  set_current store endpoint name plaintext is_name new free =
      elim (Standing-cases (documented.standing store name)) [
        | inl e ↦
            let (store', made, stands) = documented.create_absent store name plaintext e in
            (
              store',
              rw (is_name, new, documented.put_absent store name plaintext e, made) refl,
              stands,
            )
        | inr (inl (old, e)) ↦
            let (store', put, stands) = documented.put_current store name old plaintext e in
            (store', rw (is_name, new, put) refl, stands)
        | inr (inr e) ↦ absurd (free e)
      ]

  -- The secret is set, or cleared, and the endpoint signs with it, or with the default.
  abbrev SignsWith : Backend → client.Store → Endpoint → String → Type 0
  SignsWith backend store endpoint plaintext =
      (after : Endpoint) × (store' : client.Store) × (set_secret client settings backend store
          endpoint plaintext
        ≡ some (after, store'))
      × (effective_secret client settings boto3_installed store' after
          ≡ some (if str_eq plaintext "" then get_or settings.default_secret "" else plaintext))

  -- The name of the endpoint's secret in AWS has the standing.
  abbrev Stands : Backend → client.Store → Endpoint → Standing → Type 0
  Stands backend store endpoint s =
      (backend ≡ aws_secrets_manager)
      × (name : String) × (secret_name settings endpoint ≡ some name)
      × (documented.standing store name ≡ s)

  -- Clearing a secret that AWS has leaves an endpoint of which the secret cannot be read.
  abbrev IsLost : Backend → client.Store → Endpoint → String → Type 0
  IsLost backend store endpoint plaintext =
      (old : String) × Stands backend store endpoint (current old)
      × (plaintext ≡ "")
      × (store' : client.Store) × (set_secret client settings backend store endpoint plaintext
          ≡ some (endpoint, store'))
      × (effective_secret client settings boto3_installed store' endpoint ≡ none)

  -- A name that is scheduled for deletion makes the call raise.
  abbrev pub SetEnds : Backend → client.Store → Endpoint → String → Type 0
  SetEnds backend store endpoint plaintext =
      SignsWith backend store endpoint plaintext
      ⊎ (Stands backend store endpoint scheduled
          × (set_secret client settings backend store endpoint plaintext ≡ none))
      ⊎ IsLost backend store endpoint plaintext

  module _ (store : client.Store) (endpoint : Endpoint) (name : String)
      (chosen : get_secret_backend settings boto3_installed ≡ some aws_secrets_manager)
      (named : str_eq endpoint.secret_backend_reference "" ≡ false)
      (is_name : secret_name settings endpoint ≡ some name) where
    clears : SetEnds aws_secrets_manager store endpoint ""
    unfolding set_secret
    clears = elim (Standing-cases (documented.standing store name)) [
      | inl e ↦ inl (
        endpoint,
        store,
        rw (is_name, documented.delete_absent store name e) refl,
        reads_absent store endpoint name chosen is_name named e,
      )
      | inr (inl (old, e)) ↦
          let (store', deleted, stands) = documented.delete_current store name old e in
          inr (
            inr (
              old,
              (refl, name, is_name, e),
              refl,
              store',
              rw (is_name, deleted) refl,
              reads_scheduled store' endpoint name chosen is_name named stands,
            ))
      | inr (inr e) ↦ inr (
          inl
            ((refl, name, is_name, e), rw (is_name, documented.delete_scheduled store name e) refl))
    ]

    sets :
        (plaintext : String)
        → str_eq plaintext "" ≡ false
        → SetEnds aws_secrets_manager store endpoint plaintext
    unfolding set_secret
    sets plaintext new =
        let done : documented.standing store name ≢ scheduled
            → SignsWith aws_secrets_manager store endpoint plaintext =
          λ free.
            let (store', ran, stands) =
              set_current store endpoint name plaintext is_name new free in
            (
              endpoint,
              store',
              ran,
              rw new (reads_current store' endpoint name plaintext chosen is_name named new stands),
            ) in
        elim (Standing-cases (documented.standing store name)) [
          | inl e ↦ inl (done (λ p. apart_absent (sym e ∙ p)))
          | inr (inl (old, e)) ↦ inl (done (λ p. apart_current old (sym e ∙ p)))
          | inr (inr e) ↦ inr (
              inl (
                (refl, name, is_name, e),
                rw (is_name, new, documented.put_scheduled store name plaintext e) refl,
              ))
        ]

  has_name :
      (endpoint : Endpoint)
      → str_eq endpoint.secret_backend_reference "" ≡ false
      → (name : String) × (secret_name settings endpoint ≡ some name)
  unfolding secret_name
  has_name endpoint named = (
    concat (concat (get_or settings.aws_secret_name_prefix "openedx-webhook-relay") "/")
        endpoint.secret_backend_reference,
    rw named refl,
  )

  -- If AWS's client does as documented and the endpoint has a reference, then setting a secret, the
  -- empty text to clear it, ends in one of three ways, with either backend. It returns, and the
  -- endpoint that it leaves signs with the secret, or with the default if it was cleared; or, with
  -- AWS only, the secret is scheduled for deletion and the call raises; or, with AWS only, a secret
  -- that was there is cleared, and afterwards reading the endpoint's secret raises.
  pub effective_secret-set_secret :
      (backend : Backend) (store : client.Store) (endpoint : Endpoint) (plaintext : String)
      → get_secret_backend settings boto3_installed ≡ some backend
      → str_eq endpoint.secret_backend_reference "" ≡ false
      → SetEnds backend store endpoint plaintext
  unfolding effective_secret get_secret set_secret
  effective_secret-set_secret database store endpoint plaintext chosen named =
      inl (record endpoint { signing_secret = plaintext }, store, refl, rw chosen refl)
  effective_secret-set_secret aws_secrets_manager store endpoint plaintext chosen named =
      let (name, is_name) = has_name endpoint named in
      elim (Bool-cases (str_eq plaintext "")) [
        | inr new ↦ sets store endpoint name chosen named is_name plaintext new
        | inl empty ↦
            subst (SetEnds aws_secrets_manager store endpoint)
              (sym ((str_eq_iff plaintext "").0 empty))
              (clears store endpoint name chosen named is_name)
      ]
