-- ===== src/Checks/Agreement.antt =====
-- The check speaks of what the encrypted column will do.
use openedx_webhook_relay.Base.{
  ◌≡◌, ◌↔◌, refl, inl, inr, true, false, [], str_eq, get_or, Bool-cases, Option-cases, is_some,
}
use openedx_webhook_relay.Settings.{Settings}
use openedx_webhook_relay.Encryption.{Fernet, get_fernet}
use openedx_webhook_relay.Checks.{missing_key, check_encryption_key}

-- A missing key always gives a message.
missing_key-some : (settings : Settings) → (missing_key settings ≡ []) → (false ≡ true)
missing_key-some settings h =
    elim (Bool-cases (str_eq (get_or settings.secret_backend "database") "database")) [
      | inl b ↦ absurd (cc (rw b at h))
      | inr b ↦ absurd (cc (rw b at h))
    ]

-- The check has no message exactly if the encrypted column can take its key from the settings.
pub check_encryption_key-get_fernet :
    (f : Fernet) (settings : Settings)
    → (check_encryption_key f settings ≡ [])
      ↔ (is_some (get_fernet f settings.encryption_key) ≡ true)
unfolding check_encryption_key get_fernet
check_encryption_key-get_fernet f settings = elim (Option-cases settings.encryption_key) [
  | inl e ↦
      rw (check_encryption_key, e) ((λ h. missing_key-some settings h), (λ h. absurd (cc (h))))
  | inr (key, e) ↦ elim (Bool-cases (str_eq key "")) [
    | inl empty ↦
        rw (check_encryption_key, e)
          (rw empty ((λ h. missing_key-some settings h), (λ h. absurd (cc (h)))))
    | inr named ↦ elim (Bool-cases (f.valid_key key)) [
      | inl valid ↦ rw (check_encryption_key, e) (rw (named, valid) ((λ h. refl), (λ h. refl)))
      | inr invalid ↦
          rw (check_encryption_key, e)
            (rw (named, invalid) ((λ h. absurd (cc (h))), (λ h. absurd (cc (h)))))
    ]
  ]
]
