-- ===== src/Checks.antt =====
-- checks.py: the system check of the encryption key at start-up.
pub mod Agreement
use openedx_webhook_relay.Base.{
  String, Bool, Option, none, some, List, [], ◌∷◌, str_eq, get_or, if◌then◌else◌,
}
use openedx_webhook_relay.Settings.{Settings}
use openedx_webhook_relay.Encryption.{Fernet}

-- The messages, by their ids: E001 for a missing key, W001 for one that only a rotation will miss,
-- E002 for an invalid one.
pub data Message : Type 0 where
  e001 w001 e002 : Message

abbrev pub missing_key : Settings → List Message
missing_key settings =
    if str_eq (get_or settings.secret_backend "database") "database" then e001 ∷ [] else w001 ∷ []

unfoldable pub check_encryption_key : Fernet → Settings → List Message
check_encryption_key f settings = elim settings.encryption_key [
  | none ↦ missing_key settings
  | some key ↦
      if str_eq key "" then missing_key settings else if f.valid_key key then [] else e002 ∷ []
]
