-- ===== src/Rotation.antt =====
-- The two management commands that change secrets: rotate_encryption_key and rotate_signing_secret.
pub mod Keys
pub mod Secret
use openedx_webhook_relay.Base.{String, Option, none, some, str_eq, strip, if◌then◌else◌}

-- The outcome of reading a text file: its text, or OSError.
pub data File : Type 0 where
  readable : String → File
  unreadable : File
