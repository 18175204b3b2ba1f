-- ===== src/Json.antt =====
-- The values that payloads are made of: what Python's `json` reads and writes, and the
-- insertion-ordered dictionary with string keys.
pub mod Dict
pub mod Paths
pub mod Dumps
use openedx_webhook_relay.Base.{ℕ, zero, String, Bool, true, false, not, ◌&&◌, str_eq, ◌==◌}
use openedx_webhook_relay.Base.Int.{ℤ, pos, negsuc}

-- `float` holds the bit pattern of an IEEE double. `other` stands for an object for which `json`
-- has no rule (a date, a UUID), with its `str()`; such an object is true as a condition.
mutual
  pub data Value : Type 0 where
    null : Value
    bool : Bool → Value
    int : ℤ → Value
    float : ℕ → Value
    str : String → Value
    arr : Items → Value
    obj : Fields → Value
    other : String → Value

  pub data Items : Type 0 where
    nil : Items
    cons : Value → Items → Items

  pub data Fields : Type 0 where
    end : Fields
    field : String → Value → Fields → Fields

-- `bool(value)`: zero of either sign, empty texts and empty containers are false.
unfoldable pub truthy : Value → Bool
truthy null = false
truthy (bool b) = b
truthy (int (pos zero)) = false
truthy (int n) = true
truthy (float bits) = not (bits == 0) && not (bits == 0x8000000000000000)
truthy (str s) = not (str_eq s "")
truthy (arr nil) = false
truthy (arr xs) = true
truthy (obj end) = false
truthy (obj fs) = true
truthy (other s) = true

-- `value is None`.
abbrev pub is_none : Value → Bool
is_none null = true
is_none _ = false

-- Anything but a dictionary.
abbrev pub is_leaf : Value → Bool
is_leaf (obj _) = false
is_leaf _ = true
