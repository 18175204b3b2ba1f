-- ===== src/Encryption/Mask.antt =====
-- `mask_secret` of fields.py, and the displays that use it: `masked_secret` and
-- `masked_previous_secret` of models.py, `secret_status` and `previous_secret_status` of admin.py.

use text.Mathlib.TextLemmas.{nil-append, cons-append}
use openedx_webhook_relay.Base.{
  ℕ, String, ◌≤◌, ◌≡◌, refl, ap, sym, ◌∙◌, inl, inr, true, false, Option, none, some, arith, ltb,
  str_eq, str_eq_iff, concat, num_length, num_length-concat, if◌then◌else◌, Bool-cases,
}
use openedx_webhook_relay.Models.{Endpoint}

-- `text[-n:]`, which is the whole text if it is no longer.
unfoldable pub last_chars : ℕ → String → String
last_chars n String.[] = String.[]
last_chars n (String.◌∷◌ c s) =
    let rest = last_chars n s in
    if ltb n (num_length (String.◌∷◌ c s)) then rest else String.◌∷◌ c s

unfoldable pub mask_secret : String → String
unfolding last_chars
mask_secret plaintext =
    if str_eq plaintext ""
    then ""
    else concat "••••••••"
        (if ltb 4 (num_length plaintext) then last_chars 4 plaintext else last_chars 1 plaintext)

unfoldable pub masked_secret : Endpoint → String
unfolding mask_secret
masked_secret self =
    if str_eq self.signing_secret ""
    then "(using default secret)"
    else mask_secret self.signing_secret

unfoldable pub masked_previous_secret : Endpoint → String
unfolding mask_secret
masked_previous_secret self =
    if str_eq self.signing_secret_previous ""
    then "(none)"
    else mask_secret self.signing_secret_previous

-- The admin's displays; `none` is an instance that was not saved yet.
unfoldable pub secret_status : Option Endpoint → String
unfolding masked_secret
secret_status none = "—"
secret_status (some row) = masked_secret row

unfoldable pub previous_secret_status : Option Endpoint → String
unfolding masked_previous_secret
previous_secret_status none = "—"
previous_secret_status (some row) = masked_previous_secret row

last_chars-concat :
    (n : ℕ) (s tail : String)
    → num_length tail ≡ n
    → last_chars n (concat s tail) ≡ last_chars n tail
unfolding last_chars
last_chars-concat n String.[] tail h = rw nil-append refl
last_chars-concat n (String.◌∷◌ c s) tail h =
    rw cons-append (rw (longer) (last_chars-concat n s tail h))
  where
    longer : ltb n (num_length (String.◌∷◌ c (concat s tail))) ≡ true
    longer = ground (arith, num_length-concat s tail, h)

nonempty_length : (s : String) → str_eq s "" ≡ false → 1 ≤ num_length s
nonempty_length String.[] h = absurd (cc)
nonempty_length (String.◌∷◌ c s) h = omega arith

length_nonempty : (s : String) → 1 ≤ num_length s → str_eq s "" ≡ false
length_nonempty s h = elim (Bool-cases (str_eq s "")) [
  | inr e ↦ e
  | inl e ↦ absurd (omega (arith, h, ap num_length ((str_eq_iff s "").0 e)))
]

last_chars_all : (n : ℕ) (s : String) → num_length s ≤ n → last_chars n s ≡ s
unfolding last_chars
last_chars_all n String.[] h = refl
last_chars_all n (String.◌∷◌ c s) h = ground (arith, h)

-- What is displayed of a secret with a front before its last four characters.
masked_lem :
    (row : Endpoint) (front tail : String)
    → num_length tail ≡ 4
    → str_eq front "" ≡ false
    → row.signing_secret ≡ concat front tail
    → secret_status (some row) ≡ concat "••••••••" tail
unfolding secret_status masked_secret mask_secret
masked_lem row front tail four some_front is_secret =
    let long : ltb 4 (num_length (concat front tail)) ≡ true =
      ground (arith, num_length-concat front tail, nonempty_length front some_front, four) in
    let full =
      length_nonempty (concat front tail) (omega (arith, num_length-concat front tail, four)) in
    rw (is_secret, full, long)
      (ap (concat "••••••••")
        (last_chars-concat 4 front tail four ∙ last_chars_all 4 tail (omega (arith, four))))

-- Of a secret that is longer than four characters the admin displays its last four, behind eight
-- dots: two endpoints with secrets that end alike are displayed alike, whatever stands before, and
-- whatever their lengths.
pub secret_status-hides :
    (row other : Endpoint) (front other_front tail : String)
    → num_length tail ≡ 4
    → str_eq front "" ≡ false
    → str_eq other_front "" ≡ false
    → row.signing_secret ≡ concat front tail
    → other.signing_secret ≡ concat other_front tail
    → (secret_status (some row) ≡ secret_status (some other))
      × (num_length (secret_status (some row)) ≡ 12)
secret_status-hides row other front other_front tail four some_front other_some is_secret other_is =
    let shown = masked_lem row front tail four some_front is_secret in
    (
      shown ∙ sym (masked_lem other other_front tail four other_some other_is),
      ap num_length shown ∙ num_length-concat "••••••••" tail ∙ omega (arith, four),
    )
