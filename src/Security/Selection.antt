-- ===== src/Security/Selection.antt =====
-- What a path of an allowlist or a denylist names, as the docstring of `apply_allowlist` says it,
-- apart from how the code looks it up.
use text.Mathlib.TextLemmas.{cons-append}
use openedx_webhook_relay.Base.{
  String, ◌≡◌, ◌≢◌, refl, inl, inr, false, str_eq, str_eq_iff, strip_prefix, behind_prefix,
  Bool-cases, Option, none, some, List, [], ◌∷◌, ◌++◌, arith, concat, split_dots,
}
use openedx_webhook_relay.Json.{Fields}
use openedx_webhook_relay.Json.Dict.{get, keys}
use openedx_webhook_relay.Security.{event_data_key, if_truthy}

-- `path` names what stands at `segments` under the top-level key `key` of the payload: by the key
-- itself, "event_metadata" for one, or by the alias "data" of the event's data key.
pub data Names (payload : Fields) (path key : String) (segments : List String) : Type 0 where
  whole : path ≡ key → segments ≡ [] → Names payload path key segments
  whole_data :
      path ≡ "data"
      → event_data_key payload ≡ some key
      → segments ≡ []
      → Names payload path key segments
  nested :
      (sub_path : String)
      → path ≡ concat (concat key ".") sub_path
      → segments ≡ split_dots sub_path
      → Names payload path key segments
  nested_data :
      (sub_path : String)
      → path ≡ concat "data." sub_path
      → event_data_key payload ≡ some key
      → segments ≡ split_dots sub_path
      → Names payload path key segments

-- A key that the code found true is the event's data key.
pub if_truthy_lem : (o : Option String) (key : String) → if_truthy o ≡ some key → o ≡ some key
if_truthy_lem none key h = cc
if_truthy_lem (some k) key h = ground arith

-- `path` names a value on the way to `q`, or the one at `q`.
pub data Covers (payload : Fields) (path : String) (q : List String) : Type 0 where
  covers :
      (key : String) (segments rest : List String)
      → Names payload path key segments
      → q ≡ key ∷ (segments ++ rest)
      → Covers payload path q

-- `key` is the first of the keys to which `path` adds a dot and more.
pub data IsFirst (path key : String) : List String → Type 0 where
  first_here : (others : List String) → IsFirst path key (key ∷ others)
  first_later :
      (k : String) (others : List String)
      → strip_prefix (concat k ".") path ≡ none
      → IsFirst path key others
      → IsFirst path key (k ∷ others)

-- `path` points at the place `q`: as "event_metadata" or "data", or as another top-level key, each
-- with or without a sub-path that is not empty. A path that is itself a key stands for that key; one
-- that several keys begin stands for a place under the first of them.
pub data Targets (payload : Fields) (path : String) (q : List String) : Type 0 where
  metadata : path ≡ "event_metadata" → q ≡ "event_metadata" ∷ [] → Targets payload path q
  metadata_below :
      (sub_path : String)
      → path ≡ concat "event_metadata." sub_path
      → str_eq sub_path "" ≡ false
      → q ≡ "event_metadata" ∷ split_dots sub_path
      → Targets payload path q
  event_data :
      (key : String)
      → path ≡ "data"
      → event_data_key payload ≡ some key
      → str_eq key "" ≡ false
      → q ≡ key ∷ []
      → Targets payload path q
  event_data_below :
      (key sub_path : String)
      → path ≡ concat "data." sub_path
      → event_data_key payload ≡ some key
      → str_eq key "" ≡ false
      → str_eq sub_path "" ≡ false
      → q ≡ key ∷ split_dots sub_path
      → Targets payload path q
  other_key :
      strip_prefix "event_metadata." path ≡ none
      → strip_prefix "data." path ≡ none
      → path ≢ "data"
      → q ≡ path ∷ []
      → Targets payload path q
  other_key_below :
      (key sub_path : String)
      → strip_prefix "event_metadata." path ≡ none
      → strip_prefix "data." path ≡ none
      → path ≢ "event_metadata"
      → path ≢ "data"
      → get payload path ≡ none
      → IsFirst path key (keys payload)
      → path ≡ concat (concat key ".") sub_path
      → str_eq sub_path "" ≡ false
      → q ≡ key ∷ split_dots sub_path
      → Targets payload path q

pub if_truthy-some :
    (o : Option String) (key : String)
    → o ≡ some key
    → str_eq key "" ≡ false
    → if_truthy o ≡ some key
if_truthy-some none key h named = cc
if_truthy-some (some k) key h named = ground arith

-- What the lookup by prefixes makes of each form of a path.
pub not_equal : (s t : String) → s ≢ t → str_eq s t ≡ false
not_equal s t apart = elim (Bool-cases (str_eq s t)) [
  | inl e ↦ absurd (apart ((str_eq_iff s t).0 e))
  | inr e ↦ e
]

pub metadata_below_ne :
    (sub_path : String) → str_eq (concat "event_metadata." sub_path) "event_metadata" ≡ false
metadata_below_ne sub_path =
    behind_prefix "event_metadata." sub_path "event_metadata" (unfold strip_prefix in refl)

-- "data.x" is neither special name, nor behind the other prefix.
pub data_below_ne :
    (sub_path : String)
    → (str_eq (concat "data." sub_path) "event_metadata" ≡ false)
      × (strip_prefix "event_metadata." (concat "data." sub_path) ≡ none)
      × (str_eq (concat "data." sub_path) "data" ≡ false)
unfolding strip_prefix
data_below_ne sub_path = (
  behind_prefix "data." sub_path "event_metadata" refl,
  rw cons-append,
  behind_prefix "data." sub_path "data" refl,
)
