-- ===== src/Security/Denylist/Copy.antt =====
-- The payload of a denylist as the argument that it was copied from, less the keys popped so far.
use openedx_webhook_relay.Base.{
  String, ◌≡◌, ◌⊎◌, refl, sym, ap, ◌∙◌, inl, inr, true, false, Option, none, some, List, [], ◌∷◌,
  str_eq, str_eq_iff, if◌then◌else◌, Option-cases, arith, split_dots,
}
use openedx_webhook_relay.Json.{Value, obj, Fields, end, field}
use openedx_webhook_relay.Json.Dict.{get, put, pop, contains, keys, get-pop, put-get_self}
use openedx_webhook_relay.Json.Paths.{at}
use openedx_webhook_relay.Json.Paths.Laws.{at-cons}
use openedx_webhook_relay.Security.{event_data_key}
use openedx_webhook_relay.Security.Denylist.{drop_nested}
use openedx_webhook_relay.Security.Denylist.Removal.{pop-absent}
use openedx_webhook_relay.Security.Denylist.Actions.{among, contains-keys}
use openedx_webhook_relay.Json.Dict.Keys.{without, keys-pop, pop-put}
use openedx_webhook_relay.Security.Nested.Absent.{delete_nested_path-absent_self}

-- Nothing stands below `key` at the sub-path, or the sub-path is empty.
abbrev pub IsSettled : Fields → String → String → Type 0
IsSettled m key sub_path =
    (str_eq sub_path "" ≡ true) ⊎ (at (obj m) (key ∷ split_dots sub_path) ≡ none)

pub drop_nested-settled :
    (m : Fields) (key sub_path : String) → IsSettled m key sub_path → drop_nested m key sub_path ≡ m
unfolding drop_nested
drop_nested-settled m key sub_path h = elim (Option-cases (get m key)) [
  | inl e ↦ rw (drop_nested, e) refl
  | inr (w, e) ↦
      rw
        (
          drop_nested,
          e,
          delete_nested_path-absent_self w sub_path (elim h [
            | inl empty ↦ inl empty
            | inr absent ↦ inr (sym (at-cons (obj m) key (split_dots sub_path) e) ∙ absent)
          ]),
        )
        (put-get_self m key w e)
]

-- The argument without the keys that were popped from its copy.
unfoldable pub pops : Fields → List String → Fields
pops m [] = m
pops m (k ∷ ks) = pop (pops m ks) k

pub keys-pops :
    (m n : Fields) (ks : List String) → keys m ≡ keys n → keys (pops m ks) ≡ keys (pops n ks)
unfolding pops
keys-pops m n [] h = h
keys-pops m n (k ∷ ks) h =
    keys-pop (pops m ks) k
    ∙ ap (λ names. without names k) (keys-pops m n ks h)
    ∙ sym (keys-pop (pops n ks) k)

pub contains-same : (m n : Fields) (k : String) → keys m ≡ keys n → contains m k ≡ contains n k
contains-same m n k h = contains-keys m k ∙ ap (λ names. among names k) h ∙ sym (contains-keys n k)

data_key_among : List String → Option String
data_key_among [] = none
data_key_among (k ∷ ks) =
    let rest = data_key_among ks in if str_eq k "event_metadata" then rest else some k

event_data_key-among : (m : Fields) → event_data_key m ≡ data_key_among (keys m)
unfolding event_data_key data_key_among keys
event_data_key-among end = refl
event_data_key-among (field k v m) = ground (arith, event_data_key-among m)

pub event_data_key-same : (m n : Fields) → keys m ≡ keys n → event_data_key m ≡ event_data_key n
event_data_key-same m n h =
    event_data_key-among m ∙ ap data_key_among h ∙ sym (event_data_key-among n)

-- A key of the copy stands for the same value in the argument, and a write goes to both.
pub pops-get :
    (m : Fields) (ks : List String) (k : String) (v : Value)
    → get (pops m ks) k ≡ some v
    → get m k ≡ some v
unfolding pops
pops-get m [] k v h = h
pops-get m (j ∷ ks) k v h = pops-get m ks k v (ground (arith, get-pop (pops m ks) j k, h))

pub pops-put :
    (m : Fields) (ks : List String) (k : String) (v w : Value)
    → get (pops m ks) k ≡ some v
    → put (pops m ks) k w ≡ pops (put m k w) ks
unfolding pops
pops-put m [] k v w h = refl
pops-put m (j ∷ ks) k v w h =
    let apart : str_eq k j ≡ false =
      ground (arith, get-pop (pops m ks) j k, h, str_eq_iff j k, str_eq_iff k j) in
    let below : get (pops m ks) k ≡ some v = ground (arith, get-pop (pops m ks) j k, h) in
    sym (pop-put (pops m ks) k j w apart) ∙ ap (λ n. pop n j) (pops-put m ks k v w below)

pub pops-absent :
    (m : Fields) (ks q : List String) → at (obj m) q ≡ none → at (obj (pops m ks)) q ≡ none
unfolding pops
pops-absent m [] q h = h
pops-absent m (k ∷ ks) q h = pop-absent (pops m ks) k q (pops-absent m ks q h)
