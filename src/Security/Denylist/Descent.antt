-- ===== src/Security/Denylist/Descent.antt =====
-- The keys of the payload in the course of the denylist's loop: in their order, and no new ones.
use openedx_webhook_relay.Base.{
  String, ◌≡◌, refl, ◌⊎◌, inl, inr, none, true, List, arith, str_eq, str_eq_iff, Option-cases,
  Bool-cases,
}
use openedx_webhook_relay.Json.{Fields}
use openedx_webhook_relay.Json.Dict.{get, pop, keys, get-put, get-pop}
use openedx_webhook_relay.Json.Dict.Keys.{without, keys-pop, keys-put}
use openedx_webhook_relay.Security.{event_data_key, if_truthy}
use openedx_webhook_relay.Security.Nested.{delete_nested_path}
use openedx_webhook_relay.Security.Selection.{IsFirst, first_here, first_later}
use openedx_webhook_relay.Security.Denylist.{drop_nested, drop_path}
use openedx_webhook_relay.Security.Denylist.Steps.{unchanged, popped, deleted, drop_path-Dropped}

-- A pop keeps the first key first, unless it is the key that is popped.
IsFirst-without :
    (path key k : String) (names : List String)
    → IsFirst path key names
    → (str_eq key k ≡ true) ⊎ IsFirst path key (without names k)
unfolding without
IsFirst-without path key k names (first_here others) = elim (Bool-cases (str_eq key k)) [
  | inl e ↦ inl e
  | inr e ↦ inr (rw e (first_here (without others k)))
]
IsFirst-without path key k names (first_later j others apart first) =
    elim (IsFirst-without path key k others first) [
      | inl e ↦ inl e
      | inr later ↦ elim (Bool-cases (str_eq j k)) [
        | inl e ↦ inr (rw e later)
        | inr e ↦ inr (rw e (first_later j (without others k) apart later))
      ]
    ]

-- `key` is first among the keys that are left, or gone.
abbrev pub StaysFirst : Fields → String → String → Type 0
StaysFirst payload path key = IsFirst path key (keys payload) ⊎ (get payload key ≡ none)

pop-StaysFirst :
    (payload : Fields) (path key k : String)
    → IsFirst path key (keys payload)
    → StaysFirst (pop payload k) path key
pop-StaysFirst payload path key k first = elim (IsFirst-without path key k (keys payload) first) [
  | inl e ↦ inr (ground (arith, get-pop payload k key, str_eq_iff key k, str_eq_iff k key))
  | inr later ↦ inl (rw (keys-pop payload k) later)
]

drop_nested-keys :
    (payload : Fields) (key sub_path : String)
    → keys (drop_nested payload key sub_path) ≡ keys payload
unfolding drop_nested
drop_nested-keys payload key sub_path = elim (Option-cases (get payload key)) [
  | inl e ↦ rw (drop_nested, e) refl
  | inr (w, e) ↦
      rw (drop_nested, e) (keys-put payload key (delete_nested_path w sub_path) (rw e refl))
]

StaysFirst-pop :
    (payload : Fields) (path key k : String)
    → StaysFirst payload path key
    → StaysFirst (pop payload k) path key
StaysFirst-pop payload path key k (inl first) = pop-StaysFirst payload path key k first
StaysFirst-pop payload path key k (inr gone) = inr (ground (arith, get-pop payload k key))

drop_nested-missing :
    (payload : Fields) (key sub_path k : String)
    → get payload k ≡ none
    → get (drop_nested payload key sub_path) k ≡ none
unfolding drop_nested
drop_nested-missing payload key sub_path k h = elim (Option-cases (get payload key)) [
  | inl e ↦ rw (drop_nested, e) h
  | inr (w, e) ↦
      rw (drop_nested, e)
        (ground
          (arith, get-put payload key k (delete_nested_path w sub_path), str_eq_iff key k, e, h))
]

-- What the rounds so far have left of `original`.
pub record Descends (original payload : Fields) : Type 0 where
  pub missing : (k : String) → get original k ≡ none → get payload k ≡ none
  pub stays_first :
      (path key : String) → IsFirst path key (keys original) → StaysFirst payload path key

pub Descends-start : (payload : Fields) → Descends payload payload
Descends-start payload = record { missing = λ k h. h; stays_first = λ path key first. inl first }

module _ (original payload : Fields) (h : Descends original payload) where
  pop-Descends : (key : String) → Descends original (pop payload key)
  pop-Descends key = record {
    missing = λ k gone. ground (arith, get-pop payload key k, h.missing k gone);
    stays_first = λ path first_key first.
        StaysFirst-pop payload path first_key key (h.stays_first path first_key first);
  }

  drop_nested-Descends :
      (key sub_path : String) → Descends original (drop_nested payload key sub_path)
  drop_nested-Descends key sub_path = record {
    missing = λ k gone. drop_nested-missing payload key sub_path k (h.missing k gone);
    stays_first = λ path first_key first. elim (h.stays_first path first_key first) [
      | inl first' ↦ inl (rw (drop_nested-keys payload key sub_path) first')
      | inr gone ↦ inr (drop_nested-missing payload key sub_path first_key gone)
    ];
  }

  pub drop_path-Descends :
      (path : String)
      → Descends original (drop_path (if_truthy (event_data_key original)) payload path)
  drop_path-Descends path = elim (drop_path-Dropped original payload path) [
    | unchanged e ↦ rw e h
    | popped key named e ↦ rw e (pop-Descends key)
    | deleted key sub_path named e ↦ rw e (drop_nested-Descends key sub_path)
  ]
