-- ===== src/Security/Allowlist/Preserve.antt =====
-- Later rounds of the allowlist loop do not disturb a value that the result shares with the payload.
use openedx_webhook_relay.Base.{
  String, ◌≡◌, refl, sym, ap, ◌∙◌, inl, inr, ◌⊎◌, Option, some, true, false, List, ◌∷◌, arith,
  str_eq, str_eq_iff, Option-cases, Bool-cases, split_dots,
}
use openedx_webhook_relay.Json.{Value, obj, Fields, end, is_leaf, is_none}
use openedx_webhook_relay.Json.Dict.{get}
use openedx_webhook_relay.Json.Paths.{at}
use openedx_webhook_relay.Json.Paths.Laws.{at-cons, at-cons_none, at-cons_inv, at-put}
use openedx_webhook_relay.Security.{event_data_key, if_truthy}
use openedx_webhook_relay.Security.Nested.{get_or_null, get_nested_value, set_nested_value}
use openedx_webhook_relay.Security.Nested.Laws.{at-get_nested_value}
use openedx_webhook_relay.Security.Nested.Writes.{set_path-preserves}
use openedx_webhook_relay.Security.Allowlist.{
  set_default, set_in, keep_nested, keep_whole, keep_path,
}
use openedx_webhook_relay.Security.Allowlist.Steps.{
  unchanged, kept_whole, kept_nested, keep_path-Kept,
}
use openedx_webhook_relay.Security.Allowlist.Sound.{keep_path-leaf}

set_nested_value-preserves :
    (m : Fields) (path : String) (value w : Value) (js : List String) (v : Value)
    → (at w (split_dots path) ≡ some value) ⊎ (str_eq path "" ≡ true)
    → at w js ≡ some v
    → at (obj m) js ≡ some v
    → at (obj (set_nested_value m path value)) js ≡ some v
unfolding set_nested_value
set_nested_value-preserves m path value w js v (inl read) at_js h =
    elim (Bool-cases (str_eq path "")) [
      | inl e ↦ rw e h
      | inr e ↦ rw e (set_path-preserves m (split_dots path) value w js v read at_js h)
    ]
set_nested_value-preserves m path value w js v (inr e) at_js h = rw e h

module _ (result : Fields) (key j : String) (js : List String) (v : Value) where
  set_default-preserves :
      at (obj result) (j ∷ js) ≡ some v → at (obj (set_default result key)) (j ∷ js) ≡ some v
  set_default-preserves h = elim (Option-cases (get result key)) [
    | inr (x, e) ↦ rw e h
    | inl e ↦ elim (Bool-cases (str_eq key j)) [
      | inr apart ↦ rw e (ground (arith, at-put result key j js (obj end)))
      | inl same ↦ absurd (
          cc (
            at-cons_none (obj result) j js (ap (get result) (sym ((str_eq_iff key j).0 same)) ∙ e)))
    ]
  ]

  -- `w` is what the payload has at `key`.
  set_in-preserves :
      (at_key : Option Value) (sub_path : String) (value w : Value)
      → get result key ≡ at_key
      → (at w (split_dots sub_path) ≡ some value) ⊎ (str_eq sub_path "" ≡ true)
      → (str_eq key j ≡ true → at w js ≡ some v)
      → at (obj result) (j ∷ js) ≡ some v
      → at (obj (set_in at_key result key sub_path value)) (j ∷ js) ≡ some v
  set_in-preserves (some (obj m)) sub_path value w e read payload_v h =
      elim (Bool-cases (str_eq key j)) [
        | inr apart ↦
            ground (arith, at-put result key j js (obj (set_nested_value m sub_path value)))
        | inl same ↦
            let below : at (obj m) js ≡ some v =
              sym
                (at-cons (obj result) j js (ap (get result) (sym ((str_eq_iff key j).0 same)) ∙ e))
              ∙ h in
            ground (
              arith,
              at-put result key j js (obj (set_nested_value m sub_path value)),
              set_nested_value-preserves m sub_path value w js v read (payload_v same) below,
            )
      ]
  set_in-preserves at_key sub_path value w e read payload_v h = h

-- The result so far has only leaves that the payload has at the same place.
abbrev pub IsSound : Fields → Fields → Type 0
IsSound payload result =
    (q : List String) (s : Value)
    → is_leaf s ≡ true
    → at (obj result) q ≡ some s
    → at (obj payload) q ≡ some s

-- One round of the loop.
abbrev pub kept : Fields → Fields → String → Fields
kept payload result path = keep_path payload (if_truthy (event_data_key payload)) result path

pub kept-IsSound :
    (payload result : Fields) (path : String)
    → IsSound payload result
    → IsSound payload (kept payload result path)
kept-IsSound payload result path sound q s leaf h =
    elim (keep_path-leaf payload q leaf result path h) [
      | inl (covered, found) ↦ found
      | inr before ↦ sound q s leaf before
    ]

read_or_empty :
    (w : Value) (sub_path : String)
    → is_none (get_nested_value w sub_path) ≡ false
    → (at w (split_dots sub_path) ≡ some (get_nested_value w sub_path))
      ⊎ (str_eq sub_path "" ≡ true)
read_or_empty w sub_path h = elim (Bool-cases (str_eq sub_path "")) [
  | inl e ↦ inr e
  | inr e ↦ inl (at-get_nested_value w sub_path e h)
]

module _ (payload result : Fields) (j : String) (js : List String) (v : Value) where
  module _ (in_payload : at (obj payload) (j ∷ js) ≡ some v)
      (h : at (obj result) (j ∷ js) ≡ some v) where
    keep_whole-preserves :
        (key : String) → at (obj (keep_whole payload result key)) (j ∷ js) ≡ some v
    unfolding keep_whole
    keep_whole-preserves key = elim (Option-cases (get payload key)) [
      | inl e ↦ rw (keep_whole, e) h
      | inr (w, e) ↦ elim (Bool-cases (str_eq key j)) [
        | inr apart ↦ rw (keep_whole, e) (ground (arith, at-put result key j js w))
        | inl same ↦
            let at_j = ap (get payload) (sym ((str_eq_iff key j).0 same)) ∙ e in
            rw (keep_whole, e)
              (ground (arith, at-put result key j js w, at-cons (obj payload) j js at_j))
      ]
    ]

    from_payload : (key : String) → str_eq key j ≡ true → at (get_or_null payload key) js ≡ some v
    from_payload key same =
        let (w, e, found) = at-cons_inv (obj payload) j js in_payload in
        let at_key = ap (get payload) ((str_eq_iff key j).0 same) ∙ e in rw at_key found

    keep_nested-preserves :
        (key sub_path : String)
        → at (obj (keep_nested payload result key sub_path)) (j ∷ js) ≡ some v
    unfolding keep_nested
    keep_nested-preserves key sub_path =
        let w = get_or_null payload key in
        let value = get_nested_value w sub_path in
        let opened = set_default result key in
        elim (Bool-cases (is_none value)) [
          | inl e ↦ rw e h
          | inr e ↦ rw e (
              set_in-preserves opened key j js v (get opened key) sub_path value w refl
                (read_or_empty w sub_path e) (λ same. from_payload key same)
                (set_default-preserves result key j js v h))
        ]

    pub keep_path-preserves :
        (path : String) → at (obj (kept payload result path)) (j ∷ js) ≡ some v
    keep_path-preserves path = elim (keep_path-Kept payload result path) [
      | unchanged e ↦ rw e h
      | kept_whole key named e ↦ rw e (keep_whole-preserves key)
      | kept_nested key sub_path named e ↦ rw e (keep_nested-preserves key sub_path)
    ]
