-- ===== src/Security/Allowlist/Sound.antt =====
-- Whatever leaves through the allowlist was in the payload, at the same path, and was selected.
use mathlib.Core.List.{Memᴰ}
use openedx_webhook_relay.Base.{
  String, ◌≡◌, refl, ap, ◌∙◌, ◌⊎◌, inl, inr, Option, some, true, false, List, [], ◌∷◌, ◌++◌, arith,
  str_eq, Option-cases, Bool-cases, split_dots,
}
use openedx_webhook_relay.Json.{Value, obj, Fields, end, is_leaf, is_none}
use openedx_webhook_relay.Json.Dict.{get, contains}
use openedx_webhook_relay.Json.Paths.{at}
use openedx_webhook_relay.Json.Paths.Laws.{at-cons, at-append}
use openedx_webhook_relay.Security.{event_data_key, if_truthy}
use openedx_webhook_relay.Security.Nested.{get_or_null, get_nested_value, set_nested_value}
use openedx_webhook_relay.Security.Nested.Laws.{
  put-leaf, set_nested_value-leaf, at-get_nested_value, not-end-leaf,
}
use openedx_webhook_relay.Security.Selection.{Covers, covers}
use openedx_webhook_relay.Security.Allowlist.{
  set_default, set_in, keep_nested, keep_whole, keep_path, keep_paths, apply_allowlist,
}
use openedx_webhook_relay.Security.Allowlist.Steps.{
  unchanged, kept_whole, kept_nested, keep_path-Kept,
}

module _ (payload result : Fields) (q : List String) {s : Value} (leaf : is_leaf s ≡ true) where
  keep_whole-leaf :
      (key : String)
      → at (obj (keep_whole payload result key)) q ≡ some s
      → ((rest : List String) × (q ≡ key ∷ rest) × (at (obj payload) q ≡ some s))
        ⊎ (at (obj result) q ≡ some s)
  unfolding keep_whole
  keep_whole-leaf key h = elim (Option-cases (get payload key)) [
    | inl e ↦ inr (rw (keep_whole, e) at h)
    | inr (value, e) ↦ elim (put-leaf result key value q (rw (keep_whole, e) at h) leaf) [
      | inr before ↦ inr before
      | inl (rest, p, found) ↦ inl (rest, p, rw p (at-cons (obj payload) key rest e ∙ found))
    ]
  ]

  set_default-leaf :
      (key : String) → at (obj (set_default result key)) q ≡ some s → at (obj result) q ≡ some s
  set_default-leaf key h = elim (Bool-cases (contains result key)) [
    | inl e ↦ rw e at h
    | inr e ↦ elim (put-leaf result key (obj end) q (rw e at h) leaf) [
      | inr before ↦ before
      | inl (rest, p, found) ↦ absurd (cc (not-end-leaf rest found))
    ]
  ]

  set_in-leaf :
      (at_key : Option Value) (key sub_path : String) (value : Value)
      → get result key ≡ at_key
      → at (obj (set_in at_key result key sub_path value)) q ≡ some s
      → ((rest : List String) × (q ≡ key ∷ (split_dots sub_path ++ rest))
          × (at value rest ≡ some s)
          × (str_eq sub_path "" ≡ false))
        ⊎ (at (obj result) q ≡ some s)
  set_in-leaf (some (obj m)) key sub_path value e h =
      elim (put-leaf result key (obj (set_nested_value m sub_path value)) q h leaf) [
        | inr before ↦ inr before
        | inl (rest, p, found) ↦ elim (set_nested_value-leaf m sub_path value rest found leaf) [
          | inl (below, p', found', named) ↦ inl (below, p ∙ ap (◌∷◌ key) p', found', named)
          | inr old ↦ inr (rw p (at-cons (obj result) key rest e ∙ old))
        ]
      ]
  set_in-leaf at_key key sub_path value e h = inr h

-- What `keep_nested` reads stands in the payload at the path.
at-read_nested :
    (payload : Fields) (key sub_path : String) (rest : List String)
    → str_eq sub_path "" ≡ false
    → is_none (get_nested_value (get_or_null payload key) sub_path) ≡ false
    → at (obj payload) (key ∷ (split_dots sub_path ++ rest))
      ≡ at (get_nested_value (get_or_null payload key) sub_path) rest
at-read_nested payload key sub_path rest named some_value = elim (Option-cases (get payload key)) [
  | inl e ↦ absurd (unfold get_nested_value in ground arith)
  | inr (w, e) ↦ rw e (
      at-cons (obj payload) key (split_dots sub_path ++ rest) e
      ∙ at-append w (split_dots sub_path) rest
          (at-get_nested_value w sub_path named (rw e at some_value)))
]

module _ (payload result : Fields) (q : List String) {s : Value} (leaf : is_leaf s ≡ true) where
  keep_nested-leaf :
      (key sub_path : String)
      → at (obj (keep_nested payload result key sub_path)) q ≡ some s
      → ((rest : List String) × (q ≡ key ∷ (split_dots sub_path ++ rest))
          × (at (obj payload) q ≡ some s))
        ⊎ (at (obj result) q ≡ some s)
  unfolding keep_nested
  keep_nested-leaf key sub_path h =
      let value = get_nested_value (get_or_null payload key) sub_path in
      let opened = set_default result key in
      elim (Bool-cases (is_none value)) [
        | inl e ↦ inr (rw e at h)
        | inr e ↦
            elim (set_in-leaf payload opened q leaf (get opened key) key sub_path value refl
              (rw e at h)) [
                | inr before ↦ inr (set_default-leaf payload result q leaf key before)
                | inl (rest, p, found, named) ↦
                    inl (rest, p, rw p (at-read_nested payload key sub_path rest named e ∙ found))
              ]
      ]

module _ (payload : Fields) (q : List String) {s : Value} (leaf : is_leaf s ≡ true) where
  -- One round adds leaves of the payload that its path covers.
  pub keep_path-leaf :
      (result : Fields) (path : String)
      → at (obj (keep_path payload (if_truthy (event_data_key payload)) result path)) q ≡ some s
      → (Covers payload path q × (at (obj payload) q ≡ some s)) ⊎ (at (obj result) q ≡ some s)
  keep_path-leaf result path h = elim (keep_path-Kept payload result path) [
    | unchanged e ↦ inr (rw e at h)
    | kept_whole key named e ↦ elim (keep_whole-leaf payload result q leaf key (rw e at h)) [
      | inl (rest, p, found) ↦ inl (covers key [] rest named p, found)
      | inr before ↦ inr before
    ]
    | kept_nested key sub_path named e ↦
        elim (keep_nested-leaf payload result q leaf key sub_path (rw e at h)) [
          | inl (rest, p, found) ↦ inl (covers key (split_dots sub_path) rest named p, found)
          | inr before ↦ inr before
        ]
  ]

  keep_paths-leaf :
      (result : Fields) (allowlist : List String)
      → at (obj (keep_paths payload (if_truthy (event_data_key payload)) result allowlist)) q
        ≡ some s
      → ((path : String) × Memᴰ path allowlist
          × Covers payload path q
          × (at (obj payload) q ≡ some s))
        ⊎ (at (obj result) q ≡ some s)
  unfolding keep_paths
  keep_paths-leaf result [] h = inr h
  keep_paths-leaf result (path ∷ rest) h =
      elim (keep_paths-leaf (keep_path payload (if_truthy (event_data_key payload)) result path)
        rest h) [
          | inl (chosen, among, covered, found) ↦ inl (chosen, Memᴰ.tail among, covered, found)
          | inr before ↦ elim (keep_path-leaf result path before) [
            | inl (covered, found) ↦ inl (path, Memᴰ.head refl, covered, found)
            | inr older ↦ inr older
          ]
        ]

-- Whatever value other than a dictionary stands at a path of the payload that a non-empty allowlist
-- lets through, the original payload has it at that path, and some entry of the allowlist covers it.
pub apply_allowlist_sound :
    (payload : Fields) (first : String) (others : List String) (q : List String) (s : Value)
    → is_leaf s ≡ true
    → at (obj (apply_allowlist payload (first ∷ others))) q ≡ some s
    → (at (obj payload) q ≡ some s)
      × ((path : String) × Memᴰ path (first ∷ others) × Covers payload path q)
unfolding apply_allowlist
apply_allowlist_sound payload first others q s leaf h =
    elim (keep_paths-leaf payload q leaf end (first ∷ others) h) [
      | inl (path, among, covered, found) ↦ (found, (path, among, covered))
      | inr nothing ↦ absurd (cc (not-end-leaf q nothing))
    ]
