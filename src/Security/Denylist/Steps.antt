-- ===== src/Security/Denylist/Steps.antt =====
-- One round of the denylist loop: nothing, one key popped, or one path deleted below a key, and each
-- only where the path names it.
use openedx_webhook_relay.Base.{
  String, ◌≡◌, refl, inl, inr, Option, none, some, List, [], ◌∷◌, str_eq, str_eq_iff, if◌then◌else◌,
  Option-cases, Bool-cases, strip_prefix, strip_prefix_lem, concat, split_dots,
}
use openedx_webhook_relay.Json.{Fields}
use openedx_webhook_relay.Json.Dict.{pop, contains, keys}
use openedx_webhook_relay.Security.{event_data_key, if_truthy}
use openedx_webhook_relay.Security.Selection.{
  Names, whole, whole_data, nested, nested_data, if_truthy_lem,
}
use openedx_webhook_relay.Security.Denylist.{
  drop_nested, drop_by_key, drop_data, drop_data_nested, drop_path,
}

-- `original` is the payload before the loop, whose data key the whole loop uses.
pub data Dropped (original : Fields) (path : String) (payload after : Fields) : Type 0 where
  unchanged : after ≡ payload → Dropped original path payload after
  popped :
      (key : String)
      → Names original path key []
      → after ≡ pop payload key
      → Dropped original path payload after
  deleted :
      (key sub_path : String)
      → Names original path key (split_dots sub_path)
      → after ≡ drop_nested payload key sub_path
      → Dropped original path payload after

module _ (original payload : Fields) (path : String) where
  drop_by_key-Dropped :
      (candidates : List String)
      → Dropped original path payload (drop_by_key payload path candidates)
  unfolding drop_by_key
  drop_by_key-Dropped [] = unchanged refl
  drop_by_key-Dropped (key ∷ rest) = elim (Option-cases (strip_prefix (concat key ".") path)) [
    | inl e ↦ rw (drop_by_key, e) (drop_by_key-Dropped rest)
    | inr (sub_path, e) ↦
        rw (drop_by_key, e)
          (deleted key sub_path (nested sub_path (strip_prefix_lem _ path sub_path e) refl) refl)
  ]

  drop_data-Dropped :
      (data_key : Option String)
      → if_truthy (event_data_key original) ≡ data_key
      → path ≡ "data"
      → Dropped original path payload (drop_data data_key payload)
  drop_data-Dropped none h e = unchanged refl
  drop_data-Dropped (some key) h e =
      popped key (whole_data e (if_truthy_lem (event_data_key original) key h) refl) refl

  drop_data_nested-Dropped :
      (data_key : Option String) (sub_path : String)
      → if_truthy (event_data_key original) ≡ data_key
      → path ≡ concat "data." sub_path
      → Dropped original path payload (drop_data_nested data_key payload sub_path)
  drop_data_nested-Dropped none sub_path h e = unchanged refl
  drop_data_nested-Dropped (some key) sub_path h e =
      deleted key sub_path
        (nested_data sub_path e (if_truthy_lem (event_data_key original) key h) refl) refl

  literal-Dropped :
      Dropped original path payload (
        if contains payload path then pop payload path else drop_by_key payload path (keys payload))
  literal-Dropped = elim (Bool-cases (contains payload path)) [
    | inl e ↦ rw e (popped path (whole refl refl) refl)
    | inr e ↦ rw e (drop_by_key-Dropped (keys payload))
  ]

  pub drop_path-Dropped :
      Dropped original path payload (drop_path (if_truthy (event_data_key original)) payload path)
  unfolding drop_path
  drop_path-Dropped = elim (Bool-cases (str_eq path "event_metadata")) [
    | inl e ↦
        rw e (popped "event_metadata" (whole ((str_eq_iff path "event_metadata").0 e) refl) refl)
    | inr e ↦ rw e (elim (Option-cases (strip_prefix "event_metadata." path)) [
      | inr (sub_path, e) ↦ rw e (
          deleted "event_metadata" sub_path
            (nested sub_path (strip_prefix_lem _ path sub_path e) refl) refl)
      | inl e ↦ rw e (elim (Bool-cases (str_eq path "data")) [
        | inl e ↦ rw e (drop_data-Dropped _ refl ((str_eq_iff path "data").0 e))
        | inr e ↦ rw e (elim (Option-cases (strip_prefix "data." path)) [
          | inr (sub_path, e) ↦
              rw e (drop_data_nested-Dropped _ sub_path refl (strip_prefix_lem _ path sub_path e))
          | inl e ↦ rw e literal-Dropped
        ])
      ])
    ])
  ]
