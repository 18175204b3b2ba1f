-- ===== src/Security/Allowlist/Steps.antt =====
-- One round of the allowlist loop: nothing, one key kept whole, or one value kept below a key, and
-- each only where the path names it.
use openedx_webhook_relay.Base.{
  String, ◌≡◌, refl, inl, inr, Option, none, some, List, [], ◌∷◌, str_eq, str_eq_iff, if◌then◌else◌,
  Option-cases, Bool-cases, strip_prefix, strip_prefix_lem, concat, split_dots,
}
use openedx_webhook_relay.Json.{Fields}
use openedx_webhook_relay.Json.Dict.{contains, keys}
use openedx_webhook_relay.Security.{event_data_key, if_truthy}
use openedx_webhook_relay.Security.Selection.{
  Names, whole, whole_data, nested, nested_data, if_truthy_lem,
}
use openedx_webhook_relay.Security.Allowlist.{
  keep_nested, keep_whole, keep_by_key, keep_data, keep_data_nested, keep_path,
}

pub data Kept (payload : Fields) (path : String) (result after : Fields) : Type 0 where
  unchanged : after ≡ result → Kept payload path result after
  kept_whole :
      (key : String)
      → Names payload path key []
      → after ≡ keep_whole payload result key
      → Kept payload path result after
  kept_nested :
      (key sub_path : String)
      → Names payload path key (split_dots sub_path)
      → after ≡ keep_nested payload result key sub_path
      → Kept payload path result after

module _ (payload result : Fields) (path : String) where
  keep_by_key-Kept :
      (candidates : List String)
      → Kept payload path result (keep_by_key payload result path candidates)
  unfolding keep_by_key
  keep_by_key-Kept [] = unchanged refl
  keep_by_key-Kept (key ∷ rest) = elim (Option-cases (strip_prefix (concat key ".") path)) [
    | inl e ↦ rw (keep_by_key, e) (keep_by_key-Kept rest)
    | inr (sub_path, e) ↦
        rw (keep_by_key, e)
          (kept_nested key sub_path (nested sub_path (strip_prefix_lem _ path sub_path e) refl)
            refl)
  ]

  keep_data-Kept :
      (data_key : Option String)
      → if_truthy (event_data_key payload) ≡ data_key
      → path ≡ "data"
      → Kept payload path result (keep_data data_key payload result)
  keep_data-Kept none h e = unchanged refl
  keep_data-Kept (some key) h e =
      kept_whole key (whole_data e (if_truthy_lem (event_data_key payload) key h) refl) refl

  keep_data_nested-Kept :
      (data_key : Option String) (sub_path : String)
      → if_truthy (event_data_key payload) ≡ data_key
      → path ≡ concat "data." sub_path
      → Kept payload path result (keep_data_nested data_key payload result sub_path)
  keep_data_nested-Kept none sub_path h e = unchanged refl
  keep_data_nested-Kept (some key) sub_path h e =
      kept_nested key sub_path
        (nested_data sub_path e (if_truthy_lem (event_data_key payload) key h) refl) refl

  literal-Kept : Kept payload path result (
      if contains payload path
      then keep_whole payload result path
      else keep_by_key payload result path (keys payload))
  literal-Kept = elim (Bool-cases (contains payload path)) [
    | inl e ↦ rw e (kept_whole path (whole refl refl) refl)
    | inr e ↦ rw e (keep_by_key-Kept (keys payload))
  ]

  pub keep_path-Kept :
      Kept payload path result (keep_path payload (if_truthy (event_data_key payload)) result path)
  unfolding keep_path
  keep_path-Kept = elim (Bool-cases (str_eq path "event_metadata")) [
    | inl e ↦
        rw e
          (kept_whole "event_metadata" (whole ((str_eq_iff path "event_metadata").0 e) refl) refl)
    | inr e ↦ rw e (elim (Option-cases (strip_prefix "event_metadata." path)) [
      | inr (sub_path, e) ↦ rw e (
          kept_nested "event_metadata" sub_path
            (nested sub_path (strip_prefix_lem _ path sub_path e) refl) refl)
      | inl e ↦ rw e (elim (Bool-cases (str_eq path "data")) [
        | inl e ↦ rw e (keep_data-Kept _ refl ((str_eq_iff path "data").0 e))
        | inr e ↦ rw e (elim (Option-cases (strip_prefix "data." path)) [
          | inr (sub_path, e) ↦
              rw e (keep_data_nested-Kept _ sub_path refl (strip_prefix_lem _ path sub_path e))
          | inl e ↦ rw e literal-Kept
        ])
      ])
    ])
  ]
