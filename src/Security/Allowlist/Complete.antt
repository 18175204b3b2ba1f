-- ===== src/Security/Allowlist/Complete.antt =====
-- Whatever an entry of the allowlist points at, and is not `None`, goes out unchanged: later entries
-- do not disturb what an earlier one has put into the result.
use mathlib.Core.List.{Memᴰ}
use openedx_webhook_relay.Base.{
  String, ◌≡◌, ◌≢◌, refl, ap, subst, ◌∙◌, inl, inr, none, some, false, List, [], ◌∷◌, arith, str_eq,
  str_eq_iff, Option-cases, Bool-cases, split_dots, split_dots-cons, strip_prefix,
  strip_prefix-concat, concat,
}
use openedx_webhook_relay.Json.{Value, obj, Fields, end, is_leaf, is_none}
use openedx_webhook_relay.Json.Dict.{get, keys, get-put}
use openedx_webhook_relay.Json.Paths.{at}
use openedx_webhook_relay.Json.Paths.Laws.{at-cons, at-cons_inv, at-put}
use openedx_webhook_relay.Security.{event_data_key, if_truthy}
use openedx_webhook_relay.Security.Nested.{get_or_null, get_nested_value, set_nested_value}
use openedx_webhook_relay.Security.Nested.Laws.{not-end-leaf}
use openedx_webhook_relay.Security.Nested.Writes.{dict_of_child}
use openedx_webhook_relay.Security.Selection.{
  Targets, metadata, metadata_below, event_data, event_data_below, other_key, other_key_below,
  IsFirst, first_here, first_later, if_truthy-some, not_equal, metadata_below_ne, data_below_ne,
}
use openedx_webhook_relay.Security.Allowlist.{
  set_default, keep_nested, keep_whole, keep_by_key, keep_path, keep_paths, apply_allowlist,
}
use openedx_webhook_relay.Security.Allowlist.Preserve.{
  IsSound, kept, kept-IsSound, keep_path-preserves,
}
use openedx_webhook_relay.Security.Allowlist.Reads.{
  at-set_nested_value, dict_of_not_leaf, get_nested_value-at, leaf_lookup,
}

-- The round of each form of a path.
module _ (payload result : Fields) where
  kept-metadata : kept payload result "event_metadata" ≡ keep_whole payload result "event_metadata"
  unfolding keep_path
  kept-metadata = refl

  kept-metadata_below :
      (sub_path : String)
      → kept payload result (concat "event_metadata." sub_path)
        ≡ keep_nested payload result "event_metadata" sub_path
  unfolding keep_path
  kept-metadata_below sub_path =
      rw (metadata_below_ne sub_path, strip_prefix-concat "event_metadata." sub_path)

  kept-data :
      (key : String)
      → if_truthy (event_data_key payload) ≡ some key
      → kept payload result "data" ≡ keep_whole payload result key
  unfolding keep_path strip_prefix
  kept-data key e = rw e

  kept-data_below :
      (key sub_path : String)
      → if_truthy (event_data_key payload) ≡ some key
      → kept payload result (concat "data." sub_path) ≡ keep_nested payload result key sub_path
  unfolding keep_path
  kept-data_below key sub_path e = rw (
    (data_below_ne sub_path).0,
    (data_below_ne sub_path).1,
    (data_below_ne sub_path).2,
    strip_prefix-concat "data." sub_path,
    e,
  )

module _ (payload result : Fields) (sound : IsSound payload result) (v : Value) where
  keep_whole-keeps :
      (key : String)
      → at (obj payload) (key ∷ []) ≡ some v
      → at (obj (keep_whole payload result key)) (key ∷ []) ≡ some v
  unfolding keep_whole
  keep_whole-keeps key h =
      let (w, e, found) = at-cons_inv (obj payload) key [] h in
      rw (keep_whole, e) (ground (arith, at-put result key key [] w, str_eq_iff key key))

  -- Where the payload has a dictionary, the result has one after `setdefault`.
  opened_dict :
      (key : String) (m : Fields)
      → get payload key ≡ some (obj m)
      → (inner : Fields) × (get (set_default result key) key ≡ some (obj inner))
  opened_dict key m e = elim (Option-cases (get result key)) [
    | inl missing ↦
        (end, rw missing (ground (arith, get-put result key key (obj end), str_eq_iff key key)))
    | inr (x, there) ↦ elim (Bool-cases (is_leaf x)) [
      | inr dict ↦ let (inner, is_dict) = dict_of_not_leaf x dict in (inner, rw there (cc))
      | inl leaf ↦
          let at_key = sound (key ∷ []) x leaf (unfold at in rw (at, there)) in
          absurd (cc (at_key, at-cons (obj payload) key [] e, leaf_lookup (obj m)))
    ]
  ]

  keep_nested-keeps :
      (key sub_path : String)
      → str_eq sub_path "" ≡ false
      → is_none v ≡ false
      → at (obj payload) (key ∷ split_dots sub_path) ≡ some v
      → at (obj (keep_nested payload result key sub_path)) (key ∷ split_dots sub_path) ≡ some v
  unfolding keep_nested
  keep_nested-keeps key sub_path named some_v h =
      let (w, at_key, found) = at-cons_inv (obj payload) key (split_dots sub_path) h in
      let (k, ks, parts) = split_dots-cons sub_path in
      let (m, is_dict) = dict_of_child w k ks (rw parts at found) in
      let there : get payload key ≡ some (obj m) = at_key ∙ ap some is_dict in
      let read : get_nested_value (get_or_null payload key) sub_path ≡ v =
        rw there (get_nested_value-at m sub_path v named (rw is_dict at found)) in
      let (inner, opened) = opened_dict key m there in
      rw (read, some_v, opened)
        (ground (
          arith,
          at-put (set_default result key) key key (split_dots sub_path)
              (obj (set_nested_value inner sub_path v)),
          str_eq_iff key key,
          at-set_nested_value inner sub_path v named,
        ))

  kept-other_key :
      (path : String)
      → strip_prefix "event_metadata." path ≡ none
      → strip_prefix "data." path ≡ none
      → path ≢ "data"
      → at (obj payload) (path ∷ []) ≡ some v
      → at (obj (kept payload result path)) (path ∷ []) ≡ some v
  unfolding keep_path
  kept-other_key path not_metadata not_data apart h =
      let (w, there, found) = at-cons_inv (obj payload) path [] h in
      elim (Bool-cases (str_eq path "event_metadata")) [
        | inl e ↦ rw e (
            subst (λ key. at (obj (keep_whole payload result key)) (path ∷ []) ≡ some v)
              ((str_eq_iff path "event_metadata").0 e) (keep_whole-keeps path h))
        | inr e ↦
            rw (e, not_metadata, not_equal path "data" apart, not_data, there)
              (keep_whole-keeps path h)
      ]

  -- The loop over the keys stops at the first that the path extends.
  keep_by_key-first :
      (path key sub_path : String) (names : List String)
      → IsFirst path key names
      → path ≡ concat (concat key ".") sub_path
      → keep_by_key payload result path names ≡ keep_nested payload result key sub_path
  unfolding keep_by_key
  keep_by_key-first path key sub_path names (first_here others) e =
      rw (keep_by_key, e, strip_prefix-concat (concat key ".") sub_path)
  keep_by_key-first path key sub_path names (first_later k others apart first) e =
      rw (keep_by_key, apart) (keep_by_key-first path key sub_path others first e)

  kept-other_key_below :
      (path key sub_path : String)
      → strip_prefix "event_metadata." path ≡ none
      → strip_prefix "data." path ≡ none
      → path ≢ "event_metadata"
      → path ≢ "data"
      → get payload path ≡ none
      → IsFirst path key (keys payload)
      → path ≡ concat (concat key ".") sub_path
      → kept payload result path ≡ keep_nested payload result key sub_path
  unfolding keep_path
  kept-other_key_below path key sub_path not_metadata not_data apart apart' absent first e =
      rw
        (
          not_equal path "event_metadata" apart,
          not_metadata,
          not_equal path "data" apart',
          not_data,
          absent,
        )
        (keep_by_key-first path key sub_path (keys payload) first e)

  -- The round of an entry puts what it points at into the result.
  kept-target :
      (path : String) (q : List String)
      → Targets payload path q
      → is_none v ≡ false
      → at (obj payload) q ≡ some v
      → at (obj (kept payload result path)) q ≡ some v
  kept-target path q (metadata p e) some_v h =
      rw (p, e, kept-metadata payload result) (keep_whole-keeps "event_metadata" (rw e at h))
  kept-target path q (metadata_below sub_path p named e) some_v h =
      rw (p, e, kept-metadata_below payload result sub_path)
        (keep_nested-keeps "event_metadata" sub_path named some_v (rw e at h))
  kept-target path q (event_data key p found true_key e) some_v h =
      rw (p, e, kept-data payload result key (if_truthy-some _ key found true_key))
        (keep_whole-keeps key (rw e at h))
  kept-target path q (event_data_below key sub_path p found true_key named e) some_v h =
      rw (p, e, kept-data_below payload result key sub_path (if_truthy-some _ key found true_key))
        (keep_nested-keeps key sub_path named some_v (rw e at h))
  kept-target path q (other_key not_metadata not_data apart e) some_v h =
      rw e (kept-other_key path not_metadata not_data apart (rw e at h))
  kept-target path q
        (other_key_below key sub_path not_metadata not_data apart apart' absent first p named e)
        some_v h =
      rw
        (
          e,
          kept-other_key_below path key sub_path not_metadata not_data apart apart' absent first p,
        )
        (keep_nested-keeps key sub_path named some_v (rw e at h))

module _ (payload : Fields) (j : String) (js : List String) (v : Value)
    (in_payload : at (obj payload) (j ∷ js) ≡ some v) where
  keep_paths-preserves :
      (result : Fields) (allowlist : List String)
      → at (obj result) (j ∷ js) ≡ some v
      → at (obj (keep_paths payload (if_truthy (event_data_key payload)) result allowlist)) (j ∷ js)
        ≡ some v
  unfolding keep_paths
  keep_paths-preserves result [] h = h
  keep_paths-preserves result (path ∷ rest) h =
      keep_paths-preserves (kept payload result path) rest
        (keep_path-preserves payload result j js v in_payload h path)

  keep_paths-target :
      (result : Fields) (allowlist : List String) (path : String)
      → IsSound payload result
      → Memᴰ path allowlist
      → Targets payload path (j ∷ js)
      → is_none v ≡ false
      → at (obj (keep_paths payload (if_truthy (event_data_key payload)) result allowlist)) (j ∷ js)
        ≡ some v
  unfolding keep_paths
  keep_paths-target result [] path sound among target some_v = elim among [ ]
  keep_paths-target result (first ∷ rest) path sound (Memᴰ.head p) target some_v =
      keep_paths-preserves (kept payload result first) rest (
        subst (λ t. at (obj (kept payload result t)) (j ∷ js) ≡ some v) (p)
          (kept-target payload result sound v path (j ∷ js) target some_v in_payload))
  keep_paths-target result (first ∷ rest) path sound (Memᴰ.tail among) target some_v =
      keep_paths-target (kept payload result first) rest path
        (kept-IsSound payload result first sound) among target some_v

-- If an entry of the allowlist points at the place `j ∷ js` (the event metadata, the event's data,
-- another top-level key, or a path below one of them), and the payload has a value other than
-- `None` there, then what the allowlist lets through has the same value there.
pub apply_allowlist_complete :
    (payload : Fields) (allowlist : List String) (path j : String) (js : List String) (v : Value)
    → Memᴰ path allowlist
    → Targets payload path (j ∷ js)
    → is_none v ≡ false
    → at (obj payload) (j ∷ js) ≡ some v
    → at (obj (apply_allowlist payload allowlist)) (j ∷ js) ≡ some v
unfolding apply_allowlist
apply_allowlist_complete payload [] path j js v among target some_v in_payload = in_payload
apply_allowlist_complete payload (first ∷ others) path j js v among target some_v in_payload =
    keep_paths-target payload j js v in_payload end (first ∷ others) path
      (λ q s leaf h. absurd (cc (not-end-leaf q h))) among target some_v
