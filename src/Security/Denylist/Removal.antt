-- ===== src/Security/Denylist/Removal.antt =====
-- Whatever the denylist names is gone from the payload that leaves.
use mathlib.Core.List.{Memᴰ}
use openedx_webhook_relay.Base.{
  String, ◌≡◌, ◌≢◌, refl, subst, inl, inr, none, some, false, List, [], ◌∷◌, ◌++◌, arith, str_eq,
  str_eq_iff, Option-cases, Bool-cases, split_dots, strip_prefix, strip_prefix-concat, concat,
}
use openedx_webhook_relay.Json.{obj, Fields}
use openedx_webhook_relay.Json.Dict.{get, pop, keys}
use openedx_webhook_relay.Json.Paths.{at}
use openedx_webhook_relay.Json.Paths.Laws.{at-cons_none, at-put, at-pop}
use openedx_webhook_relay.Security.{event_data_key, if_truthy}
use openedx_webhook_relay.Security.Nested.{delete_nested_path}
use openedx_webhook_relay.Security.Nested.Deletion.{
  put-absent, delete_nested_path-absent, delete_nested_path-gone,
}
use openedx_webhook_relay.Security.Selection.{
  Targets, metadata, metadata_below, event_data, event_data_below, other_key, other_key_below,
  IsFirst, first_here, first_later, if_truthy-some, not_equal, metadata_below_ne, data_below_ne,
}
use openedx_webhook_relay.Security.Denylist.{
  drop_nested, drop_by_key, drop_path, drop_paths, apply_denylist,
}
use openedx_webhook_relay.Security.Denylist.Descent.{Descends, Descends-start, drop_path-Descends}
use openedx_webhook_relay.Security.Denylist.Steps.{unchanged, popped, deleted, drop_path-Dropped}

pub drop_nested-absent :
    (payload : Fields) (key sub_path : String) (q : List String)
    → at (obj payload) q ≡ none
    → at (obj (drop_nested payload key sub_path)) q ≡ none
unfolding drop_nested
drop_nested-absent payload key sub_path q h = elim (Option-cases (get payload key)) [
  | inl e ↦ rw (drop_nested, e) h
  | inr (w, e) ↦
      rw (drop_nested, e)
        (put-absent payload key w (delete_nested_path w sub_path) e q
          (delete_nested_path-absent w sub_path) h)
]

pub drop_nested-gone :
    (payload : Fields) (key sub_path : String) (rest : List String)
    → str_eq sub_path "" ≡ false
    → at (obj (drop_nested payload key sub_path)) (key ∷ (split_dots sub_path ++ rest)) ≡ none
unfolding drop_nested
drop_nested-gone payload key sub_path rest named = elim (Option-cases (get payload key)) [
  | inl e ↦ rw (drop_nested, e) (at-cons_none (obj payload) key (split_dots sub_path ++ rest) e)
  | inr (w, e) ↦
      rw (drop_nested, e)
        (ground (
          arith,
          at-put payload key key (split_dots sub_path ++ rest) (delete_nested_path w sub_path),
          str_eq_iff key key,
          delete_nested_path-gone w sub_path rest named,
        ))
]

pub pop-absent :
    (payload : Fields) (key : String) (q : List String)
    → at (obj payload) q ≡ none
    → at (obj (pop payload key)) q ≡ none
pop-absent payload key [] h = absurd (unfold at in ground arith)
pop-absent payload key (j ∷ js) h = ground (arith, at-pop payload key j js)

pop-gone :
    (payload : Fields) (key : String) (rest : List String)
    → at (obj (pop payload key)) (key ∷ rest) ≡ none
pop-gone payload key rest = ground (arith, at-pop payload key key rest, str_eq_iff key key)

module _ (original : Fields) (q : List String) where
  -- No round makes a path appear.
  drop_path-absent :
      (payload : Fields) (path : String)
      → at (obj payload) q ≡ none
      → at (obj (drop_path (if_truthy (event_data_key original)) payload path)) q ≡ none
  drop_path-absent payload path h = elim (drop_path-Dropped original payload path) [
    | unchanged e ↦ rw e h
    | popped key named e ↦ rw e (pop-absent payload key q h)
    | deleted key sub_path named e ↦ rw e (drop_nested-absent payload key sub_path q h)
  ]

  drop_paths-absent :
      (payload : Fields) (denylist : List String)
      → at (obj payload) q ≡ none
      → at (obj (drop_paths (if_truthy (event_data_key original)) payload denylist)) q ≡ none
  unfolding drop_paths
  drop_paths-absent payload [] h = h
  drop_paths-absent payload (path ∷ rest) h =
      drop_paths-absent (drop_path (if_truthy (event_data_key original)) payload path) rest
        (drop_path-absent payload path h)

module _ (original payload : Fields) where
  abbrev round : String → Fields
  round path = drop_path (if_truthy (event_data_key original)) payload path

  round-metadata : round "event_metadata" ≡ pop payload "event_metadata"
  unfolding drop_path
  round-metadata = refl

  round-metadata_below :
      (sub_path : String)
      → round (concat "event_metadata." sub_path) ≡ drop_nested payload "event_metadata" sub_path
  unfolding drop_path
  round-metadata_below sub_path =
      rw (metadata_below_ne sub_path, strip_prefix-concat "event_metadata." sub_path)

  round-data :
      (key : String)
      → if_truthy (event_data_key original) ≡ some key
      → round "data" ≡ pop payload key
  unfolding drop_path strip_prefix
  round-data key e = rw e

  round-data_below :
      (key sub_path : String)
      → if_truthy (event_data_key original) ≡ some key
      → round (concat "data." sub_path) ≡ drop_nested payload key sub_path
  unfolding drop_path
  round-data_below key sub_path e = rw (
    (data_below_ne sub_path).0,
    (data_below_ne sub_path).1,
    (data_below_ne sub_path).2,
    strip_prefix-concat "data." sub_path,
    e,
  )

  -- A key that is neither of the two special names, nor begins with one, is popped if it is there.
  round-other_key :
      (path : String) (rest : List String)
      → strip_prefix "event_metadata." path ≡ none
      → strip_prefix "data." path ≡ none
      → path ≢ "data"
      → at (obj (round path)) (path ∷ rest) ≡ none
  unfolding drop_path
  round-other_key path rest not_metadata not_data other =
      elim (Bool-cases (str_eq path "event_metadata")) [
        | inl e ↦ rw e (
            subst (λ key. at (obj (pop payload key)) (path ∷ rest) ≡ none)
              ((str_eq_iff path "event_metadata").0 e) (pop-gone payload path rest))
        | inr e ↦ elim (Option-cases (get payload path)) [
          | inl missing ↦
              drop_path-absent original (path ∷ rest) payload path
                (at-cons_none (obj payload) path rest missing)
          | inr (w, there) ↦
              rw (e, not_metadata, not_equal path "data" other, not_data, there)
                (pop-gone payload path rest)
        ]
      ]

  drop_by_key-first :
      (path key sub_path : String) (names : List String)
      → IsFirst path key names
      → path ≡ concat (concat key ".") sub_path
      → drop_by_key payload path names ≡ drop_nested payload key sub_path
  unfolding drop_by_key
  drop_by_key-first path key sub_path names (first_here others) e =
      rw (drop_by_key, e, strip_prefix-concat (concat key ".") sub_path)
  drop_by_key-first path key sub_path names (first_later k others apart first) e =
      rw (drop_by_key, apart) (drop_by_key-first path key sub_path others first e)

  round-other_key_below :
      (path key sub_path : String)
      → strip_prefix "event_metadata." path ≡ none
      → strip_prefix "data." path ≡ none
      → path ≢ "event_metadata"
      → path ≢ "data"
      → get payload path ≡ none
      → IsFirst path key (keys payload)
      → path ≡ concat (concat key ".") sub_path
      → round path ≡ drop_nested payload key sub_path
  unfolding drop_path
  round-other_key_below path key sub_path not_metadata not_data apart apart' absent first e =
      rw
        (
          not_equal path "event_metadata" apart,
          not_metadata,
          not_equal path "data" apart',
          not_data,
          absent,
        )
        (drop_by_key-first path key sub_path (keys payload) first e)

  round-removes :
      (path : String) (q rest : List String)
      → Descends original payload
      → Targets original path q
      → at (obj (round path)) (q ++ rest) ≡ none
  round-removes path q rest left (metadata p e) =
      rw (p, e, round-metadata) (pop-gone payload "event_metadata" rest)
  round-removes path q rest left (metadata_below sub_path p named e) =
      rw (p, e, round-metadata_below sub_path)
        (drop_nested-gone payload "event_metadata" sub_path rest named)
  round-removes path q rest left (event_data key p found true_key e) =
      rw (p, e, round-data key (if_truthy-some _ key found true_key)) (pop-gone payload key rest)
  round-removes path q rest left (event_data_below key sub_path p found true_key named e) =
      rw (p, e, round-data_below key sub_path (if_truthy-some _ key found true_key))
        (drop_nested-gone payload key sub_path rest named)
  round-removes path q rest left (other_key not_metadata not_data other e) =
      rw e (round-other_key path rest not_metadata not_data other)
  round-removes path q rest left
        (other_key_below key sub_path not_metadata not_data apart apart' absent first p named e) =
      rw e (elim (left.stays_first path key first) [
        | inl first' ↦
            rw
              (round-other_key_below path key sub_path not_metadata not_data apart apart'
                (left.missing path absent) first' p)
              (drop_nested-gone payload key sub_path rest named)
        | inr gone ↦
            drop_path-absent original (key ∷ (split_dots sub_path ++ rest)) payload path
              (at-cons_none (obj payload) key (split_dots sub_path ++ rest) gone)
      ])

module _ (original : Fields) where
  drop_paths-removes :
      (payload : Fields) (denylist : List String) (path : String) (q rest : List String)
      → Descends original payload
      → Memᴰ path denylist
      → Targets original path q
      → at (obj (drop_paths (if_truthy (event_data_key original)) payload denylist)) (q ++ rest)
        ≡ none
  unfolding drop_paths
  drop_paths-removes payload [] path q rest left among target = elim among [ ]
  drop_paths-removes payload (first ∷ others) path q rest left (Memᴰ.head p) target =
      drop_paths-absent original (q ++ rest)
        (drop_path (if_truthy (event_data_key original)) payload first) others
        (subst (λ t. at (obj (round original payload t)) (q ++ rest) ≡ none) (p)
          (round-removes original payload path q rest left target))
  drop_paths-removes payload (first ∷ others) path q rest left (Memᴰ.tail among) target =
      drop_paths-removes (drop_path (if_truthy (event_data_key original)) payload first) others path
        q rest (drop_path-Descends original payload left first) among target

-- If an entry of the denylist points at the place `q` (the event metadata, the event's data, another
-- top-level key, or a path below one of them), then after the denylist nothing stands at `q` or below.
pub apply_denylist-removes :
    (payload : Fields) (denylist : List String) (path : String) (q rest : List String)
    → Memᴰ path denylist
    → Targets payload path q
    → at (obj (apply_denylist payload denylist)) (q ++ rest) ≡ none
unfolding apply_denylist
apply_denylist-removes payload denylist path q rest among target =
    drop_paths-removes payload payload denylist path q rest (Descends-start payload) among target
