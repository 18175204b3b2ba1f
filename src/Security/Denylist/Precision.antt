-- ===== src/Security/Denylist/Precision.antt =====
-- The denylist removes no more than it names, and adds nothing.
use mathlib.Core.List.{Memᴰ}
use openedx_webhook_relay.Base.{
  String, ◌≡◌, ◌≢◌, ◌↔◌, refl, ap, ◌∙◌, inl, inr, some, true, List, [], ◌∷◌, ◌++◌, arith, str_eq,
  str_eq_iff, Option-cases, Bool-cases, split_dots,
}
use openedx_webhook_relay.Json.{Value, obj, Fields, is_leaf}
use openedx_webhook_relay.Json.Dict.{get, pop}
use openedx_webhook_relay.Json.Paths.{at}
use openedx_webhook_relay.Json.Paths.Laws.{at-pop}
use openedx_webhook_relay.Security.{event_data_key, if_truthy}
use openedx_webhook_relay.Security.Nested.{delete_nested_path}
use openedx_webhook_relay.Security.Nested.Deletion.{
  put-adds_nothing, put-keeps, delete_nested_path-leaf, delete_nested_path-keeps,
}
use openedx_webhook_relay.Security.Selection.{Covers, covers}
use openedx_webhook_relay.Security.Denylist.{drop_nested, drop_path, drop_paths, apply_denylist}
use openedx_webhook_relay.Security.Denylist.Steps.{unchanged, popped, deleted, drop_path-Dropped}

module _ (q : List String) {s : Value} (leaf : is_leaf s ≡ true) where
  drop_nested-leaf :
      (payload : Fields) (key sub_path : String)
      → at (obj (drop_nested payload key sub_path)) q ≡ some s
      → at (obj payload) q ≡ some s
  drop_nested-leaf payload key sub_path h = elim (Option-cases (get payload key)) [
    | inl e ↦ unfold drop_nested in (rw (drop_nested, e) at h)
    | inr (w, e) ↦
        put-adds_nothing payload key w (delete_nested_path w sub_path) e q
          (λ js found. delete_nested_path-leaf w sub_path js found leaf)
          (unfold drop_nested in (rw (drop_nested, e) at h)) leaf
  ]

  drop_nested-keeps :
      (payload : Fields) (key sub_path : String)
      → at (obj payload) q ≡ some s
      → ((rest : List String) → q ≢ key ∷ (split_dots sub_path ++ rest))
      → at (obj (drop_nested payload key sub_path)) q ≡ some s
  unfolding drop_nested
  drop_nested-keeps payload key sub_path h apart = elim (Option-cases (get payload key)) [
    | inl e ↦ rw (drop_nested, e) h
    | inr (w, e) ↦
        rw (drop_nested, e)
          (put-keeps payload key w (delete_nested_path w sub_path) e q
            (λ js p found.
              delete_nested_path-keeps w sub_path js found leaf
                (λ rest p'. apart rest (p ∙ ap (◌∷◌ key) p')))
            h leaf)
  ]

pop-leaf :
    (payload : Fields) (key : String) (q : List String) {s : Value}
    → at (obj (pop payload key)) q ≡ some s
    → is_leaf s ≡ true
    → at (obj payload) q ≡ some s
pop-leaf payload key [] h leaf = absurd (unfold at in ground arith)
pop-leaf payload key (j ∷ js) h leaf = ground (arith, at-pop payload key j js)

pop-keeps :
    (payload : Fields) (key : String) (q : List String) {s : Value}
    → at (obj payload) q ≡ some s
    → is_leaf s ≡ true
    → ((rest : List String) → q ≢ key ∷ rest)
    → at (obj (pop payload key)) q ≡ some s
pop-keeps payload key [] h leaf apart = absurd (unfold at in ground arith)
pop-keeps payload key (j ∷ js) h leaf apart = elim (Bool-cases (str_eq key j)) [
  | inl e ↦ absurd (apart js (cc ((str_eq_iff key j).0 e)))
  | inr e ↦ ground (arith, at-pop payload key j js)
]

module _ (original : Fields) (q : List String) {s : Value} (leaf : is_leaf s ≡ true) where
  drop_path-leaf :
      (payload : Fields) (path : String)
      → at (obj (drop_path (if_truthy (event_data_key original)) payload path)) q ≡ some s
      → at (obj payload) q ≡ some s
  drop_path-leaf payload path h = elim (drop_path-Dropped original payload path) [
    | unchanged e ↦ rw e at h
    | popped key named e ↦ pop-leaf payload key q (rw e at h) leaf
    | deleted key sub_path named e ↦ drop_nested-leaf q leaf payload key sub_path (rw e at h)
  ]

  drop_path-keeps :
      (payload : Fields) (path : String)
      → at (obj payload) q ≡ some s
      → ¬ Covers original path q
      → at (obj (drop_path (if_truthy (event_data_key original)) payload path)) q ≡ some s
  drop_path-keeps payload path h free = elim (drop_path-Dropped original payload path) [
    | unchanged e ↦ rw e h
    | popped key named e ↦
        rw e (pop-keeps payload key q h leaf (λ rest p. free (covers key [] rest named p)))
    | deleted key sub_path named e ↦ rw e (
        drop_nested-keeps q leaf payload key sub_path h
          (λ rest p. free (covers key (split_dots sub_path) rest named p)))
  ]

  drop_paths-leaf :
      (payload : Fields) (denylist : List String)
      → at (obj (drop_paths (if_truthy (event_data_key original)) payload denylist)) q ≡ some s
      → at (obj payload) q ≡ some s
  unfolding drop_paths
  drop_paths-leaf payload [] h = h
  drop_paths-leaf payload (path ∷ rest) h =
      drop_path-leaf payload path
        (drop_paths-leaf (drop_path (if_truthy (event_data_key original)) payload path) rest h)

  drop_paths-keeps :
      (payload : Fields) (denylist : List String)
      → at (obj payload) q ≡ some s
      → ((path : String) → Memᴰ path denylist → ¬ Covers original path q)
      → at (obj (drop_paths (if_truthy (event_data_key original)) payload denylist)) q ≡ some s
  unfolding drop_paths
  drop_paths-keeps payload [] h free = h
  drop_paths-keeps payload (path ∷ rest) h free =
      drop_paths-keeps (drop_path (if_truthy (event_data_key original)) payload path) rest
        (drop_path-keeps payload path h (free path (Memᴰ.head refl)))
        (λ later among. free later (Memᴰ.tail among))

-- A value other than a dictionary that stands at `q` after the denylist stood at `q` before.
pub apply_denylist-adds_nothing :
    (payload : Fields) (denylist : List String) (q : List String) (s : Value)
    → is_leaf s ≡ true
    → at (obj (apply_denylist payload denylist)) q ≡ some s
    → at (obj payload) q ≡ some s
unfolding apply_denylist
apply_denylist-adds_nothing payload denylist q s leaf =
    drop_paths-leaf payload q leaf payload denylist

-- A value other than a dictionary that stands at `q`, where no entry of the denylist covers `q`,
-- stands there after the denylist too.
pub apply_denylist-keeps :
    (payload : Fields) (denylist : List String) (q : List String) (s : Value)
    → is_leaf s ≡ true
    → at (obj payload) q ≡ some s
    → ((path : String) → Memᴰ path denylist → ¬ Covers payload path q)
    → at (obj (apply_denylist payload denylist)) q ≡ some s
unfolding apply_denylist
apply_denylist-keeps payload denylist q s leaf = drop_paths-keeps payload q leaf payload denylist

-- Where no entry of the denylist covers the place `q`, a value other than a dictionary stands there
-- after the denylist exactly if it stood there before.
pub apply_denylist_uncovered :
    (payload : Fields) (denylist : List String) (q : List String) (s : Value)
    → is_leaf s ≡ true
    → ((path : String) → Memᴰ path denylist → ¬ Covers payload path q)
    → (at (obj (apply_denylist payload denylist)) q ≡ some s) ↔ (at (obj payload) q ≡ some s)
apply_denylist_uncovered payload denylist q s leaf free = (
  apply_denylist-adds_nothing payload denylist q s leaf,
  λ h. apply_denylist-keeps payload denylist q s leaf h free,
)
