-- ===== src/Security/Nested/Laws.antt =====
-- What a read, a write and a deletion by a dotted path do to the value at every other path.
use openedx_webhook_relay.Base.{
  String, ◌≡◌, refl, sym, ap, ◌∙◌, ◌⊎◌, inl, inr, Option, some, true, false, List, [], ◌∷◌, ◌++◌,
  arith, str_eq, str_eq_iff, Option-cases, Bool-cases, split_dots,
}
use openedx_webhook_relay.Json.{Value, obj, Fields, end, is_leaf, is_none}
use openedx_webhook_relay.Json.Dict.{get, put}
use openedx_webhook_relay.Json.Paths.{child, at}
use openedx_webhook_relay.Json.Paths.Laws.{at-cons, at-put}
use openedx_webhook_relay.Security.Nested.{
  get_path, get_nested_value, dict_or_new, set_path, set_nested_value,
}

-- A read that does not give `None` found its value at the path.
pub at-get_path :
    (v : Value) (ks : List String)
    → is_none (get_path v ks) ≡ false
    → at v ks ≡ some (get_path v ks)
unfolding at get_path
at-get_path v [] h = refl
at-get_path v (k ∷ ks) h = elim (Option-cases (child v k)) [
  | inl e ↦ absurd (cc (rw (get_path, e) at h))
  | inr (w, e) ↦
      let step : get_path v (k ∷ ks) ≡ get_path w ks = rw (get_path, e) in
      at-cons v k ks e ∙ at-get_path w ks (rw step at h) ∙ ap some (sym step)
]

pub not-end-leaf : (ks : List String) {s : Value} → at (obj end) ks ≡ some s → is_leaf s ≡ false
unfolding at get
not-end-leaf [] h = ground arith
not-end-leaf (j ∷ ks) h = ground arith

-- What a dictionary that is opened or made has as a leaf, the value had.
dict_or_new-leaf :
    (o : Option Value) (ks : List String) {s : Value}
    → at (obj (dict_or_new o)) ks ≡ some s
    → is_leaf s ≡ true
    → (w : Value) × (o ≡ some w) × (at w ks ≡ some s)
dict_or_new-leaf (some (obj m)) ks h leaf = (obj m, refl, h)
dict_or_new-leaf o ks h leaf = absurd (cc (not-end-leaf ks h))

-- A leaf of a dictionary after `m[k] = v` is a leaf of `v`, or was there.
pub put-leaf :
    (m : Fields) (k : String) (v : Value) (q : List String) {s : Value}
    → at (obj (put m k v)) q ≡ some s
    → is_leaf s ≡ true
    → ((rest : List String) × (q ≡ k ∷ rest) × (at v rest ≡ some s)) ⊎ (at (obj m) q ≡ some s)
put-leaf m k v [] h leaf = absurd (unfold at in ground arith)
put-leaf m k v (j ∷ ks) h leaf = elim (Bool-cases (str_eq k j)) [
  | inl e ↦ inl (ks, cc ((str_eq_iff k j).0 e), ground (arith, at-put m k j ks v))
  | inr e ↦ inr (ground (arith, at-put m k j ks v))
]

-- A leaf of a dictionary after a write at a path is a leaf of the written value, or was there.
pub set_path-leaf :
    (m : Fields) (ks : List String) (v : Value) (q : List String) {s : Value}
    → at (obj (set_path m ks v)) q ≡ some s
    → is_leaf s ≡ true
    → ((rest : List String) × (q ≡ ks ++ rest) × (at v rest ≡ some s)) ⊎ (at (obj m) q ≡ some s)
unfolding set_path
set_path-leaf m [] v q h leaf = inr h
set_path-leaf m (k ∷ []) v q h leaf = put-leaf m k v q h leaf
set_path-leaf m (k ∷ n ∷ ns) v q {s} h leaf =
    elim (put-leaf m k (obj (set_path (dict_or_new (get m k)) (n ∷ ns) v)) q h leaf) [
      | inr before ↦ inr before
      | inl (rest, e, below) ↦
          elim (set_path-leaf (dict_or_new (get m k)) (n ∷ ns) v rest below leaf) [
            | inl (rest', e', found) ↦ inl (rest', cc, found)
            | inr old ↦
                let (w, at_k, found) = dict_or_new-leaf (get m k) rest old leaf in
                inr (rw e (at-cons (obj m) k rest at_k ∙ found))
          ]
    ]

-- The same of a whole call, whose empty path writes nothing.
pub set_nested_value-leaf :
    (m : Fields) (path : String) (v : Value) (q : List String) {s : Value}
    → at (obj (set_nested_value m path v)) q ≡ some s
    → is_leaf s ≡ true
    → ((rest : List String) × (q ≡ split_dots path ++ rest)
        × (at v rest ≡ some s)
        × (str_eq path "" ≡ false))
      ⊎ (at (obj m) q ≡ some s)
unfolding set_nested_value
set_nested_value-leaf m path v q h leaf = elim (Bool-cases (str_eq path "")) [
  | inl e ↦ inr (rw e at h)
  | inr e ↦ elim (set_path-leaf m (split_dots path) v q (rw e at h) leaf) [
    | inl (rest, p, found) ↦ inl (rest, p, found, e)
    | inr before ↦ inr before
  ]
]

-- A read that does not give `None`, by a path that is not empty, found its value at the path.
pub at-get_nested_value :
    (v : Value) (path : String)
    → str_eq path "" ≡ false
    → is_none (get_nested_value v path) ≡ false
    → at v (split_dots path) ≡ some (get_nested_value v path)
unfolding get_nested_value
at-get_nested_value v path named h = elim (Bool-cases (is_none v)) [
  | inl e ↦ absurd (ground arith)
  | inr e ↦ rw (e, named) (at-get_path v (split_dots path) (rw (e, named) at h))
]
