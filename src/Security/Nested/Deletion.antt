-- ===== src/Security/Nested/Deletion.antt =====
-- What `delete_path` does to the value at every path.
use openedx_webhook_relay.Base.{
  String, ◌≡◌, ◌≢◌, refl, sym, ap, ◌∙◌, inl, inr, none, some, true, false, List, [], ◌∷◌, ◌++◌,
  arith, str_eq, str_eq_iff, Option-cases, Bool-cases, split_dots, split_dots-cons, ◌||◌,
}
use openedx_webhook_relay.Json.{Value, null, obj, Fields, is_leaf, is_none}
use openedx_webhook_relay.Json.Dict.{get, put}
use openedx_webhook_relay.Json.Paths.{at}
use openedx_webhook_relay.Json.Paths.Laws.{at-cons, at-cons_none, at-put, at-pop}
use openedx_webhook_relay.Security.Nested.{delete_path, delete_nested_path}

-- `m` with `w'` in place of what it has at `k`.
module _ (m : Fields) (k : String) (w w' : Value) (before : get m k ≡ some w) where
  pub put-adds_nothing :
      (q : List String) {s : Value}
      → ((js : List String) → at w' js ≡ some s → at w js ≡ some s)
      → at (obj (put m k w')) q ≡ some s
      → is_leaf s ≡ true
      → at (obj m) q ≡ some s
  put-adds_nothing [] keeps h leaf = absurd (unfold at in ground arith)
  put-adds_nothing (j ∷ js) keeps h leaf = elim (Bool-cases (str_eq k j)) [
    | inr e ↦ ground (arith, at-put m k j js w')
    | inl e ↦
        at-cons (obj m) j js (ap (get m) (sym ((str_eq_iff k j).0 e)) ∙ before)
        ∙ keeps js (ground (arith, at-put m k j js w'))
  ]

  pub put-keeps :
      (q : List String) {s : Value}
      → ((js : List String) → q ≡ k ∷ js → at w js ≡ some s → at w' js ≡ some s)
      → at (obj m) q ≡ some s
      → is_leaf s ≡ true
      → at (obj (put m k w')) q ≡ some s
  put-keeps [] keeps h leaf = absurd (unfold at in ground arith)
  put-keeps (j ∷ js) keeps h leaf = elim (Bool-cases (str_eq k j)) [
    | inr e ↦ ground (arith, at-put m k j js w')
    | inl e ↦
        let k_j = (str_eq_iff k j).0 e in
        let below : at w js ≡ some _ =
          sym (at-cons (obj m) j js (ap (get m) (sym k_j) ∙ before)) ∙ h in
        ground (arith, at-put m k j js w', keeps js (cc k_j) below)
  ]

  pub put-absent :
      (q : List String)
      → ((js : List String) → at w js ≡ none → at w' js ≡ none)
      → at (obj m) q ≡ none
      → at (obj (put m k w')) q ≡ none
  put-absent [] absent h = absurd (unfold at in ground arith)
  put-absent (j ∷ js) absent h = elim (Bool-cases (str_eq k j)) [
    | inr e ↦ ground (arith, at-put m k j js w')
    | inl e ↦
        let k_j = (str_eq_iff k j).0 e in
        let below : at w js ≡ none =
          sym (at-cons (obj m) j js (ap (get m) (sym k_j) ∙ before)) ∙ h in
        ground (arith, at-put m k j js w', absent js below)
  ]

-- A deletion adds nothing: what it leaves as a leaf at a path was there.
pub delete_path-leaf :
    (v : Value) (ks q : List String) {s : Value}
    → at (delete_path v ks) q ≡ some s
    → is_leaf s ≡ true
    → at v q ≡ some s
unfolding delete_path
delete_path-leaf (obj m) (k ∷ []) [] h leaf = absurd (unfold at in ground arith)
delete_path-leaf (obj m) (k ∷ []) (j ∷ js) h leaf = ground (arith, at-pop m k j js)
delete_path-leaf (obj m) (k ∷ n ∷ ns) q h leaf = elim (Option-cases (get m k)) [
  | inl e ↦ rw (delete_path, e) at h
  | inr (w, e) ↦
      put-adds_nothing m k w (delete_path w (n ∷ ns)) e q
        (λ js found. delete_path-leaf w (n ∷ ns) js found leaf) (rw (delete_path, e) at h) leaf
]
delete_path-leaf v ks q h leaf = h

-- What stands at the deleted path or below it is gone.
pub delete_path-gone :
    (v : Value) (k : String) (ks rest : List String)
    → at (delete_path v (k ∷ ks)) (k ∷ (ks ++ rest)) ≡ none
unfolding delete_path
delete_path-gone (obj m) k [] rest = ground (arith, at-pop m k k rest, str_eq_iff k k)
delete_path-gone (obj m) k (n ∷ ns) rest = elim (Option-cases (get m k)) [
  | inl e ↦ rw (delete_path, e) (at-cons_none (obj m) k (n ∷ (ns ++ rest)) e)
  | inr (w, e) ↦
      rw (delete_path, e)
        (ground (
          arith,
          at-put m k k (n ∷ (ns ++ rest)) (delete_path w (n ∷ ns)),
          str_eq_iff k k,
          delete_path-gone w n ns rest,
        ))
]
delete_path-gone v k ks rest = at-cons_none v k (ks ++ rest) refl

-- A leaf that does not stand at the deleted path or below it stays.
pub delete_path-keeps :
    (v : Value) (ks q : List String) {s : Value}
    → at v q ≡ some s
    → is_leaf s ≡ true
    → ((rest : List String) → q ≢ ks ++ rest)
    → at (delete_path v ks) q ≡ some s
unfolding delete_path
delete_path-keeps (obj m) (k ∷ []) [] h leaf apart = absurd (unfold at in ground arith)
delete_path-keeps (obj m) (k ∷ []) (j ∷ js) h leaf apart = elim (Bool-cases (str_eq k j)) [
  | inl e ↦ absurd (apart js (cc ((str_eq_iff k j).0 e)))
  | inr e ↦ ground (arith, at-pop m k j js)
]
delete_path-keeps (obj m) (k ∷ n ∷ ns) q h leaf apart = elim (Option-cases (get m k)) [
  | inl e ↦ rw (delete_path, e) h
  | inr (w, e) ↦
      rw (delete_path, e)
        (put-keeps m k w (delete_path w (n ∷ ns)) e q
          (λ js p found.
            delete_path-keeps w (n ∷ ns) js found leaf (λ rest p'. apart rest (cc (p, p'))))
          h leaf)
]
delete_path-keeps v ks q h leaf apart = h

-- A deletion makes no path appear.
pub delete_path-absent :
    (v : Value) (ks q : List String) → at v q ≡ none → at (delete_path v ks) q ≡ none
unfolding delete_path
delete_path-absent (obj m) (k ∷ []) [] h = absurd (unfold at in ground arith)
delete_path-absent (obj m) (k ∷ []) (j ∷ js) h = ground (arith, at-pop m k j js)
delete_path-absent (obj m) (k ∷ n ∷ ns) q h = elim (Option-cases (get m k)) [
  | inl e ↦ rw (delete_path, e) h
  | inr (w, e) ↦
      rw (delete_path, e)
        (put-absent m k w (delete_path w (n ∷ ns)) e q (delete_path-absent w (n ∷ ns)) h)
]
delete_path-absent v ks q h = h

null-absent : (v : Value) (k : String) (ks : List String) → is_none v ≡ true → at v (k ∷ ks) ≡ none
null-absent null k ks h = at-cons_none null k ks refl
null-absent (obj m) k ks h = cc
null-absent v k ks h = at-cons_none v k ks refl

-- The same of whole calls, which delete nothing from `None` or by an empty path.
module _ (v : Value) (path : String) where
  pub delete_nested_path-leaf :
      (q : List String) {s : Value}
      → at (delete_nested_path v path) q ≡ some s
      → is_leaf s ≡ true
      → at v q ≡ some s
  unfolding delete_nested_path
  delete_nested_path-leaf q h leaf = elim (Bool-cases (is_none v || str_eq path "")) [
    | inl e ↦ rw e at h
    | inr e ↦ delete_path-leaf v (split_dots path) q (rw e at h) leaf
  ]

  pub delete_nested_path-keeps :
      (q : List String) {s : Value}
      → at v q ≡ some s
      → is_leaf s ≡ true
      → ((rest : List String) → q ≢ split_dots path ++ rest)
      → at (delete_nested_path v path) q ≡ some s
  unfolding delete_nested_path
  delete_nested_path-keeps q h leaf apart = elim (Bool-cases (is_none v || str_eq path "")) [
    | inl e ↦ rw e h
    | inr e ↦ rw e (delete_path-keeps v (split_dots path) q h leaf apart)
  ]

  pub delete_nested_path-absent :
      (q : List String) → at v q ≡ none → at (delete_nested_path v path) q ≡ none
  unfolding delete_nested_path
  delete_nested_path-absent q h = elim (Bool-cases (is_none v || str_eq path "")) [
    | inl e ↦ rw e h
    | inr e ↦ rw e (delete_path-absent v (split_dots path) q h)
  ]

  pub delete_nested_path-gone :
      (rest : List String)
      → str_eq path "" ≡ false
      → at (delete_nested_path v path) (split_dots path ++ rest) ≡ none
  unfolding delete_nested_path
  delete_nested_path-gone rest named =
      let (k, ks, e) = split_dots-cons path in
      elim (Bool-cases (is_none v)) [
        | inl nothing ↦ rw (nothing, e) (null-absent v k (ks ++ rest) nothing)
        | inr there ↦ rw (there, named, e) (delete_path-gone v k ks rest)
      ]
