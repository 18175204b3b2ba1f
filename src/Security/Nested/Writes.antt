-- ===== src/Security/Nested/Writes.antt =====
-- What a write at a path leaves in place, where the written value is the one that a larger value has
-- at that path.
use openedx_webhook_relay.Base.{
  String, ◌≡◌, ◌≢◌, refl, sym, ap, ◌∙◌, inl, inr, some, List, [], ◌∷◌, arith, str_eq, str_eq_iff,
  Bool-cases,
}
use openedx_webhook_relay.Json.{Value, null, obj, Fields}
use openedx_webhook_relay.Json.Dict.{get, put-get_self}
use openedx_webhook_relay.Json.Paths.{child, at}
use openedx_webhook_relay.Json.Paths.Laws.{at-cons, at-cons_none, at-cons_inv, at-put}
use openedx_webhook_relay.Security.Nested.{dict_or_new, set_path}

-- What has something behind a key is a dictionary.
pub dict_of_child :
    (v : Value) (k : String) (ks : List String) {s : Value}
    → at v (k ∷ ks) ≡ some s
    → (m : Fields) × (v ≡ obj m)
dict_of_child (obj m) k ks h = (m, refl)
dict_of_child null k ks h = cc (at-cons_none null k ks refl)
dict_of_child v k ks h = absurd (cc (at-cons_none v k ks refl))

-- The written value is found where it was written.
pub at-set_path :
    (m : Fields) (k : String) (ks : List String) (v : Value)
    → at (obj (set_path m (k ∷ ks) v)) (k ∷ ks) ≡ some v
unfolding set_path
at-set_path m k [] v = unfold at in ground (arith, at-put m k k [] v, str_eq_iff k k)
at-set_path m k (n ∷ ns) v = ground (
  arith,
  at-put m k k (n ∷ ns) (obj (set_path (dict_or_new (get m k)) (n ∷ ns) v)),
  str_eq_iff k k,
  at-set_path (dict_or_new (get m k)) n ns v,
)

-- A write of what is there already changes nothing.
pub set_path-at_self :
    (m : Fields) (ks : List String) (v : Value)
    → at (obj m) ks ≡ some v
    → ks ≢ []
    → set_path m ks v ≡ m
unfolding set_path
set_path-at_self m [] v h some_key = absurd (some_key refl)
set_path-at_self m (k ∷ []) v h some_key =
    let (w, e, found) = at-cons_inv (obj m) k [] h in put-get_self m k v (e ∙ (unfold at in found))
set_path-at_self m (k ∷ n ∷ ns) v h some_key =
    let (w, e, below) = at-cons_inv (obj m) k (n ∷ ns) h in
    let (inner, is_dict) = dict_of_child w n ns below in
    let e' : get m k ≡ some (obj inner) = e ∙ ap some is_dict in
    rw (e', set_path-at_self inner (n ∷ ns) v (rw is_dict at below) (λ p. cc))
      (put-get_self m k (obj inner) e')

-- Where two values agree at `js`, and one goes on, the other is a dictionary.
both_dicts :
    (x u : Value) (n : String) (ns js : List String) {value v : Value}
    → at u (n ∷ ns) ≡ some value
    → at u js ≡ some v
    → at x js ≡ some v
    → (inner : Fields) × (x ≡ obj inner)
both_dicts x u n ns [] at_ks at_js h =
    let (inner, is_dict) = dict_of_child u n ns at_ks in
    let same : x ≡ u = unfold at in cc in (inner, same ∙ is_dict)
both_dicts x u n ns (j ∷ js) at_ks at_js h = dict_of_child x j js h

-- Let `w` have `v` at `js` and `value` at `ks`. If the dictionary has `v` at `js`, it still has after
-- `value` is written at `ks`.
pub set_path-preserves :
    (m : Fields) (ks : List String) (value w : Value) (js : List String) (v : Value)
    → at w ks ≡ some value
    → at w js ≡ some v
    → at (obj m) js ≡ some v
    → at (obj (set_path m ks value)) js ≡ some v
unfolding set_path
set_path-preserves m [] value w js v at_ks at_js h = h
set_path-preserves m (k ∷ ks) value w [] v at_ks at_js h =
    let same : w ≡ obj m = unfold at in cc in
    rw (set_path-at_self m (k ∷ ks) value (rw same at at_ks) (λ p. cc)) h
set_path-preserves m (k ∷ []) value w (j ∷ js) v at_ks at_js h = elim (Bool-cases (str_eq k j)) [
  | inr e ↦ ground (arith, at-put m k j js value)
  | inl e ↦
      let (u, at_k, found) = at-cons_inv w k [] at_ks in
      let is_value : u ≡ value = unfold at in ground arith in
      let at_j : child w j ≡ some value =
        ap (child w) (sym ((str_eq_iff k j).0 e)) ∙ at_k ∙ ap some is_value in
      ground (arith, at-put m k j js value, at-cons w j js at_j)
]
set_path-preserves m (k ∷ n ∷ ns) value w (j ∷ js) v at_ks at_js h =
    elim (Bool-cases (str_eq k j)) [
      | inr e ↦
          ground (arith, at-put m k j js (obj (set_path (dict_or_new (get m k)) (n ∷ ns) value)))
      | inl e ↦
          let k_j = (str_eq_iff k j).0 e in
          let (u, at_k, below) = at-cons_inv w k (n ∷ ns) at_ks in
          let (x, at_j, found) = at-cons_inv (obj m) j js h in
          let u_js : at u js ≡ some v =
            sym (at-cons w j js (ap (child w) (sym k_j) ∙ at_k)) ∙ at_js in
          let (inner, is_dict) = both_dicts x u n ns js below u_js found in
          let opened : get m k ≡ some (obj inner) = ap (get m) k_j ∙ at_j ∙ ap some is_dict in
          let ih =
            set_path-preserves inner (n ∷ ns) value u js v below u_js (rw is_dict at found) in
          rw opened (ground (arith, at-put m k j js (obj (set_path inner (n ∷ ns) value)), ih))
    ]
