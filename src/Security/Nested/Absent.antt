-- ===== src/Security/Nested/Absent.antt =====
-- A deletion where nothing stands.
use openedx_webhook_relay.Base.{
  String, ◌≡◌, ◌⊎◌, refl, sym, ap, ◌∙◌, inl, inr, true, ◌||◌, none, List, [], ◌∷◌, str_eq,
  Option-cases, Bool-cases, arith, split_dots, split_dots-cons,
}
use openedx_webhook_relay.Json.{Value, obj, is_none}
use openedx_webhook_relay.Json.Dict.{get, put-get_self}
use openedx_webhook_relay.Json.Paths.{at}
use openedx_webhook_relay.Json.Paths.Laws.{at-cons}
use openedx_webhook_relay.Security.Nested.{delete_path, delete_nested_path}
use openedx_webhook_relay.Json.Dict.Keys.{pop-absent_self}

-- A deletion where nothing stands changes nothing.
delete_path-absent_self :
    (v : Value) (k : String) (ks : List String) → at v (k ∷ ks) ≡ none → delete_path v (k ∷ ks) ≡ v
unfolding delete_path
delete_path-absent_self (obj m) k [] h = ap obj (
    pop-absent_self m k (elim (Option-cases (get m k)) [
      | inl e ↦ e
      | inr (w, e) ↦ absurd (unfold at in ground arith)
    ]))
delete_path-absent_self (obj m) k (n ∷ ns) h = elim (Option-cases (get m k)) [
  | inl e ↦ rw (delete_path, e) refl
  | inr (w, e) ↦
      rw (delete_path, e, delete_path-absent_self w n ns (sym (at-cons (obj m) k (n ∷ ns) e) ∙ h))
        (ap obj (put-get_self m k w e))
]
delete_path-absent_self v k ks h = refl

null-kept : (v : Value) (path : String) → is_none v ≡ true → delete_nested_path v path ≡ v
unfolding delete_nested_path
null-kept v path h = rw h

pub delete_nested_path-absent_self :
    (v : Value) (path : String)
    → (str_eq path "" ≡ true) ⊎ (at v (split_dots path) ≡ none)
    → delete_nested_path v path ≡ v
unfolding delete_nested_path
delete_nested_path-absent_self v path h = elim (Bool-cases (is_none v || str_eq path "")) [
  | inl e ↦ rw e
  | inr e ↦ elim h [
    | inl empty ↦ ground arith
    | inr absent ↦
        let (k, ks, split) = split_dots-cons path in
        rw (e, split) (delete_path-absent_self v k ks (ap (at v) (sym split) ∙ absent))
  ]
]
