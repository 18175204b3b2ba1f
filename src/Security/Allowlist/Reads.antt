-- ===== src/Security/Allowlist/Reads.antt =====
-- Reading back what the allowlist writes at a path.
use openedx_webhook_relay.Base.{
  String, ◌≡◌, refl, some, false, List, [], ◌∷◌, arith, str_eq, split_dots, split_dots-cons,
}
use openedx_webhook_relay.Json.{Value, null, obj, Fields, is_leaf}
use openedx_webhook_relay.Json.Paths.{at}
use openedx_webhook_relay.Json.Paths.Laws.{at-cons_inv}
use openedx_webhook_relay.Security.Nested.{get_path, get_nested_value, set_nested_value}
use openedx_webhook_relay.Security.Nested.Writes.{at-set_path}

-- Reading back what stands at a path.
pub get_path-at : (w : Value) (ks : List String) (v : Value) → at w ks ≡ some v → get_path w ks ≡ v
unfolding get_path at
get_path-at w [] v h = ground arith
get_path-at w (k ∷ ks) v h =
    let (u, e, below) = at-cons_inv w k ks h in rw (get_path, e) (get_path-at u ks v below)

pub get_nested_value-at :
    (m : Fields) (sub_path : String) (v : Value)
    → str_eq sub_path "" ≡ false
    → at (obj m) (split_dots sub_path) ≡ some v
    → get_nested_value (obj m) sub_path ≡ v
unfolding get_nested_value
get_nested_value-at m sub_path v named h = rw named (get_path-at (obj m) (split_dots sub_path) v h)

pub at-set_nested_value :
    (m : Fields) (sub_path : String) (v : Value)
    → str_eq sub_path "" ≡ false
    → at (obj (set_nested_value m sub_path v)) (split_dots sub_path) ≡ some v
unfolding set_nested_value
at-set_nested_value m sub_path v named =
    let (k, ks, parts) = split_dots-cons sub_path in rw (named, parts) (at-set_path m k ks v)

pub dict_of_not_leaf : (v : Value) → is_leaf v ≡ false → (m : Fields) × (v ≡ obj m)
dict_of_not_leaf (obj m) h = (m, refl)
dict_of_not_leaf null h = cc
dict_of_not_leaf v h = absurd (cc)

pub leaf_lookup : (v : Value) → at v [] ≡ some v
unfolding at
leaf_lookup v = refl
