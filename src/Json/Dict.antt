-- ===== src/Json/Dict.antt =====
-- Python's `dict` with string keys, in insertion order: `d.get`, `d[k] = v`, `d.pop(k, None)`, `k in d`.
pub mod Keys
use openedx_webhook_relay.Base.{
  String, ◌≡◌, refl, Bool, Option, none, some, List, [], ◌∷◌, arith, is_some, str_eq, str_eq_iff,
  if◌then◌else◌,
}
use openedx_webhook_relay.Json.{Value, Fields, end, field}

unfoldable pub get : Fields → String → Option Value
get end k = none
get (field j v m) k = let rest = get m k in if str_eq j k then some v else rest

abbrev pub contains : Fields → String → Bool
contains m k = is_some (get m k)

-- An existing key keeps its place; a new one goes to the end.
unfoldable pub put : Fields → String → Value → Fields
put end k v = field k v end
put (field j w m) k v = let rest = put m k v in if str_eq j k then field j v m else field j w rest

unfoldable pub pop : Fields → String → Fields
pop end k = end
pop (field j v m) k = let rest = pop m k in if str_eq j k then rest else field j v rest

unfoldable pub keys : Fields → List String
keys end = []
keys (field k v m) = k ∷ keys m

pub get-put :
    (m : Fields) (k j : String) (v : Value)
    → get (put m k v) j ≡ (if str_eq k j then some v else get m j)
unfolding get put
get-put end k j v = refl
get-put (field i w m) k j v =
    ground (arith, get-put m k j v, str_eq_iff i k, str_eq_iff i j, str_eq_iff k j)

pub get-pop : (m : Fields) (k j : String) → get (pop m k) j ≡ (if str_eq k j then none else get m j)
unfolding get pop
get-pop end k j = ground arith
get-pop (field i w m) k j =
    ground (arith, get-pop m k j, str_eq_iff i k, str_eq_iff i j, str_eq_iff k j)

-- Writing what is there already changes nothing.
pub put-get_self : (m : Fields) (k : String) (v : Value) → get m k ≡ some v → put m k v ≡ m
unfolding get put
put-get_self end k v h = ground arith
put-get_self (field j w m) k v h = ground (arith, put-get_self m k v)

pub ruleset dict_laws = (get-put, get-pop)
