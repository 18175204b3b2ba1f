-- ===== src/Json/Dict/Keys.antt =====
-- The keys of a dictionary after a write and after a pop.
use openedx_webhook_relay.Base.{
  String, ◌≡◌, refl, true, false, none, List, [], ◌∷◌, str_eq, str_eq_iff, if◌then◌else◌, arith,
}
use openedx_webhook_relay.Json.{Value, Fields, end, field}
use openedx_webhook_relay.Json.Dict.{get, put, pop, contains, keys}

pub pop-put :
    (m : Fields) (k j : String) (v : Value)
    → str_eq k j ≡ false
    → pop (put m k v) j ≡ put (pop m j) k v
unfolding pop put
pop-put end k j v e = ground arith
pop-put (field i w m) k j v e =
    ground (arith, e, pop-put m k j v e, str_eq_iff i k, str_eq_iff i j, str_eq_iff k j)

pub keys-put :
    (m : Fields) (k : String) (v : Value) → contains m k ≡ true → keys (put m k v) ≡ keys m
unfolding keys put get
keys-put end k v h = absurd (cc)
keys-put (field i w m) k v h = ground (arith, keys-put m k v)

unfoldable pub without : List String → String → List String
without [] k = []
without (j ∷ js) k = if str_eq j k then without js k else j ∷ without js k

pub keys-pop : (m : Fields) (k : String) → keys (pop m k) ≡ without (keys m) k
unfolding keys pop without
keys-pop end k = refl
keys-pop (field i w m) k = ground (arith, keys-pop m k)

pub pop-absent_self : (m : Fields) (k : String) → get m k ≡ none → pop m k ≡ m
unfolding get pop
pop-absent_self end k h = refl
pop-absent_self (field i w m) k h = ground (arith, pop-absent_self m k, h)
