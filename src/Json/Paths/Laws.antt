-- ===== src/Json/Paths/Laws.antt =====
-- How `at` sees a concatenated path, and the writes into a dictionary.
use openedx_webhook_relay.Base.{
  String, ◌≡◌, refl, ◌∙◌, inl, inr, none, some, true, List, [], ◌∷◌, ◌++◌, arith, str_eq,
  if◌then◌else◌, Option-cases,
}
use openedx_webhook_relay.Json.{Value, obj, Fields, is_leaf}
use openedx_webhook_relay.Json.Dict.{put, pop, get-put, get-pop}
use openedx_webhook_relay.Json.Paths.{child, at}

pub at-cons :
    (v : Value) (k : String) (ks : List String) {w : Value}
    → child v k ≡ some w
    → at v (k ∷ ks) ≡ at w ks
unfolding at
at-cons v k ks h = rw (at, h)

pub at-cons_none :
    (v : Value) (k : String) (ks : List String) → child v k ≡ none → at v (k ∷ ks) ≡ none
unfolding at
at-cons_none v k ks h = rw (at, h)

-- A value found behind a key was found in a value under that key.
pub at-cons_inv :
    (v : Value) (k : String) (ks : List String) {s : Value}
    → at v (k ∷ ks) ≡ some s
    → (w : Value) × (child v k ≡ some w) × (at w ks ≡ some s)
at-cons_inv v k ks h = elim (Option-cases (child v k)) [
  | inl e ↦ cc (at-cons_none v k ks e)
  | inr (w, e) ↦ (w, e, cc (at-cons v k ks e))
]

pub at-append :
    (v : Value) (ks rest : List String) {w : Value}
    → at v ks ≡ some w
    → at v (ks ++ rest) ≡ at w rest
unfolding at
at-append v [] rest h = ground arith
at-append v (k ∷ ks) rest h =
    let (u, e, below) = at-cons_inv v k ks h in
    at-cons v k (ks ++ rest) e ∙ at-append u ks rest below

module _ (m : Fields) (k j : String) (ks : List String) where
  pub at-put :
      (v : Value)
      → at (obj (put m k v)) (j ∷ ks) ≡ (if str_eq k j then at v ks else at (obj m) (j ∷ ks))
  unfolding at
  at-put v = ground (arith, get-put m k j v)

  pub at-pop : at (obj (pop m k)) (j ∷ ks) ≡ (if str_eq k j then none else at (obj m) (j ∷ ks))
  unfolding at
  at-pop = ground (arith, get-pop m k j)

-- A leaf is not the dictionary itself, so its path has a key.
pub leaf_below :
    (m : Fields) (q : List String) {s : Value}
    → at (obj m) q ≡ some s
    → is_leaf s ≡ true
    → (j : String) × (ks : List String) × (q ≡ j ∷ ks)
unfolding at
leaf_below m [] h leaf = ground arith
leaf_below m (j ∷ ks) h leaf = (j, ks, refl)
