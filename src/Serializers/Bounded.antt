-- ===== src/Serializers/Bounded.antt =====
-- What the serializer puts out: something that `json` writes without its fallback, of bounded depth,
-- without private keys.
use openedx_webhook_relay.Base.{
  ℕ, zero, suc, String, ◌≡◌, refl, inl, inr, Bool, true, false, not, ◌&&◌, Option, none, some, List,
  [], ◌∷◌, arith, is_some, strip_prefix, str_eq_iff, Bool-cases,
}
use openedx_webhook_relay.Json.{
  Value, null, bool, int, float, str, arr, obj, other, Items, nil, cons, Fields, end, field,
}
use openedx_webhook_relay.Json.Dict.{put}
use openedx_webhook_relay.Serializers.{
  Scalar, nothing, boolean, integer, floating, text, Node, scalar, scope_ids, opaque_key, sequence,
  attributes, described, scalar_value, items_of, add_entries, serialize_node, serialize_levels,
  object_serializer, value_serializer,
}

-- Arrays and dictionaries are nested at most `levels` deep, no key begins with "_", and no object
-- is left for which `json` has no rule.
unfoldable mutual
  pub is_plain : ℕ → Value → Bool
  is_plain levels null = true
  is_plain levels (bool b) = true
  is_plain levels (int n) = true
  is_plain levels (float bits) = true
  is_plain levels (str s) = true
  is_plain levels (other s) = false
  is_plain zero (arr xs) = false
  is_plain (suc levels) (arr xs) = plain_items levels xs
  is_plain zero (obj m) = false
  is_plain (suc levels) (obj m) = plain_fields levels m

  pub plain_items : ℕ → Items → Bool
  plain_items levels nil = true
  plain_items levels (cons v xs) = is_plain levels v && plain_items levels xs

  pub plain_fields : ℕ → Fields → Bool
  plain_fields levels end = true
  plain_fields levels (field k v m) =
      not (is_some (strip_prefix "_" k)) && (is_plain levels v && plain_fields levels m)

scalar-plain : (levels : ℕ) (s : Scalar) → is_plain levels (scalar_value s) ≡ true
unfolding is_plain
scalar-plain levels nothing = refl
scalar-plain levels (boolean b) = refl
scalar-plain levels (integer n) = refl
scalar-plain levels (floating bits) = refl
scalar-plain levels (text s) = refl

leaf-plain : (levels : ℕ) (v : Value) → is_plain zero v ≡ true → is_plain levels v ≡ true
unfolding is_plain
leaf-plain levels null h = refl
leaf-plain levels (bool b) h = refl
leaf-plain levels (int n) h = refl
leaf-plain levels (float bits) h = refl
leaf-plain levels (str s) h = refl
leaf-plain levels (other s) h = absurd (cc)
leaf-plain levels (arr xs) h = absurd (cc)
leaf-plain levels (obj m) h = absurd (cc)

-- The block type and the user id of a ScopeIds are scalars or None.
unfoldable pub has_plain_ids : {A : Type 0} → Node A → Bool
unfolding is_plain
has_plain_ids (scope_ids block_type def_id usage_id user_id) =
    is_plain zero block_type && is_plain zero user_id
has_plain_ids node = true

put-plain :
    (levels : ℕ) (m : Fields) (k : String) (v : Value)
    → plain_fields levels m ≡ true
    → is_some (strip_prefix "_" k) ≡ false
    → is_plain levels v ≡ true
    → plain_fields levels (put m k v) ≡ true
unfolding put plain_fields
put-plain levels end k v plain public_key is_v = rw (public_key, is_v)
put-plain levels (field j w m) k v plain public_key is_v =
    ground (arith, put-plain levels m k v, str_eq_iff j k)

module _ {A : Type 0} (look : A → Node A) (levels : ℕ) (f : A → Value)
    (plain : (a : A) → is_plain levels (f a) ≡ true) where
  items_of-plain : (xs : List A) → plain_items levels (items_of f xs) ≡ true
  unfolding plain_items items_of
  items_of-plain [] = refl
  items_of-plain (a ∷ xs) = rw (plain a, items_of-plain xs)

  add_entries-plain :
      (entries : List (Option String × A)) (m : Fields)
      → plain_fields levels m ≡ true
      → plain_fields levels (add_entries f m entries) ≡ true
  unfolding add_entries
  add_entries-plain [] m h = h
  add_entries-plain ((none, a) ∷ rest) m h = add_entries-plain rest m h
  add_entries-plain ((some key, a) ∷ rest) m h =
      elim (Bool-cases (is_some (strip_prefix "_" key))) [
        | inl e ↦ rw e (add_entries-plain rest m h)
        | inr e ↦
            rw e (
              add_entries-plain rest (put m key (f a)) (put-plain levels m key (f a) h e (plain a)))
      ]

  serialize_node-plain :
      (node : Node A)
      → has_plain_ids node ≡ true
      → is_plain (suc levels) (serialize_node f node) ≡ true
  unfolding serialize_node is_plain has_plain_ids strip_prefix
  serialize_node-plain (scalar s) ids = scalar-plain (suc levels) s
  serialize_node-plain (scope_ids block_type def_id usage_id user_id) ids =
      ground (arith, ids, leaf-plain levels block_type, leaf-plain levels user_id)
  serialize_node-plain (opaque_key s) ids = refl
  serialize_node-plain (sequence xs) ids = items_of-plain xs
  serialize_node-plain (attributes entries) ids = add_entries-plain entries end refl
  serialize_node-plain (described s) ids = refl

serialize_levels-plain :
    {A : Type 0} (look : A → Node A)
    → ((a : A) → has_plain_ids (look a) ≡ true)
    → (levels : ℕ) (a : A) → is_plain levels (serialize_levels look levels a) ≡ true
unfolding serialize_levels is_plain
serialize_levels-plain look ids zero a = refl
serialize_levels-plain look ids (suc levels) a =
    serialize_node-plain look levels (serialize_levels look levels)
      (serialize_levels-plain look ids levels) (look a) (ids a)

-- Whatever the graph of objects, cycles included, if every ScopeIds in it has scalars (or None) for
-- its block type and user id, then the serializer returns a value that is nested at most 16 deep,
-- holds no object for which `json` has no rule, and has no key that begins with "_".
pub value_serializer-plain :
    (A : Type 0) (look : A → Node A) (value : A)
    → ((a : A) → has_plain_ids (look a) ≡ true)
    → is_plain 16 (value_serializer look value) ≡ true
unfolding object_serializer
value_serializer-plain A look value ids = serialize_levels-plain look ids 16 value
