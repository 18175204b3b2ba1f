-- ===== src/Serializers.antt =====
-- serializers.py: event objects to what `json` can write. The objects form a graph, which may have
-- cycles: `look` gives what the code sees of an object.
pub mod Bounded
use openedx_webhook_relay.Base.{
  ℕ, zero, suc, ◌-◌, String, Bool, Option, none, some, List, [], ◌∷◌, ◌++◌, is_some, strip_prefix,
  ltb, if◌then◌else◌,
}
use openedx_webhook_relay.Base.Int.{ℤ}
use openedx_webhook_relay.Json.{
  Value, null, bool, int, float, str, arr, obj, Items, nil, cons, Fields, end, field,
}
use openedx_webhook_relay.Json.Dict.{put}

-- `None` and the instances of bool, int, float and str.
pub data Scalar : Type 0 where
  nothing : Scalar
  boolean : Bool → Scalar
  integer : ℤ → Scalar
  floating : ℕ → Scalar
  text : String → Scalar

-- What the chain of tests on an object finds, in its order: a scalar; a ScopeIds, with its block type
-- and user id as they are, whatever objects they may be (`other` is one that `json` has no rule for),
-- and `str()` of its two other ids; `str()` of an OpaqueKey; a list, a tuple or a set; a dictionary or the `__dict__` of
-- an object, where a key that is no text is `none`; or `str()` of another object, which every
-- object has.
pub data Node (A : Type 0) : Type 0 where
  scalar : Scalar → Node A
  scope_ids : Value → String → String → Value → Node A
  opaque_key : String → Node A
  sequence : List A → Node A
  attributes : List (Option String × A) → Node A
  described : String → Node A

abbrev pub scalar_value : Scalar → Value
scalar_value nothing = null
scalar_value (boolean b) = bool b
scalar_value (integer n) = int n
scalar_value (floating bits) = float bits
scalar_value (text s) = str s

abbrev pub scope_ids_serializer : Value → String → String → Value → Value
scope_ids_serializer block_type def_id usage_id user_id = obj (
    field "block_type" block_type
      (field "def_id" (str def_id) (field "usage_id" (str usage_id) (field "user_id" user_id end))))

module _ {A : Type 0} where
  unfoldable pub items_of : (A → Value) → List A → Items
  items_of f [] = nil
  items_of f (a ∷ xs) = cons (f a) (items_of f xs)

  -- The loop over the entries: a key that is no text, or begins with "_", is passed over.
  abbrev pub add_entry : (A → Value) → Option String → A → Fields → Fields
  add_entry f none a return_value = return_value
  add_entry f (some key) a return_value =
      if is_some (strip_prefix "_" key) then return_value else put return_value key (f a)

  unfoldable pub add_entries : (A → Value) → Fields → List (Option String × A) → Fields
  add_entries f return_value [] = return_value
  add_entries f return_value ((key, a) ∷ rest) = add_entries f (add_entry f key a return_value) rest

  unfoldable pub serialize_node : (A → Value) → Node A → Value
  serialize_node f (scalar s) = scalar_value s
  serialize_node f (scope_ids block_type def_id usage_id user_id) =
      scope_ids_serializer block_type def_id usage_id user_id
  serialize_node f (opaque_key s) = str s
  serialize_node f (sequence xs) = arr (items_of f xs)
  serialize_node f (attributes entries) = obj (add_entries f end entries)
  serialize_node f (described s) = str s

  -- `levels` is the number of levels left, 16 less the depth: past depth 15 the code stops.
  unfoldable pub serialize_levels : (A → Node A) → ℕ → A → Value
  unfolding serialize_node
  serialize_levels look zero a = str "! Depth limit reached !"
  serialize_levels look (suc levels) a = serialize_node (serialize_levels look levels) (look a)

  unfoldable pub object_serializer : (A → Node A) → A → ℕ → Value
  object_serializer look a depth = serialize_levels look (16 - depth) a

  abbrev pub value_serializer : (A → Node A) → A → Value
  value_serializer look value = object_serializer look value 0
