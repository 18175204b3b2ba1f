-- ===== src/Logging.antt =====
-- logging_utils.py: the object that the formatter makes of a log record. The attributes that every
-- record has, and Python's `str` of a value, are parameters.
pub mod Attributes
use openedx_webhook_relay.Base.{
  String, Bool, true, false, ◌&&◌, Option, none, some, List, [], ◌∷◌, str_eq, if◌then◌else◌,
}
use openedx_webhook_relay.Json.{
  Value, null, bool, int, float, str, arr, obj, other, Items, nil, cons, Fields, end, field,
}
use openedx_webhook_relay.Json.Dict.{put}

-- A log record: its time, level, logger, message and traceback as texts, and its `__dict__`.
pub record LogRecord : Type 0 where
  pub timestamp : String
  pub levelname : String
  pub name : String
  pub message : String
  pub exception : Option String
  pub attributes : Fields

-- `json.dumps(value)` raises no TypeError.
unfoldable mutual
  pub serializable : Value → Bool
  serializable (other s) = false
  serializable (arr xs) = serializable_items xs
  serializable (obj m) = serializable_fields m
  serializable v = true

  pub serializable_items : Items → Bool
  serializable_items nil = true
  serializable_items (cons v xs) = serializable v && serializable_items xs

  pub serializable_fields : Fields → Bool
  serializable_fields end = true
  serializable_fields (field k v m) = serializable v && serializable_fields m

abbrev pub is_among : String → List String → Bool
is_among key [] = false
is_among key (k ∷ ks) = if str_eq k key then true else is_among key ks

module _ (standard : List String) (text_of : Value → String) where
  unfoldable pub loggable : Value → Value
  unfolding serializable
  loggable v = if serializable v then v else str (text_of v)

  -- The loop over `record.__dict__`.
  unfoldable pub add_attributes : Fields → Fields → Fields
  unfolding loggable
  add_attributes payload end = payload
  add_attributes payload (field key v rest) =
      add_attributes (if is_among key standard then payload else put payload key (loggable v)) rest

  abbrev pub add_exception : Option String → Fields → Fields
  add_exception none payload = payload
  add_exception (some text) payload = put payload "exc_info" (str text)

  unfoldable pub base_fields : LogRecord → Fields
  base_fields r = add_exception r.exception (
      field "timestamp" (str r.timestamp) (
        field "level" (str r.levelname)
          (field "logger" (str r.name) (field "message" (str r.message) end))))

  -- What `format` dumps, with its keys sorted.
  unfoldable pub format_fields : LogRecord → Fields
  unfolding add_attributes base_fields
  format_fields r = add_attributes (base_fields r) r.attributes
