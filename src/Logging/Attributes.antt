-- ===== src/Logging/Attributes.antt =====
-- Each attribute that a call passes by `extra` is a key of the line.
use openedx_webhook_relay.Base.{
  String, ◌≡◌, refl, ap, sym, ◌∙◌, inl, inr, Bool, true, false, not, ◌&&◌, Option, none, some, List,
  arith, str_eq, str_eq_iff, if◌then◌else◌, Bool-cases, Option-cases,
}
use openedx_webhook_relay.Json.{Value, str, Fields, end, field}
use openedx_webhook_relay.Json.Dict.{get, put, contains, get-put}
use openedx_webhook_relay.Logging.{
  LogRecord, serializable, serializable_fields, is_among, loggable, add_attributes, base_fields,
  format_fields,
}

-- A dictionary has no key twice.
abbrev pub distinct_keys : Fields → Bool
distinct_keys end = true
distinct_keys (field k v m) = not (contains m k) && distinct_keys m

both_true : (a b : Bool) → (a && b) ≡ true → (a ≡ true) × (b ≡ true)
both_true a b h = ground (arith, h)

module _ (standard : List String) (text_of : Value → String) where
  -- A key of the attributes, if there is one of that name, and else what stood there.
  abbrev pub attribute_or : Option Value → Option Value → Option Value
  attribute_or none before = before
  attribute_or (some v) before = some (loggable standard text_of v)

  rest_distinct :
      (k : String) (v : Value) (rest : Fields)
      → distinct_keys (field k v rest) ≡ true
      → distinct_keys rest ≡ true
  rest_distinct k v rest h = ground (arith, h)

  first_apart :
      (k : String) (v : Value) (rest : Fields)
      → distinct_keys (field k v rest) ≡ true
      → get rest k ≡ none
  first_apart k v rest h = ground (arith, h)

  after_extra : Fields → Fields → String → Option Value
  after_extra rest payload key =
      if is_among key standard
      then get payload key
      else attribute_or (get rest key) (get payload key)

  skipped :
      (k : String) (v : Value) (rest payload : Fields) (key : String)
      → is_among k standard ≡ true
      → after_extra rest payload key ≡ after_extra (field k v rest) payload key
  unfolding after_extra get
  skipped k v rest payload key known = elim (Bool-cases (str_eq k key)) [
    | inr e ↦ rw e refl
    | inl e ↦ rw (ap (λ s. is_among s standard) (sym ((str_eq_iff k key).0 e)) ∙ known) refl
  ]

  stored :
      (k : String) (v : Value) (rest payload : Fields) (key : String)
      → is_among k standard ≡ false
      → distinct_keys (field k v rest) ≡ true
      → after_extra rest (put payload k (loggable standard text_of v)) key
        ≡ after_extra (field k v rest) payload key
  unfolding after_extra get
  stored k v rest payload key extra distinct = elim (Bool-cases (str_eq k key)) [
    | inr e ↦ rw (get-put payload k key (loggable standard text_of v), e) refl
    | inl e ↦
        let here = sym ((str_eq_iff k key).0 e) in
        rw
          (
            get-put payload k key (loggable standard text_of v),
            e,
            ap (λ s. is_among s standard) here ∙ extra,
            ap (get rest) here ∙ first_apart k v rest distinct,
          )
          refl
  ]

  get-add_attributes :
      (attributes payload : Fields) (key : String)
      → distinct_keys attributes ≡ true
      → get (add_attributes standard text_of payload attributes) key ≡ (
          if is_among key standard
          then get payload key
          else attribute_or (get attributes key) (get payload key))
  unfolding add_attributes get after_extra
  get-add_attributes end payload key distinct = elim (Bool-cases (is_among key standard)) [
    | inl e ↦ rw e refl
    | inr e ↦ rw e refl
  ]
  get-add_attributes (field k v rest) payload key distinct =
      elim (Bool-cases (is_among k standard)) [
        | inl known ↦ rw known (
            get-add_attributes rest payload key (rest_distinct k v rest distinct)
            ∙ skipped k v rest payload key known)
        | inr extra ↦ rw extra (
            get-add_attributes rest (put payload k (loggable standard text_of v)) key
              (rest_distinct k v rest distinct)
            ∙ stored k v rest payload key extra distinct)
      ]

  loggable-serializable : (v : Value) → serializable (loggable standard text_of v) ≡ true
  unfolding loggable serializable
  loggable-serializable v = elim (Bool-cases (serializable v)) [
    | inl e ↦ rw (e, e) refl
    | inr e ↦ rw e refl
  ]

  put-serializable :
      (payload : Fields) (key : String) (v : Value)
      → serializable_fields payload ≡ true
      → serializable v ≡ true
      → serializable_fields (put payload key v) ≡ true
  unfolding put serializable_fields
  put-serializable end key v h good = rw good refl
  put-serializable (field k w m) key v h good =
      let (own, others) = both_true (serializable w) (serializable_fields m) h in
      elim (Bool-cases (str_eq k key)) [
        | inl e ↦ rw e (rw (good, others) refl)
        | inr e ↦ rw e (rw (own, put-serializable m key v others good) refl)
      ]

  add_attributes-serializable :
      (attributes payload : Fields)
      → serializable_fields payload ≡ true
      → serializable_fields (add_attributes standard text_of payload attributes) ≡ true
  unfolding add_attributes
  add_attributes-serializable end payload h = h
  add_attributes-serializable (field k v rest) payload h = elim (Bool-cases (is_among k standard)) [
    | inl e ↦ rw e (add_attributes-serializable rest payload h)
    | inr e ↦ rw e (
        add_attributes-serializable rest (put payload k (loggable standard text_of v))
          (put-serializable payload k (loggable standard text_of v) h (loggable-serializable v)))
  ]

  base-serializable : (r : LogRecord) → serializable_fields (base_fields standard text_of r) ≡ true
  unfolding base_fields serializable serializable_fields
  base-serializable r = elim (Option-cases r.exception) [
    | inl e ↦ rw e refl
    | inr (text, e) ↦ rw e (put-serializable _ "exc_info" (str text) refl refl)
  ]

  -- If the attributes of a log record have no key twice, then the line has each of them that not
  -- every record has, as it is if `json` can write it and else as its text, and the line's own
  -- entries under every other key; and `json` can write the whole line.
  pub format_fields-attributes :
      (r : LogRecord) (key : String)
      → distinct_keys r.attributes ≡ true
      → (get (format_fields standard text_of r) key ≡ (
          if is_among key standard
          then get (base_fields standard text_of r) key
          else attribute_or (get r.attributes key) (get (base_fields standard text_of r) key)))
        × (serializable_fields (format_fields standard text_of r) ≡ true)
  unfolding format_fields after_extra
  format_fields-attributes r key distinct = (
    get-add_attributes r.attributes (base_fields standard text_of r) key distinct,
    add_attributes-serializable r.attributes (base_fields standard text_of r) (base-serializable r),
  )
