-- ===== src/Json/Dumps.antt =====
-- `json.dumps(value, default=str, sort_keys=True, separators=(",", ":"))`, as the bytes of its text.
-- The text of a float, `float.__repr__`, is a parameter.
pub mod Order
pub mod Ascii
use Prim.Native.Char.{code}
use Prim.Native.String
use openedx_webhook_relay.Base.{
  ◌≡◌, refl, ℕ, zero, suc, ◌+◌, ◌-◌, ◌/◌, ◌%◌, String, Bool, true, false, ◌&&◌, List, [], ◌∷◌, ◌++◌,
  ◌==◌, ltb, leb, if◌then◌else◌,
}
use openedx_webhook_relay.Base.Int.{pos, negsuc}
use openedx_webhook_relay.Json.{
  Value, null, bool, int, float, str, arr, obj, other, Items, nil, cons, Fields, end, field,
}

-- The code points of a text.
abbrev pub codes : String → List ℕ
codes String.[] = []
codes (String.◌∷◌ c s) = code c ∷ codes s

-- The decimal digits of a number. The fuel `suc n` is enough, since a quotient by 10 is smaller.
unfoldable decimal_from : ℕ → ℕ → List ℕ
decimal_from zero n = []
decimal_from (suc fuel) n = elim (ltb n 10) [
  | true ↦ (48 + n) ∷ []
  | false ↦ decimal_from fuel (n / 10) ++ (48 + n % 10) ∷ []
]

unfoldable pub decimal : ℕ → List ℕ
unfolding decimal_from
decimal n = decimal_from (suc n) n

unfoldable hex_digit : ℕ → ℕ
hex_digit d = if ltb d 10 then 48 + d else 87 + d

-- `\uXXXX` of a number below 2^16.
unfoldable unicode_escape : ℕ → List ℕ
unfolding hex_digit
unicode_escape n =
    b'\\'
    ∷ b'u'
    ∷ hex_digit (n / 4096)
    ∷ hex_digit (n / 256 % 16)
    ∷ hex_digit (n / 16 % 16)
    ∷ hex_digit (n % 16)
    ∷ []

-- A code point in a JSON text with `ensure_ascii`: a pair of surrogates above 2^16.
unfoldable escape : ℕ → List ℕ
unfolding unicode_escape
escape c =
    if c == b'"'
    then b'\\' ∷ b'"' ∷ []
    else if c == b'\\'
    then b'\\' ∷ b'\\' ∷ []
    else if c == 10
    then b'\\' ∷ b'n' ∷ []
    else if c == 13
    then b'\\' ∷ b'r' ∷ []
    else if c == 9
    then b'\\' ∷ b't' ∷ []
    else if c == 12
    then b'\\' ∷ b'f' ∷ []
    else if c == 8
    then b'\\' ∷ b'b' ∷ []
    else if leb 32 c && leb c 126
    then c ∷ []
    else if ltb c 65536
    then unicode_escape c
    else unicode_escape (0xd800 + (c - 65536) / 1024)
      ++ unicode_escape (0xdc00 + (c - 65536) % 1024)

unfoldable escape_all : List ℕ → List ℕ
escape_all [] = []
escape_all (c ∷ cs) = escape c ++ escape_all cs

unfoldable pub quote : String → List ℕ
unfolding escape escape_all
quote s = b'"' ∷ (escape_all (codes s) ++ b'"' ∷ [])

-- The entries of a dictionary, each with its text, sorted by key. A dictionary has no key twice.
abbrev pub Entries : Type 0
Entries = List (String × List ℕ)

-- Python compares texts by their code points.
unfoldable pub codes_lt : List ℕ → List ℕ → Bool
codes_lt [] [] = false
codes_lt [] (b ∷ bs) = true
codes_lt (a ∷ more) [] = false
codes_lt (a ∷ more) (b ∷ bs) =
    let rest = codes_lt more bs in if ltb a b then true else if a == b then rest else false

unfoldable pub key_lt : String → String → Bool
unfolding codes_lt
key_lt s t = codes_lt (codes s) (codes t)

unfoldable pub insert_entry : String → List ℕ → Entries → Entries
unfolding key_lt
insert_entry k text [] = (k, text) ∷ []
insert_entry k text ((j, u) ∷ rest) =
    let after = insert_entry k text rest in
    if key_lt k j then (k, text) ∷ (j, u) ∷ rest else (j, u) ∷ after

unfoldable pub join_entries : Entries → List ℕ
join_entries [] = []
join_entries ((k, text) ∷ []) = quote k ++ b':' ∷ text
join_entries ((k, text) ∷ e ∷ rest) = quote k ++ b':' ∷ (text ++ b',' ∷ join_entries (e ∷ rest))

unfoldable pub join_items : List (List ℕ) → List ℕ
join_items [] = []
join_items (text ∷ []) = text
join_items (text ∷ next ∷ rest) = text ++ b',' ∷ join_items (next ∷ rest)

unfoldable mutual
  unfolding join_entries join_items decimal quote insert_entry

  pub dumps : (ℕ → List ℕ) → Value → List ℕ
  dumps float_repr null = codes "null"
  dumps float_repr (bool b) = if b then codes "true" else codes "false"
  dumps float_repr (int (pos n)) = decimal n
  dumps float_repr (int (negsuc n)) = b'-' ∷ decimal (n + 1)
  dumps float_repr (float bits) = float_repr bits
  dumps float_repr (str s) = quote s
  dumps float_repr (arr xs) = b'[' ∷ (join_items (dumps_items float_repr xs) ++ b']' ∷ [])
  dumps float_repr (obj m) = b'{' ∷ (join_entries (dumps_fields float_repr m) ++ b'}' ∷ [])
  dumps float_repr (other s) = quote s

  pub dumps_items : (ℕ → List ℕ) → Items → List (List ℕ)
  dumps_items float_repr nil = []
  dumps_items float_repr (cons v xs) = dumps float_repr v ∷ dumps_items float_repr xs

  pub dumps_fields : (ℕ → List ℕ) → Fields → Entries
  dumps_fields float_repr end = []
  dumps_fields float_repr (field k v m) =
      insert_entry k (dumps float_repr v) (dumps_fields float_repr m)

dumps_runs :
    dumps
      (λ bits. [])
      (obj (field "b" (int (negsuc 11)) (field "a" (arr (cons null (cons (str "é\n") nil))) end)))
    ≡ codes "{\"a\":[null,\"\\u00e9\\n\"],\"b\":-12}"
unfolding dumps
dumps_runs = refl
