-- ===== src/Json/Dumps/Ascii.antt =====
-- Every byte of the text is ASCII, since `json.dumps` escapes what is not.
use Prim.Native.Char.{Char, char, code}
use openedx_webhook_relay.Base.{
  ℕ, zero, suc, String, ◌+◌, ◌-◌, ◌/◌, ◌%◌, ◌<◌, ◌≡◌, refl, inl, inr, Bool, true, false, ◌&&◌, List,
  [], ◌∷◌, ◌++◌, arith, ◌==◌, ltb, ltb→lt, leb, All, All-append, if◌then◌else◌, Bool-cases,
}
use openedx_webhook_relay.Base.Int.{pos, negsuc}
use openedx_webhook_relay.Json.{
  Value, null, bool, int, float, str, arr, obj, other, Items, nil, cons, Fields, end, field,
}
use openedx_webhook_relay.Json.Dumps.{
  codes, decimal_from, decimal, hex_digit, unicode_escape, escape, escape_all, quote, key_lt,
  Entries, insert_entry, join_entries, join_items, dumps, dumps_items, dumps_fields,
}

abbrev pub IsAscii : List ℕ → Type 0
IsAscii = All (λ b. b < 128)

append-IsAscii : (xs ys : List ℕ) → IsAscii xs → IsAscii ys → IsAscii (xs ++ ys)
append-IsAscii = All-append (λ b. b < 128)

code_bounded : (c : Char) → code c < 1114112
code_bounded (char n p) = ground (arith, p)

decimal_from-IsAscii : (fuel n : ℕ) → IsAscii (decimal_from fuel n)
unfolding decimal_from
decimal_from-IsAscii zero n = tt
decimal_from-IsAscii (suc fuel) n = elim (Bool-cases (ltb n 10)) [
  | inl e ↦ rw (decimal_from, e) (ground (arith, e), tt)
  | inr e ↦
      rw (decimal_from, e)
        (append-IsAscii (decimal_from fuel (n / 10)) ((48 + n % 10) ∷ [])
          (decimal_from-IsAscii fuel (n / 10)) (omega arith, tt))
]

hex_digit_bounded : (d : ℕ) → d < 16 → hex_digit d < 128
unfolding hex_digit
hex_digit_bounded d h = ground arith

unicode_escape-IsAscii : (n : ℕ) → n < 65536 → IsAscii (unicode_escape n)
unfolding unicode_escape
unicode_escape-IsAscii n h =
    let low = hex_digit_bounded (n % 16) (omega arith) in
    let next = hex_digit_bounded (n / 16 % 16) (omega arith) in
    let third = hex_digit_bounded (n / 256 % 16) (omega arith) in
    let high = hex_digit_bounded (n / 4096) (omega (arith, h)) in
    (omega arith, (omega arith, (high, (third, (next, (low, tt))))))

if-IsAscii :
    (b : Bool) (xs ys : List ℕ)
    → (b ≡ true → IsAscii xs)
    → IsAscii ys
    → IsAscii (if b then xs else ys)
if-IsAscii true xs ys h g = h refl
if-IsAscii false xs ys h g = g

short-IsAscii : (b : ℕ) → b < 128 → IsAscii (b'\\' ∷ b ∷ [])
short-IsAscii b h = (omega arith, (h, tt))

-- The two cases for what is no printable ASCII.
long-IsAscii :
    (c : ℕ)
    → c < 1114112
    → IsAscii (
        if ltb c 65536
        then unicode_escape c
        else unicode_escape (0xd800 + (c - 65536) / 1024)
          ++ unicode_escape (0xdc00 + (c - 65536) % 1024))
long-IsAscii c h =
    if-IsAscii (ltb c 65536) _ _ (λ e. unicode_escape-IsAscii c (ltb→lt c 65536 e))
      (append-IsAscii (unicode_escape (0xd800 + (c - 65536) / 1024))
        (unicode_escape (0xdc00 + (c - 65536) % 1024))
        (unicode_escape-IsAscii (0xd800 + (c - 65536) / 1024) (omega (arith, h)))
        (unicode_escape-IsAscii (0xdc00 + (c - 65536) % 1024) (omega arith)))

escape-IsAscii : (c : ℕ) → c < 1114112 → IsAscii (escape c)
unfolding escape
escape-IsAscii c h =
    if-IsAscii (c == b'"') _ _ (λ e. short-IsAscii b'"' (omega arith))
      (if-IsAscii (c == b'\\') _ _ (λ e. short-IsAscii b'\\' (omega arith))
        (if-IsAscii (c == 10) _ _ (λ e. short-IsAscii b'n' (omega arith))
          (if-IsAscii (c == 13) _ _ (λ e. short-IsAscii b'r' (omega arith))
            (if-IsAscii (c == 9) _ _ (λ e. short-IsAscii b't' (omega arith))
              (if-IsAscii (c == 12) _ _ (λ e. short-IsAscii b'f' (omega arith))
                (if-IsAscii (c == 8) _ _ (λ e. short-IsAscii b'b' (omega arith))
                  (if-IsAscii (leb 32 c && leb c 126) _ _ (λ e. (ground (arith, e), tt))
                    (long-IsAscii c h))))))))

escape_all-IsAscii : (s : String) → IsAscii (escape_all (codes s))
unfolding escape_all
escape_all-IsAscii String.[] = tt
escape_all-IsAscii (String.◌∷◌ c s) =
    append-IsAscii (escape (code c)) _ (escape-IsAscii (code c) (code_bounded c))
      (escape_all-IsAscii s)

quote-IsAscii : (s : String) → IsAscii (quote s)
unfolding quote
quote-IsAscii s =
    (omega arith, append-IsAscii (escape_all (codes s)) _ (escape_all-IsAscii s) (omega arith, tt))

-- The texts of a dictionary's entries, without their keys.
abbrev TextsAscii : Entries → Type 0
TextsAscii = All (λ (e : String × List ℕ). IsAscii e.1)

insert_entry-TextsAscii :
    (k : String) (text : List ℕ) (entries : Entries)
    → IsAscii text
    → TextsAscii entries
    → TextsAscii (insert_entry k text entries)
unfolding insert_entry
insert_entry-TextsAscii k text [] t h = (t, tt)
insert_entry-TextsAscii k text ((j, u) ∷ rest) t h = elim (Bool-cases (key_lt k j)) [
  | inl e ↦ rw e (t, h)
  | inr e ↦ rw e (h.0, insert_entry-TextsAscii k text rest t h.1)
]

entry-IsAscii : (k : String) (text : List ℕ) → IsAscii text → IsAscii (quote k ++ b':' ∷ text)
entry-IsAscii k text h = append-IsAscii (quote k) _ (quote-IsAscii k) (omega arith, h)

join_entries-IsAscii : (entries : Entries) → TextsAscii entries → IsAscii (join_entries entries)
unfolding join_entries
join_entries-IsAscii [] h = tt
join_entries-IsAscii ((k, text) ∷ []) h = entry-IsAscii k text h.0
join_entries-IsAscii ((k, text) ∷ e ∷ rest) h =
    entry-IsAscii k _ (append-IsAscii text _ h.0 (omega arith, join_entries-IsAscii (e ∷ rest) h.1))

join_items-IsAscii : (texts : List (List ℕ)) → All IsAscii texts → IsAscii (join_items texts)
unfolding join_items
join_items-IsAscii [] h = tt
join_items-IsAscii (text ∷ []) h = h.0
join_items-IsAscii (text ∷ next ∷ rest) h =
    append-IsAscii text _ h.0 (omega arith, join_items-IsAscii (next ∷ rest) h.1)

module _ (float_repr : ℕ → List ℕ) (floats : (bits : ℕ) → IsAscii (float_repr bits)) where
  mutual
    unfolding dumps decimal dumps_items dumps_fields

    dumps_value-IsAscii : (v : Value) → IsAscii (dumps float_repr v)
    dumps_value-IsAscii null = (omega arith, (omega arith, (omega arith, (omega arith, tt))))
    dumps_value-IsAscii (bool true) = (omega arith, (omega arith, (omega arith, (omega arith, tt))))
    dumps_value-IsAscii (bool false) =
        (omega arith, (omega arith, (omega arith, (omega arith, (omega arith, tt)))))
    dumps_value-IsAscii (int (pos n)) = decimal_from-IsAscii (suc n) n
    dumps_value-IsAscii (int (negsuc n)) = (omega arith, decimal_from-IsAscii (suc (n + 1)) (n + 1))
    dumps_value-IsAscii (float bits) = floats bits
    dumps_value-IsAscii (str s) = quote-IsAscii s
    dumps_value-IsAscii (arr xs) = (
      omega arith,
      append-IsAscii (join_items (dumps_items float_repr xs)) _
          (join_items-IsAscii _ (dumps_items-IsAscii xs)) (omega arith, tt),
    )
    dumps_value-IsAscii (obj m) = (
      omega arith,
      append-IsAscii (join_entries (dumps_fields float_repr m)) _
          (join_entries-IsAscii _ (dumps_fields-IsAscii m)) (omega arith, tt),
    )
    dumps_value-IsAscii (other s) = quote-IsAscii s

    dumps_items-IsAscii : (xs : Items) → All IsAscii (dumps_items float_repr xs)
    dumps_items-IsAscii nil = tt
    dumps_items-IsAscii (cons v xs) = (dumps_value-IsAscii v, dumps_items-IsAscii xs)

    dumps_fields-IsAscii : (m : Fields) → TextsAscii (dumps_fields float_repr m)
    dumps_fields-IsAscii end = tt
    dumps_fields-IsAscii (field k v m) =
        insert_entry-TextsAscii k _ _ (dumps_value-IsAscii v) (dumps_fields-IsAscii m)

  -- If the text of every float is ASCII, then every byte of a serialized value is.
  pub dumps-IsAscii : (v : Value) → IsAscii (dumps float_repr v)
  dumps-IsAscii = dumps_value-IsAscii
