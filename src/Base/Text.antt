-- ===== src/Base/Text.antt =====
-- Python's `str` as the native text: equality, `startswith` with the slice behind the prefix, and
-- `split(".")`.
use Prim.Native.Char.{Char, code}
use Prim.Native.Nat.{ℕ, suc, ◌+◌}
use Prim.Native.String.{String, ◌++◌}
use text.Mathlib.Text.{◌==◌}
use text.Mathlib.TextEquality.{eq_iff, Char-path}
use native.Mathlib.Omega.{arith}
use text.Mathlib.TextLemmas.{nil-append, cons-append}
use mathlib.Core.Path.{◌≡◌, refl, ap}
use mathlib.Core.Bool.{Bool, true, false, ◌&&◌, ◌||◌}
use mathlib.Core.Logic.{◌↔◌, inl, inr}
use mathlib.Core.Option.{Option, none, some}
use mathlib.Core.List.{List, [], ◌∷◌}
use openedx_webhook_relay.Base.Tests.{◌==◌ as num_eq, ==_iff, leb, Bool-cases, if◌then◌else◌}

abbrev pub str_eq : String → String → Bool
str_eq s t = s == t

pub str_eq_iff : (s t : String) → (str_eq s t ≡ true) ↔ (s ≡ t)
str_eq_iff = eq_iff

-- `s + t`
abbrev pub concat : String → String → String
concat s t = s ++ t

-- `s[len(p):]` if `s.startswith(p)`.
unfoldable pub strip_prefix : String → String → Option String
strip_prefix String.[] s = some s
strip_prefix (String.◌∷◌ c p) String.[] = none
strip_prefix (String.◌∷◌ c p) (String.◌∷◌ d s) =
    let rest = strip_prefix p s in if num_eq (code c) (code d) then rest else none

-- What is left behind a prefix, with the prefix in front, is the text.
pub strip_prefix_lem : (p s r : String) → strip_prefix p s ≡ some r → s ≡ concat p r
unfolding strip_prefix
strip_prefix_lem String.[] s r h = rw nil-append (ground arith)
strip_prefix_lem (String.◌∷◌ c p) String.[] r h = cc
strip_prefix_lem (String.◌∷◌ c p) (String.◌∷◌ d s) r h =
    elim (Bool-cases (num_eq (code c) (code d))) [
      | inl e ↦ cc (
        cons-append c p r,
        strip_prefix_lem p s r (rw e at h),
        Char-path c d ((==_iff (code c) (code d)).0 e),
      )
      | inr e ↦ cc (rw e at h)
    ]

pub strip_prefix-concat : (p r : String) → strip_prefix p (concat p r) ≡ some r
unfolding strip_prefix
strip_prefix-concat String.[] r = rw nil-append
strip_prefix-concat (String.◌∷◌ c p) r =
    rw cons-append (rw ((==_iff (code c) (code c)).1 refl) (strip_prefix-concat p r))

-- A text behind a prefix is none of the texts without the prefix.
pub behind_prefix : (p r t : String) → strip_prefix p t ≡ none → str_eq (concat p r) t ≡ false
behind_prefix p r t lacks = elim (Bool-cases (str_eq (concat p r) t)) [
  | inr e ↦ e
  | inl e ↦
      absurd (cc (ap (strip_prefix p) ((str_eq_iff (concat p r) t).0 e), strip_prefix-concat p r))
]

pub cons_first : Char → List String → List String
cons_first c [] = (String.◌∷◌ c String.[]) ∷ []
cons_first c (s ∷ ss) = (String.◌∷◌ c s) ∷ ss

-- `s.split(".")`, which has at least one part.
unfoldable pub split_dots : String → List String
unfolding cons_first
split_dots String.[] = String.[] ∷ []
split_dots (String.◌∷◌ c s) =
    let rest = split_dots s in if num_eq (code c) b'.' then String.[] ∷ rest else cons_first c rest

abbrev pub num_length : String → ℕ
num_length String.[] = 0
num_length (String.◌∷◌ c s) = suc (num_length s)

pub num_length-concat : (s t : String) → num_length (concat s t) ≡ num_length s + num_length t
num_length-concat String.[] t = rw nil-append (omega arith)
num_length-concat (String.◌∷◌ c s) t = rw cons-append (omega (arith, num_length-concat s t))

-- A text with more behind it is another text.
pub concat-longer : (s t : String) → str_eq t "" ≡ false → str_eq s (concat s t) ≡ false
concat-longer s String.[] h = absurd (cc)
concat-longer s (String.◌∷◌ c t) h = elim (Bool-cases (str_eq s (concat s (String.◌∷◌ c t)))) [
  | inr e ↦ e
  | inl e ↦
      absurd
        (omega (arith, ap num_length ((str_eq_iff s _).0 e), num_length-concat s (String.◌∷◌ c t)))
]

cons_first-cons :
    (c : Char) (ss : List String) → (k : String) × (ks : List String) × (cons_first c ss ≡ k ∷ ks)
unfolding cons_first
cons_first-cons c [] = (String.◌∷◌ c String.[], [], refl)
cons_first-cons c (s ∷ ss) = (String.◌∷◌ c s, ss, refl)

pub split_dots-cons : (s : String) → (k : String) × (ks : List String) × (split_dots s ≡ k ∷ ks)
unfolding split_dots
split_dots-cons String.[] = (String.[], [], refl)
split_dots-cons (String.◌∷◌ c s) = elim (Bool-cases (num_eq (code c) b'.')) [
  | inl e ↦ (String.[], split_dots s, rw e)
  | inr e ↦ rw e (cons_first-cons c (split_dots s))
]

strip_prefix_runs : strip_prefix "data." "data.user.pii" ≡ some "user.pii"
unfolding strip_prefix
strip_prefix_runs = refl

split_dots_runs : split_dots "user.pii" ≡ "user" ∷ "pii" ∷ []
unfolding split_dots
split_dots_runs = refl

-- The code points that `str.isspace` holds of.
abbrev is_space : ℕ → Bool
is_space c =
    leb 9 c && leb c 13
    || leb 28 c && leb c 32
    || num_eq c 133
    || num_eq c 160
    || num_eq c 5760
    || leb 8192 c && leb c 8202
    || num_eq c 8232
    || num_eq c 8233
    || num_eq c 8239
    || num_eq c 8287
    || num_eq c 12288

abbrev lstrip : String → String
lstrip String.[] = String.[]
lstrip (String.◌∷◌ c s) = let rest = lstrip s in if is_space (code c) then rest else String.◌∷◌ c s

abbrev add_stripped : Char → String → String
add_stripped c String.[] = if is_space (code c) then String.[] else String.◌∷◌ c String.[]
add_stripped c (String.◌∷◌ e s) = String.◌∷◌ c (String.◌∷◌ e s)

abbrev rstrip : String → String
rstrip String.[] = String.[]
rstrip (String.◌∷◌ c s) = add_stripped c (rstrip s)

-- `s.strip()`
unfoldable pub strip : String → String
strip s = rstrip (lstrip s)

strip_runs : strip " \n key 1\t\n" ≡ "key 1"
unfolding strip
strip_runs = refl
