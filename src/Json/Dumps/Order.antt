-- ===== src/Json/Dumps/Order.antt =====
-- The text of a dictionary does not depend on the order of its keys.

use text.Mathlib.TextEquality.{Char-path}
use openedx_webhook_relay.Base.{
  ℕ, String, ◌≡◌, refl, ap₂, ◌∙◌, inl, inr, true, false, List, [], ◌∷◌, arith, str_eq, str_eq_iff,
  Bool-cases,
}
use openedx_webhook_relay.Json.{Value, arr, obj, Items, nil, cons, Fields, end, field}
use openedx_webhook_relay.Json.Dumps.{
  codes, codes_lt, key_lt, Entries, insert_entry, dumps, dumps_items, dumps_fields,
}

codes_lt_asym : (xs bs : List ℕ) → codes_lt xs bs ≡ true → codes_lt bs xs ≡ false
unfolding codes_lt
codes_lt_asym [] [] h = refl
codes_lt_asym [] (b ∷ bs) h = refl
codes_lt_asym (a ∷ xs) [] h = absurd (cc)
codes_lt_asym (a ∷ xs) (b ∷ bs) h = ground (arith, codes_lt_asym xs bs)

codes_lt_total : (xs bs : List ℕ) → codes_lt xs bs ≡ false → codes_lt bs xs ≡ false → xs ≡ bs
unfolding codes_lt
codes_lt_total [] [] h g = refl
codes_lt_total [] (b ∷ bs) h g = absurd (cc)
codes_lt_total (a ∷ xs) [] h g = absurd (cc)
codes_lt_total (a ∷ xs) (b ∷ bs) h g = ground (arith, codes_lt_total xs bs)

-- Between two texts, any third is before the one or behind the other.
codes_lt_between :
    (xs bs cs : List ℕ) → codes_lt xs cs ≡ true → codes_lt bs cs ≡ false → codes_lt xs bs ≡ true
unfolding codes_lt
codes_lt_between [] [] [] h g = h
codes_lt_between [] [] (c ∷ cs) h g = absurd (cc)
codes_lt_between [] (b ∷ bs) cs h g = refl
codes_lt_between (a ∷ xs) bs [] h g = absurd (cc)
codes_lt_between (a ∷ xs) [] (c ∷ cs) h g = absurd (cc)
codes_lt_between (a ∷ xs) (b ∷ bs) (c ∷ cs) h g = ground (arith, codes_lt_between xs bs cs)

cons_injective : {a b : ℕ} {xs ys : List ℕ} → a ∷ xs ≡ b ∷ ys → (a ≡ b) × (xs ≡ ys)
cons_injective h = (cc, cc)

key_lt_asym : (s t : String) → key_lt s t ≡ true → key_lt t s ≡ false
unfolding key_lt
key_lt_asym s t h = codes_lt_asym (codes s) (codes t) h

key_lt_between : (s t r : String) → key_lt s r ≡ true → key_lt t r ≡ false → key_lt s t ≡ true
unfolding key_lt
key_lt_between s t r h g = codes_lt_between (codes s) (codes t) (codes r) h g

codes_injective : (s t : String) → codes s ≡ codes t → s ≡ t
codes_injective String.[] String.[] h = refl
codes_injective String.[] (String.◌∷◌ c t) h = absurd (cc)
codes_injective (String.◌∷◌ c s) String.[] h = absurd (cc)
codes_injective (String.◌∷◌ c s) (String.◌∷◌ d t) h =
    ap₂ String.◌∷◌ (Char-path c d (cons_injective h).0) (codes_injective s t (cons_injective h).1)

key_lt_total : (s t : String) → str_eq s t ≡ false → key_lt s t ≡ false → key_lt t s ≡ true
unfolding key_lt
key_lt_total s t apart h = elim (Bool-cases (codes_lt (codes t) (codes s))) [
  | inl e ↦ e
  | inr e ↦ absurd (
      cc (apart, (str_eq_iff s t).1 (codes_injective s t (codes_lt_total (codes s) (codes t) h e))))
]

-- Two insertions under different keys commute.
insert_entry_comm :
    (j k : String) (t u : List ℕ) (entries : Entries)
    → str_eq j k ≡ false
    → insert_entry j t (insert_entry k u entries) ≡ insert_entry k u (insert_entry j t entries)
unfolding insert_entry
insert_entry_comm j k t u [] apart = elim (Bool-cases (key_lt j k)) [
  | inl e ↦ ground (arith, e, key_lt_asym j k e)
  | inr e ↦ ground (arith, e, key_lt_total j k apart e)
]
insert_entry_comm j k t u ((i, v) ∷ rest) apart = ground (
  arith,
  insert_entry_comm j k t u rest apart,
  key_lt_asym j k,
  key_lt_total j k apart,
  key_lt_between j k i,
  key_lt_between k j i,
)

-- Values that differ only in the order of the keys of their dictionaries, at any depth.
mutual
  pub data SameValue : Value → Value → Type 0 where
    same : {v : Value} → SameValue v v
    arrays : {xs ys : Items} → SameItems xs ys → SameValue (arr xs) (arr ys)
    objects : {m m' : Fields} → SameFields m m' → SameValue (obj m) (obj m')

  pub data SameItems : Items → Items → Type 0 where
    no_items : SameItems nil nil
    items :
        {v w : Value} {xs ys : Items}
        → SameValue v w
        → SameItems xs ys
        → SameItems (cons v xs) (cons w ys)

  pub data SameFields : Fields → Fields → Type 0 where
    no_fields : SameFields end end
    fields :
        {k : String} {v w : Value} {m m' : Fields}
        → SameValue v w
        → SameFields m m'
        → SameFields (field k v m) (field k w m')
    swap :
        {j k : String} {v w : Value} {m : Fields}
        → str_eq j k ≡ false
        → SameFields (field j v (field k w m)) (field k w (field j v m))
    chain : {m m' m'' : Fields} → SameFields m m' → SameFields m' m'' → SameFields m m''

module _ (float_repr : ℕ → List ℕ) where
  mutual
    unfolding dumps dumps_items dumps_fields

    pub dumps-SameValue : {v w : Value} → SameValue v w → dumps float_repr v ≡ dumps float_repr w
    dumps-SameValue same = refl
    dumps-SameValue (arrays h) = rw (dumps_items-SameItems h) refl
    dumps-SameValue (objects h) = rw (dumps_fields-SameFields h) refl

    pub dumps_items-SameItems :
        {xs ys : Items} → SameItems xs ys → dumps_items float_repr xs ≡ dumps_items float_repr ys
    dumps_items-SameItems no_items = refl
    dumps_items-SameItems (items h g) = rw (dumps-SameValue h, dumps_items-SameItems g) refl

    pub dumps_fields-SameFields :
        {m m' : Fields} → SameFields m m' → dumps_fields float_repr m ≡ dumps_fields float_repr m'
    dumps_fields-SameFields no_fields = refl
    dumps_fields-SameFields (fields h g) = rw (dumps-SameValue h, dumps_fields-SameFields g) refl
    dumps_fields-SameFields (swap apart) = insert_entry_comm _ _ _ _ _ apart
    dumps_fields-SameFields (chain h g) = dumps_fields-SameFields h ∙ dumps_fields-SameFields g
