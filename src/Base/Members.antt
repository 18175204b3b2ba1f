-- ===== src/Base/Members.antt =====
-- Members of a filtered list.
use Prim.Native.Nat.{ℕ, suc, ◌+◌}
use mathlib.Core.Path.{◌≡◌, refl, ap, sym, ◌∙◌}
use mathlib.Core.Logic.{◌↔◌, inl, inr}
use mathlib.Core.Bool.{Bool, true, false, not}
use mathlib.Core.List.{List, [], ◌∷◌, Memᴰ}
use native.Mathlib.Omega.{arith}
use openedx_webhook_relay.Base.Tests.{Bool-cases}
use openedx_webhook_relay.Base.Lists.{length, filter}

module _ {ℓ} {A : Type ℓ} (p : A → Bool) where
  pub length-filter :
      (xs : List A) → length (filter p xs) + length (filter (λ x. not (p x)) xs) ≡ length xs
  length-filter [] = refl
  length-filter (x ∷ xs) = elim (Bool-cases (p x)) [
    | inl e ↦ rw e (omega (arith, length-filter xs))
    | inr e ↦ rw e (omega (arith, length-filter xs))
  ]

  pub filter_none : (xs : List A) → length (filter p (filter (λ x. not (p x)) xs)) ≡ 0
  filter_none [] = refl
  filter_none (x ∷ xs) = elim (Bool-cases (p x)) [
    | inl e ↦ rw e (filter_none xs)
    | inr e ↦ rw (e, e) (filter_none xs)
  ]

  pub filter_all : (xs : List A) → length (filter p xs) ≡ 0 → filter (λ x. not (p x)) xs ≡ xs
  filter_all [] h = refl
  filter_all (x ∷ xs) h = elim (Bool-cases (p x)) [
    | inl e ↦ absurd (omega (arith, rw e at h))
    | inr e ↦ rw e (ap (λ ys. x ∷ ys) (filter_all xs (rw e at h)))
  ]

  pub Memᴰ-filter_to : (xs : List A) (x : A) → Memᴰ x xs → p x ≡ true → Memᴰ x (filter p xs)
  Memᴰ-filter_to [] x among passes = elim among [ ]
  Memᴰ-filter_to (y ∷ ys) x (Memᴰ.head e) passes = rw (sym (ap p e) ∙ passes) (Memᴰ.head e)
  Memᴰ-filter_to (y ∷ ys) x (Memᴰ.tail among) passes =
      let inside = Memᴰ-filter_to ys x among passes in
      elim (Bool-cases (p y)) [ inl e ↦ rw e (Memᴰ.tail inside) | inr e ↦ rw e inside ]

  Memᴰ-filter_from : (xs : List A) (x : A) → Memᴰ x (filter p xs) → Memᴰ x xs × (p x ≡ true)
  Memᴰ-filter_from [] x among = elim among [ ]
  Memᴰ-filter_from (y ∷ ys) x among = elim (Bool-cases (p y)) [
    | inr e ↦
        let (inside, passes) = Memᴰ-filter_from ys x (rw e at among) in (Memᴰ.tail inside, passes)
    | inl e ↦ elim (rw e at among) [
      | Memᴰ.head q ↦ (Memᴰ.head q, ap p q ∙ e)
      | Memᴰ.tail rest ↦
          let (inside, passes) = Memᴰ-filter_from ys x rest in (Memᴰ.tail inside, passes)
    ]
  ]

  pub Memᴰ-filter : (xs : List A) (x : A) → Memᴰ x (filter p xs) ↔ (Memᴰ x xs × (p x ≡ true))
  Memᴰ-filter xs x = (Memᴰ-filter_from xs x, λ h. Memᴰ-filter_to xs x h.0 h.1)

  pub filter_nothing :
      (xs : List A) → ((x : A) → Memᴰ x xs → p x ≡ false) → length (filter p xs) ≡ 0
  filter_nothing [] fails = refl
  filter_nothing (x ∷ xs) fails =
      rw (fails x (Memᴰ.head refl)) (filter_nothing xs (λ y among. fails y (Memᴰ.tail among)))

module _ {ℓ} {A : Type ℓ} where
  pub length_of_member : (xs : List A) (x : A) → Memᴰ x xs → (k : ℕ) × (length xs ≡ suc k)
  length_of_member [] x among = elim among [ ]
  length_of_member (y ∷ ys) x among = (length ys, refl)
