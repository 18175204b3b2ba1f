-- ===== src/Rotation/Keys/Writes.antt =====
-- What the loop that saves the endpoints leaves in the table.
use mathlib.Core.List.{Memᴰ}
use openedx_webhook_relay.Base.{
  String, ◌≡◌, ◌⊎◌, refl, ap, ◌∙◌, sym, inl, inr, some, List, [], ◌∷◌, ◌==◌, ==_iff, Bool-cases,
}
use openedx_webhook_relay.Encryption.{Fernet, get_fernet}
use openedx_webhook_relay.Rotation.Keys.{
  Secrets, Nonces, loaded, load_endpoints, write_row, saved, save_endpoints,
}
use openedx_webhook_relay.Rotation.Keys.Steps.{
  find_secrets, find_secrets-write_row, find_secrets-write_other, loaded-total, saved-total,
  load_endpoints-from, some_inj,
}

-- The key is the first row's only.
abbrev pub OnlyRow : Secrets → List Secrets → Type 0
OnlyRow row rows = (r : Secrets) → Memᴰ r rows → r.pk ≡ row.pk → r ≡ row

module _ (f : Fernet) (nonces : Nonces) (new_key : String)
    (has_key : get_fernet f (some new_key) ≡ some new_key) where
  module _ (e new : Secrets) (written : saved f nonces new_key e ≡ some new)
      (same : new.pk ≡ e.pk) where
    -- One save of the loop, seen at the key of `e`.
    pub one_save :
        (first first' : Secrets) (rows : List Secrets) (r : Secrets)
        → saved f nonces new_key first ≡ some first'
        → first'.pk ≡ first.pk
        → (first.pk ≡ e.pk → first ≡ e)
        → find_secrets rows e.pk ≡ some r
        → (find_secrets (write_row first' rows) e.pk ≡ some new)
          ⊎ (find_secrets (write_row first' rows) e.pk ≡ some r)
    one_save first first' rows r first_written first_same only there =
        elim (Bool-cases (first'.pk == e.pk)) [
          | inr other ↦ inr (
              find_secrets-write_other first' rows e.pk
                (λ p. absurd (cc (other, (==_iff first'.pk e.pk).1 p)))
              ∙ there)
          | inl own ↦
              let p : first'.pk ≡ e.pk = (==_iff first'.pk e.pk).0 own in
              let is_e : first ≡ e = only (sym first_same ∙ p) in
              let is_new : first' ≡ new =
                some_inj (sym first_written ∙ ap (saved f nonces new_key) is_e ∙ written) in
              inl (find_secrets-write_row first' rows e.pk r p there ∙ ap some is_new)
        ]

    -- After the row has been written, the loop leaves it.
    pub save_endpoints-stays :
        (es rows : List Secrets)
        → OnlyRow e es
        → find_secrets rows e.pk ≡ some new
        → (after : List Secrets) × (save_endpoints f nonces new_key es rows ≡ some after)
          × (find_secrets after e.pk ≡ some new)
    unfolding save_endpoints
    save_endpoints-stays [] rows only there = (rows, refl, there)
    save_endpoints-stays (first ∷ es) rows only there =
        let (first', first_written, first_same) = saved-total f new_key has_key nonces first in
        let still : find_secrets (write_row first' rows) e.pk ≡ some new =
          elim (one_save first first' rows new first_written first_same
            (only first (Memᴰ.head refl)) there) [ inl p ↦ p | inr p ↦ p ] in
        let (after, ran, left) =
          save_endpoints-stays es (write_row first' rows) (λ r among. only r (Memᴰ.tail among))
            still in
        (after, rw (save_endpoints, first_written) ran, left)

    pub save_endpoints-writes :
        (es rows : List Secrets) (r : Secrets)
        → OnlyRow e es
        → Memᴰ e es
        → find_secrets rows e.pk ≡ some r
        → (after : List Secrets) × (save_endpoints f nonces new_key es rows ≡ some after)
          × (find_secrets after e.pk ≡ some new)
    unfolding save_endpoints
    save_endpoints-writes [] rows r only among there = elim among [ ]
    save_endpoints-writes (first ∷ es) rows r only (Memᴰ.head p) there =
        let first_written : saved f nonces new_key first ≡ some new =
          ap (saved f nonces new_key) (sym p) ∙ written in
        let (after, ran, left) =
          save_endpoints-stays es (write_row new rows) (λ r among. only r (Memᴰ.tail among))
            (find_secrets-write_row new rows e.pk r same there) in
        (after, rw (save_endpoints, first_written) ran, left)
    save_endpoints-writes (first ∷ es) rows r only (Memᴰ.tail among) there =
        let (first', first_written, first_same) = saved-total f new_key has_key nonces first in
        let (r', still) : (r' : Secrets) × (find_secrets (write_row first' rows) e.pk ≡ some r') =
          elim (one_save first first' rows r first_written first_same (only first (Memᴰ.head refl))
            there) [ inl p ↦ (new, p) | inr p ↦ (r, p) ] in
        let (after, ran, left) =
          save_endpoints-writes es (write_row first' rows) r' (λ r among. only r (Memᴰ.tail among))
            among still in
        (after, rw (save_endpoints, first_written) ran, left)

-- Of the loaded endpoints, the row's is the only one with its key.
pub loaded_only :
    (f : Fernet) (key : String) (has_key : get_fernet f (some key) ≡ some key)
    (rows es : List Secrets) (row e : Secrets)
    → load_endpoints f key rows ≡ some es
    → loaded f key row ≡ some e
    → OnlyRow row rows
    → e.pk ≡ row.pk
    → OnlyRow e es
loaded_only f key has_key rows es row e loads load only same r among own =
    let (from, inside, load_r) = load_endpoints-from f key has_key rows es r loads among in
    let (r', load_r', same_r) = loaded-total f key has_key from in
    let is_row : from ≡ row =
      only from inside
        (sym same_r ∙ ap (λ (x : Secrets). x.pk) (some_inj (sym load_r' ∙ load_r)) ∙ own ∙ same) in
    some_inj (sym load_r ∙ ap (loaded f key) is_row ∙ load)
