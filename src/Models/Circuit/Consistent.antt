-- ===== src/Models/Circuit/Consistent.antt =====
-- The time of opening is there exactly while the circuit is not CLOSED: the breaker's methods keep
-- it so, whichever instance they are called on.
use openedx_webhook_relay.Base.{
  ℕ, ◌≡◌, refl, inl, inr, Bool, true, false, ◌&&◌, Option, none, some, List, [], ◌∷◌, arith, All,
  ◌==◌, Bool-cases,
}
use openedx_webhook_relay.Models.{
  CircuitState, closed, opened, half_open, Endpoint, update_rows, every_row,
}
use openedx_webhook_relay.Models.Circuit.Updates.{KeepsUpdates}
use openedx_webhook_relay.Models.Circuit.{is_open, set_half_open, set_closed, set_open, add_failure}

abbrev pub times_fit : CircuitState → Option ℕ → Bool
times_fit closed none = true
times_fit opened (some since) = true
times_fit half_open (some since) = true
times_fit _ _ = false

abbrev pub IsConsistent : Endpoint → Type 0
IsConsistent row = times_fit row.circuit_state row.circuit_opened_at ≡ true

pub update_rows-All :
    (P : Endpoint → Type 0) (pk : ℕ) (test : Endpoint → Bool) (change : Endpoint → Endpoint)
    (rows : List Endpoint)
    → ((row : Endpoint) → P row → test row ≡ true → P (change row))
    → All P rows
    → All P (update_rows pk test change rows)
unfolding update_rows
update_rows-All P pk test change [] keeps h = tt
update_rows-All P pk test change (row ∷ rows) keeps h =
    let rest = update_rows-All P pk test change rows keeps h.1 in
    elim (Bool-cases (row.pk == pk && test row)) [
      | inl e ↦ rw e (keeps row h.0 (ground arith), rest)
      | inr e ↦ rw e (h.0, rest)
    ]

half_open-IsConsistent :
    (row : Endpoint) → IsConsistent row → is_open row ≡ true → IsConsistent (set_half_open row)
half_open-IsConsistent row c o = ground arith

-- The four updates keep the rows consistent.
pub keeps_IsConsistent : KeepsUpdates (λ pk. Unit) (λ a b. All IsConsistent a → All IsConsistent b)
keeps_IsConsistent = record {
  same = λ rows h. h;
  chain = λ a b c f g h. g (f h);
  half_opens = λ pk rows holds h.
      update_rows-All IsConsistent pk is_open set_half_open rows
        (λ row c o. half_open-IsConsistent row c o) h;
  closes = λ pk rows holds h.
      update_rows-All IsConsistent pk every_row set_closed rows (λ row c o. refl) h;
  counts = λ pk rows holds h.
      update_rows-All IsConsistent pk every_row add_failure rows (λ row c o. c) h;
  opens = λ pk now rows holds h.
      update_rows-All IsConsistent pk every_row (set_open now) rows (λ row c o. refl) h;
}
