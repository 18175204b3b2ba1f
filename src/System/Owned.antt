-- ===== src/System/Owned.antt =====
-- Every audit row is of an endpoint that is there: what the operations do to the keys of the table.
use openedx_webhook_relay.Base.{
  ℕ, ◌≡◌, refl, inl, inr, Bool, true, false, not, List, [], ◌∷◌, ◌++◌, arith, ◌==◌, ==_iff, is_some,
  filter, All, All-weaker, Bool-cases,
}
use openedx_webhook_relay.Models.{Endpoint, Attempt, find_row, update_rows, every_row}
use openedx_webhook_relay.Models.Circuit.Updates.{KeepsUpdates}
use openedx_webhook_relay.Models.Circuit.{is_open, set_half_open, set_closed, set_open, add_failure}
use openedx_webhook_relay.System.Steps.{save_row}

abbrev pub has_row : List Endpoint → ℕ → Bool
has_row rows pk = is_some (find_row rows pk)

-- The row's endpoint is in the table.
abbrev pub IsOwned : List Endpoint → Attempt → Type 0
IsOwned rows row = has_row rows row.endpoint_id ≡ true

-- The second table has every key of the first.
abbrev pub KeepsKeys : List Endpoint → List Endpoint → Type 0
KeepsKeys rows rows' = (pk : ℕ) → has_row rows pk ≡ true → has_row rows' pk ≡ true

pub KeepsKeys-IsOwned :
    (rows rows' : List Endpoint) (attempts : List Attempt)
    → KeepsKeys rows rows'
    → All (IsOwned rows) attempts
    → All (IsOwned rows') attempts
KeepsKeys-IsOwned rows rows' attempts keeps h =
    All-weaker _ (IsOwned rows') attempts (λ row owned. keeps row.endpoint_id owned) h

pub update_rows-KeepsKeys :
    (pk : ℕ) (test : Endpoint → Bool) (change : Endpoint → Endpoint) (rows : List Endpoint)
    → ((row : Endpoint) → row.pk ≡ pk → (change row).pk ≡ pk)
    → KeepsKeys rows (update_rows pk test change rows)
unfolding find_row update_rows
update_rows-KeepsKeys pk test change [] keeps k h = h
update_rows-KeepsKeys pk test change (row ∷ rows) keeps k h =
    let rest = update_rows-KeepsKeys pk test change rows keeps k in
    ground (arith, rest, keeps row, ==_iff row.pk pk, ==_iff row.pk k, ==_iff (change row).pk k)

pub keeps_KeepsKeys : KeepsUpdates (λ pk. Unit) KeepsKeys
keeps_KeepsKeys = record {
  same = λ rows pk h. h;
  chain = λ a b c f g pk h. g pk (f pk h);
  half_opens = λ pk rows holds. update_rows-KeepsKeys pk is_open set_half_open rows (λ row e. e);
  closes = λ pk rows holds. update_rows-KeepsKeys pk every_row set_closed rows (λ row e. e);
  counts = λ pk rows holds. update_rows-KeepsKeys pk every_row add_failure rows (λ row e. e);
  opens = λ pk now rows holds. update_rows-KeepsKeys pk every_row (set_open now) rows (λ row e. e);
}

pub append-KeepsKeys : (rows more : List Endpoint) → KeepsKeys rows (rows ++ more)
unfolding find_row
append-KeepsKeys [] more k h = absurd (cc)
append-KeepsKeys (row ∷ rows) more k h = ground (arith, append-KeepsKeys rows more k)

pub save_row-KeepsKeys :
    (saved : Endpoint) (rows : List Endpoint) → KeepsKeys rows (save_row saved rows)
unfolding save_row
save_row-KeepsKeys saved rows k h = elim (Bool-cases (is_some (find_row rows saved.pk))) [
  | inl e ↦ rw e (update_rows-KeepsKeys saved.pk every_row (λ r. saved) rows (λ r p. refl) k h)
  | inr e ↦ rw e (append-KeepsKeys rows (saved ∷ []) k h)
]

filter-has_row :
    (pk k : ℕ) (rows : List Endpoint)
    → (k == pk) ≡ false
    → has_row rows k ≡ true
    → has_row (filter (λ (row : Endpoint). not (row.pk == pk)) rows) k ≡ true
unfolding find_row
filter-has_row pk k [] apart h = absurd (cc)
filter-has_row pk k (row ∷ rows) apart h =
    ground
      (arith, filter-has_row pk k rows apart, apart, ==_iff row.pk pk, ==_iff row.pk k, ==_iff k pk)

-- An endpoint goes with its audit rows.
pub deleted-IsOwned :
    (pk : ℕ) (rows : List Endpoint) (attempts : List Attempt)
    → All (IsOwned rows) attempts
    → All
        (IsOwned (filter (λ (row : Endpoint). not (row.pk == pk)) rows))
        (filter (λ (row : Attempt). not (row.endpoint_id == pk)) attempts)
deleted-IsOwned pk rows [] h = tt
deleted-IsOwned pk rows (attempt ∷ attempts) h = elim (Bool-cases (attempt.endpoint_id == pk)) [
  | inl e ↦ rw e (deleted-IsOwned pk rows attempts h.1)
  | inr e ↦
      rw e (filter-has_row pk attempt.endpoint_id rows e h.0, deleted-IsOwned pk rows attempts h.1)
]
