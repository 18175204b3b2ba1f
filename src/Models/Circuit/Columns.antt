-- ===== src/Models/Circuit/Columns.antt =====
-- The breaker's updates write to the circuit's columns only.
use mathlib.Core.Option.{some-injective}
use openedx_webhook_relay.Base.{
  ℕ, ◌≡◌, refl, sym, ap, ap₂, ◌∙◌, inl, inr, Bool, ◌&&◌, Option, none, some, List, [], ◌∷◌, map,
  ◌==◌, Bool-cases,
}
use openedx_webhook_relay.Models.{Endpoint, find_row, update_rows, every_row}
use openedx_webhook_relay.Models.Circuit.{is_open, set_half_open, set_closed, set_open, add_failure}
use openedx_webhook_relay.Models.Circuit.Updates.{KeepsUpdates}

-- The breaker writes to the circuit's columns only: without them, the tables are equal.
abbrev pub SameSettings : List Endpoint → List Endpoint → Type 0
SameSettings rows rows' = map set_closed rows' ≡ map set_closed rows

update_rows-SameSettings :
    (pk : ℕ) (test : Endpoint → Bool) (change : Endpoint → Endpoint) (rows : List Endpoint)
    → ((row : Endpoint) → set_closed (change row) ≡ set_closed row)
    → SameSettings rows (update_rows pk test change rows)
unfolding update_rows
update_rows-SameSettings pk test change [] keeps = refl
update_rows-SameSettings pk test change (row ∷ rows) keeps =
    let rest = update_rows-SameSettings pk test change rows keeps in
    elim (Bool-cases (row.pk == pk && test row)) [
      | inl e ↦ rw e (ap₂ (λ (r : Endpoint) rs. r ∷ rs) (keeps row) rest)
      | inr e ↦ rw e (ap (λ rs. set_closed row ∷ rs) rest)
    ]

pub keeps_settings : KeepsUpdates (λ pk. Unit) SameSettings
keeps_settings = record {
  same = λ rows. refl;
  chain = λ a b c p q. q ∙ p;
  half_opens =
      λ pk rows holds. update_rows-SameSettings pk is_open set_half_open rows (λ row. refl);
  closes = λ pk rows holds. update_rows-SameSettings pk every_row set_closed rows (λ row. refl);
  counts = λ pk rows holds. update_rows-SameSettings pk every_row add_failure rows (λ row. refl);
  opens =
      λ pk now rows holds. update_rows-SameSettings pk every_row (set_open now) rows (λ row. refl);
}

abbrev closed_of : Option Endpoint → Option Endpoint
closed_of none = none
closed_of (some row) = some (set_closed row)

find_row-map :
    (rows : List Endpoint) (pk : ℕ)
    → find_row (map set_closed rows) pk ≡ closed_of (find_row rows pk)
unfolding find_row
find_row-map [] pk = refl
find_row-map (row ∷ rows) pk = elim (Bool-cases (row.pk == pk)) [
  | inl e ↦ rw e refl
  | inr e ↦ rw e (find_row-map rows pk)
]

-- The same row in two such tables.
pub same_settings :
    (rows rows' : List Endpoint) (pk : ℕ) (row row' : Endpoint)
    → SameSettings rows rows'
    → find_row rows pk ≡ some row
    → find_row rows' pk ≡ some row'
    → set_closed row' ≡ set_closed row
same_settings rows rows' pk row row' same found found' = some-injective _ _ (
    sym (ap closed_of found')
    ∙ sym (find_row-map rows' pk)
    ∙ ap (λ rs. find_row rs pk) same
    ∙ find_row-map rows pk
    ∙ ap closed_of found)
