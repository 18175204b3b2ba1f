-- ===== src/Models/Rows.antt =====
-- One row of the endpoint table under an UPDATE.
use openedx_webhook_relay.Base.{
  ℕ, ◌≡◌, refl, inl, inr, Bool, true, false, some, List, [], ◌∷◌, arith, ◌==◌, ==_iff,
  if◌then◌else◌, Bool-cases,
}
use openedx_webhook_relay.Models.{Endpoint, find_row, update_rows, count_rows, every_row}

abbrev pub changed : (Endpoint → Bool) → (Endpoint → Endpoint) → Endpoint → Endpoint
changed test change row = if test row then change row else row

-- The row that a read by the primary key finds is the changed one.
pub find_row-update_rows :
    (pk : ℕ) (test : Endpoint → Bool) (change : Endpoint → Endpoint) (rows : List Endpoint)
    → ((row : Endpoint) → (change row).pk ≡ row.pk)
    → {row : Endpoint} → find_row rows pk ≡ some row
    → find_row (update_rows pk test change rows) pk ≡ some (changed test change row)
unfolding find_row update_rows
find_row-update_rows pk test change [] keeps h = cc
find_row-update_rows pk test change (first ∷ rest) keeps h = elim (Bool-cases (first.pk == pk)) [
  | inr e ↦ ground (arith, find_row-update_rows pk test change rest keeps (rw e at h))
  | inl e ↦ ground (arith, keeps first)
]

-- Once every matching row fails the test, no row is left to update.
pub count_rows-update_rows :
    (pk : ℕ) (test : Endpoint → Bool) (change : Endpoint → Endpoint) (rows : List Endpoint)
    → ((row : Endpoint) → (change row).pk ≡ row.pk)
    → ((row : Endpoint) → test (change row) ≡ false)
    → count_rows pk test (update_rows pk test change rows) ≡ 0
unfolding count_rows update_rows
count_rows-update_rows pk test change [] keeps off = refl
count_rows-update_rows pk test change (first ∷ rest) keeps off =
    ground (arith, keeps first, off first, count_rows-update_rows pk test change rest keeps off)

pub find_row-pk :
    (rows : List Endpoint) (pk : ℕ) {row : Endpoint} → find_row rows pk ≡ some row → row.pk ≡ pk
unfolding find_row
find_row-pk [] pk h = cc
find_row-pk (first ∷ rest) pk h = elim (Bool-cases (first.pk == pk)) [
  | inr e ↦ find_row-pk rest pk (rw e at h)
  | inl e ↦ ground (arith, (==_iff first.pk pk).0 e)
]

pub count_rows-found :
    (rows : List Endpoint) (pk : ℕ) (test : Endpoint → Bool) {row : Endpoint}
    → find_row rows pk ≡ some row
    → test row ≡ true
    → (count_rows pk test rows == 0) ≡ false
unfolding find_row count_rows
count_rows-found [] pk test h on = cc
count_rows-found (first ∷ rest) pk test h on = elim (Bool-cases (first.pk == pk)) [
  | inr e ↦ ground (arith, count_rows-found rest pk test (rw e at h) on)
  | inl e ↦ ground arith
]

-- `save()` of an instance writes the row that has its key.
pub find_row-save :
    (rows : List Endpoint) (row self : Endpoint)
    → find_row rows self.pk ≡ some row
    → find_row (update_rows self.pk every_row (λ r. self) rows) self.pk ≡ some self
unfolding find_row update_rows
find_row-save [] row self h = absurd (cc)
find_row-save (first ∷ rest) row self h = elim (Bool-cases (first.pk == self.pk)) [
  | inl e ↦ rw e (ground (arith, ==_iff self.pk self.pk))
  | inr e ↦ rw (e, e) (find_row-save rest row self (rw e at h))
]

-- An UPDATE by primary key leaves the rows with another key.
pub find_row-update_other :
    (pk other : ℕ) (test : Endpoint → Bool) (change : Endpoint → Endpoint) (rows : List Endpoint)
    → ((row : Endpoint) → (change row).pk ≡ row.pk)
    → (pk == other) ≡ false
    → find_row (update_rows pk test change rows) other ≡ find_row rows other
unfolding find_row update_rows
find_row-update_other pk other test change [] keeps apart = refl
find_row-update_other pk other test change (first ∷ rest) keeps apart = ground (
  arith,
  find_row-update_other pk other test change rest keeps apart,
  keeps first,
  ==_iff first.pk pk,
  ==_iff first.pk other,
  ==_iff pk other,
)
