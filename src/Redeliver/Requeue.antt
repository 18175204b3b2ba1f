-- ===== src/Redeliver/Requeue.antt =====
-- Which deliveries are enqueued again.
use mathlib.Core.List.{Memᴰ}
use openedx_webhook_relay.Base.{
  ℕ, suc, ◌≡◌, refl, ap, ◌∙◌, inl, inr, Bool, true, false, List, [], ◌∷◌, arith, leb, filter, map,
  length, length-map, Bool-cases,
}
use openedx_webhook_relay.Models.{Attempt}
use openedx_webhook_relay.Base.Members.{Memᴰ-filter, filter_nothing, length_of_member}
use openedx_webhook_relay.Redeliver.{
  Options, Enqueued, requeued, matches, insert_newest, newest_first, explicit_payload,
  lacks_payload, task_of, handle,
}

-- Sorting keeps the rows.
length-insert_newest :
    (row : Attempt) (rows : List Attempt) → length (insert_newest row rows) ≡ suc (length rows)
unfolding insert_newest
length-insert_newest row [] = refl
length-insert_newest row (other ∷ rest) = elim (Bool-cases (leb other.created row.created)) [
  | inl e ↦ rw e refl
  | inr e ↦ rw e (ap suc (length-insert_newest row rest))
]

length-newest_first : (rows : List Attempt) → length (newest_first rows) ≡ length rows
unfolding newest_first
length-newest_first [] = refl
length-newest_first (row ∷ rows) =
    length-insert_newest row (newest_first rows) ∙ ap suc (length-newest_first rows)

Memᴰ-insert_newest :
    (x row : Attempt) (rows : List Attempt) → Memᴰ x (row ∷ rows) → Memᴰ x (insert_newest row rows)
unfolding insert_newest
Memᴰ-insert_newest x row [] among = among
Memᴰ-insert_newest x row (other ∷ rest) among = elim (Bool-cases (leb other.created row.created)) [
  | inl e ↦ rw e among
  | inr e ↦ rw e (behind x row other rest (Memᴰ-insert_newest x row rest) among)
]
  where
    behind :
        (x row other : Attempt) (rest : List Attempt)
        → (Memᴰ x (row ∷ rest) → Memᴰ x (insert_newest row rest))
        → Memᴰ x (row ∷ other ∷ rest)
        → Memᴰ x (other ∷ insert_newest row rest)
    behind x row other rest later (Memᴰ.head p) = Memᴰ.tail (later (Memᴰ.head p))
    behind x row other rest later (Memᴰ.tail (Memᴰ.head p)) = Memᴰ.head p
    behind x row other rest later (Memᴰ.tail (Memᴰ.tail among)) =
        Memᴰ.tail (later (Memᴰ.tail among))

Memᴰ-newest_first : (x : Attempt) (rows : List Attempt) → Memᴰ x rows → Memᴰ x (newest_first rows)
unfolding newest_first
Memᴰ-newest_first x [] among = elim among [ ]
Memᴰ-newest_first x (row ∷ rows) (Memᴰ.head p) =
    Memᴰ-insert_newest x row (newest_first rows) (Memᴰ.head p)
Memᴰ-newest_first x (row ∷ rows) (Memᴰ.tail among) =
    Memᴰ-insert_newest x row (newest_first rows) (Memᴰ.tail (Memᴰ-newest_first x rows among))

Memᴰ-map :
    (g : Attempt → Enqueued) (x : Attempt) (rows : List Attempt)
    → Memᴰ x rows
    → Memᴰ (g x) (map g rows)
Memᴰ-map g x [] among = elim among [ ]
Memᴰ-map g x (row ∷ rows) (Memᴰ.head p) = Memᴰ.head (ap g p)
Memᴰ-map g x (row ∷ rows) (Memᴰ.tail among) = Memᴰ.tail (Memᴰ-map g x rows among)

module _ (p : Attempt → Bool) where
  filter-insert_newest :
      (row : Attempt) (rows : List Attempt)
      → length (filter p (insert_newest row rows)) ≡ length (filter p (row ∷ rows))
  unfolding insert_newest
  filter-insert_newest row [] = refl
  filter-insert_newest row (other ∷ rest) = ground (arith, filter-insert_newest row rest)

  filter-newest_first :
      (rows : List Attempt) → length (filter p (newest_first rows)) ≡ length (filter p rows)
  unfolding newest_first
  filter-newest_first [] = refl
  filter-newest_first (row ∷ rows) =
      ground (arith, filter-insert_newest row (newest_first rows), filter-newest_first rows)

module _ (options : Options) (rows : List Attempt) where
  abbrev pub matched : List Attempt
  matched = filter (matches options) rows

  requeues :
      (k : ℕ)
      → options.requeue ≡ true
      → length matched ≡ suc k
      → length (filter (lacks_payload (explicit_payload options.payload_file)) matched) ≡ 0
      → handle options rows
        ≡ requeued (map (task_of (explicit_payload options.payload_file)) (newest_first matched))
  unfolding handle
  requeues k asked some_match none_lacks = ground (
    arith,
    length-newest_first matched,
    some_match,
    asked,
    filter-newest_first (lacks_payload (explicit_payload options.payload_file)) matched,
    none_lacks,
  )

  -- If the command is asked to requeue, and every exhausted attempt that matches the options has a
  -- payload, in the file or in its snapshot, then each of them is enqueued: the number of tasks is
  -- the number of matching attempts, and each matching attempt's task, with the attempt's endpoint,
  -- event and correlation id and with the payload, is among them.
  pub handle-requeued :
      (row : Attempt)
      → options.requeue ≡ true
      → Memᴰ row rows
      → matches options row ≡ true
      → ((r : Attempt)
          → Memᴰ r rows
          → matches options r ≡ true
          → lacks_payload (explicit_payload options.payload_file) r ≡ false)
      → (tasks : List Enqueued) × (handle options rows ≡ requeued tasks)
        × (length tasks ≡ length matched)
        × Memᴰ (task_of (explicit_payload options.payload_file) row) tasks
  handle-requeued row asked among match all_have =
      let task = task_of (explicit_payload options.payload_file) in
      let inside = (Memᴰ-filter (matches options) rows row).1 (among, match) in
      let (k, some_match) = length_of_member matched row inside in
      let none_lacks =
        filter_nothing (lacks_payload (explicit_payload options.payload_file)) matched (λ r m.
          let (m', match') = (Memᴰ-filter (matches options) rows r).0 m in all_have r m' match') in
      (
        map task (newest_first matched),
        requeues k asked some_match none_lacks,
        length-map (newest_first matched) task ∙ length-newest_first matched,
        Memᴰ-map task row (newest_first matched) (Memᴰ-newest_first row matched inside),
      )
