-- ===== src/Admin/Requeued.antt =====
-- The admin's action agrees with the redelivery command, and its counts add up.
use openedx_webhook_relay.Base.{
  suc, ◌+◌, ◌≡◌, refl, ap, ◌∙◌, inl, inr, not, none, some, List, [], ◌∷◌, arith, filter, map,
  length, length-map, Option-cases,
}
use openedx_webhook_relay.Base.Members.{length-filter}
use openedx_webhook_relay.Models.{Attempt}
use openedx_webhook_relay.Redeliver.{lacks_payload, task_of}
use openedx_webhook_relay.Admin.{requeue_all, requeue_selected, is_exhausted}

requeue_all_lem :
    (rows : List Attempt)
    → ((requeue_all rows).tasks
        ≡ map (task_of none) (filter (λ row. not (lacks_payload none row)) rows))
      × ((requeue_all rows).requeued ≡ length (requeue_all rows).tasks)
      × ((requeue_all rows).skipped_no_snapshot ≡ length (filter (lacks_payload none) rows))
unfolding requeue_all
requeue_all_lem [] = (refl, refl, refl)
requeue_all_lem (row ∷ rows) =
    let (tasks, count, skipped) = requeue_all_lem rows in
    elim (Option-cases row.payload_snapshot) [
      | inl lacks ↦ rw lacks (tasks, count, ap suc skipped)
      | inr (snapshot, has) ↦ rw has (
        ap (λ ts. task_of none (record row { payload_snapshot = some snapshot }) ∷ ts) tasks,
        ap suc count,
        skipped,
      )
    ]

-- The action enqueues, in the order of the selection, one task for each exhausted attempt with a
-- snapshot, the same task as the redelivery command without a payload file; the two counts that it
-- reports add up to the number of exhausted attempts in the selection.
pub requeue_selected-tasks :
    (queryset : List Attempt)
    → ((requeue_selected queryset).tasks
        ≡ map
            (task_of none)
            (filter (λ row. not (lacks_payload none row)) (filter is_exhausted queryset)))
      × ((requeue_selected queryset).requeued ≡ length (requeue_selected queryset).tasks)
      × ((requeue_selected queryset).requeued + (requeue_selected queryset).skipped_no_snapshot
          ≡ length (filter is_exhausted queryset))
unfolding requeue_selected
requeue_selected-tasks queryset =
    let chosen = filter is_exhausted queryset in
    let (tasks, count, skipped) = requeue_all_lem chosen in
    let sum = length-filter (lacks_payload none) chosen in
    let made : (requeue_all chosen).requeued
        ≡ length (filter (λ row. not (lacks_payload none row)) chosen) =
      count ∙ ap length tasks ∙ length-map _ (task_of none) in
    (tasks, count, omega (arith, made, skipped, sum))
