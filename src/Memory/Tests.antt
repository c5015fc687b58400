-- ===== src/Memory/Tests.antt =====
-- pkg/queue/memory: the properties at small queues, built with the queues' own operations.
pub mod Data
use mathlib.Core.List.{Perm}
use doq.Common.{
  ℕ, ◌<◌, ◌≡◌, ◌≢◌, refl, Bool, true, false, List, [], ◌∷◌, Option, none, some, arith,
  if◌then◌else◌, ◌==◌, Returns, length, set, ◌⊎◌,
}
use doq.Common.Int.{ℤ, pos, leb_ℤ, ◌-ℤ◌, ◌+ℤ◌}
use doq.Common.Text.{Text, text_eq}
use doq.Common.Dict
use doq.Avl.{sample_seed}
use doq.Memory.PriorityQueue
use doq.Memory.PriorityQueue.{Item, PriorityQueue, new_priority_queue, size, heap_push, heap_pop}
use doq.Memory.PriorityQueue.Slice.{at}
use doq.Memory.PriorityQueue.Order.{Le}
use doq.Memory.PriorityQueue.Laws.{Takes, heap_pop_lem}
use doq.Memory.PriorityQueue.Push.{heap_push_lem}
use doq.Memory.PriorityQueue.Valid.{Holds}
use doq.Memory.PriorityQueue.Edit.{delete_lem, update_priority_lem}
use doq.Memory.DelayedQueue
use doq.Memory.DelayedQueue.Laws.{
  AllDelayed, HeadDue, Dequeues, dequeue-Dequeues, WaitsForHead, peek_ready_lem,
}
use doq.Memory.WeightedQueue
use doq.Memory.WeightedQueue.{
  WeightedQueue, unacked, enqueue, dequeue, update_weights, mark_unacked, peek_ready,
}
use doq.Memory.WeightedQueue.Laws.{IsValid}
use doq.Memory.WeightedQueue.Contents.{items_of, HasItems, enqueue_lem}
use doq.Memory.WeightedQueue.Delivery.{Delivers, dequeue-Delivers}
use doq.Memory.WeightedQueue.Counters.{
  SameItems, Released, update_weights_lem, mark_unacked_lem, delete_group_lem,
}
use doq.Memory.Tests.Data.{
  first, second, one_item, one_item-IsValid, two_items, two_items-IsValid, fractions, group,
  empty_groups, empty_groups-IsValid, one_group, one_group-IsValid, counted_group,
  counted_group-IsValid,
}

heap_push_lem_example :
    Returns (Holds (one_item true) (second ∷ first ∷ [])) (heap_push (one_item true) second)
heap_push_lem_example = heap_push_lem (one_item true) second (one_item-IsValid true) refl

heap_pop_lem_example :
    Returns
      (λ r. Takes two_items second r × ((i : ℕ) → i < 2 → Le true second (at two_items.items i)))
      (heap_pop two_items)
unfolding at
heap_pop_lem_example = heap_pop_lem two_items two_items-IsValid (omega arith)

delete_lem_example : Returns (Takes two_items first) (PriorityQueue.delete two_items 1)
unfolding at
delete_lem_example = delete_lem two_items 1 1 two_items-IsValid refl

update_priority_lem_example :
    Returns
      (Holds two_items (second ∷ record first { priority = pos 1 } ∷ []))
      (PriorityQueue.update_priority two_items 1 (pos 1))
unfolding at
update_priority_lem_example = update_priority_lem two_items 1 1 two_items-IsValid refl (pos 1)

dequeue-Dequeues_example :
    Returns (Dequeues two_items (pos 6)) (DelayedQueue.dequeue two_items false 0 (pos 6))
dequeue-Dequeues_example = dequeue-Dequeues two_items two_items-IsValid (pos 6) refl false 0

peek_ready_lem_example :
    Returns
      (λ r.
        (AllDelayed two_items (pos 4)
          × (r.0 ≡ false)
          × WaitsForHead two_items two_items-IsValid (pos 4) refl r.1)
        ⊎ (HeadDue two_items (pos 4) × (r ≡ (true, pos 0))))
      (DelayedQueue.peek_ready two_items (pos 4))
peek_ready_lem_example = peek_ready_lem two_items two_items-IsValid (pos 4) refl

enqueue_lem_example :
    Returns
      (λ q'.
        IsValid q'
        × HasItems one_group group (second ∷ first ∷ []) q'
        × (unacked q' group ≡ unacked one_group group))
      (enqueue fractions one_group group second)
unfolding Dict.lookup text_eq
enqueue_lem_example =
    enqueue_lem fractions one_group group one_group-IsValid second
      λ pq e. let same : one_item true ≡ pq = cc in rw (← same) refl

dequeue-Delivers_example :
    Returns
      (λ r.
        ((r ≡ (none, one_group))
          × ((peek_ready one_group ≡ false) ⊎ (sample_seed one_group.weights 9 ≡ [])))
        ⊎ ((peek_ready one_group ≡ true)
            × (sample_seed one_group.weights 9 ≢ [])
            × Delivers one_group (sample_seed one_group.weights 9) false r))
      (dequeue fractions one_group false 9 (pos 0))
dequeue-Delivers_example = dequeue-Delivers fractions one_group one_group-IsValid false 9 (pos 0)

update_weights_lem_example :
    Returns
      (λ q'. IsValid q' × SameItems counted_group q' × Released counted_group group (pos 1) q')
      (update_weights fractions counted_group group 5)
unfolding text_eq
update_weights_lem_example =
    update_weights_lem fractions counted_group counted_group-IsValid group 5 (pos 1) refl

mark_unacked_lem_example :
    Returns
      (λ q'.
        IsValid q'
        × SameItems counted_group q'
        × (unacked q' group ≡ unacked counted_group group +ℤ pos 1))
      (mark_unacked fractions counted_group group)
mark_unacked_lem_example = mark_unacked_lem fractions counted_group counted_group-IsValid group

delete_group_lem_example :
    Returns
      (λ (s : Option Item × WeightedQueue).
        (s.0 ≡ some first)
        × IsValid s.1
        × Perm (first ∷ items_of s.1 group) (items_of counted_group group)
        × ((g : Text) → text_eq group g ≡ false → items_of s.1 g ≡ items_of counted_group g)
        × (unacked s.1 group ≡ unacked counted_group group))
      (WeightedQueue.delete fractions counted_group group 1)
unfolding at Dict.lookup text_eq
delete_group_lem_example =
    delete_group_lem fractions counted_group counted_group-IsValid group (one_item true) 1 0 refl
      refl
