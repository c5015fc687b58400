-- ===== src/Memory/Tests/Data.antt =====
-- pkg/queue/memory: the queues of the tests.
use doq.Common.{ℕ, ◌-◌, ◌*◌, ◌/◌, refl, Bool, true, false, [], ◌∷◌, none, Returns-at}
use doq.Common.Int.{pos, negsuc, ◌+ℤ◌}
use doq.Common.Text.{Text, bytes, text_eq, text_lt}
use doq.Common.Dict
use doq.Avl.{leaf, node, insert, max}
use doq.Memory.PriorityQueue.{
  Item, PriorityQueue, new_priority_queue, store, heap_push, up, up_loop, less, swap, item_less,
}
use doq.Memory.PriorityQueue.Push.{heap_push_lem}
use doq.Memory.PriorityQueue.Valid.{IsValid, new_queue-IsValid}
use doq.Memory.WeightedQueue.{
  Float64, WeightedQueue, new_fair_weighted_queue, enqueue, reweigh, calculate_weight, mark_unacked,
  set_unacked,
}
use doq.Memory.WeightedQueue.Laws as Weighted
use doq.Memory.WeightedQueue.Contents.{enqueue_lem}
use doq.Memory.WeightedQueue.Counters.{mark_unacked_lem, new_fair_weighted_queue-IsValid}

abbrev pub first : Item
first = record { id = 1; priority = pos 7; group = bytes "a" }

abbrev pub second : Item
second = record { id = 2; priority = pos 5; group = bytes "a" }

abbrev pub one_item : Bool → PriorityQueue
one_item min_first = record {
  min_first = min_first;
  items = first ∷ [];
  id_to_index = store (λ _. none) 1 0;
}

-- The second item rises to the root of a queue that serves the least first.
abbrev pub two_items : PriorityQueue
two_items = record {
  min_first = true;
  items = second ∷ first ∷ [];
  id_to_index = store (store (store (store (λ _. none) 1 0) 2 1) 2 0) 1 1;
}

pub one_item-IsValid : (m : Bool) → IsValid (one_item m)
unfolding heap_push up up_loop
one_item-IsValid m =
    (Returns-at (heap_push_lem (new_priority_queue m) first (new_queue-IsValid m) refl) refl).valid

pub two_items-IsValid : IsValid two_items
unfolding heap_push up up_loop less swap item_less
two_items-IsValid =
    (Returns-at (heap_push_lem (one_item true) second (one_item-IsValid true) refl) refl).valid

-- The two items in a queue that serves the greatest first.
abbrev pub two_greatest : PriorityQueue
two_greatest = record {
  min_first = false;
  items = first ∷ second ∷ [];
  id_to_index = store (store (λ _. none) 1 0) 2 1;
}

pub two_greatest-IsValid : IsValid two_greatest
unfolding heap_push up up_loop less swap item_less
two_greatest-IsValid =
    (Returns-at (heap_push_lem (one_item false) second (one_item-IsValid false) refl) refl).valid

-- Fractions, in place of float64.
abbrev pub fractions : Float64
fractions = record {
  Float = ℕ × ℕ;
  of_int = λ n. elim n [ pos k ↦ (k, 1) | negsuc k ↦ (0, 1) ];
  sub = λ x y. (x.0 * y.1 - y.0 * x.1, x.1 * y.1);
  div = λ x y. (x.0 * y.1, x.1 * y.0);
  mul = λ x y. (x.0 * y.0, x.1 * y.1);
  to_int = λ x. x.0 / x.1;
}

abbrev pub group : Text
group = bytes "a"

abbrev pub empty_groups : WeightedQueue
empty_groups = record {
  max_unacked = pos 3;
  weights = leaf;
  unacked_by_group = λ _. none;
  queues = [];
}

pub empty_groups-IsValid : Weighted.IsValid empty_groups
unfolding new_fair_weighted_queue
empty_groups-IsValid = new_fair_weighted_queue-IsValid (pos 3)

abbrev pub one_group : WeightedQueue
one_group = record {
  max_unacked = pos 3;
  weights = node group 10 10 1 leaf leaf;
  unacked_by_group = λ _. none;
  queues = (group, one_item true) ∷ [];
}

pub one_group-IsValid : Weighted.IsValid one_group
unfolding enqueue heap_push up up_loop reweigh calculate_weight insert Dict.lookup Dict.insert ◌+ℤ◌
one_group-IsValid =
    (Returns-at (enqueue_lem fractions empty_groups group empty_groups-IsValid first (λ pq e. cc))
      refl).0

-- With one message of the group in flight.
abbrev pub counted_group : WeightedQueue
counted_group = record {
  max_unacked = pos 3;
  weights = node group 7 7 1 leaf leaf;
  unacked_by_group = set_unacked (λ _. none) group (pos 1);
  queues = (group, one_item true) ∷ [];
}

pub counted_group-IsValid : Weighted.IsValid counted_group
unfolding mark_unacked reweigh calculate_weight insert Dict.lookup ◌+ℤ◌ text_lt text_eq max
counted_group-IsValid =
    (Returns-at (mark_unacked_lem fractions one_group one_group-IsValid group) refl).0
