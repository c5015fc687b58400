-- ===== src/Memory/WeightedQueue.antt =====
-- pkg/queue/memory/fair_weighted_queue.go: a queue for each group, sampled by the weights in
-- pkg/weighted_avl. The counters and the weights are maps from group names; the lock gives each call
-- the queue to itself. `none` is a run-time panic.
pub mod Laws
pub mod Contents
pub mod Delivery
pub mod Counters
use doq.Common.{
  ℕ, ◌+◌, ◌-◌, ◌^◌, Bool, true, false, not, ◌&&◌, List, [], ◌∷◌, Option, none, some, ltb, ◌==◌,
  if◌then◌else◌, ◌>>=◌, length,
}
use mathlib.Core.Option
use doq.Common.Int.{ℤ, pos, negsuc, ltb_ℤ, leb_ℤ, eqb_ℤ, ◌+ℤ◌, ◌-ℤ◌}
use doq.Common.Text.{Text, text_eq}
use doq.Common.Dict
use doq.Avl.{Tree, new_weighted_avl, update_weight, sample_seed}
use doq.Avl
use doq.Memory.PriorityQueue
use doq.Memory.PriorityQueue.{
  Item, PriorityQueue, size, new_priority_queue, heap_push, heap_pop, assert_item,
}

-- float64 and its operations, as far as CalculateWeight uses them. `to_int` truncates; its argument
-- is never negative here.
pub record Float64 : Type 1 where
  pub Float : Type 0
  pub of_int : ℤ → Float
  pub sub : Float → Float → Float
  pub div : Float → Float → Float
  pub mul : Float → Float → Float
  pub to_int : Float → ℕ

-- math.MaxInt64
abbrev pub max_int64 : ℤ
max_int64 = pos (2 ^ 63 - 1)

-- `n + 1` on an int, which wraps around.
abbrev pub increment_int64 : ℤ → ℤ
increment_int64 n = if eqb_ℤ n max_int64 then negsuc (2 ^ 63 - 1) else n +ℤ pos 1

pub record WeightedQueue : Type 0 where
  pub max_unacked : ℤ
  pub weights : Tree
  pub unacked_by_group : Text → Option ℤ
  pub queues : List (Text × PriorityQueue)

-- A missing counter reads as 0.
abbrev pub unacked : WeightedQueue → Text → ℤ
unacked q group = Option.get_or (q.unacked_by_group group) (pos 0)

abbrev pub set_unacked : (Text → Option ℤ) → Text → ℤ → Text → Option ℤ
set_unacked m group n g = if text_eq g group then some n else m g

abbrev pub drop_unacked : (Text → Option ℤ) → Text → Text → Option ℤ
drop_unacked m group g = if text_eq g group then none else m g

unfoldable pub new_fair_weighted_queue : ℤ → WeightedQueue
new_fair_weighted_queue max_unacked = record {
  max_unacked = max_unacked;
  weights = new_weighted_avl;
  unacked_by_group = λ _. none;
  queues = [];
}

unfoldable pub update_max_unacked : WeightedQueue → ℤ → WeightedQueue
update_max_unacked q max_unacked = record q {
  max_unacked = if eqb_ℤ max_unacked (pos 0) then max_int64 else max_unacked;
}

-- Deleting a group: its queue, its counter and its weight.
unfoldable pub forget : WeightedQueue → Text → Option WeightedQueue
forget q group = do
  weights ← Avl.remove q.weights group
  some (record q {
    queues = Dict.remove q.queues group;
    unacked_by_group = drop_unacked q.unacked_by_group group;
    weights = weights;
  })

unfoldable pub get : WeightedQueue → Text → ℕ → Option (Option Item)
get q group id = elim (Dict.lookup q.queues group) [
  | none ↦ some none
  | some pq ↦ PriorityQueue.get pq id
]

unfoldable pub total_len : List (Text × PriorityQueue) → ℕ
total_len [] = 0
total_len ((group, pq) ∷ rest) = size pq + total_len rest

unfoldable pub len : WeightedQueue → ℕ
unfolding total_len
len q = total_len q.queues

unfoldable pub update_priority : WeightedQueue → Text → ℕ → ℤ → Option WeightedQueue
update_priority q group id priority = elim (Dict.lookup q.queues group) [
  | none ↦ some q
  | some pq ↦ (do
    pq' ← PriorityQueue.update_priority pq id priority
    some (record q { queues = Dict.insert q.queues group pq' }))
]

-- A positive total weight.
unfoldable pub peek_ready : WeightedQueue → Bool
peek_ready q = ltb 0 (Avl.sum q.weights)

module _ (fl : Float64) where
  open fl use {of_int, sub, div, mul, to_int}

  unfoldable pub calculate_weight : ℤ → ℤ → ℕ → ℕ
  calculate_weight max_unacked unacked queue_size =
      if queue_size == 0
      then 0
      else let limit = if eqb_ℤ max_unacked (pos 0) then max_int64 else max_unacked in
        if leb_ℤ limit unacked
        then 0
        else let unacked_factor =
            sub (of_int (pos 1)) (div (of_int unacked) (of_int (increment_int64 limit))) in
          let queue_size_factor = of_int (pos 1) in
          to_int (mul (mul unacked_factor queue_size_factor) (of_int (pos 10)))

  -- `q.weights.Update(group, CalculateWeight(...))`, for a group with the queue `pq`.
  unfoldable pub reweigh : WeightedQueue → Text → PriorityQueue → Option WeightedQueue
  unfolding calculate_weight
  reweigh q group pq = do
    weights ←
        update_weight q.weights group (calculate_weight q.max_unacked (unacked q group) (size pq))
    some (record q { weights = weights })

  unfoldable pub enqueue : WeightedQueue → Text → Item → Option WeightedQueue
  enqueue q group item = do
    pq ← heap_push (Option.get_or (Dict.lookup q.queues group) (new_priority_queue true)) item
    reweigh (record q { queues = Dict.insert q.queues group pq }) group pq

  -- The end of Dequeue and of Delete, when `pq` is what is left of the group's queue.
  unfoldable pub after_removal : WeightedQueue → Text → PriorityQueue → Option WeightedQueue
  after_removal q group pq =
      if eqb_ℤ (unacked q group) (pos 0) && (size pq == 0)
      then forget q group
      else reweigh q group pq

  -- The group that Sample has picked, which is not "".
  unfoldable pub dequeue_group : WeightedQueue → Text → Bool → Option (Option Item × WeightedQueue)
  dequeue_group q group ack = do
    pq ← Dict.lookup q.queues group
    popped ← heap_pop pq
    r ← assert_item popped
    let popped_q = record q { queues = Dict.insert q.queues group r.1 }
    let counted = if ack then popped_q else record popped_q {
      unacked_by_group = set_unacked q.unacked_by_group group (unacked q group +ℤ pos 1);
    }
    q' ← after_removal counted group r.1
    some (some r.0, q')

  unfoldable pub dequeue : WeightedQueue → Bool → ℕ → ℤ → Option (Option Item × WeightedQueue)
  dequeue q ack seed now =
      if length q.queues == 0
      then some (none, q)
      else let group = sample_seed q.weights seed in
        if text_eq group [] then some (none, q) else dequeue_group q group ack

  unfoldable pub delete : WeightedQueue → Text → ℕ → Option (Option Item × WeightedQueue)
  delete q group id = elim (Dict.lookup q.queues group) [
    | none ↦ some (none, q)
    | some pq ↦ (do
      r ← PriorityQueue.delete pq id
      elim r.0 [
        | none ↦ some (none, q)
        | some item ↦ (do
          q' ← after_removal (record q { queues = Dict.insert q.queues group r.1 }) group r.1
          some (some item, q'))
      ])
  ]

  unfoldable pub update_weights : WeightedQueue → Text → ℕ → Option WeightedQueue
  update_weights q group id = elim (q.unacked_by_group group) [
    | none ↦ some q
    | some n ↦ (do
      let counted = record q {
        unacked_by_group = set_unacked q.unacked_by_group group (n -ℤ pos 1);
      }
      pq ← Dict.lookup q.queues group
      reweighed ← reweigh counted group pq
      if (size pq == 0) && leb_ℤ (n -ℤ pos 1) (pos 0)
          then forget reweighed group
          else some reweighed)
  ]

  unfoldable pub mark_unacked : WeightedQueue → Text → Option WeightedQueue
  mark_unacked q group =
      let pq = Option.get_or (Dict.lookup q.queues group) (new_priority_queue true) in
      reweigh
        (record q {
          queues = elim (Dict.lookup q.queues group) [
            | none ↦ Dict.insert q.queues group (new_priority_queue true)
            | some _ ↦ q.queues
          ];
          unacked_by_group = set_unacked q.unacked_by_group group (unacked q group +ℤ pos 1);
        })
        group pq
