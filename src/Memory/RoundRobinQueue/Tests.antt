-- ===== src/Memory/RoundRobinQueue/Tests.antt =====
-- pkg/queue/memory/fair_round_robin_queue.go: runs at concrete inputs, and the properties there.
use doq.Common.{
  ℕ, zero, suc, ◌≡◌, refl, Bool, true, false, List, [], ◌∷◌, Option, none, some, ◌>>=◌, arith,
  Returns, Returns-at, inl, inr, ◌⊎◌, Bool-cases,
}
use mathlib.Core.Option
use doq.Common.Int.{pos, ◌+ℤ◌, ◌-ℤ◌}
use doq.Common.Text.{Text, bytes, text_eq, eq_of_text_eq}
use doq.Common.Dict
use doq.Memory.PriorityQueue.{
  Item, heap_push, up, up_loop, less, item_less, swap, heap_pop, down, down_loop, pop_last,
  smaller_child,
}
use doq.Memory.RoundRobinQueue.{
  GroupNode, RoundRobinQueue, new_group_node, new_fair_round_robin_queue, enqueue, enter_path,
  enter, enter_from, add_child, count_path, refresh_leaf_ready, split, peek_ready, mark_unacked,
  update_weights, load, contains,
}
use doq.Memory.RoundRobinQueue.Dequeue.{
  dequeue, dequeue_from_node, visit, visit_child, pop_leaf, advance, next_child, after_removal,
  remove_empty_child, remove_entry,
}
use doq.Memory.RoundRobinQueue.Scheduling.{restore_node, state_of}
use doq.Memory.RoundRobinQueue.Valid.{new_fair_round_robin_queue-IsValid}
use doq.Memory.RoundRobinQueue.Enqueue.{Queued, enqueue-get}
use doq.Memory.RoundRobinQueue.Slots.{unacked, Counts, update_weights-mark_unacked}
use doq.Memory.RoundRobinQueue.Walks.{Outcome}
use doq.Memory.RoundRobinQueue.Pick.{dequeue_from_node_lem}
use doq.Memory.RoundRobinQueue.Restore.{restore_node-state_of}

abbrev item : ℕ → Item
item id = record { id = id; priority = pos 0; group = [] }

-- The ids served by a number of calls of Dequeue.
abbrev serve : ℕ → RoundRobinQueue → Option (List ℕ × RoundRobinQueue)
serve zero q = some ([], q)
serve (suc n) q = do
  r ← dequeue q true 0 (pos 0)
  rest ← serve n r.1
  some (elim r.0 [ none ↦ rest.0 | some i ↦ i.id ∷ rest.0 ], rest.1)

abbrev send : List (Text × ℕ) → RoundRobinQueue → Option RoundRobinQueue
send [] q = some q
send ((group, id) ∷ rest) q = do q' ← enqueue q group (item id); send rest q'

abbrev empty_queue : RoundRobinQueue
empty_queue = new_fair_round_robin_queue (pos 0)

-- What is served, and whether the queue says that there is more.
run : List (Text × ℕ) → Option (List ℕ × Bool)
unfolding enqueue enter_path enter enter_from add_child count_path refresh_leaf_ready split
    heap_push up up_loop new_fair_round_robin_queue text_eq Dict.lookup Dict.insert Dict.remove
    dequeue dequeue_from_node less item_less swap visit visit_child pop_leaf heap_pop down down_loop
    pop_last advance next_child after_removal remove_empty_child remove_entry peek_ready ◌+ℤ◌ ◌-ℤ◌
    smaller_child
run messages = do q ← send messages empty_queue; r ← serve 5 q; some (r.0, peek_ready r.1)

-- The groups take turns, and so do the groups within a group.
turns :
    run ((bytes "a.x", 1) ∷ (bytes "a.x", 2) ∷ (bytes "b", 3) ∷ (bytes "a.y", 4) ∷ [])
    ≡ some (1 ∷ 3 ∷ 4 ∷ 2 ∷ [], false)
unfolding run
turns = refl

-- The key of the group ".a" is "a": when its leaf goes, the map loses the entry of the group "a", and the
-- queue, which is empty in the end, says that a message is ready.
stranded : run ((bytes ".a", 1) ∷ (bytes "a", 2) ∷ []) ≡ some (1 ∷ 2 ∷ [], true)
unfolding run
stranded = refl

abbrev x : Text
x = bytes "x"

-- A tree with one leaf, and a message in it.
abbrev one_message : RoundRobinQueue
one_message = Option.get_or (enqueue empty_queue x (item 1)) empty_queue

empty_queue-IsFresh :
    (b : ℕ) (m : GroupNode) → load empty_queue b ≡ some m → m.queue.id_to_index 1 ≡ none
unfolding new_fair_round_robin_queue
empty_queue-IsFresh zero m e =
    let same : new_group_node (bytes "root") none ≡ m = cc in rw (← same) refl
empty_queue-IsFresh (suc b) m e = cc

enqueue-get_example : Returns (Queued empty_queue x (item 1)) (enqueue empty_queue x (item 1))
enqueue-get_example =
    enqueue-get empty_queue x (item 1) (new_fair_round_robin_queue-IsValid (pos 0))
      empty_queue-IsFresh

one_message-Queued : Queued empty_queue x (item 1) one_message
unfolding enqueue enter_path enter enter_from add_child count_path refresh_leaf_ready split
    heap_push up up_loop new_fair_round_robin_queue text_eq Dict.lookup Dict.insert
one_message-Queued =
    Returns-at
      (enqueue-get empty_queue x (item 1) (new_fair_round_robin_queue-IsValid (pos 0))
        empty_queue-IsFresh)
      refl

update_weights-mark_unacked_example :
    Returns
      (λ q'. Counts one_message x (pos 0) q' × ((g : Text) → unacked q' g ≡ unacked one_message g))
      (mark_unacked one_message x >>= λ q1. update_weights q1 x 1)
unfolding enqueue enter_path enter enter_from add_child count_path refresh_leaf_ready split
    heap_push up up_loop new_fair_round_robin_queue text_eq Dict.lookup Dict.insert
update_weights-mark_unacked_example =
    update_weights-mark_unacked one_message x 1 0 one_message-Queued.valid refl

dequeue_from_node_lem_example : Returns (Outcome one_message 0) (dequeue_from_node 2 one_message 0)
unfolding enqueue enter_path enter enter_from add_child count_path refresh_leaf_ready split
    heap_push up up_loop new_fair_round_robin_queue text_eq Dict.lookup Dict.insert
dequeue_from_node_lem_example =
    dequeue_from_node_lem 2 one_message 0 one_message-Queued.valid (omega arith) (omega arith)

-- A node with the children x and y, in either order, and with its cursor at the second.
abbrev node_of : List Text → Option Text → GroupNode
node_of names cursor = record (new_group_node (bytes "g") none) {
  children = (bytes "x", 1) ∷ (bytes "y", 2) ∷ [];
  children_list = names;
  current_child = cursor;
}

either_name :
    (k : Text) → contains (bytes "y" ∷ bytes "x" ∷ []) k ≡ true → (bytes "y" ≡ k) ⊎ (bytes "x" ≡ k)
unfolding contains
either_name k h = elim (Bool-cases (text_eq (bytes "y") k)) [
  | inl y ↦ inl (eq_of_text_eq _ k y)
  | inr other ↦ elim (Bool-cases (text_eq (bytes "x") k)) [
    | inl x ↦ inr (eq_of_text_eq _ k x)
    | inr neither ↦ ground (arith, other, neither)
  ]
]

restore_node-state_of_example :
    restore_node
      (node_of (bytes "x" ∷ bytes "y" ∷ []) none)
      (state_of (node_of (bytes "y" ∷ bytes "x" ∷ []) (some (bytes "x"))))
    ≡ node_of (bytes "y" ∷ bytes "x" ∷ []) (some (bytes "x"))
unfolding contains text_eq Dict.lookup
restore_node-state_of_example =
    restore_node-state_of (node_of (bytes "x" ∷ bytes "y" ∷ []) none)
      (node_of (bytes "y" ∷ bytes "x" ∷ []) (some (bytes "x"))) (refl, (refl, tt))
      (λ k h. elim (either_name k h) [ inl e ↦ rw (← e) refl | inr e ↦ rw (← e) refl ])
      (λ k h. ground (arith, h)) (inr (bytes "x", refl, refl))
