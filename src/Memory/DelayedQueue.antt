-- ===== src/Memory/DelayedQueue.antt =====
-- pkg/queue/memory/delayed_queue.go: a queue whose items wait until their scheduled time. The state
-- is the priority queue; the lock gives each call the queue to itself. `now` is a Unix time in
-- seconds, and a duration is an int64 in nanoseconds. `none` is a panic.
pub mod Laws
use doq.Common.{
  ℕ, Bool, true, false, List, Option, none, some, ltb, ◌==◌, if◌then◌else◌, ◌>>=◌, length,
}
use doq.Common.Int.{ℤ, pos, ltb_ℤ, ◌-ℤ◌, of_seconds}
use doq.Common.Text.{Text}
use doq.Memory.PriorityQueue
use doq.Memory.PriorityQueue.{Item, PriorityQueue, size, heap_push, heap_pop, peek, assert_item}

abbrev pub new_delayed_queue : Bool → PriorityQueue
new_delayed_queue min_first = PriorityQueue.new_priority_queue min_first

unfoldable pub update_max_unacked : PriorityQueue → ℤ → Option PriorityQueue
update_max_unacked q max_unacked = some q

unfoldable pub enqueue : PriorityQueue → Text → Item → Option PriorityQueue
enqueue q group item = heap_push q item

unfoldable pub dequeue : PriorityQueue → Bool → ℕ → ℤ → Option (Option Item × PriorityQueue)
dequeue q ack seed now = if size q == 0 then some (none, q) else do
  head ← peek q
  if ltb_ℤ now head.priority
      then some (none, q)
      else (do popped ← heap_pop q; r ← assert_item popped; some (some r.0, r.1))

unfoldable pub peek_ready : PriorityQueue → ℤ → Option (Bool × ℤ)
peek_ready q now = if size q == 0 then some (false, pos 0) else do
  head ← peek q
  some (
      if ltb_ℤ now head.priority then (false, of_seconds (head.priority -ℤ now)) else (true, pos 0))

unfoldable pub peek_ready_item : PriorityQueue → ℤ → Option (Option Item)
peek_ready_item q now =
    if size q == 0
    then some none
    else do head ← peek q; some (if ltb_ℤ now head.priority then none else some head)

unfoldable pub get : PriorityQueue → Text → ℕ → Option (Option Item)
get q group id = PriorityQueue.get q id

unfoldable pub delete : PriorityQueue → Text → ℕ → Option (Option Item × PriorityQueue)
delete q group id = PriorityQueue.delete q id

unfoldable pub update_priority : PriorityQueue → Text → ℕ → ℤ → Option PriorityQueue
update_priority q group id priority = PriorityQueue.update_priority q id priority

unfoldable pub len : PriorityQueue → ℕ
len q = size q

unfoldable pub update_weights : PriorityQueue → Text → ℕ → Option PriorityQueue
update_weights q group id = some q

unfoldable pub mark_unacked : PriorityQueue → Text → Option PriorityQueue
mark_unacked q group = some q

unfoldable pub items : PriorityQueue → List Item
items q = q.items
