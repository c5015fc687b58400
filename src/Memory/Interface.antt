-- ===== src/Memory/Interface.antt =====
-- pkg/queue/memory/memory_queue.go: the interface of the queues of ready messages, which the
-- delayed queue, the weighted and the round-robin fair queue fill. `none` is a run-time panic.
use doq.Common.{ℕ, Bool, Option, some}
use doq.Common.Int.{ℤ, pos}
use doq.Common.Text.{Text}
use doq.Memory.PriorityQueue.{Item, PriorityQueue}
use doq.Memory.DelayedQueue
use doq.Memory.WeightedQueue.{Float64, WeightedQueue}
use doq.Memory.WeightedQueue
use doq.Memory.RoundRobinQueue.{RoundRobinQueue}
use doq.Memory.RoundRobinQueue
use doq.Memory.RoundRobinQueue.Dequeue

pub record MemoryQueue : Type 1 where
  pub State : Type 0
  pub update_max_unacked : State → ℤ → Option State
  pub enqueue : State → Text → Item → Option State
  pub dequeue : State → Bool → ℕ → ℤ → Option (Option Item × State)
  pub get : State → Text → ℕ → Option (Option Item)
  pub delete : State → Text → ℕ → Option (Option Item × State)
  pub update_priority : State → Text → ℕ → ℤ → Option State
  pub len : State → ℕ
  pub update_weights : State → Text → ℕ → Option State
  pub mark_unacked : State → Text → Option State
  pub peek_ready : State → ℤ → Option (Bool × ℤ)

abbrev pub delayed_queue : MemoryQueue
delayed_queue = record {
  State = PriorityQueue;
  update_max_unacked = DelayedQueue.update_max_unacked;
  enqueue = DelayedQueue.enqueue;
  dequeue = DelayedQueue.dequeue;
  get = DelayedQueue.get;
  delete = DelayedQueue.delete;
  update_priority = DelayedQueue.update_priority;
  len = DelayedQueue.len;
  update_weights = DelayedQueue.update_weights;
  mark_unacked = DelayedQueue.mark_unacked;
  peek_ready = DelayedQueue.peek_ready;
}

abbrev pub weighted_queue : Float64 → MemoryQueue
weighted_queue fl = record {
  State = WeightedQueue;
  update_max_unacked = λ q n. some (WeightedQueue.update_max_unacked q n);
  enqueue = WeightedQueue.enqueue fl;
  dequeue = WeightedQueue.dequeue fl;
  get = WeightedQueue.get;
  delete = WeightedQueue.delete fl;
  update_priority = WeightedQueue.update_priority;
  len = WeightedQueue.len;
  update_weights = WeightedQueue.update_weights fl;
  mark_unacked = WeightedQueue.mark_unacked fl;
  peek_ready = λ q now. some (WeightedQueue.peek_ready q, pos 0);
}

abbrev pub round_robin_queue : MemoryQueue
round_robin_queue = record {
  State = RoundRobinQueue;
  update_max_unacked = RoundRobinQueue.update_max_unacked;
  enqueue = RoundRobinQueue.enqueue;
  dequeue = RoundRobinQueue.Dequeue.dequeue;
  get = RoundRobinQueue.get;
  delete = RoundRobinQueue.Dequeue.delete;
  update_priority = RoundRobinQueue.update_priority;
  len = RoundRobinQueue.len;
  update_weights = RoundRobinQueue.update_weights;
  mark_unacked = RoundRobinQueue.mark_unacked;
  peek_ready = λ q now. some (RoundRobinQueue.peek_ready q, pos 0);
}
