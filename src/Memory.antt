-- ===== src/Memory.antt =====
-- pkg/queue/memory: the in-memory queues.
pub mod PriorityQueue
pub mod DelayedQueue
pub mod WeightedQueue
pub mod RoundRobinQueue
pub mod Interface
pub mod Tests
