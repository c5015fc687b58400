-- ===== src/Memory/PriorityQueue/Valid.antt =====
-- pkg/queue/memory/priority_memory_queue.go: the invariant of the queue.
use mathlib.Core.List.{Perm}
use mathlib.Core.List.Perm
use doq.Common.{ℕ, zero, suc, ◌<◌, ◌≡◌, ◌∙◌, Bool, List, arith, length}
use doq.Memory.PriorityQueue.{Item, PriorityQueue, new_priority_queue}
use doq.Memory.PriorityQueue.Slice.{at}
use doq.Memory.PriorityQueue.Order.{Le, item_less_irrefl, Le-trans}
use doq.Memory.PriorityQueue.Index.{IsIndexed, Kin, parent, IsHeap}

-- The items are a heap, and the map has the index of each.
pub record IsValid (pq : PriorityQueue) : Type 0 where
  pub heap : IsHeap pq.min_first (length pq.items) pq.items
  pub indexed : IsIndexed pq.items pq.id_to_index

pub new_queue-IsValid : (m : Bool) → IsValid (new_priority_queue m)
new_queue-IsValid m = record {
  heap = λ c p q. absurd (omega arith);
  indexed = record { at_index = λ i p. absurd (omega arith); index_at = λ id i p. cc };
}

root_least_below :
    (m : Bool) (k : ℕ) (a : List Item) (i : ℕ)
    → IsHeap m (length a) a
    → i < k
    → i < length a
    → Le m (at a 0) (at a i)
root_least_below m zero a i h f p = absurd (omega arith)
root_least_below m (suc k) a zero h f p = item_less_irrefl m (at a 0)
root_least_below m (suc k) a (suc i) h f p =
    Le-trans m (at a 0) (at a (parent (suc i))) (at a (suc i))
      (root_least_below m k a (parent (suc i)) h (omega arith) (omega arith))
      (h (suc i) (omega arith) p)

-- No item of a valid queue stands before its first.
pub root_least :
    (pq : PriorityQueue) (i : ℕ)
    → IsValid pq
    → i < length pq.items
    → Le pq.min_first (at pq.items 0) (at pq.items i)
root_least pq i v h = root_least_below pq.min_first (suc i) pq.items i v.heap (omega arith) h

-- `q` is a valid queue of the items `a`, with the order of `pq`.
pub record Holds (pq : PriorityQueue) (a : List Item) (q : PriorityQueue) : Type 0 where
  pub valid : IsValid q
  pub mode : q.min_first ≡ pq.min_first
  pub contents : Perm q.items a

pub Kin-Holds :
    {pq p q : PriorityQueue} {a : List Item} (n : ℕ)
    → p.min_first ≡ pq.min_first
    → Perm p.items a
    → n ≡ length p.items
    → Kin n p q
    → IsHeap q.min_first n q.items
    → Holds pq a q
Kin-Holds {q} n e c len k h = record {
  valid = record { heap = λ i p r. h i p (omega (arith, k.len)); indexed = k.indexed };
  mode = k.mode ∙ e;
  contents = Perm.trans k.perm c;
}
