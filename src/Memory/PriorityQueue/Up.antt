-- ===== src/Memory/PriorityQueue/Up.antt =====
-- container/heap's up: an item that is too low in the heap rises to its place.
use doq.Common.{
  ℕ, zero, suc, ◌≤◌, ◌<◌, ◌≡◌, ◌≢◌, Bool, true, List, arith, ◌==◌, length, Returns, returns,
  Returns-map, Returns-if,
}
use doq.Memory.PriorityQueue.{Item, PriorityQueue, item_less, up_loop, up}
use doq.Memory.PriorityQueue.Slice.{at, exchange, at-exchange}
use doq.Memory.PriorityQueue.Order.{Le, item_less_asymm, Le-trans}
use doq.Memory.PriorityQueue.Index.{
  IsIndexed, swapped, less-at, swap-swapped, Kin, Kin-refl, Kin-trans, swapped-Kin, parent, IsHeap,
  IsBridged,
}

-- Only the edge above `i` may be out of order.
pub record UpInv (m : Bool) (n : ℕ) (a : List Item) (i : ℕ) : Type 0 where
  pub edges : (c : ℕ) → 0 < c → c < n → c ≢ i → Le m (at a (parent c)) (at a c)
  pub bridged : IsBridged m n a i

exchange-UpInv :
    (m : Bool) (n : ℕ) (a : List Item) (i : ℕ)
    → n ≤ length a
    → i < n
    → 0 < i
    → UpInv m n a i
    → item_less m (at a i) (at a (parent i)) ≡ true
    → UpInv m n (exchange a (parent i) i) (parent i)
exchange-UpInv m n a i len hi pos v below =
    let p = parent i in
    let here = at-exchange a p i (omega arith) (omega arith) in
    let turned = item_less_asymm m (at a i) (at a p) below in
    record {
      edges = λ c q r s. ground (
        arith,
        here c,
        here (parent c),
        turned,
        v.edges c,
        v.bridged c,
        Le-trans m (at a i) (at a p) (at a c),
      );
      bridged = λ c q r s t. ground (
        arith,
        here c,
        here (parent p),
        v.edges p,
        v.edges c,
        Le-trans m (at a (parent p)) (at a p) (at a c),
      );
    }

up_loop_restores :
    (fuel n : ℕ) (pq : PriorityQueue) (i : ℕ)
    → i < fuel
    → n ≤ length pq.items
    → i < n
    → IsIndexed pq.items pq.id_to_index
    → UpInv pq.min_first n pq.items i
    → Returns (λ q. Kin n pq q × IsHeap q.min_first n q.items) (up_loop fuel pq i)
unfolding up_loop
up_loop_restores zero n pq i f len hi ix v = absurd (omega arith)
up_loop_restores (suc fuel) n pq i f len hi ix v =
    let p = parent i in
    Returns-if (p == i) (λ root. returns (Kin-refl n pq ix, λ c q r. v.edges c q r (ground arith)))
      (λ inner. rw (less-at pq i p (omega arith) (omega arith)) (
        Returns-if (item_less pq.min_first (at pq.items i) (at pq.items p))
          (λ below. rw (swap-swapped pq p i (omega arith) (omega arith)) (
            let kin = swapped-Kin n pq p i len (omega arith) hi ix in
            Returns-map
              (up_loop_restores fuel n (swapped pq p i) p (ground arith) (omega (arith, kin.len))
                (omega arith) kin.indexed
                (exchange-UpInv pq.min_first n pq.items i len hi (ground arith) v below))
              λ q s. (Kin-trans kin s.0, s.1)))
          (λ settled. returns (Kin-refl n pq ix, λ c q r. ground (arith, v.edges c)))))

-- With only the edge above `i` out of order, `up` returns a heap of the same items.
pub up_restores :
    (n : ℕ) (pq : PriorityQueue) (i : ℕ)
    → n ≤ length pq.items
    → i < n
    → IsIndexed pq.items pq.id_to_index
    → UpInv pq.min_first n pq.items i
    → Returns (λ q. Kin n pq q × IsHeap q.min_first n q.items) (up pq i)
unfolding up
up_restores n pq i len hi ix v = up_loop_restores (suc i) n pq i (omega arith) len hi ix v
