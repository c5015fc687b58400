-- ===== src/Memory/PriorityQueue/Down.antt =====
-- container/heap's down: an item that is too high in the heap sinks to its place.
use doq.Common.{
  ℕ, zero, suc, ◌+◌, ◌*◌, ◌≤◌, ◌<◌, ◌≡◌, ◌≢◌, ◌⊎◌, inl, inr, refl, Bool, true, false, List, some,
  arith, ◌==◌, leb, ltb, if◌then◌else◌, length, Returns, returns, Returns-map, Returns-if,
  Returns-bind, Bool-cases,
}
use doq.Memory.PriorityQueue.{
  Item, PriorityQueue, item_less, smaller_child, down_loop, down, down_or_up, up,
}
use doq.Memory.PriorityQueue.Slice.{at, exchange, at-exchange}
use doq.Memory.PriorityQueue.Order.{Le, item_less_irrefl, item_less_asymm, Le-trans}
use doq.Memory.PriorityQueue.Index.{
  IsIndexed, swapped, less-at, swap-swapped, Kin, Kin-refl, Kin-trans, swapped-Kin, parent, IsHeap,
  IsBridged,
}
use doq.Memory.PriorityQueue.Up.{UpInv, up_restores}

-- Only the edges at `i` may be out of order, the one above it not if it has moved from `i0`.
pub record DownInv (m : Bool) (n : ℕ) (a : List Item) (i0 i : ℕ) : Type 0 where
  pub edges : (c : ℕ) → 0 < c → c < n → c ≢ i → parent c ≢ i → Le m (at a (parent c)) (at a c)
  pub bridged : IsBridged m n a i
  pub above : i ≢ i0 → 0 < i → Le m (at a (parent i)) (at a i)

-- `j` is a child of `i` that no other child stands before.
record IsSmallerChild (m : Bool) (n : ℕ) (a : List Item) (i j : ℕ) : Type 0 where
  inside : j < n
  child : (j ≡ 2 * i + 1) ⊎ (j ≡ 2 * i + 2)
  least : (c : ℕ) → 0 < c → c < n → parent c ≡ i → Le m (at a j) (at a c)

least_of :
    (m : Bool) (n : ℕ) (a : List Item) (i j k : ℕ)
    → Le m (at a j) (at a (2 * i + 1))
    → (k ≡ 2 * i + 2 → k < n → Le m (at a j) (at a k))
    → (c : ℕ) → c ≡ k
    → 0 < c
    → c < n
    → parent c ≡ i
    → Le m (at a j) (at a c)
least_of m n a i j k l r c e p q s = elim (Bool-cases (c == 2 * i + 1)) [
  | inl left ↦ let e' : c ≡ 2 * i + 1 = ground arith in rw e' l
  | inr right ↦ rw e (r (ground arith) (omega arith))
]

smaller_child-IsSmallerChild :
    (n : ℕ) (pq : PriorityQueue) (i : ℕ)
    → n ≤ length pq.items
    → 2 * i + 1 < n
    → Returns (IsSmallerChild pq.min_first n pq.items i) (smaller_child pq (2 * i + 1) n)
unfolding smaller_child
smaller_child-IsSmallerChild n pq i len h =
    let m = pq.min_first in
    let a = pq.items in
    let l = 2 * i + 1 in
    Returns-if (ltb (l + 1) n)
      (λ both.
        rw (less-at pq (l + 1) l (ground arith) (omega arith))
          (elim (Bool-cases (item_less m (at a (l + 1)) (at a l))) [
            | inl right ↦ rw right (
                returns (record {
                  inside = ground arith;
                  child = inr (omega arith);
                  least = λ c p q r.
                      least_of m n a i (l + 1) c (item_less_asymm m (at a (l + 1)) (at a l) right)
                        (λ e _.
                          let e' : c ≡ l + 1 = omega arith in
                          rw e' (item_less_irrefl m (at a (l + 1))))
                        c refl p q r;
                }))
            | inr left ↦ rw left (
                returns (record {
                  inside = ground arith;
                  child = inl refl;
                  least = λ c p q r.
                      least_of m n a i l c (item_less_irrefl m (at a l))
                        (λ e _. let e' : c ≡ l + 1 = omega arith in rw e' left) c refl p q r;
                }))
          ]))
      (λ one. returns (record {
        inside = h;
        child = inl refl;
        least = λ c p q r.
            least_of m n a i l c (item_less_irrefl m (at a l)) (λ e b. absurd (ground arith)) c refl
              p q r;
      }))

exchange-DownInv :
    (m : Bool) (n : ℕ) (a : List Item) (i0 i j : ℕ)
    → n ≤ length a
    → DownInv m n a i0 i
    → IsSmallerChild m n a i j
    → item_less m (at a j) (at a i) ≡ true
    → DownInv m n (exchange a i j) i0 j
exchange-DownInv m n a i0 i j len v s below =
    let here = at-exchange a i j (omega arith) (omega arith) in
    let turned = item_less_asymm m (at a j) (at a i) below in
    record {
      edges =
          λ c p q r t. ground (arith, here c, here (parent c), v.edges c, v.bridged j, s.least c);
      bridged = λ c p q r t. ground (arith, here c, here (parent j), v.edges c);
      above = λ ne p. ground (arith, here j, here (parent j), turned);
    }

-- Where the loop stops: it has not moved and only the edge above is open, or all is in order.
abbrev pub Settled : ℕ → ℕ → PriorityQueue × ℕ → Type 0
Settled n i0 r =
    ((r.1 ≡ i0) × UpInv r.0.min_first n r.0.items i0)
    ⊎ ((i0 < r.1) × IsHeap r.0.min_first n r.0.items)

settle :
    (n : ℕ) (pq : PriorityQueue) (i0 i : ℕ)
    → i0 ≤ i
    → DownInv pq.min_first n pq.items i0 i
    → ((c : ℕ) → 0 < c → c < n → parent c ≡ i → Le pq.min_first (at pq.items i) (at pq.items c))
    → Settled n i0 (pq, i)
settle n pq i0 i le v below = elim (Bool-cases (i == i0)) [
  | inl still ↦
      let e : i ≡ i0 = ground arith in
      inl (
        e,
        record {
          edges = λ c p q r. ground (arith, v.edges c, below c);
          bridged = rw e at v.bridged;
        },
      )
  | inr moved ↦ inr (ground arith, λ c p q. ground (arith, v.edges c, below c, v.above))
]

down_loop_restores :
    (fuel n : ℕ) (pq : PriorityQueue) (i0 i : ℕ)
    → n < fuel + i
    → i ≤ n
    → n ≤ length pq.items
    → i0 ≤ i
    → IsIndexed pq.items pq.id_to_index
    → DownInv pq.min_first n pq.items i0 i
    → Returns (λ r. Kin n pq r.0 × Settled n i0 r) (down_loop fuel pq i n)
unfolding down_loop
down_loop_restores zero n pq i0 i f hn len le ix v = absurd (omega arith)
down_loop_restores (suc fuel) n pq i0 i f hn len le ix v =
    let m = pq.min_first in
    Returns-if (leb n (2 * i + 1))
      (λ none_below.
        returns (Kin-refl n pq ix, settle n pq i0 i le v (λ c p q r. absurd (ground arith))))
      (λ some_below. Returns-bind (smaller_child-IsSmallerChild n pq i len (ground arith)) λ j s.
        let hj : j < length pq.items = omega (arith, s.inside) in
        let hi : i < length pq.items = omega (arith, s.inside, s.child) in
        rw (less-at pq j i hj hi) (
          Returns-if (item_less m (at pq.items j) (at pq.items i))
            (λ below. rw (swap-swapped pq i j hi hj) (
              let kin = swapped-Kin n pq i j len (omega (arith, s.inside, s.child)) s.inside ix in
              Returns-map
                (down_loop_restores fuel n (swapped pq i j) i0 j (omega (arith, s.child))
                  (omega (arith, s.inside)) (omega (arith, kin.len)) (omega (arith, s.child))
                  kin.indexed (exchange-DownInv m n pq.items i0 i j len v s below))
                λ q t. (Kin-trans kin t.0, t.1)))
            (λ settled. returns (
              Kin-refl n pq ix,
              settle n pq i0 i le v (λ c p q r.
                  Le-trans m (at pq.items i) (at pq.items j) (at pq.items c) settled
                    (s.least c p q r)),
            ))))

-- `down` reports whether the item has moved: if so there is a heap, if not only the edge above it
-- is open.
abbrev pub Sunk : ℕ → ℕ → PriorityQueue → PriorityQueue × Bool → Type 0
Sunk n i0 pq s =
    Kin n pq s.0
    × (((s.1 ≡ false) × UpInv s.0.min_first n s.0.items i0)
        ⊎ ((s.1 ≡ true) × IsHeap s.0.min_first n s.0.items))

sunk :
    (n i0 : ℕ) (pq : PriorityQueue) (r : PriorityQueue × ℕ)
    → Kin n pq r.0
    → Settled n i0 r
    → Sunk n i0 pq (r.0, ltb i0 r.1)
sunk n i0 pq r k (inl (e, u)) = (k, inl (ground arith, u))
sunk n i0 pq r k (inr (lt, h)) = (k, inr (ground arith, h))

pub down_restores :
    (n : ℕ) (pq : PriorityQueue) (i : ℕ)
    → n ≤ length pq.items
    → i ≤ n
    → IsIndexed pq.items pq.id_to_index
    → DownInv pq.min_first n pq.items i i
    → Returns (Sunk n i pq) (down pq i n)
unfolding down
down_restores n pq i len hi ix v =
    Returns-bind (down_loop_restores (suc n) n pq i i (omega arith) hi len (omega arith) ix v)
      λ r t. returns (sunk n i pq r t.0 t.1)

-- `down` then, if nothing moved, `up` returns a heap of the same items, whatever the item at `i` is.
pub down_or_up_restores :
    (n : ℕ) (pq : PriorityQueue) (i : ℕ)
    → n ≤ length pq.items
    → i < n
    → IsIndexed pq.items pq.id_to_index
    → DownInv pq.min_first n pq.items i i
    → Returns (λ q. Kin n pq q × IsHeap q.min_first n q.items) (down_or_up pq i n)
unfolding down_or_up
down_or_up_restores n pq i len hi ix v =
    Returns-bind (down_restores n pq i len (omega arith) ix v) λ s t. finish s t.0 t.1
  where
    finish :
        (s : PriorityQueue × Bool)
        → Kin n pq s.0
        → ((s.1 ≡ false) × UpInv s.0.min_first n s.0.items i)
          ⊎ ((s.1 ≡ true) × IsHeap s.0.min_first n s.0.items)
        → Returns
            (λ q. Kin n pq q × IsHeap q.min_first n q.items)
            (if s.1 then some s.0 else up s.0 i)
    finish s k (inl (e, u)) = rw e (
        Returns-map (up_restores n s.0 i (omega (arith, k.len)) hi k.indexed u)
          λ q t. (Kin-trans k t.0, t.1))
    finish s k (inr (e, h)) = rw e (returns (k, h))
