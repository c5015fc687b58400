-- ===== src/Memory/PriorityQueue/Index.antt =====
-- pkg/queue/memory/priority_memory_queue.go: the index map knows where each id is, and Swap keeps it.
use mathlib.Core.List.{Perm}
use mathlib.Core.List.Perm
use doq.Common.{
  ℕ, ◌-◌, ◌/◌, ◌≤◌, ◌<◌, ◌≡◌, refl, ◌∙◌, Bool, true, List, Option, some, arith, ltb, length,
}
use doq.Memory.PriorityQueue.{Item, PriorityQueue, store, swap, less, item_less}
use doq.Memory.PriorityQueue.Slice.{
  at, get_elem?-at, exchange, length-exchange, at-exchange, exchange-perm,
}
use doq.Memory.PriorityQueue.Order.{Le}

-- The map holds the index of every item under its id, and nothing else. So ids do not repeat.
pub record IsIndexed (a : List Item) (index : ℕ → Option ℕ) : Type 0 where
  pub at_index : (i : ℕ) → i < length a → index (at a i).id ≡ some i
  pub index_at : (id i : ℕ) → index id ≡ some i → (i < length a) × ((at a i).id ≡ id)

abbrev pub swapped : PriorityQueue → ℕ → ℕ → PriorityQueue
swapped pq i j = record pq {
  items = exchange pq.items i j;
  id_to_index = store (store pq.id_to_index (at pq.items j).id i) (at pq.items i).id j;
}

pub less-at :
    (pq : PriorityQueue) (i j : ℕ)
    → i < length pq.items
    → j < length pq.items
    → less pq i j ≡ some (item_less pq.min_first (at pq.items i) (at pq.items j))
unfolding less
less-at pq i j hi hj = rw (get_elem?-at pq.items i hi, get_elem?-at pq.items j hj)

module _ (pq : PriorityQueue) (i j : ℕ) (hi : i < length pq.items) (hj : j < length pq.items) where
  pub swap-swapped : swap pq i j ≡ some (swapped pq i j)
  unfolding swap exchange
  swap-swapped =
      let some_items : ltb 0 (length pq.items) ≡ true = ground arith in
      rw (some_items, get_elem?-at pq.items i hi, get_elem?-at pq.items j hj)

  pub swapped-IsIndexed :
      IsIndexed pq.items pq.id_to_index
      → IsIndexed (swapped pq i j).items (swapped pq i j).id_to_index
  swapped-IsIndexed v = record {
    at_index = λ c h.
        let inside : c < length pq.items = omega (arith, length-exchange pq.items i j) in
        ground (
          arith,
          at-exchange pq.items i j hi hj c,
          v.at_index c inside,
          v.at_index i hi,
          v.at_index j hj,
        );
    index_at = λ id k h. ground (
      arith,
      at-exchange pq.items i j hi hj k,
      length-exchange pq.items i j,
      v.index_at id k,
      v.at_index i hi,
      v.at_index j hj,
    );
  }

-- `q` has the items of `p` in another order below the index `n`, and a right index map.
pub record Kin (n : ℕ) (p q : PriorityQueue) : Type 0 where
  pub mode : q.min_first ≡ p.min_first
  pub len : length q.items ≡ length p.items
  pub perm : Perm q.items p.items
  pub beyond : (k : ℕ) → n ≤ k → at q.items k ≡ at p.items k
  pub indexed : IsIndexed q.items q.id_to_index

pub Kin-refl : (n : ℕ) (p : PriorityQueue) → IsIndexed p.items p.id_to_index → Kin n p p
Kin-refl n p v = record {
  mode = refl;
  len = refl;
  perm = Perm.refl _;
  beyond = λ k h. refl;
  indexed = v;
}

pub Kin-trans : {n : ℕ} {p q r : PriorityQueue} → Kin n p q → Kin n q r → Kin n p r
Kin-trans f g = record {
  mode = g.mode ∙ f.mode;
  len = g.len ∙ f.len;
  perm = Perm.trans g.perm f.perm;
  beyond = λ k h. g.beyond k h ∙ f.beyond k h;
  indexed = g.indexed;
}

pub swapped-Kin :
    (n : ℕ) (pq : PriorityQueue) (i j : ℕ)
    → n ≤ length pq.items
    → i < n
    → j < n
    → IsIndexed pq.items pq.id_to_index
    → Kin n pq (swapped pq i j)
swapped-Kin n pq i j len hi hj v =
    let hi' : i < length pq.items = omega arith in
    let hj' : j < length pq.items = omega arith in
    record {
      mode = refl;
      len = length-exchange pq.items i j;
      perm = exchange-perm pq.items i j hi' hj';
      beyond = λ k h. ground (arith, at-exchange pq.items i j hi' hj' k);
      indexed = swapped-IsIndexed pq i j hi' hj' v;
    }

abbrev pub parent : ℕ → ℕ
parent c = (c - 1) / 2

-- The first `n` items are a heap: no item stands before its parent.
abbrev pub IsHeap : Bool → ℕ → List Item → Type 0
IsHeap m n a = (c : ℕ) → 0 < c → c < n → Le m (at a (parent c)) (at a c)

-- From the parent of `i` to its children the order holds.
abbrev pub IsBridged : Bool → ℕ → List Item → ℕ → Type 0
IsBridged m n a i = (c : ℕ) → 0 < c → c < n → parent c ≡ i → 0 < i → Le m (at a (parent i)) (at a c)
