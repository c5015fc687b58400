-- ===== src/Memory/PriorityQueue/Laws.antt =====
-- pkg/queue/memory/priority_memory_queue.go: Pop and Remove through container/heap.
use mathlib.Core.List.{Perm}
use mathlib.Core.List.Perm
use doq.Common.{
  ℕ, zero, suc, ◌-◌, ◌<◌, ◌≡◌, ◌≢◌, ◌⊎◌, inl, inr, refl, ap, ◌∙◌, Bool, true, false, ◌∷◌, Option,
  none, some, arith, ◌==◌, ltb, length, take, Returns, returns, Returns-map, Returns-bind,
  Bool-cases,
}
use doq.Memory.PriorityQueue.{
  Item, PriorityQueue, unstore, pop_last, heap_pop, heap_remove, down_loop, down, swap,
}
use doq.Memory.PriorityQueue.Slice.{
  at, get_elem?-at, length-take, at-take, take-perm, at-exchange, length-exchange, exchange-perm,
}
use doq.Memory.PriorityQueue.Order.{Le, Le-trans}
use doq.Memory.PriorityQueue.Index.{
  IsIndexed, swapped, swap-swapped, swapped-IsIndexed, Kin, Kin-refl, parent, IsHeap,
}
use doq.Memory.PriorityQueue.Up.{UpInv}
use doq.Memory.PriorityQueue.Down.{down_restores, down_or_up_restores}
use doq.Memory.PriorityQueue.Valid.{IsValid, root_least}

-- `r` is the item `x`, and a valid queue of the other items of `pq`.
pub record Takes (pq : PriorityQueue) (x : Item) (r : Option Item × PriorityQueue) : Type 0 where
  pub result : r.0 ≡ some x
  pub valid : IsValid r.1
  pub mode : r.1.min_first ≡ pq.min_first
  pub split : Perm (x ∷ r.1.items) pq.items
  pub gone : r.1.id_to_index x.id ≡ none

take-IsIndexed :
    (pq : PriorityQueue) (n : ℕ)
    → length pq.items ≡ suc n
    → IsIndexed pq.items pq.id_to_index
    → IsIndexed (take n pq.items) (unstore pq.id_to_index (at pq.items n).id)
take-IsIndexed pq n e v = record {
  at_index = λ i h.
      let size = length-take n pq.items (omega arith) in
      let hi : i < n = omega arith in
      ground
        (arith, at-take n pq.items i hi, v.at_index i (omega arith), v.at_index n (omega arith));
  index_at = λ id i h. elim (Bool-cases ((at pq.items n).id == id)) [
    | inl same ↦ ground arith
    | inr other ↦
        let (inside, named) = v.index_at id i (ground arith) in
        let ne : i ≢ n = λ q. ground arith in
        let hi : i < n = omega arith in
        (omega (arith, length-take n pq.items), ap (λ x. x.id) (at-take n pq.items i hi) ∙ named)
  ];
}

take-IsHeap :
    (pq : PriorityQueue) (n : ℕ)
    → length pq.items ≡ suc n
    → IsHeap pq.min_first n pq.items
    → IsHeap pq.min_first (length (take n pq.items)) (take n pq.items)
take-IsHeap pq n e h c p q =
    let inside : c < n = omega (arith, length-take n pq.items) in
    ground (arith, at-take n pq.items c inside, at-take n pq.items (parent c) (omega arith), h c)

pop_last-Takes :
    (pq : PriorityQueue) (n : ℕ)
    → length pq.items ≡ suc n
    → IsIndexed pq.items pq.id_to_index
    → IsHeap pq.min_first n pq.items
    → Returns (Takes pq (at pq.items n)) (pop_last pq)
unfolding pop_last
pop_last-Takes pq zero e v h =
    let some_items : (length pq.items == 0) ≡ false = ground arith in
    let last : length pq.items - 1 ≡ 0 = omega arith in
    rw (some_items, last, get_elem?-at pq.items 0 (omega arith))
      (returns (record {
        result = refl;
        valid = record {
          heap = λ c p q. absurd (omega arith);
          indexed = record { at_index = λ i p. absurd (omega arith); index_at = λ id i p. cc };
        };
        mode = refl;
        split = take-perm 0 pq.items e;
        gone = refl;
      }))
pop_last-Takes pq (suc n) e v h =
    let size = length-take (suc n) pq.items (omega arith) in
    let some_items : (length pq.items == 0) ≡ false = ground arith in
    let last : length pq.items - 1 ≡ suc n = omega arith in
    let rest : (length (take (suc n) pq.items) == 0) ≡ false = ground arith in
    rw (some_items, last, get_elem?-at pq.items (suc n) (omega arith), rest)
      (returns (record {
        result = refl;
        valid = record {
          heap = take-IsHeap pq (suc n) e h;
          indexed = take-IsIndexed pq (suc n) e v;
        };
        mode = refl;
        split = take-perm (suc n) pq.items e;
        gone = ground arith;
      }))

-- A queue that is a valid heap but for its last item, which is `x`, and has the items of `pq`.
Kin-Takes :
    (n : ℕ) (pq p q : PriorityQueue) (x : Item)
    → p.min_first ≡ pq.min_first
    → Perm p.items pq.items
    → length p.items ≡ suc n
    → at p.items n ≡ x
    → Kin n p q
    → IsHeap q.min_first n q.items
    → Returns (Takes pq x) (pop_last q)
Kin-Takes n pq p q x e c len top k h =
    let last = k.beyond n (omega arith) ∙ top in
    Returns-map (pop_last-Takes q n (omega (arith, k.len)) k.indexed h) λ r t. record {
      result = t.result ∙ ap some last;
      valid = t.valid;
      mode = t.mode ∙ k.mode ∙ e;
      split = Perm.trans (rw last at t.split) (Perm.trans k.perm c);
      gone = rw last at t.gone;
    }

module _ (pq : PriorityQueue) (v : IsValid pq) where
  -- Popping the first item, without its place among the others.
  pub heap_pop-Takes : 0 < length pq.items → Returns (Takes pq (at pq.items 0)) (heap_pop pq)
  unfolding heap_pop
  heap_pop-Takes h =
      let n = length pq.items - 1 in
      let here = at-exchange pq.items 0 n (omega arith) (omega arith) in
      let size = length-exchange pq.items 0 n in
      let p = swapped pq 0 n in
      rw (swap-swapped pq 0 n (omega arith) (omega arith)) (
        Returns-bind
          (down_restores n p 0 (omega (arith, size)) (omega arith)
            (swapped-IsIndexed pq 0 n (omega arith) (omega arith) v.indexed)
            (record {
              edges = λ c q r s t. ground (arith, here c, here (parent c), v.heap c);
              bridged = λ c q r s t. absurd (omega arith);
              above = λ q r. absurd (omega arith);
            }))
          λ s t.
            Kin-Takes n pq p s.0 (at pq.items 0) refl
              (exchange-perm pq.items 0 n (omega arith) (omega arith)) (omega (arith, size))
              (ground (arith, here n)) t.0 (whole s t.1))
    where
      whole :
          (s : PriorityQueue × Bool)
          → ((s.1 ≡ false) × UpInv s.0.min_first (length pq.items - 1) s.0.items 0)
            ⊎ ((s.1 ≡ true) × IsHeap s.0.min_first (length pq.items - 1) s.0.items)
          → IsHeap s.0.min_first (length pq.items - 1) s.0.items
      whole s (inl (e, u)) = λ c q r. u.edges c q r (omega arith)
      whole s (inr (e, g)) = g

  -- Pop of a queue with items returns the first, which no item of the queue stands before, and leaves a
  -- valid queue of the others, that serves in the same order and does not know the id of the item any more.
  pub heap_pop_lem :
      0 < length pq.items
      → Returns
          (λ r.
            Takes pq (at pq.items 0) r
            × ((i : ℕ) → i < length pq.items → Le pq.min_first (at pq.items 0) (at pq.items i)))
          (heap_pop pq)
  heap_pop_lem h = Returns-map (heap_pop-Takes h) λ r t. (t, λ i p. root_least pq i v p)

  -- Popping the empty queue finds nothing.
  pub heap_pop-empty : length pq.items ≡ 0 → heap_pop pq ≡ some (none, pq)
  unfolding heap_pop swap down down_loop pop_last
  heap_pop-empty h =
      let none_here : (ltb 0 (length pq.items)) ≡ false = ground arith in
      let z : (length pq.items == 0) ≡ true = ground arith in
      let n : length pq.items - 1 ≡ 0 = omega arith in rw (none_here, n, z)

  -- Removing index `i` returns its item and a valid queue of the rest.
  pub heap_remove_lem :
      (i : ℕ) → i < length pq.items → Returns (Takes pq (at pq.items i)) (heap_remove pq i)
  unfolding heap_remove
  heap_remove_lem i hi =
      let n = length pq.items - 1 in
      elim (Bool-cases (n == i)) [
        | inl last ↦
            let e : n ≡ i = ground arith in
            rw last (
              Kin-Takes n pq pq pq (at pq.items i) refl (Perm.refl _) (omega arith)
                (ap (at pq.items) e) (Kin-refl n pq v.indexed) (λ c p q. v.heap c p (omega arith)))
        | inr inner ↦
            let ne : n ≢ i = λ q. ground arith in
            let hn : n < length pq.items = omega arith in
            let here = at-exchange pq.items i n hi hn in
            let size = length-exchange pq.items i n in
            let p = swapped pq i n in
            rw (inner, swap-swapped pq i n hi hn)
              (Returns-bind
                (down_or_up_restores n p i (omega (arith, size)) (omega arith)
                  (swapped-IsIndexed pq i n hi hn v.indexed)
                  (record {
                    edges = λ c q r s t. ground (arith, here c, here (parent c), v.heap c);
                    bridged = λ c q r s t. ground (
                      arith,
                      here c,
                      here (parent i),
                      v.heap c,
                      v.heap i,
                      Le-trans pq.min_first (at pq.items (parent i)) (at pq.items i)
                          (at pq.items c),
                    );
                    above = λ q r. absurd (q refl);
                  }))
                λ q t.
                  Kin-Takes n pq p q (at pq.items i) refl (exchange-perm pq.items i n hi hn)
                    (omega (arith, size)) (ground (arith, here n)) t.0 t.1)
      ]
