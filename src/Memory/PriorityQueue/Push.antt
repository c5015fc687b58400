-- ===== src/Memory/PriorityQueue/Push.antt =====
-- pkg/queue/memory/priority_memory_queue.go: Push through container/heap.
use doq.Common.{
  ◌+◌, ◌-◌, ◌≡◌, inl, inr, refl, [], ◌∷◌, ◌++◌, none, arith, ◌==◌, ltb, length, Returns,
  Returns-map, Bool-cases, length-append,
}
use doq.Memory.PriorityQueue.{Item, PriorityQueue, push, heap_push}
use doq.Memory.PriorityQueue.Slice.{at-append_left, at-append_last, append-perm}
use doq.Memory.PriorityQueue.Index.{IsIndexed, parent}
use doq.Memory.PriorityQueue.Up.{up_restores}
use doq.Memory.PriorityQueue.Valid.{IsValid, Holds, Kin-Holds}

module _ (pq : PriorityQueue) (item : Item) (v : IsValid pq)
    (fresh : pq.id_to_index item.id ≡ none) where
  grown : length (pq.items ++ (item ∷ [])) ≡ length pq.items + 1
  grown = length-append pq.items (item ∷ [])

  push-IsIndexed : IsIndexed (push pq item).items (push pq item).id_to_index
  push-IsIndexed = record {
    at_index = λ i h. elim (Bool-cases (ltb i (length pq.items))) [
      | inl old ↦ ground (arith, at-append_left pq.items (item ∷ []) i, v.indexed.at_index i)
      | inr new ↦ ground (arith, grown, at-append_last pq.items item i)
    ];
    index_at = λ id i h. elim (Bool-cases (item.id == id)) [
      | inl same ↦ ground (arith, grown, at-append_last pq.items item i)
      | inr other ↦
          ground (arith, grown, at-append_left pq.items (item ∷ []) i, v.indexed.index_at id i)
    ];
  }

  -- Pushing an item with an id that the queue does not hold returns a valid queue with it.
  pub heap_push_lem : Returns (Holds pq (item ∷ pq.items)) (heap_push pq item)
  unfolding heap_push
  heap_push_lem =
      let a = pq.items ++ (item ∷ []) in
      let n = length a in
      Returns-map
        (up_restores n (push pq item) (n - 1) (omega arith) (omega (arith, grown)) push-IsIndexed
          (record {
            edges = λ c p q r. ground (
              arith,
              grown,
              v.heap c,
              at-append_left pq.items (item ∷ []) c,
              at-append_left pq.items (item ∷ []) (parent c),
            );
            bridged = λ c p q r. absurd (omega (arith, grown));
          }))
        λ q t. Kin-Holds n refl (append-perm pq.items item) refl t.0 t.1
