-- ===== src/Memory/PriorityQueue/Edit.antt =====
-- pkg/queue/memory/priority_memory_queue.go: Get, Delete and UpdatePriority by id.
use mathlib.Core.List.Perm
use doq.Common.{
  ℕ, ◌<◌, ◌≡◌, ◌≢◌, refl, sym, ◌∙◌, Option, none, some, arith, ◌==◌, ◌>>=◌, length, set, Returns,
  returns, Returns-map, Returns-bind, Bool-cases, Option-cases, ◌⊎◌, inl, inr,
}
use mathlib.Core.Path.{fun_ext}
use doq.Common.Int.{ℤ}
use doq.Memory.PriorityQueue.{
  Item, PriorityQueue, unstore, heap_fix, get, delete, update_priority, write_priority, assert_item,
}
use doq.Memory.PriorityQueue.Slice.{at, get_elem?-at, length-set, at-set}
use doq.Memory.PriorityQueue.Order.{Le-trans}
use doq.Memory.PriorityQueue.Index.{parent}
use doq.Memory.PriorityQueue.Down.{down_or_up_restores}
use doq.Memory.PriorityQueue.Laws.{Takes, heap_remove_lem}
use doq.Memory.PriorityQueue.Valid.{IsValid, Holds, Kin-Holds}

-- Get returns the item with the id, and nil exactly for an id that no item has.
pub get_lem :
    (pq : PriorityQueue) (id : ℕ)
    → IsValid pq
    → Returns
        (λ r.
          ((r ≡ none) × ((i : ℕ) → i < length pq.items → (at pq.items i).id ≢ id))
          ⊎ ((i : ℕ) × (i < length pq.items)
              × ((at pq.items i).id ≡ id)
              × (r ≡ some (at pq.items i))))
        (get pq id)
unfolding get
get_lem pq id v = elim (Option-cases (pq.id_to_index id)) [
  | inl e ↦ rw (e, get) (returns (inl (refl, λ i h q. cc (v.indexed.at_index i h, q))))
  | inr (i, e) ↦
      let (inside, named) = v.indexed.index_at id i e in
      rw (e, get, get_elem?-at pq.items i inside) (returns (inr (i, inside, named, refl)))
]

module _ (pq : PriorityQueue) (id i : ℕ) (v : IsValid pq) (known : pq.id_to_index id ≡ some i) where
  inside : i < length pq.items
  inside = (v.indexed.index_at id i known).0

  named : (at pq.items i).id ≡ id
  named = (v.indexed.index_at id i known).1

  unstore_gone : (m : ℕ → Option ℕ) → m id ≡ none → (j : ℕ) → unstore m id j ≡ m j
  unstore_gone m e j = elim (Bool-cases (j == id)) [
    | inl same ↦ let p : j ≡ id = ground arith in rw same (rw p (sym e))
    | inr other ↦ rw other
  ]

  drop_again :
      (r : Option Item × PriorityQueue)
      → Takes pq (at pq.items i) r
      → Returns (Takes pq (at pq.items i)) (
          assert_item r >>= λ s.
          some (some s.0, record s.1 { id_to_index = unstore s.1.id_to_index id }))
  drop_again (none, q) t = cc (t.result)
  drop_again (some x, q) t =
      let same = unstore_gone q.id_to_index (rw named at t.gone) in
      returns (record {
        result = t.result;
        valid = record { heap = t.valid.heap; indexed = rw (← fun_ext same) at t.valid.indexed };
        mode = t.mode;
        split = t.split;
        gone = same (at pq.items i).id ∙ t.gone;
      })

  -- Deleting a known id returns its item and a valid queue of the other items.
  pub delete_lem : Returns (Takes pq (at pq.items i)) (delete pq id)
  unfolding delete
  delete_lem = rw (known, delete) (Returns-bind (heap_remove_lem pq v i inside) drop_again)

  -- Updating the priority of a known id returns a valid queue in which only that priority differs.
  pub update_priority_lem :
      (priority : ℤ)
      → Returns
          (Holds pq (set pq.items i (record (at pq.items i) { priority = priority })))
          (update_priority pq id priority)
  unfolding update_priority write_priority heap_fix
  update_priority_lem priority =
      let x = record (at pq.items i) { priority = priority } in
      let a = set pq.items i x in
      let size = length-set pq.items i x in
      let here = λ (j : ℕ). at-set pq.items i j x inside in
      let p = record pq { items = a } in
      rw (known, update_priority, get_elem?-at pq.items i inside)
        (Returns-map
          (down_or_up_restores (length a) p i (omega arith) (omega (arith, size, inside))
            (record {
              at_index = λ j h. ground (
                arith,
                here j,
                v.indexed.at_index j (omega (arith, size)),
                v.indexed.at_index i inside,
              );
              index_at = λ k j h. ground (arith, here j, size, v.indexed.index_at k j);
            })
            (record {
              edges = λ c q r s t. ground (arith, here c, here (parent c), size, v.heap c);
              bridged = λ c q r s t. ground (
                arith,
                here c,
                here (parent i),
                size,
                v.heap c,
                v.heap i,
                Le-trans pq.min_first (at pq.items (parent i)) (at pq.items i) (at pq.items c),
              );
              above = λ q r. absurd (q refl);
            }))
          λ q t. Kin-Holds (length a) refl (Perm.refl _) refl t.0 t.1)

-- An unknown id is left alone by both.
pub delete-unknown :
    (pq : PriorityQueue) (id : ℕ) → pq.id_to_index id ≡ none → delete pq id ≡ some (none, pq)
unfolding delete
delete-unknown pq id e = rw (e, delete)

pub update_priority-unknown :
    (pq : PriorityQueue) (id : ℕ) (priority : ℤ)
    → pq.id_to_index id ≡ none
    → update_priority pq id priority ≡ some pq
unfolding update_priority
update_priority-unknown pq id priority e = rw (e, update_priority)
