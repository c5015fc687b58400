-- ===== src/Memory/WeightedQueue/Laws.antt =====
-- pkg/queue/memory/fair_weighted_queue.go: the invariant of the weighted queue, and what its
-- operations do to the messages of a group.
use doq.Common.{
  ℕ, ◌<◌, ◌≡◌, refl, ◌∙◌, Bool, true, false, Option, none, some, arith, ◌==◌, if◌then◌else◌, inl,
  inr, Returns, returns, Returns-bind, Bool-cases,
}
use doq.Common.Int.{ℤ}
use doq.Common.Text.{text_eq_refl, Text, text_eq, eq_of_text_eq, text_eq_symm_false}
use doq.Common.Dict
use doq.Common.Dict.{lookup-insert, lookup-remove}
use doq.Avl
use doq.Avl.Entries
use doq.Avl.Entries.{get-insert, get-delete}
use doq.Memory.PriorityQueue
use doq.Memory.PriorityQueue.{
  Item, PriorityQueue, size, heap_push, heap_pop, new_priority_queue, assert_item,
}
use doq.Memory.PriorityQueue.Valid.{Holds, root_least}
use doq.Memory.WeightedQueue.{
  Float64, WeightedQueue, unacked, drop_unacked, forget, calculate_weight, reweigh,
}

-- A group's queue is a valid heap that serves the least item first.
abbrev pub IsServing : PriorityQueue → Type 0
IsServing pq = PriorityQueue.Valid.IsValid pq × (pq.min_first ≡ true)

-- The weights are a valid tree; a group with weight has messages; each group's queue is in order;
-- a group with a counter has a queue.
pub record IsValid (q : WeightedQueue) : Type 0 where
  pub tree : Avl.Entries.IsValid q.weights
  pub heavy :
      (g : Text) (w : ℕ)
      → Avl.get q.weights g ≡ some w
      → 0 < w
      → (pq : PriorityQueue) × (Dict.lookup q.queues g ≡ some pq) × (0 < size pq)
  pub served : (g : Text) (pq : PriorityQueue) → Dict.lookup q.queues g ≡ some pq → IsServing pq
  pub counted :
      (g : Text) (n : ℤ)
      → q.unacked_by_group g ≡ some n
      → (pq : PriorityQueue) × (Dict.lookup q.queues g ≡ some pq)

-- The same while the weight of one group is out of date.
pub record IsNearly (group : Text) (q : WeightedQueue) : Type 0 where
  pub tree : Avl.Entries.IsValid q.weights
  pub heavy :
      (g : Text) (w : ℕ)
      → text_eq group g ≡ false
      → Avl.get q.weights g ≡ some w
      → 0 < w
      → (pq : PriorityQueue) × (Dict.lookup q.queues g ≡ some pq) × (0 < size pq)
  pub served : (g : Text) (pq : PriorityQueue) → Dict.lookup q.queues g ≡ some pq → IsServing pq
  pub counted :
      (g : Text) (n : ℤ)
      → text_eq group g ≡ false
      → q.unacked_by_group g ≡ some n
      → (pq : PriorityQueue) × (Dict.lookup q.queues g ≡ some pq)

-- `q'` differs from `q` in its weights only.
abbrev pub SameButWeights : WeightedQueue → WeightedQueue → Type 0
SameButWeights q q' =
    (q'.max_unacked ≡ q.max_unacked)
    × (q'.unacked_by_group ≡ q.unacked_by_group)
    × (q'.queues ≡ q.queues)

-- Reading a map after a write, at the key and elsewhere.
module _ {A : Type 0} (b : Bool) (x : Option A) {o : Option A} {u : A} where
  hit : (w : A) → o ≡ (if b then some w else x) → b ≡ true → o ≡ some u → w ≡ u
  hit w e h p = ground arith

  miss : (w : A) → o ≡ (if b then some w else x) → b ≡ false → o ≡ some u → x ≡ some u
  miss w e h p = ground arith

  kept : o ≡ (if b then none else x) → o ≡ some u → (b ≡ false) × (x ≡ some u)
  kept e p = ground arith

module _ (fl : Float64) where
  pub calculate_weight-pos : (m u : ℤ) (n : ℕ) → 0 < calculate_weight fl m u n → 0 < n
  unfolding calculate_weight
  calculate_weight-pos m u n h = elim (Bool-cases (n == 0)) [
    | inl empty ↦ absurd (omega (arith, (rw empty at h)))
    | inr full ↦ ground arith
  ]

  pub reweigh_lem :
      (q : WeightedQueue) (group : Text) (pq : PriorityQueue)
      → IsNearly group q
      → Dict.lookup q.queues group ≡ some pq
      → Returns (λ q'. IsValid q' × SameButWeights q q') (reweigh fl q group pq)
  unfolding reweigh
  reweigh_lem q group pq v e =
      let w = calculate_weight fl q.max_unacked (unacked q group) (size pq) in
      Returns-bind (get-insert q.weights group w v.tree) λ t s. returns (
        record {
          tree = s.0;
          heavy = λ g u p h. elim (Bool-cases (text_eq group g)) [
            | inl same ↦
                let here : group ≡ g = eq_of_text_eq group g same in
                (
                  pq,
                  rw (← here) e,
                  calculate_weight-pos q.max_unacked (unacked q group) (size pq) (
                      heavier w u (hit (text_eq group g) (Avl.get q.weights g) w (s.1 g) same p) h),
                )
            | inr other ↦
                v.heavy g u other (miss (text_eq group g) (Avl.get q.weights g) w (s.1 g) other p) h
          ];
          served = v.served;
          counted = λ g n p. elim (Bool-cases (text_eq group g)) [
            | inl same ↦ (pq, rw (← eq_of_text_eq group g same) e)
            | inr other ↦ v.counted g n other p
          ];
        },
        (refl, refl, refl),
      )
    where
      heavier : (w u : ℕ) → w ≡ u → 0 < u → 0 < w
      heavier w u e h = omega arith

  pub forget_lem :
      (q : WeightedQueue) (group : Text)
      → IsNearly group q
      → Returns
          (λ q'.
            IsValid q'
            × ((g : Text)
                → Dict.lookup q'.queues g
                  ≡ (if text_eq group g then none else Dict.lookup q.queues g))
            × (q'.unacked_by_group ≡ drop_unacked q.unacked_by_group group)
            × (Avl.get q'.weights group ≡ none))
          (forget q group)
  unfolding forget
  forget_lem q group v = Returns-bind (get-delete q.weights group v.tree) λ t s. returns (
    record {
      tree = s.0;
      heavy = λ g u p h.
          let (other, p') = kept (text_eq group g) (Avl.get q.weights g) (s.1 g) p in
          let (pq, e, n) = v.heavy g u other p' h in
          (pq, lookup-remove q.queues group g ∙ rw other e, n);
      served = λ g pq p.
          v.served g pq
            (kept (text_eq group g) (Dict.lookup q.queues g) (lookup-remove q.queues group g) p).1;
      counted = λ g n p.
          let (other, p') = kept (text_eq g group) (q.unacked_by_group g) refl p in
          let other' = text_eq_symm_false g group other in
          let (pq, e) = v.counted g n other' p' in
          (pq, lookup-remove q.queues group g ∙ rw other' e);
    },
    lookup-remove q.queues group,
    refl,
    s.1 group ∙ rw (text_eq_refl group) refl,
  )
