-- ===== src/Memory/WeightedQueue/Delivery.antt =====
-- pkg/queue/memory/fair_weighted_queue.go: Dequeue.
use mathlib.Core.Option
use mathlib.Core.List.{Perm}
use mathlib.Core.List.Perm
use doq.Common.{
  ℕ, ◌<◌, ◌≡◌, ◌≢◌, refl, ap, ◌∙◌, Bool, true, false, [], ◌∷◌, Option, none, some, arith, ltb, ◌==◌,
  if◌then◌else◌, ◌>>=◌, length, ◌⊎◌, inl, inr, Returns, returns, Returns-bind, Returns-map,
  Bool-cases, if_true, if_false,
}
use doq.Common.Int.{ℤ, pos, ◌+ℤ◌}
use doq.Common.Text.{Text, text_eq, text_eq_refl, eq_of_text_eq, text_eq_symm_false}
use doq.Common.Dict
use doq.Common.Dict.{lookup-insert, lookup-empty}
use doq.Avl
use doq.Avl.{sample_seed}
use doq.Avl.Sampling.{sample_seed-positive, sample_seed-zero}
use doq.Memory.PriorityQueue.{Item, PriorityQueue, size, assert_item}
use doq.Memory.PriorityQueue.Slice.{at}
use doq.Memory.PriorityQueue.Order.{Le}
use doq.Memory.PriorityQueue.Laws.{Takes, heap_pop-Takes}
use doq.Memory.PriorityQueue.Valid.{root_least}
use doq.Memory.WeightedQueue.{
  Float64, WeightedQueue, unacked, set_unacked, after_removal, dequeue_group, dequeue, peek_ready,
}
use doq.Memory.WeightedQueue.Laws.{IsValid}
use doq.Memory.WeightedQueue.Contents.{items_in, items_of, HasItems, after_removal_lem}

-- `r` gives a message of the group that no other of the group stands before, and takes it from the
-- group; one more counts as unacked unless it is acknowledged at once.
pub record Delivers (q : WeightedQueue) (group : Text) (ack : Bool)
    (r : Option Item × WeightedQueue) : Type 0 where
  pub item : Item
  pub result : r.0 ≡ some item
  pub valid : IsValid r.1
  pub taken : Perm (item ∷ items_of r.1 group) (items_of q group)
  pub others : (g : Text) → text_eq group g ≡ false → items_of r.1 g ≡ items_of q g
  pub first : (i : ℕ) → i < length (items_of q group) → Le true item (at (items_of q group) i)
  pub slot : unacked r.1 group ≡ (if ack then unacked q group else unacked q group +ℤ pos 1)

module _ (fl : Float64) (q : WeightedQueue) (v : IsValid q) where
  pub counted_elsewhere :
      (group g : Text) (n : ℤ)
      → text_eq group g ≡ false
      → set_unacked q.unacked_by_group group n g ≡ q.unacked_by_group g
  counted_elsewhere group g n e =
      if_false (text_eq g group) (some n) (q.unacked_by_group g) (text_eq_symm_false group g e)

  delivers :
      (group : Text) (pq : PriorityQueue) (ack : Bool) (x : Item) (rest : PriorityQueue)
      (q' : WeightedQueue)
      → Dict.lookup q.queues group ≡ some pq
      → Takes pq (at pq.items 0) (some x, rest)
      → IsValid q'
      → HasItems q group rest.items q'
      → unacked q' group ≡ (if ack then unacked q group else unacked q group +ℤ pos 1)
      → Delivers q group ack (some x, q')
  delivers group pq ack x rest q' e t valid h slot =
      let here : items_of q group ≡ pq.items = ap items_in e in
      record {
        item = at pq.items 0;
        result = t.result;
        valid = valid;
        taken = rw here (Perm.trans (Perm.cons (at pq.items 0) h.0) t.split);
        others = h.1;
        first = rw here λ i p.
            let (ordered, mode) = v.served group pq e in rw mode at (root_least pq i ordered p);
        slot = slot;
      }

  delivered :
      (group : Text) (pq : PriorityQueue) (ack : Bool) (r : Option Item × PriorityQueue)
      → Dict.lookup q.queues group ≡ some pq
      → Takes pq (at pq.items 0) r
      → Returns (Delivers q group ack) (
          assert_item r >>= λ s.
          after_removal fl
            (if ack then record q { queues = Dict.insert q.queues group s.1 } else record q {
              queues = Dict.insert q.queues group s.1;
              unacked_by_group = set_unacked q.unacked_by_group group (unacked q group +ℤ pos 1);
            })
            group
            s.1
          >>= λ q'. some (some s.0, q'))
  delivered group pq ack (none, rest) e t = cc (t.result)
  delivered group pq true (some x, rest) e t =
      let (valid, mode) = v.served group pq e in
      Returns-bind
        (after_removal_lem fl q group v rest q.unacked_by_group (t.valid, t.mode ∙ mode)
          (λ g e. refl))
        λ q' u. returns (delivers group pq true x rest q' e t u.0 u.1 u.2)
  delivered group pq false (some x, rest) e t =
      let (valid, mode) = v.served group pq e in
      let m = set_unacked q.unacked_by_group group (unacked q group +ℤ pos 1) in
      Returns-bind
        (after_removal_lem fl q group v rest m (t.valid, t.mode ∙ mode)
          (λ g. counted_elsewhere group g (unacked q group +ℤ pos 1)))
        λ q' u. returns (
          delivers group pq false x rest q' e t u.0 u.1 (
            u.2
            ∙ ap (λ o. Option.get_or o (pos 0))
                (if_true (text_eq group group) (some (unacked q group +ℤ pos 1))
                  (q.unacked_by_group group) (text_eq_refl group))))

  dequeue_group_lem :
      (group : Text) (pq : PriorityQueue) (ack : Bool)
      → Dict.lookup q.queues group ≡ some pq
      → 0 < size pq
      → Returns (Delivers q group ack) (dequeue_group fl q group ack)
  unfolding dequeue_group
  dequeue_group_lem group pq ack e h =
      let (valid, mode) = v.served group pq e in
      rw e (Returns-bind (heap_pop-Takes pq valid h) λ r t. delivered group pq ack r e t)

  -- On a queue that keeps the invariant Dequeue does not panic. It gives nothing, and changes
  -- nothing, when PeekReady is false or the pick is the group named "". Otherwise it delivers
  -- from the group that the seed picks.
  pub dequeue-Delivers :
      (ack : Bool) (seed : ℕ) (now : ℤ)
      → let group = sample_seed q.weights seed in
        Returns
          (λ r.
            ((r ≡ (none, q)) × ((peek_ready q ≡ false) ⊎ (group ≡ [])))
            ⊎ ((peek_ready q ≡ true) × (group ≢ []) × Delivers q group ack r))
          (dequeue fl q ack seed now)
  unfolding dequeue peek_ready
  dequeue-Delivers ack seed now =
      let group = sample_seed q.weights seed in
      elim (Bool-cases (length q.queues == 0)) [
        | inl empty ↦
            rw empty
              (returns (inl (refl, inl (idle (λ g. lookup-empty q.queues g (ground arith))))))
        | inr some_group ↦ elim (Bool-cases (text_eq group [])) [
          | inl unnamed ↦
              rw (some_group, unnamed) (returns (inl (refl, inr (eq_of_text_eq group [] unnamed))))
          | inr named ↦ elim (Bool-cases (ltb 0 (Avl.sum q.weights))) [
            | inl ready ↦
                let (w, e, p) = sample_seed-positive q.weights seed v.tree (ground arith) in
                let (pq, l, n) = v.heavy group w e p in
                rw (some_group, named)
                  (Returns-map (dequeue_group_lem group pq ack l n) λ r d.
                    inr (ready, (λ z. cc (ap (λ g. text_eq g []) z, named, text_eq_refl [])), d))
            | inr idle ↦ cc (
              named,
              ap (λ g. text_eq g []) (sample_seed-zero q.weights seed (ground arith)),
              text_eq_refl [],
            )
          ]
        ]
      ]
    where
      idle : ((g : Text) → Dict.lookup q.queues g ≡ none) → ltb 0 (Avl.sum q.weights) ≡ false
      idle none_at = elim (Bool-cases (ltb 0 (Avl.sum q.weights))) [
        | inl ready ↦
            let (w, e, p) = sample_seed-positive q.weights seed v.tree (ground arith) in
            let (pq, l, n) = v.heavy (sample_seed q.weights seed) w e p in
            cc (none_at (sample_seed q.weights seed), l)
        | inr quiet ↦ quiet
      ]
