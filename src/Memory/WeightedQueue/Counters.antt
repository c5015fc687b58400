-- ===== src/Memory/WeightedQueue/Counters.antt =====
-- pkg/queue/memory/fair_weighted_queue.go: UpdateWeights, MarkUnacked, Delete and UpdateMaxUnacked.
use mathlib.Core.Option
use mathlib.Core.List.{Perm}
use mathlib.Core.List.Perm
use doq.Common.{
  ℕ, ◌≡◌, refl, sym, ap, ◌∙◌, true, false, [], ◌∷◌, length, Option, none, some, arith, ◌==◌, ◌&&◌,
  ◌>>=◌, ◌⊎◌, inl, inr, Returns, returns, Returns-bind, Returns-map, Returns-if, Bool-cases,
  Option-cases, if_true, if_false,
}
use doq.Common.Int.{ℤ, pos, leb_ℤ, ◌+ℤ◌, ◌-ℤ◌}
use doq.Common.Text.{Text, text_eq, text_eq_refl, eq_of_text_eq}
use doq.Common.Dict
use doq.Common.Dict.{lookup-insert}
use doq.Avl
use doq.Memory.PriorityQueue.{Item, PriorityQueue, size, new_priority_queue}
use doq.Memory.PriorityQueue.Slice.{at}
use doq.Memory.PriorityQueue.Laws.{Takes}
use doq.Memory.PriorityQueue.Valid.{new_queue-IsValid}
use doq.Memory.PriorityQueue.Edit.{delete_lem, delete-unknown}
use doq.Memory.WeightedQueue.{
  Float64, WeightedQueue, unacked, after_removal, set_unacked, delete, update_weights, mark_unacked,
  peek_ready, update_max_unacked, new_fair_weighted_queue,
}
use doq.Memory.WeightedQueue.Laws.{IsValid, IsNearly, reweigh_lem, forget_lem}
use doq.Memory.WeightedQueue.Contents.{
  items_in, items_of, empty_list, after_removal_lem, nearly, inserted, elsewhere,
}
use doq.Memory.WeightedQueue.Delivery.{counted_elsewhere}

recounted :
    (q : WeightedQueue) (group : Text) (m : Text → Option ℤ)
    → IsValid q
    → ((g : Text) → text_eq group g ≡ false → m g ≡ q.unacked_by_group g)
    → IsNearly group (record q { unacked_by_group = m })
recounted q group m v same = record {
  tree = v.tree;
  heavy = λ g w e p h. v.heavy g w p h;
  served = v.served;
  counted = λ g n e p. v.counted g n (sym (same g e) ∙ p);
}

weaken : (q : WeightedQueue) (group : Text) → IsValid q → IsNearly group q
weaken q group v = record {
  tree = v.tree;
  heavy = λ g w e p h. v.heavy g w p h;
  served = v.served;
  counted = λ g n e p. v.counted g n p;
}

-- No message of any group is added or lost.
abbrev pub SameItems : WeightedQueue → WeightedQueue → Type 0
SameItems q q' = (g : Text) → items_of q' g ≡ items_of q g

-- Nothing is left of a group with `n` unacked messages when one of them goes.
abbrev pub IsSpent : WeightedQueue → Text → ℤ → Type 0
IsSpent q group n = (items_of q group ≡ []) × (leb_ℤ (n -ℤ pos 1) (pos 0) ≡ true)

-- A group that is spent is known no more; another has its new count, and its queue.
abbrev pub Released : WeightedQueue → Text → ℤ → WeightedQueue → Type 0
Released q group n q' =
    (IsSpent q group n
      × (Dict.lookup q'.queues group ≡ none)
      × (q'.unacked_by_group group ≡ none)
      × (Avl.get q'.weights group ≡ none))
    ⊎ ((¬ IsSpent q group n)
        × (Dict.lookup q'.queues group ≡ Dict.lookup q.queues group)
        × (q'.unacked_by_group group ≡ some (n -ℤ pos 1)))

module _ (fl : Float64) (q : WeightedQueue) (v : IsValid q) where
  -- UpdateWeights on a group with a count of unacked messages does not panic, keeps the invariant and
  -- loses no message. When the group has no message ready and the new count is not positive, the group
  -- is forgotten: it has no queue, no count and no weight. Otherwise its count is one less.
  pub update_weights_lem :
      (group : Text) (id : ℕ) (n : ℤ)
      → q.unacked_by_group group ≡ some n
      → Returns
          (λ q'. IsValid q' × SameItems q q' × Released q group n q')
          (update_weights fl q group id)
  unfolding update_weights
  update_weights_lem group id n e =
      let (pq, l) = v.counted group n e in
      let m = set_unacked q.unacked_by_group group (n -ℤ pos 1) in
      let p = record q { unacked_by_group = m } in
      rw (e, update_weights, l)
        (Returns-bind
          (reweigh_lem fl p group pq
            (recounted q group m v (λ g. counted_elsewhere fl q v group g (n -ℤ pos 1))) l)
          λ r t.
            let same : (g : Text) → Dict.lookup r.queues g ≡ Dict.lookup q.queues g =
              λ g. ap (λ d. Dict.lookup d g) t.1.2 in
            Returns-if ((size pq == 0) && leb_ℤ (n -ℤ pos 1) (pos 0))
              (λ spent. Returns-map (forget_lem fl r group (weaken r group t.0)) λ q' u. (
                u.0,
                λ g. elim (Bool-cases (text_eq group g)) [
                  | inl here ↦
                      ap items_in
                        (u.1 g ∙ if_true (text_eq group g) none (Dict.lookup r.queues g) here)
                      ∙ sym (
                          ap (λ k. items_of q k) (sym (eq_of_text_eq group g here))
                          ∙ ap items_in l
                          ∙ empty_list pq.items (ground arith))
                  | inr other ↦ ap items_in (
                      u.1 g
                      ∙ if_false (text_eq group g) none (Dict.lookup r.queues g) other
                      ∙ same g)
                ],
                inl (
                  (empty_list pq.items (ground arith), ground arith),
                  u.1 group ∙ if_true (text_eq group group) none _ (text_eq_refl group),
                  ap (λ c. c group) u.2
                      ∙ if_true (text_eq group group) none (r.unacked_by_group group)
                          (text_eq_refl group),
                  u.3,
                ),
              ))
              (λ more. returns (
                t.0,
                λ g. ap items_in (same g),
                inr (
                  (λ w.
                      let none_ready : pq.items ≡ [] = w.0 in
                      let z : size pq ≡ 0 = ap length none_ready in absurd (ground (arith, w.1))),
                  same group ∙ l,
                  ap (λ c. c group) t.1.1
                      ∙ if_true (text_eq group group) (some (n -ℤ pos 1)) (q.unacked_by_group group)
                          (text_eq_refl group),
                ),
              )))

  -- UpdateWeights on a group without a counter changes nothing.
  pub update_weights-uncounted :
      (group : Text) (id : ℕ)
      → q.unacked_by_group group ≡ none
      → update_weights fl q group id ≡ some q
  unfolding update_weights
  update_weights-uncounted group id e = rw (e, update_weights)

  -- MarkUnacked counts one more unacked message of the group and moves none.
  pub mark_unacked_lem :
      (group : Text)
      → Returns
          (λ q'. IsValid q' × SameItems q q' × (unacked q' group ≡ unacked q group +ℤ pos 1))
          (mark_unacked fl q group)
  unfolding mark_unacked
  mark_unacked_lem group =
      let n = unacked q group +ℤ pos 1 in
      let m = set_unacked q.unacked_by_group group n in
      let same = λ (g : Text). counted_elsewhere fl q v group g n in
      let slot =
        ap (λ o. Option.get_or o (pos 0))
          (if_true (text_eq group group) (some n) (q.unacked_by_group group)
            (text_eq_refl group)) in
      elim (Option-cases (Dict.lookup q.queues group)) [
        | inl e ↦
            let pq = new_priority_queue true in
            let p = record q { queues = Dict.insert q.queues group pq; unacked_by_group = m } in
            rw e (
              Returns-map
                (reweigh_lem fl p group pq
                  (nearly q group pq m v (new_queue-IsValid true, refl) same) (inserted q group pq))
                λ q' t. (
                  t.0,
                  (λ g. elim (Bool-cases (text_eq group g)) [
                    | inl here ↦
                        let k = eq_of_text_eq group g here in
                        ap (λ d. items_in (Dict.lookup d g)) t.1.2
                        ∙ ap (λ k. items_in (Dict.lookup p.queues k)) (sym k)
                        ∙ ap items_in (inserted q group pq ∙ refl)
                        ∙ sym (ap (λ k. items_of q k) (sym k) ∙ ap items_in e)
                    | inr other ↦
                        ap (λ d. items_in (Dict.lookup d g)) t.1.2
                        ∙ ap items_in (elsewhere q group pq g other)
                  ]),
                  ap (λ c. Option.get_or (c group) (pos 0)) t.1.1 ∙ slot,
                ))
        | inr (pq, e) ↦ rw e (
            Returns-map
              (reweigh_lem fl (record q { unacked_by_group = m }) group pq
                (recounted q group m v same) e)
              λ q' t. (
                t.0,
                (λ g. ap (λ d. items_in (Dict.lookup d g)) t.1.2),
                ap (λ c. Option.get_or (c group) (pos 0)) t.1.1 ∙ slot,
              ))
      ]

  -- Delete of an id that the group does not hold changes nothing.
  pub delete-missing :
      (group : Text) (id : ℕ)
      → ((pq : PriorityQueue) → Dict.lookup q.queues group ≡ some pq → pq.id_to_index id ≡ none)
      → delete fl q group id ≡ some (none, q)
  unfolding delete
  delete-missing group id h = elim (Option-cases (Dict.lookup q.queues group)) [
    | inl e ↦ rw (e, delete)
    | inr (pq, e) ↦ rw (e, delete, delete-unknown pq id (h pq e))
  ]

  deleted :
      (group : Text) (pq : PriorityQueue) (x : Item) (r : Option Item × PriorityQueue)
      → Dict.lookup q.queues group ≡ some pq
      → Takes pq x r
      → Returns
          (λ (s : Option Item × WeightedQueue).
            (s.0 ≡ some x)
            × IsValid s.1
            × Perm (x ∷ items_of s.1 group) pq.items
            × ((g : Text) → text_eq group g ≡ false → items_of s.1 g ≡ items_of q g)
            × (unacked s.1 group ≡ unacked q group))
          (elim r.0 [
            | none ↦ some (none, q)
            | some item ↦
                after_removal fl (record q { queues = Dict.insert q.queues group r.1 }) group r.1
                >>= λ q'. some (some item, q')
          ])
  deleted group pq x (none, rest) e t = cc (t.result)
  deleted group pq x (some y, rest) e t =
      let (valid, mode) = v.served group pq e in
      Returns-bind
        (after_removal_lem fl q group v rest q.unacked_by_group (t.valid, t.mode ∙ mode)
          (λ g p. refl))
        λ q' u. returns (t.result, u.0, Perm.trans (Perm.cons x u.1.0) t.split, u.1.1, u.2)

  -- Delete of an id that the group holds returns its item and takes it from the group alone; the
  -- group's count of unacked messages stays.
  pub delete_group_lem :
      (group : Text) (pq : PriorityQueue) (id i : ℕ)
      → Dict.lookup q.queues group ≡ some pq
      → pq.id_to_index id ≡ some i
      → Returns
          (λ (s : Option Item × WeightedQueue).
            (s.0 ≡ some (at pq.items i))
            × IsValid s.1
            × Perm (at pq.items i ∷ items_of s.1 group) (items_of q group)
            × ((g : Text) → text_eq group g ≡ false → items_of s.1 g ≡ items_of q g)
            × (unacked s.1 group ≡ unacked q group))
          (delete fl q group id)
  unfolding delete
  delete_group_lem group pq id i e k =
      rw (e, delete)
        (Returns-bind (delete_lem pq id i (v.served group pq e).0 k)
          λ r t. deleted group pq (at pq.items i) r e t)

-- A new limit changes no weight: a group keeps the weight, and PeekReady the answer, that the old
-- limit gave, until the group's next message or acknowledgement.
pub update_max_unacked-stale :
    (q : WeightedQueue) (m : ℤ)
    → ((update_max_unacked q m).weights ≡ q.weights)
      × (peek_ready (update_max_unacked q m) ≡ peek_ready q)
unfolding update_max_unacked peek_ready
update_max_unacked-stale q m = (refl, refl)

-- A new queue is valid.
pub new_fair_weighted_queue-IsValid : (m : ℤ) → IsValid (new_fair_weighted_queue m)
unfolding new_fair_weighted_queue Avl.get Dict.lookup Avl.entries
new_fair_weighted_queue-IsValid m = record {
  tree = (tt, tt);
  heavy = λ g w e p. cc;
  served = λ g pq e. cc;
  counted = λ g n e. cc;
}
