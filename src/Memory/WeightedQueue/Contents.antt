-- ===== src/Memory/WeightedQueue/Contents.antt =====
-- pkg/queue/memory/fair_weighted_queue.go: the messages of a group, Enqueue, and what is left of a
-- group after a removal.
use mathlib.Core.Option
use mathlib.Core.List.{Perm}
use mathlib.Core.List.Perm
use doq.Common.{
  ◌≡◌, refl, sym, ap, ◌∙◌, true, false, List, [], ◌∷◌, Option, none, some, arith, ◌==◌, ◌&&◌,
  length, inl, inr, Returns, Returns-bind, Returns-map, Returns-if, Bool-cases, Option-cases,
  if_true, if_false,
}
use doq.Common.Int.{ℤ, pos, eqb_ℤ, eq_of_eqb_ℤ}
use doq.Common.Text.{Text, text_eq, text_eq_refl}
use doq.Common.Dict
use doq.Common.Dict.{lookup-insert, lookup-empty}
use doq.Memory.PriorityQueue.{Item, PriorityQueue, size, new_priority_queue}
use doq.Memory.PriorityQueue.Push.{heap_push_lem}
use doq.Memory.PriorityQueue.Valid.{new_queue-IsValid}
use doq.Memory.WeightedQueue.{Float64, WeightedQueue, unacked, reweigh, enqueue, after_removal}
use doq.Memory.WeightedQueue.Laws.{IsValid, IsNearly, IsServing, reweigh_lem, forget_lem}

abbrev pub items_in : Option PriorityQueue → List Item
items_in none = []
items_in (some pq) = pq.items

-- The messages of a group that wait for delivery.
abbrev pub items_of : WeightedQueue → Text → List Item
items_of q g = items_in (Dict.lookup q.queues g)

-- The group holds the items `a`, and every other group what it held in `q`.
abbrev pub HasItems : WeightedQueue → Text → List Item → WeightedQueue → Type 0
HasItems q group a q' =
    Perm (items_of q' group) a
    × ((g : Text) → text_eq group g ≡ false → items_of q' g ≡ items_of q g)

pub nearly :
    (q : WeightedQueue) (group : Text) (pq : PriorityQueue) (m : Text → Option ℤ)
    → IsValid q
    → IsServing pq
    → ((g : Text) → text_eq group g ≡ false → m g ≡ q.unacked_by_group g)
    → IsNearly group (record q { queues = Dict.insert q.queues group pq; unacked_by_group = m })
nearly q group pq m v s same = record {
  tree = v.tree;
  heavy = λ g w e p h.
      let (pq', l, n) = v.heavy g w p h in (pq', lookup-insert q.queues group pq g ∙ rw e l, n);
  served = λ g pq' e. elim (Bool-cases (text_eq group g)) [
    | inl here ↦ ground (arith, lookup-insert q.queues group pq g, s)
    | inr other ↦ v.served g pq' (ground (arith, lookup-insert q.queues group pq g))
  ];
  counted = λ g n e p.
      let (pq', l) = v.counted g n (sym (same g e) ∙ p) in
      (pq', lookup-insert q.queues group pq g ∙ rw e l);
}

pub empty_list : (a : List Item) → length a ≡ 0 → a ≡ []
empty_list [] e = refl
empty_list (x ∷ a) e = absurd (omega arith)

pub inserted :
    (q : WeightedQueue) (group : Text) (pq : PriorityQueue)
    → Dict.lookup (Dict.insert q.queues group pq) group ≡ some pq
inserted q group pq = lookup-insert q.queues group pq group ∙ rw text_eq_refl refl

pub elsewhere :
    (q : WeightedQueue) (group : Text) (pq : PriorityQueue) (g : Text)
    → text_eq group g ≡ false
    → Dict.lookup (Dict.insert q.queues group pq) g ≡ Dict.lookup q.queues g
elsewhere q group pq g e = lookup-insert q.queues group pq g ∙ rw e refl

pub same-perm : {a b : List Item} → a ≡ b → Perm a b
same-perm {b} e = rw e (Perm.refl b)

module _ (fl : Float64) (q : WeightedQueue) (group : Text) (v : IsValid q) where
  -- A group that has got the queue `pq`, with a new counter.
  pub settled_lem :
      (pq : PriorityQueue) (a : List Item) (m : Text → Option ℤ)
      → IsServing pq
      → Perm pq.items a
      → ((g : Text) → text_eq group g ≡ false → m g ≡ q.unacked_by_group g)
      → Returns
          (λ q'.
            IsValid q'
            × HasItems q group a q'
            × (unacked q' group ≡ Option.get_or (m group) (pos 0)))
          (reweigh fl
            (record q { queues = Dict.insert q.queues group pq; unacked_by_group = m })
            group
            pq)
  settled_lem pq a m s perm same =
      let p = record q { queues = Dict.insert q.queues group pq; unacked_by_group = m } in
      Returns-map (reweigh_lem fl p group pq (nearly q group pq m v s same) (inserted q group pq))
        λ q' t. (
          t.0,
          (
            Perm.trans
                (same-perm (
                  ap (λ d. items_in (Dict.lookup d group)) t.1.2
                  ∙ ap items_in (inserted q group pq)))
                perm,
            λ g e.
                ap (λ d. items_in (Dict.lookup d g)) t.1.2 ∙ ap items_in (elsewhere q group pq g e),
          ),
          ap (λ c. Option.get_or (c group) (pos 0)) t.1.1,
        )

  -- What is left of a group after a removal.
  pub after_removal_lem :
      (pq : PriorityQueue) (m : Text → Option ℤ)
      → IsServing pq
      → ((g : Text) → text_eq group g ≡ false → m g ≡ q.unacked_by_group g)
      → Returns
          (λ q'.
            IsValid q'
            × HasItems q group pq.items q'
            × (unacked q' group ≡ Option.get_or (m group) (pos 0)))
          (after_removal fl
            (record q { queues = Dict.insert q.queues group pq; unacked_by_group = m })
            group
            pq)
  unfolding after_removal
  after_removal_lem pq m s same =
      let p = record q { queues = Dict.insert q.queues group pq; unacked_by_group = m } in
      let ready = nearly q group pq m v s same in
      Returns-if (eqb_ℤ (Option.get_or (m group) (pos 0)) (pos 0) && (size pq == 0))
        (λ spent. Returns-map (forget_lem fl p group ready) λ q' t. (
          t.0,
          (
            same-perm (
                ap items_in (
                  t.1 group
                  ∙ if_true (text_eq group group) none (Dict.lookup p.queues group)
                      (text_eq_refl group))
                ∙ sym (empty_list pq.items (ground arith))),
            λ g e. ap items_in (
                t.1 g
                ∙ if_false (text_eq group g) none (Dict.lookup p.queues g) e
                ∙ elsewhere q group pq g e),
          ),
          rw (t.2, text_eq_refl group)
              (sym (eq_of_eqb_ℤ (Option.get_or (m group) (pos 0)) (pos 0) (ground arith))),
        ))
        (λ more. settled_lem pq pq.items m s (Perm.refl _) same)

  -- Enqueue, with an id that is new to its group, keeps the invariant and adds the item to its
  -- group only.
  pub enqueue_lem :
      (item : Item)
      → ((pq : PriorityQueue)
          → Dict.lookup q.queues group ≡ some pq
          → pq.id_to_index item.id ≡ none)
      → Returns
          (λ q'.
            IsValid q'
            × HasItems q group (item ∷ items_of q group) q'
            × (unacked q' group ≡ unacked q group))
          (enqueue fl q group item)
  unfolding enqueue
  enqueue_lem item fresh = elim (Option-cases (Dict.lookup q.queues group)) [
    | inl e ↦ rw e (
        Returns-bind (heap_push_lem (new_priority_queue true) item (new_queue-IsValid true) refl)
          λ pq t.
            settled_lem pq (item ∷ []) q.unacked_by_group (t.valid, t.mode) t.contents
              (λ g e. refl))
    | inr (old, e) ↦
        let (valid, mode) = v.served group old e in
        rw e (
          Returns-bind (heap_push_lem old item valid (fresh old e)) λ pq t.
            settled_lem pq (item ∷ old.items) q.unacked_by_group (t.valid, t.mode ∙ mode) t.contents
              (λ g e. refl))
  ]
