-- ===== src/Memory/DelayedQueue/Laws.antt =====
-- pkg/queue/memory/delayed_queue.go: what Dequeue and the two peeks return.
use doq.Common.{
  ℕ, ◌<◌, ◌≡◌, refl, Bool, true, false, Option, none, some, arith, ◌==◌, ◌>>=◌, length, ◌⊎◌, inl,
  inr, Returns, returns, Returns-bind, Returns-map, Bool-cases, ap, ◌≤◌, ◌*◌, ◌∙◌,
}
use doq.Common.Int.{ℤ, pos, ltb_ℤ, ◌-ℤ◌, of_seconds, of_seconds-small}
use doq.Memory.PriorityQueue.{Item, PriorityQueue, size, item_less, peek, assert_item}
use doq.Memory.PriorityQueue.Slice.{at, get_elem?-at}
use doq.Memory.PriorityQueue.Order.{Le}
use doq.Memory.PriorityQueue.Laws.{Takes, heap_pop-Takes}
use doq.Memory.PriorityQueue.Valid.{IsValid, root_least}
use doq.Memory.DelayedQueue.{dequeue, peek_ready}

-- In a queue that serves the least first, an item that may stand first is scheduled no later.
least_time :
    (x y : Item) (now : ℤ) → Le true x y → ltb_ℤ now x.priority ≡ true → ltb_ℤ now y.priority ≡ true
unfolding item_less
least_time x y now l h = ground arith

-- Every item is scheduled after `now`.
abbrev pub AllDelayed : PriorityQueue → ℤ → Type 0
AllDelayed q now = (i : ℕ) → i < length q.items → ltb_ℤ now (at q.items i).priority ≡ true

-- The head is due, and stands first among all items: the earliest, and of those the lowest id.
abbrev pub HeadDue : PriorityQueue → ℤ → Type 0
HeadDue q now =
    (0 < length q.items)
    × (ltb_ℤ now (at q.items 0).priority ≡ false)
    × ((i : ℕ) → i < length q.items → Le q.min_first (at q.items 0) (at q.items i))

-- Dequeue gives back nothing and changes nothing exactly when every item is delayed; otherwise it
-- takes the head, which is due.
abbrev pub Dequeues : PriorityQueue → ℤ → Option Item × PriorityQueue → Type 0
Dequeues q now r = (AllDelayed q now × (r ≡ (none, q))) ⊎ (HeadDue q now × Takes q (at q.items 0) r)

asserted :
    (q : PriorityQueue) (x : Item) (r : Option Item × PriorityQueue)
    → Takes q x r
    → Returns (Takes q x) (assert_item r >>= λ s. some (some s.0, s.1))
asserted q x (none, p) t = cc (t.result)
asserted q x (some y, p) t = returns t

module _ (q : PriorityQueue) (v : IsValid q) (now : ℤ) (mode : q.min_first ≡ true) where
  some_items : (size q == 0) ≡ false → 0 < length q.items
  some_items e = ground arith

  delayed : (0 < length q.items) → ltb_ℤ now (at q.items 0).priority ≡ true → AllDelayed q now
  delayed p h i hi =
      least_time (at q.items 0) (at q.items i) now (rw mode at (root_least q i v hi)) h

  -- Dequeue on a valid queue that serves the least first.
  pub dequeue-Dequeues : (ack : Bool) (seed : ℕ) → Returns (Dequeues q now) (dequeue q ack seed now)
  unfolding dequeue peek
  dequeue-Dequeues ack seed = elim (Bool-cases (size q == 0)) [
    | inl empty ↦ rw empty (returns (inl (λ i h. absurd (ground arith), refl)))
    | inr full ↦
        let p = some_items full in
        rw (full, get_elem?-at q.items 0 p)
          (elim (Bool-cases (ltb_ℤ now (at q.items 0).priority)) [
            | inl later ↦ rw later (returns (inl (delayed p later, refl)))
            | inr due ↦ rw due (
                Returns-bind (heap_pop-Takes q v p) λ r t.
                  Returns-map (asserted q (at q.items 0) r t)
                    λ s u. inr ((p, due, λ i h. root_least q i v h), u))
          ])
  ]

  -- The time until the head is due, `k` seconds from now, in nanoseconds.
  abbrev pub WaitsForHead : ℤ → Type 0
  WaitsForHead wait =
      ((size q ≡ 0) × (wait ≡ pos 0))
      ⊎ ((0 < size q)
          × (wait ≡ of_seconds ((at q.items 0).priority -ℤ now))
          × ((k : ℕ)
              → (at q.items 0).priority -ℤ now ≡ pos k
              → k ≤ 9223372036
              → wait ≡ pos (k * 1000000000)))

  -- PeekReady says whether Dequeue would give an item at the same time. When it would not, the wait is 0
  -- for an empty queue, and otherwise the time until the head is due, in nanoseconds: exactly that up to
  -- 9223372036 seconds, and beyond what is left of it in an int64.
  pub peek_ready_lem :
      Returns
        (λ r.
          (AllDelayed q now × (r.0 ≡ false) × WaitsForHead r.1)
          ⊎ (HeadDue q now × (r ≡ (true, pos 0))))
        (peek_ready q now)
  unfolding peek_ready peek
  peek_ready_lem = elim (Bool-cases (size q == 0)) [
    | inl empty ↦
        rw empty (returns (inl (λ i h. absurd (ground arith), refl, inl (ground arith, refl))))
    | inr full ↦
        let p = some_items full in
        rw (full, get_elem?-at q.items 0 p)
          (elim (Bool-cases (ltb_ℤ now (at q.items 0).priority)) [
            | inl later ↦ rw later (
                returns (
                  inl (
                    delayed p later,
                    refl,
                    inr (p, refl, λ k e h. ap of_seconds e ∙ of_seconds-small k h),
                  )))
            | inr due ↦ rw due (returns (inr ((p, refl, λ i h. root_least q i v h), refl)))
          ])
  ]
