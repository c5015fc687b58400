-- ===== src/Memory/RoundRobinQueue/Advance.antt =====
-- pkg/queue/memory/fair_round_robin_queue.go: one visit of the walk of Dequeue: the turn of the cursor,
-- and the item that a leaf gives.
use doq.Common.{
  ℕ, ◌≡◌, refl, true, List, [], ◌∷◌, Option, some, arith, ltb, ltb→lt, inl, inr, Returns, returns,
  Returns-bind, Option-cases, Bool-cases,
}
use doq.Common.Text.{Text, text_eq, text_eq_refl}
use doq.Memory.PriorityQueue.{Item, PriorityQueue, size}
use doq.Memory.PriorityQueue.Slice.{at}
use doq.Memory.PriorityQueue.Laws.{heap_pop-Takes}
use doq.Memory.RoundRobinQueue.{GroupNode, RoundRobinQueue, load, is_empty, contains}
use doq.Memory.RoundRobinQueue.Dequeue.{first, next_child, following, advance, pop_leaf, cursor}
use doq.Memory.RoundRobinQueue.Valid.{IsValid, below_of_load, load-set_self, put-IsValid}
use doq.Memory.RoundRobinQueue.Walks.{Walks, Walks-refl, Walks-put, load-put, Outcome}

next_child-contains :
    (names : List Text) (k j : Text) → next_child names k ≡ some j → contains names j ≡ true
unfolding next_child contains
next_child-contains [] k j e = cc
next_child-contains (x ∷ names) k j e = elim (Bool-cases (text_eq x k)) [
  | inl same ↦ ground (arith, first-contains names j (rw same at e))
  | inr other ↦ ground (arith, next_child-contains names k j (rw other at e))
]
  where
    first-contains : (names : List Text) (j : Text) → first names ≡ some j → contains names j ≡ true
    first-contains [] j e = cc
    first-contains (x ∷ names) j e = let same : x ≡ j = cc in rw (same, text_eq_refl j) refl

-- From an entry of the list there is a following one.
following-contains :
    (names : List Text) (k : Text)
    → contains names k ≡ true
    → (j : Text) × (following names k ≡ some j) × (contains names j ≡ true)
unfolding contains
following-contains [] k h = cc
following-contains (x ∷ names) k h = elim (Option-cases (next_child (x ∷ names) k)) [
  | inl last ↦ (x, rw (last, following) refl, rw (text_eq_refl x) refl)
  | inr (j, next) ↦ (j, rw (next, following) refl, next_child-contains (x ∷ names) k j next)
]

-- The cursor of a node moves on.
pub advance_lem :
    (q : RoundRobinQueue) (a : ℕ) (n : GroupNode) (k : Text)
    → IsValid q
    → load q a ≡ some n
    → n.current_child ≡ some k
    → Returns
        (λ q'.
          IsValid q'
          × Walks q q'
          × ((m : GroupNode) × (j : Text) × (load q' a ≡ some m) × (m.current_child ≡ some j)))
        (advance q a)
unfolding advance
advance_lem q a n k v there e =
    let w = v.nodes a n there in
    let (j, next, in_list) = following-contains n.children_list k (w.cursor k e) in
    let m = record n { current_child = some j } in
    rw there (
      rw e (
        rw next (
          returns (
            put-IsValid q v a n there m
                (record {
                  queue = w.queue;
                  parent = w.parent;
                  children = w.children;
                  listed = w.listed;
                  cursor = λ i f. let same : j ≡ i = cc in rw (← same) in_list;
                })
                refl,
            Walks-put q a n there j,
            (m, j, load-set_self q.nodes a m (below_of_load q.nodes a n there), refl),
          ))))

-- Whatever a walk took, the cursor of a node is still set.
pub cursor_of_Outcome :
    (q : RoundRobinQueue) (a c : ℕ) (n : GroupNode) (k : Text) (r : Option Item × RoundRobinQueue)
    → Outcome q c r
    → load q a ≡ some n
    → n.current_child ≡ some k
    → (m : GroupNode) × (j : Text) × (load r.1 a ≡ some m) × (m.current_child ≡ some j)
cursor_of_Outcome q a c n k r o there e = elim o.1 [
  | inl (nothing, w) ↦ set_in q r.1 n w there e
  | inr (item, given, s) ↦
      let m = record s.node { queue = s.rest } in
      elim (load-put q.nodes s.leaf a s.node m n s.there there) [
        | inl (same, now) ↦ set_in _ r.1 m s.result now (rw same e)
        | inr now ↦ set_in _ r.1 n s.result now e
      ]
]
  where
    set_in :
        (q q' : RoundRobinQueue) (n : GroupNode)
        → Walks q q'
        → load q a ≡ some n
        → n.current_child ≡ some k
        → (m : GroupNode) × (j : Text) × (load q' a ≡ some m) × (m.current_child ≡ some j)
    set_in q q' n w there e =
        let (cursor, moved, kept) = w.nodes a n there in
        elim kept [
          | inl unset ↦ cc
          | inr (j, f) ↦ (record n { current_child = cursor }, j, moved, f)
        ]

pub pop_leaf_lem :
    (q : RoundRobinQueue) (a : ℕ) (n : GroupNode)
    → IsValid q
    → load q a ≡ some n
    → is_empty n.children ≡ true
    → Returns (Outcome q a) (pop_leaf q a n)
unfolding pop_leaf
pop_leaf_lem q a n v there bare = elim (Bool-cases (ltb 0 (size n.queue))) [
  | inr empty ↦ rw (empty, pop_leaf) (returns (v, inl (refl, Walks-refl q)))
  | inl some_items ↦
      let w = v.nodes a n there in
      rw (some_items, pop_leaf)
        (Returns-bind (heap_pop-Takes n.queue w.queue (ltb→lt 0 _ some_items))
          λ (r : Option Item × PriorityQueue) t.
            let x = at n.queue.items 0 in
            rw t.result (
              returns (
                put-IsValid q v a n there (record n { queue = r.1 })
                    (record {
                      queue = t.valid;
                      parent = w.parent;
                      children = w.children;
                      listed = w.listed;
                      cursor = w.cursor;
                    })
                    refl,
                inr (
                  x,
                  refl,
                  record {
                    leaf = a;
                    node = n;
                    there = there;
                    bare = bare;
                    rest = r.1;
                    taken = record {
                      result = refl;
                      valid = t.valid;
                      mode = t.mode;
                      split = t.split;
                      gone = t.gone;
                    };
                    result = Walks-refl _;
                    allowed = inl refl;
                  },
                ),
              )))
]
