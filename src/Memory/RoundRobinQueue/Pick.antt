-- ===== src/Memory/RoundRobinQueue/Pick.antt =====
-- pkg/queue/memory/fair_round_robin_queue.go: dequeueFromNode ends, and takes the first message of a leaf
-- below its limit or none.
use doq.Common.{
  ℕ, zero, suc, ◌+◌, ◌<◌, ◌≤◌, ◌≡◌, refl, Bool, true, false, List, [], ◌∷◌, Option, none, some,
  arith, length, if◌then◌else◌, ◌∙◌, inl, inr, Returns, returns, Returns-map, Returns-bind,
  Option-cases, Bool-cases, ◌>>=◌,
}
use doq.Common.Text.{Text, text_eq, text_eq_refl}
use doq.Memory.PriorityQueue.{Item, size}
use doq.Memory.RoundRobinQueue.{
  GroupNode, RoundRobinQueue, load, put, is_empty, under_limit, contains,
}
use doq.Memory.RoundRobinQueue.Dequeue.{
  first, is_current, visit_child, visit, pop_leaf, cursor, dequeue_from_node,
}
use doq.Memory.RoundRobinQueue.Valid.{
  IsNode, IsValid, load_below, below_of_load, load-set_self, length-set, put-IsValid,
}
use doq.Memory.RoundRobinQueue.Walks.{
  Walks, Walks-refl, Walks-trans, Walks-put, Serves-then, Outcome, Outcome-after,
}
use doq.Memory.RoundRobinQueue.Advance.{advance_lem, cursor_of_Outcome, pop_leaf_lem}

-- What the walk needs of its call for a child.
abbrev Descends : ℕ → (RoundRobinQueue → ℕ → Option (Option Item × RoundRobinQueue)) → ℕ → Type 0
Descends n down a =
    (q : RoundRobinQueue) (c : ℕ)
    → IsValid q
    → length q.nodes ≡ n
    → a < c
    → c < n
    → Returns (Outcome q c) (down q c)

-- A leaf below a child whose group is below its limit.
Outcome-child :
    (q : RoundRobinQueue) (a c : ℕ) (n : GroupNode) (r : Option Item × RoundRobinQueue)
    → load q c ≡ some n
    → under_limit q n.group_key ≡ true
    → Outcome q c r
    → Outcome q a r
Outcome-child q a c n r there below o = (
  o.0,
  elim o.1 [
    | inl idle ↦ inl idle
    | inr (item, given, s) ↦ inr (
      item,
      given,
      record {
        leaf = s.leaf;
        node = s.node;
        there = s.there;
        bare = s.bare;
        rest = s.rest;
        taken = s.taken;
        result = s.result;
        allowed = inr (elim s.allowed [
          | inl here ↦ let same : s.node ≡ n = cc (s.there) in rw same below
          | inr deeper ↦ deeper
        ]);
      },
    )
  ],
)

module _ (down : RoundRobinQueue → ℕ → Option (Option Item × RoundRobinQueue)) (a size : ℕ)
    (descends : Descends size down a) where
  visit_child_lem :
      (q : RoundRobinQueue) (n : GroupNode) (k : Text)
      → IsValid q
      → length q.nodes ≡ size
      → load q a ≡ some n
      → n.current_child ≡ some k
      → Returns (Outcome q a) (visit_child down q a)
  unfolding visit_child
  visit_child_lem q n k v same there e =
      let w = v.nodes a n there in
      let (c, known) = w.listed k (w.cursor k e) in
      let (after, inside) = w.children k c known in
      let (child, stands) = load_below q.nodes c inside in
      rw (there, visit_child)
        (rw e (
          rw known (
            rw stands (elim (Bool-cases (under_limit q child.group_key)) [
              | inl below ↦ rw below (
                  Returns-map (descends q c v same after (omega (arith, same, inside)))
                    λ r o. Outcome-child q a c child r stands below o)
              | inr full ↦ rw full (returns (v, inl (refl, Walks-refl q)))
            ]))))

  is_current_runs :
      (q : RoundRobinQueue) (m : GroupNode) (j start : Text)
      → load q a ≡ some m
      → m.current_child ≡ some j
      → is_current q a start ≡ some (text_eq j start)
  is_current_runs q m j start there e = rw (there, is_current) (rw e refl)

  -- The walk ends after as many visits as it is given, or sooner.
  visit_lem :
      (visits : ℕ) (start : Text) (q : RoundRobinQueue) (n : GroupNode) (k : Text)
      → IsValid q
      → length q.nodes ≡ size
      → load q a ≡ some n
      → n.current_child ≡ some k
      → Returns (Outcome q a) (visit down visits a start q)
  unfolding visit
  visit_lem zero start q n k v same there e = returns (v, inl (refl, Walks-refl q))
  visit_lem (suc visits) start q n k v same there e =
      Returns-bind (visit_child_lem q n k v same there e) λ (r : Option Item × RoundRobinQueue) o.
        let (m, j, there1, e1) = cursor_of_Outcome q a a n k r o there e in
        Returns-bind (advance_lem r.1 a m j o.0 there1 e1) λ q' t.
          let (m2, j2, there2, e2) = t.2 in
          let grown : length q'.nodes ≡ size = omega (arith, t.1.size, size_of q r o, same) in
          rw (is_current_runs q' m2 j2 start there2 e2) (
            finish r.0 r.1 q' (text_eq j2 start) (visit down visits a start q') o t.0 t.1
              (visit_lem visits start q' m2 j2 t.0 grown there2 e2))
    where
      size_of :
          (q : RoundRobinQueue) (r : Option Item × RoundRobinQueue)
          → Outcome q a r
          → length r.1.nodes ≡ length q.nodes
      size_of q r o = elim o.1 [
        | inl (nothing, w) ↦ w.size
        | inr (item, given, s) ↦
            s.result.size ∙ length-set q.nodes s.leaf (record s.node { queue = s.rest })
      ]

      finish :
          (given : Option Item) (s q' : RoundRobinQueue) (around : Bool)
          (rest : Option (Option Item × RoundRobinQueue))
          → Outcome q a (given, s)
          → IsValid q'
          → Walks s q'
          → Returns (Outcome q' a) rest
          → Returns (Outcome q a) (elim given [
            | some item ↦ some (some item, q')
            | none ↦ elim around [ true ↦ some (none, q') | false ↦ rest ]
          ])
      finish none s q' true rest o v' w more = elim o.1 [
        | inl (nothing, w0) ↦ returns (v', inl (refl, Walks-trans q s q' w0 w))
        | inr (item, given, t) ↦ cc
      ]
      finish none s q' false rest o v' w more = elim o.1 [
        | inl (nothing, w0) ↦
            Returns-map more λ r u. Outcome-after q q' a r (Walks-trans q s q' w0 w) u
        | inr (item, given, t) ↦ cc
      ]
      finish (some item) s q' around rest o v' w more = elim o.1 [
        | inl (nothing, w0) ↦ cc
        | inr (x, given, t) ↦ returns (v', inr (x, given, Serves-then q s q' a x t w))
      ]

-- The cursor of a node that lists children, or their first.
cursor_of_node :
    (size a : ℕ) (n : GroupNode)
    → IsNode size a n
    → is_empty n.children_list ≡ false
    → (k : Text) × (cursor n ≡ some k) × (contains n.children_list k ≡ true)
cursor_of_node size a n w some_names = elim (Option-cases n.current_child) [
  | inr (k, set) ↦ (k, rw (set, cursor) refl, w.cursor k set)
  | inl unset ↦ let (k, e, h) = head_of n.children_list some_names in (k, rw (unset, cursor) e, h)
]
  where
    head_of :
        (names : List Text)
        → is_empty names ≡ false
        → (k : Text) × (first names ≡ some k) × (contains names k ≡ true)
    head_of [] e = cc
    head_of (x ∷ names) e = (x, refl, unfold contains in rw (text_eq_refl x) refl)

-- The walk of Dequeue on a well-formed tree, from any node: with a round of fuel for each node from there
-- on it ends, without a panic. Either it gives nothing, and has moved cursors at most; or it gives the
-- first message of the queue of a leaf, whose group has a slot left unless it is the node itself, and
-- takes it from that queue, moving cursors at most besides. The tree stays well formed.
pub dequeue_from_node_lem :
    (fuel : ℕ) (q : RoundRobinQueue) (a : ℕ)
    → IsValid q
    → a < length q.nodes
    → length q.nodes ≤ a + fuel
    → Returns (Outcome q a) (dequeue_from_node fuel q a)
unfolding dequeue_from_node
dequeue_from_node_lem zero q a v h f = absurd (omega arith)
dequeue_from_node_lem (suc fuel) q a v h f =
    let (n, there) = load_below q.nodes a h in
    rw there (
      at_node fuel q a n v there λ s c vs size after inside.
        dequeue_from_node_lem fuel s c vs (omega (arith, size, inside)) (omega (arith, size)))
  where
    at_node :
        (fuel : ℕ) (q : RoundRobinQueue) (a : ℕ) (n : GroupNode)
        → IsValid q
        → load q a ≡ some n
        → Descends (length q.nodes) (dequeue_from_node fuel) a
        → Returns (Outcome q a) (
            if is_empty n.children
            then pop_leaf q a n
            else if is_empty n.children_list
            then some (none, q)
            else (cursor n >>= λ start.
                visit
                  (dequeue_from_node fuel)
                  (length n.children_list)
                  a
                  start
                  (put q a (record n { current_child = some start }))))
    at_node fuel q a n v there descends = elim (Bool-cases (is_empty n.children)) [
      | inl bare ↦ rw bare (pop_leaf_lem q a n v there bare)
      | inr inner ↦ elim (Bool-cases (is_empty n.children_list)) [
        | inl no_names ↦ rw (inner, no_names) (returns (v, inl (refl, Walks-refl q)))
        | inr names ↦
            let w = v.nodes a n there in
            let (k, start, listed) = cursor_of_node (length q.nodes) a n w names in
            let m = record n { current_child = some k } in
            let q1 = put q a m in
            let v1 =
              put-IsValid q v a n there m
                (record {
                  queue = w.queue;
                  parent = w.parent;
                  children = w.children;
                  listed = w.listed;
                  cursor = λ i e. let same : k ≡ i = cc in rw (← same) listed;
                })
                refl in
            rw (inner, names)
              (rw start (
                Returns-map
                  (visit_lem (dequeue_from_node fuel) a (length q.nodes) descends
                    (length n.children_list) k q1 m k v1 (length-set q.nodes a m)
                    (load-set_self q.nodes a m (below_of_load q.nodes a n there)) refl)
                  λ r o. Outcome-after q q1 a r (Walks-put q a n there k) o))
      ]
    ]
