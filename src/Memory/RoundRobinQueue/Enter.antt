-- ===== src/Memory/RoundRobinQueue/Enter.antt =====
-- pkg/queue/memory/fair_round_robin_queue.go: the walk of Enqueue down the path of a group, which makes
-- the nodes that are missing.
use doq.Common.{
  ℕ, zero, suc, ◌+◌, ◌<◌, ◌≡◌, refl, Bool, true, false, ◌||◌, List, [], ◌∷◌, ◌++◌, none, some,
  arith, length, length-append, get_elem?, set, ap, sym, ◌∙◌, ◌⊎◌, inl, inr, Returns, returns,
  Returns-map, Returns-bind, Option-cases, Bool-cases,
}
use doq.Common.Int.{pos}
use doq.Common.Text.{Text, text_eq}
use doq.Common.Dict
use doq.Common.Dict.{lookup-insert}
use doq.Memory.PriorityQueue.Valid.{new_queue-IsValid}
use doq.Memory.RoundRobinQueue.{
  GroupNode, RoundRobinQueue, new_group_node, load, child_key, add_child, enter, enter_from,
  enter_path, contains,
}
use doq.Memory.RoundRobinQueue.Valid.{
  IsNode, IsValid, load_below, below_of_load, length-set, load-set, count_ready, count_ready-set,
  count_ready-append,
}
use doq.Memory.RoundRobinQueue.Kept.{Keeps, refresh_leaf_ready_lem}

load-append :
    (ns : List GroupNode) (c : GroupNode) (b : ℕ) (m : GroupNode)
    → get_elem? (ns ++ (c ∷ [])) b ≡ some m
    → (get_elem? ns b ≡ some m) ⊎ ((length ns ≡ b) × (c ≡ m))
load-append [] c zero m e = inr (refl, cc)
load-append [] c (suc b) m e = cc
load-append (n ∷ ns) c zero m e = inl e
load-append (n ∷ ns) c (suc b) m e = elim (load-append ns c b m e) [
  | inl old ↦ inl old
  | inr (l, same) ↦ inr (ap suc l, same)
]

or-false : {b : Bool} → (b || false) ≡ b
or-false {b} = ground arith

contains-append :
    (names : List Text) (name k : Text)
    → contains (names ++ (name ∷ [])) k ≡ (contains names k || text_eq name k)
unfolding contains
contains-append [] name k = or-false
contains-append (x ∷ names) name k = ground (arith, contains-append names name k)

-- No queue of the tree has the id.
abbrev pub IsFresh : RoundRobinQueue → ℕ → Type 0
IsFresh q id = (b : ℕ) (m : GroupNode) → load q b ≡ some m → m.queue.id_to_index id ≡ none

-- The tree may have grown; the address is in it.
pub record Enters (q : RoundRobinQueue) (id : ℕ) (r : ℕ × RoundRobinQueue) : Type 0 where
  pub valid : IsValid r.1
  pub inside : r.0 < length r.1.nodes
  pub fresh : IsFresh r.1 id
  pub leaves : r.1.group_key_to_leaf ≡ q.group_key_to_leaf
  pub total : r.1.total_messages ≡ q.total_messages
  pub slots : r.1.unacked_by_group ≡ q.unacked_by_group

module _ (q : RoundRobinQueue) (v : IsValid q) (a : ℕ) (n : GroupNode) (there : load q a ≡ some n)
    (name : Text) where
  abbrev grown_parent : GroupNode
  grown_parent = record n {
    children = Dict.insert n.children name (length q.nodes);
    children_list = n.children_list ++ (name ∷ []);
  }

  abbrev grown_child : GroupNode
  grown_child = record (new_group_node name (some a)) { group_key = child_key n.group_key name }

  abbrev grown : RoundRobinQueue
  grown = record q { nodes = set q.nodes a grown_parent ++ (grown_child ∷ []) }

  grown_size : length grown.nodes ≡ length q.nodes + 1
  grown_size = omega (
    arith,
    length-append (set q.nodes a grown_parent) (grown_child ∷ []),
    length-set q.nodes a grown_parent,
  )

  -- What stands in the grown store.
  grown_nodes :
      (b : ℕ) (m : GroupNode)
      → load grown b ≡ some m
      → ((a ≡ b) × (grown_parent ≡ m))
        ⊎ ((load q b ≡ some m) ⊎ ((length q.nodes ≡ b) × (grown_child ≡ m)))
  grown_nodes b m e = elim (load-append (set q.nodes a grown_parent) grown_child b m e) [
    | inr (l, same) ↦ inr (inr (sym (length-set q.nodes a grown_parent) ∙ l, same))
    | inl old ↦ elim (load-set q.nodes a b grown_parent m old) [
      | inl here ↦ inl here
      | inr older ↦ inr (inl older)
    ]
  ]

  grown_parent-IsNode : IsNode (length grown.nodes) a grown_parent
  grown_parent-IsNode =
      let w = v.nodes a n there in
      let below = below_of_load q.nodes a n there in
      record {
        queue = w.queue;
        parent = w.parent;
        children = λ k c e. elim (Bool-cases (text_eq name k)) [
          | inl new ↦
              let at = rw (lookup-insert n.children name (length q.nodes) k, new) at e in
              let same : length q.nodes ≡ c = cc in omega (arith, same, below, grown_size)
          | inr other ↦
              let at = rw (lookup-insert n.children name (length q.nodes) k, other) at e in
              omega (arith, w.children k c at, grown_size)
        ];
        listed = λ k e. elim (Bool-cases (text_eq name k)) [
          | inl new ↦
              (length q.nodes, rw (lookup-insert n.children name (length q.nodes) k, new) refl)
          | inr other ↦
              let old = rw (contains-append n.children_list name k, other, or-false) at e in
              let (c, there') = w.listed k old in
              (c, rw (lookup-insert n.children name (length q.nodes) k, other) there')
        ];
        cursor = λ k e. rw (contains-append n.children_list name k) (ground (arith, w.cursor k e));
      }

  grown-IsValid : IsValid grown
  grown-IsValid =
      let below = below_of_load q.nodes a n there in
      record {
        rooted = omega (arith, grown_size);
        nodes = λ b m e. elim (grown_nodes b m e) [
          | inl (p, same) ↦ rw (← p, ← same) grown_parent-IsNode
          | inr old ↦ elim old [
            | inl older ↦
                let w = v.nodes b m older in
                record {
                  queue = w.queue;
                  parent = w.parent;
                  children = λ k c f. omega (arith, w.children k c f, grown_size);
                  listed = w.listed;
                  cursor = w.cursor;
                }
            | inr (p, same) ↦
                rw (← p, ← same)
                  (record {
                    queue = new_queue-IsValid true;
                    parent = λ p f. let up : a ≡ p = cc in omega (arith, below, up);
                    children = λ k c f. absurd (no_children k c f);
                    listed = λ k f. unfold contains in cc f;
                    cursor = λ k f. cc;
                  })
          ]
        ];
        leaves = λ k b e. omega (arith, v.leaves k b e, grown_size);
        counted = v.counted ∙ ap pos (sym same_count);
      }
    where
      no_children : (k : Text) (c : ℕ) → Dict.lookup {V = ℕ} [] k ≡ some c → ⊥
      no_children k c f = unfold Dict.lookup in cc f

      count_one : count_ready (grown_child ∷ []) ≡ 0
      count_one = unfold count_ready in refl

      same_count : count_ready grown.nodes ≡ count_ready q.nodes
      same_count = omega (
        arith,
        count_ready-append (set q.nodes a grown_parent) (grown_child ∷ []),
        count_ready-set q.nodes a n grown_parent there,
        count_one,
      )

  grown-IsFresh : (id : ℕ) → IsFresh q id → IsFresh grown id
  grown-IsFresh id f b m e = elim (grown_nodes b m e) [
    | inl (p, same) ↦ rw (← same) (f a n there)
    | inr old ↦ elim old [ inl older ↦ f b m older | inr (p, same) ↦ rw (← same) refl ]
  ]

Keeps-IsFresh : (q q' : RoundRobinQueue) (id : ℕ) → Keeps q q' → IsFresh q id → IsFresh q' id
Keeps-IsFresh q q' id k f b m e =
    let (m0, there) = load_below q.nodes b (omega (arith, below_of_load q'.nodes b m e, k.size)) in
    let (m1, now, same) = k.queues b m0 there in
    let one : m1 ≡ m = cc in rw (← one) (rw same (f b m0 there))

enter_from_lem :
    (q : RoundRobinQueue) (a id : ℕ) (n : GroupNode) (name : Text)
    → IsValid q
    → load q a ≡ some n
    → IsFresh q id
    → Returns (Enters q id) (enter_from q a n name)
unfolding enter_from add_child
enter_from_lem q a id n name v there f = elim (Option-cases (Dict.lookup n.children name)) [
  | inr (c, known) ↦
      rw (known, enter_from)
        (returns (record {
          valid = v;
          inside = ((v.nodes a n there).children name c known).1;
          fresh = f;
          leaves = refl;
          total = refl;
          slots = refl;
        }))
  | inl new ↦
      let g = grown q v a n there name in
      rw (new, enter_from)
        (Returns-bind
          (refresh_leaf_ready_lem g a (grown-IsValid q v a n there name)
            (omega (arith, grown_size q v a n there name, below_of_load q.nodes a n there)))
          λ s t. returns (record {
            valid = t.0;
            inside = omega (arith, t.1.size, grown_size q v a n there name);
            fresh = Keeps-IsFresh g s id t.1 (grown-IsFresh q v a n there name id f);
            leaves = t.1.leaves;
            total = t.1.total;
            slots = t.1.slots;
          }))
]

enter_lem :
    (q : RoundRobinQueue) (a id : ℕ) (name : Text)
    → IsValid q
    → a < length q.nodes
    → IsFresh q id
    → Returns (Enters q id) (enter q a name)
unfolding enter
enter_lem q a id name v h f =
    let (n, there) = load_below q.nodes a h in rw there (enter_from_lem q a id n name v there f)

pub enter_path_lem :
    (names : List Text) (q : RoundRobinQueue) (a id : ℕ)
    → IsValid q
    → a < length q.nodes
    → IsFresh q id
    → Returns (Enters q id) (enter_path q a names)
unfolding enter_path
enter_path_lem [] q a id v h f =
    returns (record { valid = v; inside = h; fresh = f; leaves = refl; total = refl; slots = refl })
enter_path_lem (name ∷ names) q a id v h f =
    Returns-bind (enter_lem q a id name v h f) λ (r : ℕ × RoundRobinQueue) t.
      Returns-map (enter_path_lem names r.1 r.0 id t.valid t.inside t.fresh) λ s u. record {
        valid = u.valid;
        inside = u.inside;
        fresh = u.fresh;
        leaves = u.leaves ∙ t.leaves;
        total = u.total ∙ t.total;
        slots = u.slots ∙ t.slots;
      }
