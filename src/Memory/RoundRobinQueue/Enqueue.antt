-- ===== src/Memory/RoundRobinQueue/Enqueue.antt =====
-- pkg/queue/memory/fair_round_robin_queue.go: Enqueue makes the path of a group and puts the message at
-- its end.
use doq.Common.{
  ℕ, ◌<◌, ◌≡◌, refl, none, some, arith, length, ap, ◌∙◌, inl, inr, Returns, Returns-map,
  Returns-bind, Bool-cases, if◌then◌else◌, ◌>>=◌,
}
use doq.Common.Text.{Text, text_eq, text_eq_refl, bytes}
use doq.Common.Dict
use doq.Common.Dict.{lookup-insert}
use doq.Memory.PriorityQueue
use doq.Memory.PriorityQueue.{Item, PriorityQueue, new_priority_queue, heap_push}
use doq.Memory.PriorityQueue.Push.{heap_push_lem}
use doq.Memory.PriorityQueue.Members.{get_of_Holds}
use doq.Memory.RoundRobinQueue.{
  GroupNode, RoundRobinQueue, root, load, put, is_empty, enqueue, increment, count_path,
  refresh_leaf_ready, get, split,
}
use doq.Memory.RoundRobinQueue.Valid.{
  IsValid, load_below, below_of_load, length-set, load-set_self, put-IsValid,
}
use doq.Memory.RoundRobinQueue.Kept.{Keeps, refresh_leaf_ready_lem, count_path_lem}
use doq.Memory.RoundRobinQueue.Enter.{IsFresh, enter_path_lem}

-- The message stands in the queue of the leaf that its group leads to.
pub record Queued (q : RoundRobinQueue) (group : Text) (item : Item) (q' : RoundRobinQueue)
    : Type 0 where
  pub valid : IsValid q'
  pub total : q'.total_messages ≡ increment q.total_messages
  pub slots : q'.unacked_by_group ≡ q.unacked_by_group
  pub found : get q' group item.id ≡ some (some (record item { group = group }))

module _ (q : RoundRobinQueue) (leaf : ℕ) (group : Text) (item : Item) where
  abbrev placed : Item
  placed = record item { group = group }

  -- The leaf of the store holds the message.
  abbrev HasPlaced : RoundRobinQueue → Type 0
  HasPlaced s =
      (n : GroupNode) × (load s leaf ≡ some n)
      × (PriorityQueue.get n.queue item.id ≡ some (some placed))

  -- Whatever keeps the queues keeps the message.
  HasPlaced-Keeps : (r s : RoundRobinQueue) → Keeps r s → HasPlaced r → HasPlaced s
  HasPlaced-Keeps r s k (n, there, got) =
      let (n', now, same) = k.queues leaf n there in (n', now, rw same got)

  -- The leaf enters the map, the message is counted and the flag is refreshed.
  finish :
      (s : RoundRobinQueue)
      → HasPlaced s
      → leaf < length s.nodes
      → IsValid s
      → increment s.total_messages ≡ increment q.total_messages
      → s.unacked_by_group ≡ q.unacked_by_group
      → Returns (Queued q group item) (
          refresh_leaf_ready
            (record s {
              group_key_to_leaf = Dict.insert s.group_key_to_leaf group leaf;
              total_messages = increment s.total_messages;
            })
            leaf)
  finish s has inside v total slots =
      let s1 : RoundRobinQueue = record s {
        group_key_to_leaf = Dict.insert s.group_key_to_leaf group leaf;
        total_messages = increment s.total_messages;
      } in
      let v1 : IsValid s1 = record {
        rooted = v.rooted;
        nodes = v.nodes;
        leaves = λ k a e. elim (Bool-cases (text_eq group k)) [
          | inl same ↦
              let at = rw (lookup-insert s.group_key_to_leaf group leaf k, same) at e in
              let here : leaf ≡ a = cc in rw (← here) inside
          | inr other ↦
              v.leaves k a (rw (lookup-insert s.group_key_to_leaf group leaf k, other) at e)
        ];
        counted = v.counted;
      } in
      Returns-map (refresh_leaf_ready_lem s1 leaf v1 inside) λ q' t.
        let (n, there, got) = HasPlaced-Keeps s1 q' t.1 has in
        let mapped : Dict.lookup q'.group_key_to_leaf group ≡ some leaf =
          rw (t.1.leaves)
            (rw (lookup-insert s.group_key_to_leaf group leaf group, text_eq_refl group) refl) in
        record {
          valid = t.0;
          total = t.1.total ∙ total;
          slots = t.1.slots ∙ slots;
          found = found q' n mapped there got;
        }
    where
      found :
          (q' : RoundRobinQueue) (n : GroupNode)
          → Dict.lookup q'.group_key_to_leaf group ≡ some leaf
          → load q' leaf ≡ some n
          → PriorityQueue.get n.queue item.id ≡ some (some placed)
          → get q' group item.id ≡ some (some placed)
      found q' n mapped there got = unfold get in rw (mapped, get) (rw there got)

  -- The end of Enqueue, when the path has been entered.
  enqueue_at :
      (n : GroupNode)
      → IsValid q
      → load q leaf ≡ some n
      → n.queue.id_to_index item.id ≡ none
      → Returns (Queued q group item) (
          heap_push n.queue placed >>= λ queue.
          count_path increment
            (length q.nodes)
            (put q leaf (record n { queue = queue }))
            (some leaf)
          >>= λ q2.
              refresh_leaf_ready
                (record q2 {
                  group_key_to_leaf = Dict.insert q2.group_key_to_leaf group leaf;
                  total_messages = increment q2.total_messages;
                })
                leaf)
  enqueue_at n v there f =
      let w = v.nodes leaf n there in
      let inside = below_of_load q.nodes leaf n there in
      Returns-bind (heap_push_lem n.queue placed w.queue f) λ queue held.
        let m = record n { queue = queue } in
        let q1 = put q leaf m in
        let v1 =
          put-IsValid q v leaf n there m
            (record {
              queue = held.valid;
              parent = w.parent;
              children = w.children;
              listed = w.listed;
              cursor = w.cursor;
            })
            refl in
        let size = length-set q.nodes leaf m in
        Returns-bind
          (count_path_lem increment (length q.nodes) q1 leaf v1 (omega (arith, size, inside))
            inside)
          λ q2 t.
            finish q2
              (HasPlaced-Keeps q1 q2 t.1
                (m, load-set_self q.nodes leaf m inside, get_of_Holds n.queue queue placed held))
              (omega (arith, size, t.1.size, inside)) t.0 (ap increment t.1.total) t.1.slots

abbrev pub group_of : Text → Text
group_of name = if is_empty name then bytes "default" else name

-- Enqueue on a well-formed tree, with an id that no group has, returns: the walks down the path and up
-- the counts end without a panic. The tree is well formed again, its counter of ready leaves the number
-- of flagged nodes, and Get finds the message under its group ("default" for the empty name), which it
-- now carries. One more message is counted, modulo 2 ^ 64; the counters of slots stay.
pub enqueue-get :
    (q : RoundRobinQueue) (name : Text) (item : Item)
    → IsValid q
    → IsFresh q item.id
    → Returns (Queued q (group_of name) item) (enqueue q name item)
unfolding enqueue
enqueue-get q name item v f =
    let group = group_of name in
    Returns-bind (enter_path_lem (split group) q root item.id v v.rooted f)
      λ (r : ℕ × RoundRobinQueue) t.
        let (n, there) = load_below r.1.nodes r.0 t.inside in
        rw there (
          Returns-map (enqueue_at r.1 r.0 group item n t.valid there (t.fresh r.0 n there)) λ q' u.
            record {
              valid = u.valid;
              total = u.total ∙ ap increment t.total;
              slots = u.slots ∙ t.slots;
              found = u.found;
            })
