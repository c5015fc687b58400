-- ===== src/Memory/RoundRobinQueue/Dequeue.antt =====
-- pkg/queue/memory/fair_round_robin_queue.go: taking messages out, in turn or by id.
use doq.Common.{
  ℕ, zero, suc, Bool, true, false, not, ◌&&◌, ◌||◌, List, [], ◌∷◌, Option, none, some, ltb, ◌==◌,
  if◌then◌else◌, ◌>>=◌, length,
}
use doq.Common.Int.{ℤ, pos, ◌-ℤ◌}
use doq.Common.Text.{Text, text_eq}
use doq.Common.Dict
use doq.Memory.PriorityQueue
use doq.Memory.PriorityQueue.{Item, PriorityQueue, size, heap_pop, assert_item}
use doq.Memory.RoundRobinQueue.{
  GroupNode, RoundRobinQueue, root, load, put, is_empty, under_limit, refresh_leaf_ready,
  count_path, decrement, take_slot,
}

abbrev pub first : List Text → Option Text
first [] = none
first (name ∷ _) = some name

-- The entry after a name, if there is one.
unfoldable pub next_child : List Text → Text → Option Text
next_child [] name = none
next_child (x ∷ xs) name = if text_eq x name then first xs else next_child xs name

-- `currentChild = currentChild.next`, around to the head.
abbrev pub following : List Text → Text → Option Text
following names name = elim (next_child names name) [ some next ↦ some next | none ↦ first names ]

unfoldable pub advance : RoundRobinQueue → ℕ → Option RoundRobinQueue
advance q a = do
  n ← load q a
  current ← n.current_child
  some (put q a (record n { current_child = following n.children_list current }))

abbrev pub is_current : RoundRobinQueue → ℕ → Text → Option Bool
is_current q a name = do n ← load q a; current ← n.current_child; some (text_eq current name)

-- One visit: the child at the cursor, unless its group has used up its slots.
unfoldable pub visit_child :
    (RoundRobinQueue → ℕ → Option (Option Item × RoundRobinQueue))
    → RoundRobinQueue
    → ℕ
    → Option (Option Item × RoundRobinQueue)
visit_child down q a = do
  n ← load q a
  current ← n.current_child
  child ← Dict.lookup n.children current
  c ← load q child
  if under_limit q c.group_key then down q child else some (none, q)

-- The visits that are left; the walk ends where it began.
unfoldable pub visit :
    (RoundRobinQueue → ℕ → Option (Option Item × RoundRobinQueue))
    → ℕ
    → ℕ
    → Text
    → RoundRobinQueue
    → Option (Option Item × RoundRobinQueue)
visit down zero a start q = some (none, q)
visit down (suc visits) a start q = do
  r ← visit_child down q a
  q' ← advance r.1 a
  around ← is_current q' a start
  elim r.0 [
    | some item ↦ some (some item, q')
    | none ↦ elim around [ true ↦ some (none, q') | false ↦ visit down visits a start q' ]
  ]

unfoldable pub pop_leaf : RoundRobinQueue → ℕ → GroupNode → Option (Option Item × RoundRobinQueue)
pop_leaf q a n =
    if ltb 0 (size n.queue)
    then (do
      popped ← heap_pop n.queue
      r ← assert_item popped
      some (some r.0, put q a (record n { queue = r.1 })))
    else some (none, q)

-- `currentChild`, or the head of the list.
abbrev pub cursor : GroupNode → Option Text
cursor n = elim n.current_child [ some name ↦ some name | none ↦ first n.children_list ]

unfoldable pub dequeue_from_node : ℕ → RoundRobinQueue → ℕ → Option (Option Item × RoundRobinQueue)
dequeue_from_node zero q a = none
dequeue_from_node (suc fuel) q a = do
  n ← load q a
  if is_empty n.children
      then pop_leaf q a n
      else if is_empty n.children_list
      then some (none, q)
      else (do
        start ← cursor n
        visit (dequeue_from_node fuel) (length n.children_list) a start
            (put q a (record n { current_child = some start })))

-- LinkedList.Remove of the first entry with a name.
unfoldable pub remove_entry : List Text → Text → List Text
remove_entry [] name = []
remove_entry (x ∷ xs) name = if text_eq x name then xs else x ∷ remove_entry xs name

abbrev pub is_at : Option Text → Text → Bool
is_at none name = false
is_at (some current) name = text_eq current name

-- What is left of a node when a child goes.
abbrev pub without_child : GroupNode → Text → GroupNode
without_child n name =
    let names = remove_entry n.children_list name in
    record n {
      children = Dict.remove n.children name;
      children_list = names;
      current_child = if is_at n.current_child name then first names else n.current_child;
    }

abbrev pub drop_ready : RoundRobinQueue → ℕ → GroupNode → RoundRobinQueue
drop_ready q a n =
    if n.ready
    then record (put q a (record n { ready = false })) { ready_leaves = q.ready_leaves -ℤ pos 1 }
    else q

unfoldable pub remove_empty_child : ℕ → RoundRobinQueue → ℕ → Text → Option RoundRobinQueue
remove_empty_child zero q a name = none
remove_empty_child (suc fuel) q a name = do
  n ← load q a
  child ← Dict.lookup n.children name
  c ← load q child
  let q1 = drop_ready q child c
  let q2 = record (put q1 a (without_child n name)) {
    group_key_to_leaf = Dict.remove q1.group_key_to_leaf c.group_key;
  }
  elim (not (a == root) && (n.message_count == 0)) [
    | true ↦ (do grand ← n.parent; remove_empty_child fuel q2 grand n.name)
    | false ↦ refresh_leaf_ready q2 a
  ]

-- The end of Dequeue and of Delete: a message has left the queue of a leaf.
unfoldable pub after_removal : RoundRobinQueue → ℕ → Option RoundRobinQueue
after_removal q leaf = do
  q1 ← count_path decrement (length q.nodes) q (some leaf)
  n ← load q1 leaf
  if n.message_count == 0
      then (do parent ← n.parent; remove_empty_child (length q1.nodes) q1 parent n.name)
      else refresh_leaf_ready q1 leaf

-- One message fewer.
abbrev pub drop_total : RoundRobinQueue → RoundRobinQueue
drop_total q = record q { total_messages = decrement q.total_messages }

unfoldable pub dequeue : RoundRobinQueue → Bool → ℕ → ℤ → Option (Option Item × RoundRobinQueue)
dequeue q ack seed now = do
  r ← dequeue_from_node (length q.nodes) q root
  elim r.0 [
    | none ↦ some (none, r.1)
    | some item ↦ (do
      let q1 = if ack then r.1 else take_slot r.1 item.group
      q2 ← elim (Dict.lookup q1.group_key_to_leaf item.group) [
        | none ↦ some q1
        | some leaf ↦ after_removal q1 leaf
      ]
      some (some item, drop_total q2))
  ]

unfoldable pub delete : RoundRobinQueue → Text → ℕ → Option (Option Item × RoundRobinQueue)
delete q group id = elim (Dict.lookup q.group_key_to_leaf group) [
  | none ↦ some (none, q)
  | some leaf ↦ (do
    n ← load q leaf
    r ← PriorityQueue.delete n.queue id
    elim r.0 [
      | none ↦ some (none, q)
      | some item ↦ (do
        q' ← after_removal (put q leaf (record n { queue = r.1 })) leaf
        some (some item, drop_total q'))
    ])
]

unfoldable pub any_ready : (ℕ → Option Bool) → RoundRobinQueue → List (Text × ℕ) → Option Bool
any_ready down q [] = some false
any_ready down q ((name, child) ∷ rest) = do
  c ← load q child
  below ← (if under_limit q c.group_key then down child else some false)
  later ← any_ready down q rest
  some (below || later)

-- Whether a walk would find a message: the oracle of the program's tests.
unfoldable pub has_ready_node : ℕ → RoundRobinQueue → ℕ → Option Bool
has_ready_node zero q a = none
has_ready_node (suc fuel) q a = do
  n ← load q a
  if is_empty n.children
      then some (ltb 0 (size n.queue))
      else any_ready (has_ready_node fuel q) q n.children
