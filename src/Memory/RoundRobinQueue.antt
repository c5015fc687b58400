-- ===== src/Memory/RoundRobinQueue.antt =====
-- pkg/queue/memory/fair_round_robin_queue.go: a tree of groups, one level for each part of a dotted
-- group name, whose inner nodes serve their children in turn. The nodes are shared by pointers (parent,
-- children, the map of leaves), so they stand in a store: a pointer is an index in `nodes`, the root is
-- 0, and a node that has left the tree stays in the store. A LinkedList of children (linked_list.go) is
-- the list of their names, and a pointer to one of its entries is the name, since names in it do not
-- repeat. The lock gives each call the queue to itself. `none` is a run-time panic, or the end of the
-- fuel of a walk up or down the tree; walks have as much fuel as there are nodes in the store.
pub mod Valid
pub mod Kept
pub mod Enter
pub mod Enqueue
pub mod Slots
pub mod Walks
pub mod Advance
pub mod Pick
pub mod Restore
pub mod Dequeue
pub mod Scheduling
mod Tests
use doq.Common.{
  ℕ, zero, suc, ◌+◌, ◌-◌, ◌%◌, ◌^◌, Bool, true, false, not, ◌&&◌, ◌||◌, List, [], ◌∷◌, ◌++◌, Option,
  none, some, ltb, ◌==◌, if◌then◌else◌, ◌>>=◌, length, get_elem?, set,
}
use mathlib.Core.Option
use doq.Common.Int.{ℤ, pos, ltb_ℤ, leb_ℤ, eqb_ℤ, ◌+ℤ◌, ◌-ℤ◌}
use doq.Common.Text.{Text, bytes, text_eq}
use doq.Common.Dict
use doq.Memory.PriorityQueue
use doq.Memory.PriorityQueue.{Item, PriorityQueue, size, new_priority_queue, heap_push}
use doq.Memory.WeightedQueue.{max_int64, set_unacked, drop_unacked}

pub record GroupNode : Type 0 where
  pub name : Text
  pub children : List (Text × ℕ)
  pub children_list : List Text
  pub current_child : Option Text
  pub queue : PriorityQueue
  pub parent : Option ℕ
  pub message_count : ℕ
  pub group_key : Text
  pub ready : Bool

abbrev pub new_group_node : Text → Option ℕ → GroupNode
new_group_node name parent = record {
  name = name;
  children = [];
  children_list = [];
  current_child = none;
  queue = new_priority_queue true;
  parent = parent;
  message_count = 0;
  group_key = [];
  ready = false;
}

pub record RoundRobinQueue : Type 0 where
  pub nodes : List GroupNode
  pub max_unacked : ℤ
  pub unacked_by_group : Text → Option ℤ
  pub total_messages : ℕ
  pub group_key_to_leaf : List (Text × ℕ)
  pub ready_leaves : ℤ

abbrev pub root : ℕ
root = 0

abbrev pub limit_of : ℤ → ℤ
limit_of max_unacked = if eqb_ℤ max_unacked (pos 0) then max_int64 else max_unacked

unfoldable pub new_fair_round_robin_queue : ℤ → RoundRobinQueue
new_fair_round_robin_queue max_unacked = record {
  nodes = new_group_node (bytes "root") none ∷ [];
  max_unacked = limit_of max_unacked;
  unacked_by_group = λ _. none;
  total_messages = 0;
  group_key_to_leaf = [];
  ready_leaves = pos 0;
}

abbrev pub load : RoundRobinQueue → ℕ → Option GroupNode
load q a = get_elem? q.nodes a

abbrev pub put : RoundRobinQueue → ℕ → GroupNode → RoundRobinQueue
put q a n = record q { nodes = set q.nodes a n }

abbrev pub is_empty {ℓ} : {A : Type ℓ} → List A → Bool
is_empty [] = true
is_empty (_ ∷ _) = false

unfoldable pub contains : List Text → Text → Bool
contains [] name = false
contains (x ∷ xs) name = text_eq x name || contains xs name

-- A missing counter reads as 0.
abbrev pub under_limit : RoundRobinQueue → Text → Bool
under_limit q key = ltb_ℤ (Option.get_or (q.unacked_by_group key) (pos 0)) q.max_unacked

-- A leaf with a message, in a group below its limit.
abbrev pub is_ready_leaf : RoundRobinQueue → GroupNode → Bool
is_ready_leaf q n = is_empty n.children && (ltb 0 (size n.queue) && under_limit q n.group_key)

-- The new flag of a node, and the counter that follows it.
abbrev pub set_ready : RoundRobinQueue → ℕ → GroupNode → Bool → Bool → RoundRobinQueue
set_ready q a n true true = q
set_ready q a n false false = q
set_ready q a n false true = record (put q a (record n { ready = true })) {
  ready_leaves = q.ready_leaves +ℤ pos 1;
}
set_ready q a n true false = record (put q a (record n { ready = false })) {
  ready_leaves = q.ready_leaves -ℤ pos 1;
}

unfoldable pub refresh_leaf_ready : RoundRobinQueue → ℕ → Option RoundRobinQueue
refresh_leaf_ready q a = do n ← load q a; some (set_ready q a n n.ready (is_ready_leaf q n))

-- Refreshing what the map of leaves has under a group, if anything.
unfoldable pub refresh_group : RoundRobinQueue → Text → Option RoundRobinQueue
refresh_group q group = elim (Dict.lookup q.group_key_to_leaf group) [
  | none ↦ some q
  | some leaf ↦ refresh_leaf_ready q leaf
]

-- The order of the map's entries makes no difference.
unfoldable pub refresh_all : RoundRobinQueue → List (Text × ℕ) → Option RoundRobinQueue
refresh_all q [] = some q
refresh_all q ((group, leaf) ∷ rest) = do q' ← refresh_leaf_ready q leaf; refresh_all q' rest

unfoldable pub update_max_unacked : RoundRobinQueue → ℤ → Option RoundRobinQueue
update_max_unacked q max_unacked =
    refresh_all (record q { max_unacked = limit_of max_unacked }) q.group_key_to_leaf

-- strings.Split(s, ".")
abbrev pub split_at : ℕ → List Text → List Text
split_at c [] = []
split_at c (part ∷ parts) = if c == 46 then [] ∷ part ∷ parts else (c ∷ part) ∷ parts

unfoldable pub split : Text → List Text
split [] = [] ∷ []
split (c ∷ s) = split_at c (split s)

abbrev pub child_key : Text → Text → Text
child_key parent_key name = if is_empty parent_key then name else parent_key ++ (46 ∷ name)

unfoldable pub add_child : RoundRobinQueue → ℕ → GroupNode → Text → Option RoundRobinQueue
add_child q a n name =
    let child = record (new_group_node name (some a)) { group_key = child_key n.group_key name } in
    let parent = record n {
      children = Dict.insert n.children name (length q.nodes);
      children_list = n.children_list ++ (name ∷ []);
    } in
    refresh_leaf_ready (record q { nodes = set q.nodes a parent ++ (child ∷ []) }) a

-- The child of a node with a name, which is made if it is missing.
unfoldable pub enter_from : RoundRobinQueue → ℕ → GroupNode → Text → Option (ℕ × RoundRobinQueue)
enter_from q a n name = elim (Dict.lookup n.children name) [
  | some child ↦ some (child, q)
  | none ↦ (do q' ← add_child q a n name; some (length q.nodes, q'))
]

unfoldable pub enter : RoundRobinQueue → ℕ → Text → Option (ℕ × RoundRobinQueue)
enter q a name = do n ← load q a; enter_from q a n name

unfoldable pub enter_path : RoundRobinQueue → ℕ → List Text → Option (ℕ × RoundRobinQueue)
enter_path q a [] = some (a, q)
enter_path q a (name ∷ names) = do (child, q') ← enter q a name; enter_path q' child names

abbrev pub increment : ℕ → ℕ
increment count = (count + 1) % 2 ^ 64

abbrev pub decrement : ℕ → ℕ
decrement count = (count + (2 ^ 64 - 1)) % 2 ^ 64

-- The loop that changes the counts from a node up to the root.
unfoldable pub count_path : (ℕ → ℕ) → ℕ → RoundRobinQueue → Option ℕ → Option RoundRobinQueue
count_path change fuel q none = some q
count_path change zero q (some a) = none
count_path change (suc fuel) q (some a) = do
  n ← load q a
  count_path change fuel (put q a (record n { message_count = change n.message_count })) n.parent

unfoldable pub enqueue : RoundRobinQueue → Text → Item → Option RoundRobinQueue
enqueue q group_name item =
    let group = if is_empty group_name then bytes "default" else group_name in
    do
      (leaf, q1) ← enter_path q root (split group)
      n ← load q1 leaf
      queue ← heap_push n.queue (record item { group = group })
      q2 ←
          count_path increment (length q1.nodes) (put q1 leaf (record n { queue = queue }))
            (some leaf)
      refresh_leaf_ready
          (record q2 {
            group_key_to_leaf = Dict.insert q2.group_key_to_leaf group leaf;
            total_messages = increment q2.total_messages;
          })
          leaf

unfoldable pub peek_ready : RoundRobinQueue → Bool
peek_ready q = ltb_ℤ (pos 0) q.ready_leaves

unfoldable pub get : RoundRobinQueue → Text → ℕ → Option (Option Item)
get q group id = elim (Dict.lookup q.group_key_to_leaf group) [
  | none ↦ some none
  | some leaf ↦ (do n ← load q leaf; PriorityQueue.get n.queue id)
]

unfoldable pub update_priority : RoundRobinQueue → Text → ℕ → ℤ → Option RoundRobinQueue
update_priority q group id priority = elim (Dict.lookup q.group_key_to_leaf group) [
  | none ↦ some q
  | some leaf ↦ (do
    n ← load q leaf
    queue ← PriorityQueue.update_priority n.queue id priority
    some (put q leaf (record n { queue = queue })))
]

abbrev pub len : RoundRobinQueue → ℕ
len q = q.total_messages

-- A slot is given back; a counter that reaches 0 goes.
unfoldable pub update_weights : RoundRobinQueue → Text → ℕ → Option RoundRobinQueue
update_weights q group id = elim (q.unacked_by_group group) [
  | none ↦ some q
  | some count ↦
      refresh_group
        (record q {
          unacked_by_group =
              if leb_ℤ (count -ℤ pos 1) (pos 0)
              then drop_unacked q.unacked_by_group group
              else set_unacked q.unacked_by_group group (count -ℤ pos 1);
        })
        group
]

-- `unackedByGroup[group]++`
abbrev pub take_slot : RoundRobinQueue → Text → RoundRobinQueue
take_slot q group = record q {
  unacked_by_group =
      set_unacked q.unacked_by_group group
        (Option.get_or (q.unacked_by_group group) (pos 0) +ℤ pos 1);
}

unfoldable pub mark_unacked : RoundRobinQueue → Text → Option RoundRobinQueue
mark_unacked q group = refresh_group (take_slot q group) group
