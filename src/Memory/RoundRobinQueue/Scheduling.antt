-- ===== src/Memory/RoundRobinQueue/Scheduling.antt =====
-- pkg/queue/memory/fair_round_robin_queue.go: the order of the children and the cursors, which snapshots
-- keep beside the messages.
use doq.Common.{
  ℕ, zero, suc, Bool, true, false, List, [], ◌∷◌, ◌++◌, Option, none, some, if◌then◌else◌, ◌>>=◌,
  length,
}
use mathlib.Core.Option
use doq.Common.Text.{Text}
use doq.Common.Dict
use doq.Memory.RoundRobinQueue.{
  GroupNode, RoundRobinQueue, root, load, put, is_empty, split, contains,
}

pub record SchedulingNode : Type 0 where
  pub path : Text
  pub children : List Text
  pub current : Text

abbrev pub state_of : GroupNode → SchedulingNode
state_of n = record {
  path = n.group_key;
  children = n.children_list;
  current = Option.get_or n.current_child [];
}

unfoldable pub walk_children :
    (ℕ → Option (List SchedulingNode)) → List (Text × ℕ) → List Text → Option (List SchedulingNode)
walk_children down children [] = some []
walk_children down children (name ∷ names) = do
  child ← Dict.lookup children name
  here ← down child
  rest ← walk_children down children names
  some (here ++ rest)

unfoldable pub walk : ℕ → RoundRobinQueue → ℕ → Option (List SchedulingNode)
walk zero q a = none
walk (suc fuel) q a = do
  n ← load q a
  if is_empty n.children_list then some [] else (do
    rest ← walk_children (walk fuel q) n.children n.children_list
    some (state_of n ∷ rest))

unfoldable pub scheduling_state : RoundRobinQueue → Option (List SchedulingNode)
scheduling_state q = walk (length q.nodes) q root

abbrev pub has_child : GroupNode → Text → Bool
has_child n name = elim (Dict.lookup n.children name) [ none ↦ false | some _ ↦ true ]

-- The names of the state that are children, each once.
unfoldable pub listed : GroupNode → List Text → List Text → List Text
listed n seen [] = []
listed n seen (name ∷ names) =
    let known = listed n (name ∷ seen) names in
    let other = listed n seen names in
    if has_child n name then (if contains seen name then other else name ∷ known) else other

unfoldable pub unlisted : List Text → List Text → List Text
unlisted seen [] = []
unlisted seen (name ∷ names) =
    let rest = unlisted seen names in if contains seen name then rest else name ∷ rest

unfoldable pub restore_node : GroupNode → SchedulingNode → GroupNode
unfolding listed unlisted
restore_node n s =
    let known = listed n [] s.children in
    let ordered = known ++ unlisted known n.children_list in
    record n {
      children_list = ordered;
      current_child = if contains ordered s.current then some s.current else none;
    }

-- The node at a path, if the tree has it.
unfoldable pub find_node : RoundRobinQueue → ℕ → List Text → Option (Option ℕ)
find_node q a [] = some (some a)
find_node q a (name ∷ names) = do
  n ← load q a
  elim (Dict.lookup n.children name) [ none ↦ some none | some child ↦ find_node q child names ]

unfoldable pub restore_scheduling_state :
    RoundRobinQueue → List SchedulingNode → Option RoundRobinQueue
restore_scheduling_state q [] = some q
restore_scheduling_state q (s ∷ rest) = do
  found ← (if is_empty s.path then some (some root) else find_node q root (split s.path))
  q' ← elim found [ none ↦ some q | some a ↦ (do n ← load q a; some (put q a (restore_node n s))) ]
  restore_scheduling_state q' rest
