-- ===== src/Memory/PriorityQueue.antt =====
-- pkg/queue/memory/priority_memory_queue.go, with the functions of Go's container/heap that the
-- queues call on it: a binary heap of items in a slice, with the index of every item's id in a map.
-- `none` is a run-time panic, an index out of range or a nil item, or the model's fuel running out.
-- The map is a function; nothing in the code reads its size or its order.
pub mod Order
pub mod Slice
pub mod Index
pub mod Up
pub mod Down
pub mod Valid
pub mod Push
pub mod Members
pub mod Laws
pub mod Edit
use doq.Common.{
  ℕ, zero, suc, ◌+◌, ◌-◌, ◌*◌, ◌/◌, Bool, true, false, not, ◌||◌, ◌&&◌, List, [], ◌∷◌, ◌++◌, Option,
  none, some, ltb, leb, ◌==◌, if◌then◌else◌, ◌>>=◌, length, get_elem?, set, take,
}
use doq.Common.Int.{ℤ, ltb_ℤ, eqb_ℤ}
use doq.Common.Text.{Text}

pub record Item : Type 0 where
  pub id : ℕ
  pub priority : ℤ
  pub group : Text

pub record PriorityQueue : Type 0 where
  pub min_first : Bool
  pub items : List Item
  pub id_to_index : ℕ → Option ℕ

-- `m[k] = v` and `delete(m, k)` on the index map.
abbrev pub store : (ℕ → Option ℕ) → ℕ → ℕ → ℕ → Option ℕ
store m k v j = if j == k then some v else m j

abbrev pub unstore : (ℕ → Option ℕ) → ℕ → ℕ → Option ℕ
unstore m k j = if j == k then none else m j

abbrev pub new_priority_queue : Bool → PriorityQueue
new_priority_queue min_first = record { min_first = min_first; items = []; id_to_index = λ _. none }

abbrev pub size : PriorityQueue → ℕ
size pq = length pq.items

-- The comparison of Less, on the two items that it loads.
unfoldable pub item_less : Bool → Item → Item → Bool
item_less min_first x y =
    if eqb_ℤ x.priority y.priority
    then if min_first then ltb x.id y.id else ltb y.id x.id
    else if min_first
    then ltb_ℤ x.priority y.priority
    else ltb_ℤ y.priority x.priority

unfoldable pub less : PriorityQueue → ℕ → ℕ → Option Bool
less pq i j = do
  x ← get_elem? pq.items i
  y ← get_elem? pq.items j
  some (item_less pq.min_first x y)

unfoldable pub swap : PriorityQueue → ℕ → ℕ → Option PriorityQueue
swap pq i j =
    if ltb 0 (length pq.items)
    then (do
      y ← get_elem? pq.items j
      x ← get_elem? pq.items i
      some (record pq {
        items = set (set pq.items i y) j x;
        id_to_index = store (store pq.id_to_index y.id i) x.id j;
      }))
    else some pq

abbrev pub push : PriorityQueue → Item → PriorityQueue
push pq item = record pq {
  items = pq.items ++ (item ∷ []);
  id_to_index = store pq.id_to_index item.id (length pq.items);
}

-- Pop, the method: it takes the last item off the slice. A nil result is `none` in the pair.
unfoldable pub pop_last : PriorityQueue → Option (Option Item × PriorityQueue)
pop_last pq = if length pq.items == 0 then some (none, pq) else do
  let n = length pq.items
  item ← get_elem? pq.items (n - 1)
  let rest = take (n - 1) pq.items
  some (
    some item,
    if length rest == 0
        then record pq { items = []; id_to_index = λ _. none }
        else record pq { items = rest; id_to_index = unstore pq.id_to_index item.id },
  )

-- heap.up, with one round of fuel for each index on the way to the root.
unfoldable pub up_loop : ℕ → PriorityQueue → ℕ → Option PriorityQueue
up_loop zero pq j = none
up_loop (suc fuel) pq j =
    let i = (j - 1) / 2 in
    let rise = swap pq i j >>= λ pq'. up_loop fuel pq' i in
    if i == j then some pq else (do below ← less pq j i; if below then rise else some pq)

unfoldable pub up : PriorityQueue → ℕ → Option PriorityQueue
up pq j = up_loop (suc j) pq j

-- The choice of the smaller child in heap.down.
unfoldable pub smaller_child : PriorityQueue → ℕ → ℕ → Option ℕ
smaller_child pq j1 n =
    if ltb (j1 + 1) n
    then (do right ← less pq (j1 + 1) j1; some (if right then j1 + 1 else j1))
    else some j1

-- The loop of heap.down: the queue and the last value of `i`.
unfoldable pub down_loop : ℕ → PriorityQueue → ℕ → ℕ → Option (PriorityQueue × ℕ)
down_loop zero pq i n = none
down_loop (suc fuel) pq i n =
    let step : Option (PriorityQueue × ℕ) = do
      j ← smaller_child pq (2 * i + 1) n
      let sink = swap pq i j >>= λ pq'. down_loop fuel pq' j n
      below ← less pq j i
      if below then sink else some (pq, i)
    in if leb n (2 * i + 1) then some (pq, i) else step

-- heap.down reports whether the item moved.
unfoldable pub down : PriorityQueue → ℕ → ℕ → Option (PriorityQueue × Bool)
down pq i0 n = do r ← down_loop (suc n) pq i0 n; some (r.0, ltb i0 r.1)

unfoldable pub heap_push : PriorityQueue → Item → Option PriorityQueue
heap_push pq item = let pq' = push pq item in up pq' (size pq' - 1)

unfoldable pub heap_pop : PriorityQueue → Option (Option Item × PriorityQueue)
heap_pop pq = do
  let n = size pq - 1
  swapped ← swap pq 0 n
  sunk ← down swapped 0 n
  pop_last sunk.0

-- What follows the write at index `i` in heap.Remove and heap.Fix.
unfoldable pub down_or_up : PriorityQueue → ℕ → ℕ → Option PriorityQueue
down_or_up pq i n = do sunk ← down pq i n; if sunk.1 then some sunk.0 else up sunk.0 i

unfoldable pub heap_remove : PriorityQueue → ℕ → Option (Option Item × PriorityQueue)
heap_remove pq i = do
  let n = size pq - 1
  let moved = swap pq i n >>= λ swapped. down_or_up swapped i n
  pq' ← if n == i then some pq else moved
  pop_last pq'

unfoldable pub heap_fix : PriorityQueue → ℕ → Option PriorityQueue
heap_fix pq i = down_or_up pq i (size pq)

-- Peek panics on an empty queue.
unfoldable pub peek : PriorityQueue → Option Item
peek pq = get_elem? pq.items 0

-- Get: nil for an unknown id.
unfoldable pub get : PriorityQueue → ℕ → Option (Option Item)
get pq id = elim (pq.id_to_index id) [
  | none ↦ some none
  | some index ↦ (do item ← get_elem? pq.items index; some (some item))
]

-- The type assertion on a nil result panics.
abbrev pub assert_item : Option Item × PriorityQueue → Option (Item × PriorityQueue)
assert_item (none, pq) = none
assert_item (some item, pq) = some (item, pq)

unfoldable pub delete : PriorityQueue → ℕ → Option (Option Item × PriorityQueue)
delete pq id = elim (pq.id_to_index id) [
  | none ↦ some (none, pq)
  | some index ↦ (do
    popped ← heap_remove pq index
    r ← assert_item popped
    some (some r.0, record r.1 { id_to_index = unstore r.1.id_to_index id }))
]

-- `pq.items[index].Priority = priority`
unfoldable pub write_priority : PriorityQueue → ℕ → ℤ → Option PriorityQueue
write_priority pq index priority = do
  item ← get_elem? pq.items index
  some (record pq { items = set pq.items index (record item { priority = priority }) })

unfoldable pub update_priority : PriorityQueue → ℕ → ℤ → Option PriorityQueue
update_priority pq id priority = elim (pq.id_to_index id) [
  | none ↦ some pq
  | some index ↦ (do pq' ← write_priority pq index priority; heap_fix pq' index)
]
