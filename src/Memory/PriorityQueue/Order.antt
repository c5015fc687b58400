-- ===== src/Memory/PriorityQueue/Order.antt =====
-- pkg/queue/memory/priority_memory_queue.go: Less is a total order, by priority and then by id.
use doq.Common.{◌≡◌, Bool, true, false, arith}
use doq.Memory.PriorityQueue.{Item, item_less}

-- `x` may stand before `y`.
abbrev pub Le : Bool → Item → Item → Type 0
Le min_first x y = item_less min_first y x ≡ false

pub item_less_irrefl : (m : Bool) (x : Item) → item_less m x x ≡ false
unfolding item_less
item_less_irrefl m x = ground arith

pub item_less_asymm : (m : Bool) (x y : Item) → item_less m x y ≡ true → item_less m y x ≡ false
unfolding item_less
item_less_asymm true x y h = ground arith
item_less_asymm false x y h = ground arith

pub Le-trans : (m : Bool) (x y z : Item) → Le m x y → Le m y z → Le m x z
unfolding item_less
Le-trans true x y z h k = ground arith
Le-trans false x y z h k = ground arith
