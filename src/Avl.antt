-- ===== src/Avl.antt =====
-- pkg/weighted_avl/weighted_avl.go: the balanced tree of group weights that a weighted fair queue
-- samples from. A tree is owned by its root, so that a write through a pointer is the tree with
-- that node changed. Weights are the results of CalculateWeight, which are never negative; sums
-- and heights of trees in memory stay far below 2^63. `none` is a nil dereference.
pub mod Spec
pub mod Steps
pub mod Shape
pub mod Balance
pub mod Shrink
pub mod Kept
pub mod Entries
pub mod Sampling
mod Tests
use Prim.Native.Nat.{bit_xor}
use doq.Common.{
  ℕ, ◌+◌, ◌-◌, ◌*◌, ◌/◌, ◌%◌, ◌^◌, Bool, Option, none, some, List, [], ◌∷◌, ◌++◌, ltb, ◌==◌,
  if◌then◌else◌, ◌>>=◌,
}
use doq.Common.Int.{ℤ, pos, negsuc, sub_ℕ, ltb_ℤ}
use doq.Common.Text.{Text, text_lt}

-- `leaf` is the nil pointer.
pub data Tree : Type 0 where
  leaf : Tree
  node : (key : Text) (weight sum height : ℕ) (left right : Tree) → Tree

abbrev pub height : Tree → ℕ
height leaf = 0
height (node k w s h l r) = h

abbrev pub sum : Tree → ℕ
sum leaf = 0
sum (node k w s h l r) = s

unfoldable pub max : ℕ → ℕ → ℕ
max a b = if ltb b a then a else b

abbrev pub update : Tree → Tree
update leaf = leaf
update (node k w s h l r) = node k w (w + sum l + sum r) (1 + max (height l) (height r)) l r

unfoldable pub rotate_right : Tree → Option Tree
rotate_right leaf = none
rotate_right (node yk yw ys yh leaf yr) = none
rotate_right (node yk yw ys yh (node xk xw xs xh xl t2) yr) =
    some (update (node xk xw xs xh xl (update (node yk yw ys yh t2 yr))))

unfoldable pub rotate_left : Tree → Option Tree
rotate_left leaf = none
rotate_left (node xk xw xs xh xl leaf) = none
rotate_left (node xk xw xs xh xl (node yk yw ys yh t2 yr)) =
    some (update (node yk yw ys yh (update (node xk xw xs xh xl t2)) yr))

abbrev pub get_balance : Tree → ℤ
get_balance leaf = pos 0
get_balance (node k w s h l r) = sub_ℕ (height l) (height r)

-- Reading `n.key` through a pointer.
abbrev pub key_of : Tree → Option Text
key_of leaf = none
key_of (node k w s h l r) = some k

abbrev pub with_left : Tree → Tree → Tree
with_left leaf l' = leaf
with_left (node k w s h l r) l' = node k w s h l' r

abbrev pub with_right : Tree → Tree → Tree
with_right leaf r' = leaf
with_right (node k w s h l r) r' = node k w s h l r'

-- The rotations of `insert` where balance > 1, at a node `n` with left child `l`: Left Left and
-- Left Right.
unfoldable pub insert_left_heavy : Text → Tree → Tree → Option Tree
unfolding rotate_right rotate_left
insert_left_heavy key n l = do
  left_key ← key_of l
  if text_lt key left_key
      then rotate_right n
      else if text_lt left_key key
      then (do l' ← rotate_left l; rotate_right (with_left n l'))
      else some n

-- Where balance < -1, at a node `n` with right child `r`: Right Right and Right Left.
unfoldable pub insert_right_heavy : Text → Tree → Tree → Option Tree
unfolding rotate_right rotate_left
insert_right_heavy key n r = do
  right_key ← key_of r
  if text_lt right_key key
      then rotate_left n
      else if text_lt key right_key
      then (do r' ← rotate_right r; rotate_left (with_right n r'))
      else some n

-- What `insert` does after `update(n)`; `l` and `r` are the children of `n`. The two cases with
-- balance > 1 exclude the two with balance < -1.
unfoldable pub insert_rotations : Text → Tree → Tree → Tree → Option Tree
insert_rotations key n l r =
    if ltb_ℤ (pos 1) (get_balance n)
    then insert_left_heavy key n l
    else if ltb_ℤ (get_balance n) (negsuc 0)
    then insert_right_heavy key n r
    else some n

unfoldable pub insert : Tree → Text → ℕ → Option Tree
insert leaf key weight = some (node key weight weight 1 leaf leaf)
insert (node k w s h l r) key weight =
    let in_left =
      insert l key weight >>= λ l'. insert_rotations key (update (node k w s h l' r)) l' r in
    let in_right =
      insert r key weight >>= λ r'. insert_rotations key (update (node k w s h l r')) l r' in
    if text_lt key k
    then in_left
    else if text_lt k key
    then in_right
    else some (update (node k weight s h l r))

-- The key and the weight of the leftmost node.
unfoldable pub min_value_node : Tree → Option (Text × ℕ)
min_value_node leaf = none
min_value_node (node k w s h leaf r) = some (k, w)
min_value_node (node k w s h (node lk lw ls lh ll lr) r) = min_value_node (node lk lw ls lh ll lr)

-- The rotations of `delete` where balance > 1, and where balance < -1.
unfoldable pub delete_left_heavy : Tree → Tree → Option Tree
unfolding rotate_right rotate_left
delete_left_heavy n l =
    if ltb_ℤ (get_balance l) (pos 0)
    then (do l' ← rotate_left l; rotate_right (with_left n l'))
    else rotate_right n

unfoldable pub delete_right_heavy : Tree → Tree → Option Tree
unfolding rotate_right rotate_left
delete_right_heavy n r =
    if ltb_ℤ (pos 0) (get_balance r)
    then (do r' ← rotate_right r; rotate_left (with_right n r'))
    else rotate_left n

-- What `delete` does after `update(n)`; `l` and `r` are the children of `n`.
unfoldable pub delete_rotations : Tree → Tree → Tree → Option Tree
delete_rotations n l r =
    if ltb_ℤ (pos 1) (get_balance n)
    then delete_left_heavy n l
    else if ltb_ℤ (get_balance n) (negsuc 0)
    then delete_right_heavy n r
    else some n

abbrev pub is_nil : Tree → Bool
is_nil leaf = Bool.true
is_nil (node k w s h l r) = Bool.false

unfoldable pub delete : Tree → Text → Option Tree
unfolding min_value_node
delete leaf key = some leaf
delete (node k w s h l r) key =
    let in_left = delete l key >>= λ l'. delete_rotations (update (node k w s h l' r)) l' r in
    let in_right = delete r key >>= λ r'. delete_rotations (update (node k w s h l r')) l r' in
    let replaced = min_value_node r >>= λ m.
    delete r m.0 >>= λ r'. delete_rotations (update (node m.0 m.1 s h l r')) l r' in
    if text_lt key k
    then in_left
    else if text_lt k key
    then in_right
    else if is_nil l
    then some r
    else if is_nil r
    then some l
    else replaced

unfoldable pub sample : Tree → ℕ → Text
sample leaf r = []
sample (node k w s h left right) r =
    let in_left = sample left r in
    let in_right = sample right (r - sum left - w) in
    if ltb r (sum left) then in_left else if ltb r (sum left + w) then k else in_right

unfoldable pub get : Tree → Text → Option ℕ
get leaf key = none
get (node k w s h l r) key =
    let in_left = get l key in
    let in_right = get r key in
    if text_lt key k then in_left else if text_lt k key then in_right else some w

abbrev word : ℕ
word = 2 ^ 64

-- The splitmix64 finalizer on a `uint64`.
unfoldable pub mix64 : ℕ → ℕ
mix64 seed =
    let x0 = (seed + 0x9e3779b97f4a7c15) % word in
    let x1 = bit_xor x0 (x0 / 2 ^ 30) * 0xbf58476d1ce4e5b9 % word in
    let x2 = bit_xor x1 (x1 / 2 ^ 27) * 0x94d049bb133111eb % word in bit_xor x2 (x2 / 2 ^ 31)

-- WeightedAVL is its root; the lock gives each method the tree to itself.
abbrev pub new_weighted_avl : Tree
new_weighted_avl = leaf

abbrev pub update_weight : Tree → Text → ℕ → Option Tree
update_weight tree key weight = insert tree key weight

abbrev pub remove : Tree → Text → Option Tree
remove tree key = delete tree key

unfoldable pub sample_seed : Tree → ℕ → Text
sample_seed tree seed = if sum tree == 0 then [] else sample tree (mix64 seed % sum tree)

-- `delta` is not negative here.
unfoldable pub increment : Tree → Text → ℕ → Option Tree
increment tree key delta = elim (get tree key) [
  | none ↦ insert tree key delta
  | some weight ↦ insert tree key (weight + delta)
]

-- The traversal of Items, in its order.
unfoldable pub entries : Tree → List (Text × ℕ)
entries leaf = []
entries (node k w s h l r) = entries l ++ ((k, w) ∷ entries r)
