-- ===== src/Avl/Tests.antt =====
-- pkg/weighted_avl/weighted_avl.go: the properties at a tree of three keys, built with Update.
use doq.Common.{ℕ, ◌<◌, ◌≡◌, refl, arith, none, some, if◌then◌else◌, Returns}
use mathlib.Core.Option
use doq.Common.Text.{Text, bytes, text_eq, text_lt}
use doq.Avl.{
  Tree, leaf, node, sum, max, insert, insert_rotations, insert_right_heavy, rotate_left, delete,
  get, sample, sample_seed, entries,
}
use doq.Avl.Entries.{IsValid, get-insert, get-delete}
use doq.Avl.Sampling.{count_below, sample_share, sample_seed-positive}

abbrev a : Text
a = bytes "a"

abbrev b : Text
b = bytes "b"

abbrev c : Text
c = bytes "c"

abbrev three : Tree
three = node b 5 18 2 (node a 10 10 1 leaf leaf) (node c 3 3 1 leaf leaf)

three-built : insert (node a 10 15 2 leaf (node b 5 5 1 leaf leaf)) c 3 ≡ some three
unfolding insert insert_rotations insert_right_heavy rotate_left max text_lt
three-built = refl

three-IsValid : IsValid three
unfolding entries max text_lt
three-IsValid = (
  (
    (tt, tt, refl, refl, omega arith, omega arith),
    (tt, tt, refl, refl, omega arith, omega arith),
    refl,
    refl,
    omega arith,
    omega arith,
  ),
  ((refl, (refl, tt)), ((refl, tt), (tt, tt))),
)

get-insert_example :
    Returns
      (λ t'.
        IsValid t'
        × ((j : Text) → get t' j ≡ (if text_eq (bytes "d") j then some 7 else get three j)))
      (insert three (bytes "d") 7)
get-insert_example = get-insert three (bytes "d") 7 three-IsValid

get-delete_example :
    Returns
      (λ t'. IsValid t' × ((j : Text) → get t' j ≡ (if text_eq b j then none else get three j)))
      (delete three b)
get-delete_example = get-delete three b three-IsValid

sample_share_example :
    count_below (sum three) (λ r. text_eq (sample three r) c) ≡ Option.get_or (get three c) 0
sample_share_example = sample_share three c three-IsValid

sample_seed-positive_example : (w : ℕ) × (get three (sample_seed three 42) ≡ some w) × (0 < w)
sample_seed-positive_example = sample_seed-positive three 42 three-IsValid (omega arith)
