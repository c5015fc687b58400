-- ===== src/Avl/Shape.antt =====
-- pkg/weighted_avl/weighted_avl.go: what the stored heights and sums of a tree are, and which
-- trees are balanced.
use doq.Common.{ℕ, ◌+◌, ◌≤◌, ◌≡◌, ◌⊎◌, true}
use doq.Common.Text.{Text, text_lt}
use doq.Avl.{Tree, leaf, node, height, sum, max}

-- At every node the stored height and sum are those of its subtree, and the heights of its
-- children differ by one at most.
abbrev pub IsAvl : Tree → Type 0
IsAvl leaf = Unit
IsAvl (node k w s h l r) =
    IsAvl l
    × IsAvl r
    × (s ≡ w + sum l + sum r)
    × (h ≡ 1 + max (height l) (height r))
    × (height l ≤ height r + 1)
    × (height r ≤ height l + 1)

-- Where an insertion of `key` has made a tree higher, it went to the higher side.
abbrev pub Leans : Text → Tree → Type 0
Leans key leaf = ⊥
Leans key (node k w s h l r) =
    (h ≡ 1)
    ⊎ ((text_lt key k ≡ true) × (height l ≡ height r + 1))
    ⊎ ((text_lt k key ≡ true) × (height r ≡ height l + 1))

-- What an insertion makes of a tree of height `h`.
abbrev pub Grown : ℕ → Text → Tree → Type 0
Grown h key t = IsAvl t × ((height t ≡ h) ⊎ ((height t ≡ h + 1) × Leans key t))

-- What a deletion makes of a tree of height `h`.
abbrev pub Shrunk : ℕ → Tree → Type 0
Shrunk h t = IsAvl t × ((height t ≡ h) ⊎ (height t + 1 ≡ h))
