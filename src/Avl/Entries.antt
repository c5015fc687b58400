-- ===== src/Avl/Entries.antt =====
-- pkg/weighted_avl/weighted_avl.go: Update, Remove and Get on a valid tree.
use doq.Common.{
  ℕ, ◌≡◌, refl, none, some, arith, if◌then◌else◌, Returns, returns, Returns-inv, Returns-map,
}
use doq.Common.Text.{Text, text_eq}
use doq.Avl.{Tree, leaf, node, insert, delete, get, entries}
use doq.Avl.Shape.{IsAvl}
use doq.Avl.Balance.{insert-Grown}
use doq.Avl.Shrink.{delete-Shrunk}
use doq.Avl.Spec.{
  IsAscending, upsert, erase, lookup, IsAscending-split, upsert-IsAscending, erase-IsAscending,
}
use doq.Avl.Steps.{lookup-upsert, lookup-erase, lookup_left, lookup_right, lookup_here}
use doq.Avl.Kept.{Keeps-inv, insert-Keeps, delete-Keeps}

-- A tree that the package makes: balanced, with true heights and sums, its keys in strict order.
abbrev pub IsValid : Tree → Type 0
IsValid t = IsAvl t × IsAscending (entries t)

-- Update returns, on a valid tree, a valid tree whose entries are the old ones with the weight
-- of the key set.
pub insert-upsert :
    (t : Tree) (key : Text) (weight : ℕ)
    → IsValid t
    → Returns
        (λ t'. IsValid t' × (entries t' ≡ upsert key weight (entries t)))
        (insert t key weight)
insert-upsert t key weight (v, a) =
    let (t', e, g) = Returns-inv (insert-Grown t key weight v) in
    let p = Keeps-inv (insert-Keeps t key weight a) e in
    rw e (returns ((g.0, rw p (upsert-IsAscending key weight (entries t) a)), p))

-- Remove returns, on a valid tree, a valid tree whose entries are the old ones without the key.
pub delete-erase :
    (t : Tree) (key : Text)
    → IsValid t
    → Returns (λ t'. IsValid t' × (entries t' ≡ erase key (entries t))) (delete t key)
delete-erase t key (v, a) =
    let (t', e, g) = Returns-inv (delete-Shrunk t key v) in
    let p = Keeps-inv (delete-Keeps t key a) e in
    rw e (returns ((g.0, rw p (erase-IsAscending key (entries t) a)), p))

-- Get finds the weight that the entries give to the key.
pub get-lookup :
    (t : Tree) (key : Text) → IsAscending (entries t) → get t key ≡ lookup key (entries t)
unfolding get entries lookup
get-lookup leaf key a = refl
get-lookup (node k w s h l r) key a =
    let (al, ar, bl, br) = IsAscending-split (entries l) (entries r) k w a in
    ground (
      arith,
      get-lookup l key al,
      get-lookup r key ar,
      lookup_left key k w (entries l) (entries r),
      lookup_right key k w (entries l) (entries r),
      lookup_here key k w (entries l) (entries r),
      bl,
    )

-- Update on a valid tree returns a valid tree, in which Get finds the new weight under the key, and
-- under every other key what it found before.
pub get-insert :
    (t : Tree) (key : Text) (weight : ℕ)
    → IsValid t
    → Returns
        (λ t'.
          IsValid t' × ((j : Text) → get t' j ≡ (if text_eq key j then some weight else get t j)))
        (insert t key weight)
get-insert t key weight v = Returns-map (insert-upsert t key weight v) λ t' s. (
  s.0,
  λ j. rw (get-lookup t' j s.0.1, get-lookup t j v.1, s.1) (lookup-upsert key weight (entries t) j),
)

-- Remove on a valid tree returns a valid tree, in which Get finds nothing under the key, and under
-- every other key what it found before.
pub get-delete :
    (t : Tree) (key : Text)
    → IsValid t
    → Returns
        (λ t'. IsValid t' × ((j : Text) → get t' j ≡ (if text_eq key j then none else get t j)))
        (delete t key)
get-delete t key v = Returns-map (delete-erase t key v) λ t' s. (
  s.0,
  λ j. rw (get-lookup t' j s.0.1, get-lookup t j v.1, s.1) (lookup-erase key (entries t) j v.1),
)
