-- ===== src/Avl/Balance.antt =====
-- pkg/weighted_avl/weighted_avl.go: insert meets no nil pointer and keeps a tree balanced.
use native.Mathlib.Decide.{dec_lt}
use doq.Common.{
  ℕ, ◌+◌, ◌≤◌, ◌<◌, ◌≡◌, refl, sym, ◌⊎◌, inl, inr, true, false, arith, Returns, returns,
  Returns-bind, Bool-cases,
}
use doq.Common.Int.{pos, negsuc, sub_ℕ, ltb_ℤ}
use doq.Common.Text.{Text, text_lt, text_lt_irrefl, text_lt_trans}
use doq.Avl.{
  Tree, leaf, node, height, max, update, insert_rotations, insert_left_heavy, insert_right_heavy,
  insert,
}
use doq.Avl.Shape.{IsAvl, Grown}

pub max_bounds : (a b : ℕ) → (a ≤ max a b) × (b ≤ max a b) × ((max a b ≡ a) ⊎ (max a b ≡ b))
unfolding max
max_bounds a b = ground arith

pub balance-high : (a b : ℕ) → b + 1 < a → ltb_ℤ (pos 1) (sub_ℕ a b) ≡ true
balance-high a b h = ground arith

pub balance-le : (a b : ℕ) → a ≤ b + 1 → ltb_ℤ (pos 1) (sub_ℕ a b) ≡ false
balance-le a b h = ground arith

pub balance-low : (a b : ℕ) → a + 1 < b → ltb_ℤ (sub_ℕ a b) (negsuc 0) ≡ true
balance-low a b h = ground arith

pub balance-ge : (a b : ℕ) → b ≤ a + 1 → ltb_ℤ (sub_ℕ a b) (negsuc 0) ≡ false
balance-ge a b h = ground arith

pub text_lt-asymm : (s t : Text) → text_lt s t ≡ true → text_lt t s ≡ false
text_lt-asymm s t h = elim (Bool-cases (text_lt t s)) [
  | inl e ↦ cc (text_lt_trans s t s h e, text_lt_irrefl s)
  | inr e ↦ e
]

-- The higher child after an insertion was already the one that grew.
leaning :
    (key lk : Text) (lw ls lh hl hr : ℕ) (ll lr : Tree)
    → Grown hl key (node lk lw ls lh ll lr)
    → hl ≤ hr + 1
    → hr + 1 < lh
    → (hl ≡ hr + 1)
      × (((text_lt key lk ≡ true) × (height ll ≡ height lr + 1))
          ⊎ ((text_lt lk key ≡ true) × (height lr ≡ height ll + 1)))
leaning key lk lw ls lh hl hr ll lr (v, inl same) p high = absurd (omega arith)
leaning key lk lw ls lh hl hr ll lr (v, inr (one, inl fresh)) p high = absurd (omega arith)
leaning key lk lw ls lh hl hr ll lr (v, inr (one, inr side)) p high = (omega arith, side)

module _ (key k : Text) (w s h : ℕ) where
  left_heavy-Grown :
      (lk : Text) (lw ls lh : ℕ) (ll lr r : Tree) (hl : ℕ)
      → IsAvl (node lk lw ls lh ll lr)
      → IsAvl r
      → lh ≡ height r + 2
      → hl ≡ height r + 1
      → ((text_lt key lk ≡ true) × (height ll ≡ height lr + 1))
        ⊎ ((text_lt lk key ≡ true) × (height lr ≡ height ll + 1))
      → Returns (Grown (1 + max hl (height r)) key) (
          insert_left_heavy key
            (update (node k w s h (node lk lw ls lh ll lr) r))
            (node lk lw ls lh ll lr))
  unfolding insert_left_heavy
  left_heavy-Grown lk lw ls lh ll lr r hl v u e f (inl (lt, a)) = rw lt (
      returns (
        (
          v.0,
          (v.1, u, refl, refl, omega (arith, max_bounds), omega (arith, max_bounds)),
          refl,
          refl,
          omega (arith, max_bounds),
          omega (arith, max_bounds),
        ),
        inl omega (arith, max_bounds),
      ))
  left_heavy-Grown lk lw ls lh ll leaf r hl v u e f (inr (lt, a)) = absurd (omega arith)
  left_heavy-Grown lk lw ls lh ll (node mk mw ms mh ml mr) r hl v u e f (inr (lt, a)) =
      rw (text_lt-asymm lk key lt, lt)
        (returns (
          (
            (v.0, v.1.0, refl, refl, omega (arith, max_bounds), omega (arith, max_bounds)),
            (v.1.1, u, refl, refl, omega (arith, max_bounds), omega (arith, max_bounds)),
            refl,
            refl,
            omega (arith, max_bounds),
            omega (arith, max_bounds),
          ),
          inl omega (arith, max_bounds),
        ))

  right_heavy-Grown :
      (rk : Text) (rw' rs rh : ℕ) (l rl rr : Tree) (hr : ℕ)
      → IsAvl l
      → IsAvl (node rk rw' rs rh rl rr)
      → rh ≡ height l + 2
      → hr ≡ height l + 1
      → ((text_lt key rk ≡ true) × (height rl ≡ height rr + 1))
        ⊎ ((text_lt rk key ≡ true) × (height rr ≡ height rl + 1))
      → Returns (Grown (1 + max (height l) hr) key) (
          insert_right_heavy key
            (update (node k w s h l (node rk rw' rs rh rl rr)))
            (node rk rw' rs rh rl rr))
  unfolding insert_right_heavy
  right_heavy-Grown rk rw' rs rh l rl rr hr v u e f (inr (lt, a)) = rw lt (
      returns (
        (
          (v, u.0, refl, refl, omega (arith, max_bounds), omega (arith, max_bounds)),
          u.1,
          refl,
          refl,
          omega (arith, max_bounds),
          omega (arith, max_bounds),
        ),
        inl omega (arith, max_bounds),
      ))
  right_heavy-Grown rk rw' rs rh l leaf rr hr v u e f (inl (lt, a)) = absurd (omega arith)
  right_heavy-Grown rk rw' rs rh l (node mk mw ms mh ml mr) rr hr v u e f (inl (lt, a)) =
      rw (text_lt-asymm key rk lt, lt)
        (returns (
          (
            (v, u.0.0, refl, refl, omega (arith, max_bounds), omega (arith, max_bounds)),
            (u.0.1, u.1, refl, refl, omega (arith, max_bounds), omega (arith, max_bounds)),
            refl,
            refl,
            omega (arith, max_bounds),
            omega (arith, max_bounds),
          ),
          inl omega (arith, max_bounds),
        ))

  -- The rotations of a node whose left child has just got `key`.
  left_rotations :
      (l r : Tree) (hl : ℕ)
      → text_lt key k ≡ true
      → Grown hl key l
      → IsAvl r
      → hl ≤ height r + 1
      → height r ≤ hl + 1
      → Returns
          (Grown (1 + max hl (height r)) key)
          (insert_rotations key (update (node k w s h l r)) l r)
  unfolding insert_rotations
  left_rotations leaf r hl lt g v p q =
      rw (balance-le 0 (height r) (omega arith), balance-ge 0 (height r) (omega arith))
        (returns (ground (arith, max_bounds 0 (height r), max_bounds hl (height r))))
  left_rotations (node lk lw ls lh ll lr) r hl lt g v p q = elim (dec_lt (height r + 1) lh) [
    | no bal ↦
        rw (balance-le lh (height r) (omega arith), balance-ge lh (height r) (omega arith))
          (returns (ground (arith, max_bounds lh (height r), max_bounds hl (height r))))
    | yes high ↦
        let (e, side) = leaning key lk lw ls lh hl (height r) ll lr g p high in
        rw (balance-high lh (height r) (omega arith))
          (left_heavy-Grown lk lw ls lh ll lr r hl g.0 v (omega arith) e side)
  ]

  -- And of one whose right child has.
  right_rotations :
      (l r : Tree) (hr : ℕ)
      → text_lt k key ≡ true
      → IsAvl l
      → Grown hr key r
      → height l ≤ hr + 1
      → hr ≤ height l + 1
      → Returns
          (Grown (1 + max (height l) hr) key)
          (insert_rotations key (update (node k w s h l r)) l r)
  unfolding insert_rotations
  right_rotations l leaf hr lt v g p q =
      rw (balance-le (height l) 0 (omega arith), balance-ge (height l) 0 (omega arith))
        (returns (ground (arith, max_bounds (height l) 0, max_bounds (height l) hr)))
  right_rotations l (node rk rw' rs rh rl rr) hr lt v g p q = elim (dec_lt (height l + 1) rh) [
    | no bal ↦
        rw (balance-le (height l) rh (omega arith), balance-ge (height l) rh (omega arith))
          (returns (ground (arith, max_bounds (height l) rh, max_bounds (height l) hr)))
    | yes high ↦
        let (e, side) = leaning key rk rw' rs rh hr (height l) rl rr g q high in
        rw (balance-le (height l) rh (omega arith), balance-low (height l) rh (omega arith))
          (right_heavy-Grown rk rw' rs rh l rl rr hr v g.0 (omega arith) e side)
  ]

-- `insert` into a balanced tree meets no nil pointer, and its result is balanced and at most one
-- higher.
pub insert-Grown :
    (t : Tree) (key : Text) (weight : ℕ)
    → IsAvl t
    → Returns (Grown (height t) key) (insert t key weight)
unfolding insert
insert-Grown leaf key weight v = returns (
  (
    tt,
    tt,
    (omega (arith, max_bounds)),
    (omega (arith, max_bounds)),
    (omega (arith, max_bounds)),
    (omega (arith, max_bounds)),
  ),
  inr (refl, inl refl),
)
insert-Grown (node k w s h l r) key weight v = elim (Bool-cases (text_lt key k)) [
  | inl lt ↦ rw lt (
      rw v.3 (
        Returns-bind (insert-Grown l key weight v.0)
          λ l' g. left_rotations key k w s h l' r (height l) lt g v.1 v.4 v.5))
  | inr ge ↦ elim (Bool-cases (text_lt k key)) [
    | inl lt ↦
        rw (ge, lt)
          (rw v.3 (
            Returns-bind (insert-Grown r key weight v.1)
              λ r' g. right_rotations key k w s h l r' (height r) lt v.0 g v.4 v.5))
    | inr eq ↦ rw (ge, eq) (returns ((v.0, v.1, refl, refl, v.4, v.5), inl (sym v.3)))
  ]
]
