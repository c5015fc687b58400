-- ===== src/Avl/Shrink.antt =====
-- pkg/weighted_avl/weighted_avl.go: delete meets no nil pointer and keeps a tree balanced.
use native.Mathlib.Decide.{dec_lt}
use doq.Common.{
  ℕ, ◌+◌, ◌≤◌, ◌<◌, ◌≡◌, refl, ◌⊎◌, inl, inr, true, false, arith, Returns, returns, Returns-bind,
  Bool-cases, some, if◌then◌else◌, ◌>>=◌,
}
use doq.Common.Int.{pos, sub_ℕ, ltb_ℤ}
use doq.Common.Text.{Text, text_lt}
use doq.Avl.{
  Tree, leaf, node, height, max, update, delete_left_heavy, delete_right_heavy, delete_rotations,
  delete, is_nil, min_value_node,
}
use doq.Avl.Shape.{IsAvl, Shrunk}
use doq.Avl.Balance.{max_bounds, balance-high, balance-le, balance-low, balance-ge}

balance-neg : (a b : ℕ) → a < b → ltb_ℤ (sub_ℕ a b) (pos 0) ≡ true
balance-neg a b h = ground arith

balance-not_neg : (a b : ℕ) → b ≤ a → ltb_ℤ (sub_ℕ a b) (pos 0) ≡ false
balance-not_neg a b h = ground arith

balance-pos : (a b : ℕ) → b < a → ltb_ℤ (pos 0) (sub_ℕ a b) ≡ true
balance-pos a b h = ground arith

balance-not_pos : (a b : ℕ) → a ≤ b → ltb_ℤ (pos 0) (sub_ℕ a b) ≡ false
balance-not_pos a b h = ground arith

max_comm : (a b : ℕ) → max a b ≡ max b a
max_comm a b = omega (arith, max_bounds)

shrinks :
    (old new other : ℕ)
    → (new ≡ old) ⊎ (new + 1 ≡ old)
    → (1 + max new other ≡ 1 + max old other) ⊎ (1 + max new other + 1 ≡ 1 + max old other)
shrinks old new other (inl same) = inl (rw same)
shrinks old new other (inr less) = elim (dec_lt other old) [
  | yes above ↦ inr omega (arith, max_bounds)
  | no below ↦ inl omega (arith, max_bounds)
]

module _ (k : Text) (w s h : ℕ) where
  left_heavy-Shrunk :
      (lk : Text) (lw ls lh : ℕ) (ll lr r : Tree) (hr : ℕ)
      → IsAvl (node lk lw ls lh ll lr)
      → IsAvl r
      → lh ≡ height r + 2
      → hr ≡ height r + 1
      → Returns (Shrunk (1 + max lh hr)) (
          delete_left_heavy
            (update (node k w s h (node lk lw ls lh ll lr) r))
            (node lk lw ls lh ll lr))
  unfolding delete_left_heavy
  left_heavy-Shrunk lk lw ls lh ll leaf r hr v u e f =
      rw (balance-not_neg (height ll) 0 (omega arith)) (
        returns (
          (
            v.0,
            (tt, u, refl, refl, omega (arith, max_bounds), omega (arith, max_bounds)),
            refl,
            refl,
            omega (arith, max_bounds),
            omega (arith, max_bounds),
          ),
          ground (
            arith,
            max_bounds lh hr,
            max_bounds 0 (height r),
            max_bounds (height ll) (1 + max 0 (height r)),
            max_bounds (height ll) 0,
          ),
        ))
  left_heavy-Shrunk lk lw ls lh ll (node mk mw ms mh ml mr) r hr v u e f =
      elim (dec_lt (height ll) mh) [
        | yes deep ↦ rw (balance-neg (height ll) mh deep) (
            returns (
              (
                (v.0, v.1.0, refl, refl, omega (arith, max_bounds), omega (arith, max_bounds)),
                (v.1.1, u, refl, refl, omega (arith, max_bounds), omega (arith, max_bounds)),
                refl,
                refl,
                omega (arith, max_bounds),
                omega (arith, max_bounds),
              ),
              inr omega (arith, max_bounds),
            ))
        | no flat ↦ rw (balance-not_neg (height ll) mh (omega arith)) (
            returns (
              (
                v.0,
                (v.1, u, refl, refl, omega (arith, max_bounds), omega (arith, max_bounds)),
                refl,
                refl,
                omega (arith, max_bounds),
                omega (arith, max_bounds),
              ),
              elim (dec_lt mh (height ll)) [
                | yes outer ↦ inr omega (arith, max_bounds)
                | no even ↦ inl omega (arith, max_bounds)
              ],
            ))
      ]

  right_heavy-Shrunk :
      (rk : Text) (rw' rs rh : ℕ) (l rl rr : Tree) (hl : ℕ)
      → IsAvl l
      → IsAvl (node rk rw' rs rh rl rr)
      → rh ≡ height l + 2
      → hl ≡ height l + 1
      → Returns (Shrunk (1 + max hl rh)) (
          delete_right_heavy
            (update (node k w s h l (node rk rw' rs rh rl rr)))
            (node rk rw' rs rh rl rr))
  unfolding delete_right_heavy
  right_heavy-Shrunk rk rw' rs rh l leaf rr hl v u e f =
      rw (balance-not_pos 0 (height rr) (omega arith)) (
        returns (
          (
            (v, tt, refl, refl, omega (arith, max_bounds), omega (arith, max_bounds)),
            u.1,
            refl,
            refl,
            omega (arith, max_bounds),
            omega (arith, max_bounds),
          ),
          ground (
            arith,
            max_bounds hl rh,
            max_bounds (height l) 0,
            max_bounds (1 + max (height l) 0) (height rr),
            max_bounds 0 (height rr),
          ),
        ))
  right_heavy-Shrunk rk rw' rs rh l (node mk mw ms mh ml mr) rr hl v u e f =
      elim (dec_lt (height rr) mh) [
        | yes deep ↦ rw (balance-pos mh (height rr) deep) (
            returns (
              (
                (v, u.0.0, refl, refl, omega (arith, max_bounds), omega (arith, max_bounds)),
                (u.0.1, u.1, refl, refl, omega (arith, max_bounds), omega (arith, max_bounds)),
                refl,
                refl,
                omega (arith, max_bounds),
                omega (arith, max_bounds),
              ),
              inr omega (arith, max_bounds),
            ))
        | no flat ↦ rw (balance-not_pos mh (height rr) (omega arith)) (
            returns (
              (
                (v, u.0, refl, refl, omega (arith, max_bounds), omega (arith, max_bounds)),
                u.1,
                refl,
                refl,
                omega (arith, max_bounds),
                omega (arith, max_bounds),
              ),
              elim (dec_lt mh (height rr)) [
                | yes outer ↦ inr omega (arith, max_bounds)
                | no even ↦ inl omega (arith, max_bounds)
              ],
            ))
      ]

  left-Shrunk :
      (l r : Tree) (hl : ℕ)
      → Shrunk hl l
      → IsAvl r
      → hl ≤ height r + 1
      → height r ≤ hl + 1
      → Returns (Shrunk (1 + max hl (height r))) (delete_rotations (update (node k w s h l r)) l r)
  unfolding delete_rotations
  left-Shrunk l leaf hl g v p q =
      rw (balance-le (height l) 0 (omega arith), balance-ge (height l) 0 (omega arith))
        (returns (ground (arith, max_bounds (height l) 0, max_bounds hl 0)))
  left-Shrunk l (node rk rw' rs rh rl rr) hl g v p q = elim (dec_lt (height l + 1) rh) [
    | no bal ↦
        rw (balance-le (height l) rh (omega arith), balance-ge (height l) rh (omega arith))
          (returns ((g.0, v, refl, refl, omega arith, omega arith), shrinks hl (height l) rh g.1))
    | yes low ↦
        rw (balance-le (height l) rh (omega arith), balance-low (height l) rh (omega arith))
          (right_heavy-Shrunk rk rw' rs rh l rl rr hl g.0 v (omega arith) (omega arith))
  ]

  right-Shrunk :
      (l r : Tree) (hr : ℕ)
      → IsAvl l
      → Shrunk hr r
      → height l ≤ hr + 1
      → hr ≤ height l + 1
      → Returns (Shrunk (1 + max (height l) hr)) (delete_rotations (update (node k w s h l r)) l r)
  unfolding delete_rotations
  right-Shrunk leaf r hr v g p q =
      rw (balance-le 0 (height r) (omega arith), balance-ge 0 (height r) (omega arith))
        (returns (ground (arith, max_bounds 0 (height r), max_bounds 0 hr)))
  right-Shrunk (node lk lw ls lh ll lr) r hr v g p q = elim (dec_lt (height r + 1) lh) [
    | no bal ↦
        rw (balance-le lh (height r) (omega arith), balance-ge lh (height r) (omega arith))
          (returns (
            (v, g.0, refl, refl, omega arith, omega arith),
            rw (max_comm lh hr, max_comm lh (height r)) (shrinks hr (height r) lh g.1),
          ))
    | yes high ↦
        rw (balance-high lh (height r) (omega arith))
          (left_heavy-Shrunk lk lw ls lh ll lr r hr v g.0 (omega arith) (omega arith))
  ]

-- A subtree has a leftmost node.
min_value_node-Returns :
    (k : Text) (w s h : ℕ) (l r : Tree)
    → Returns (λ (m : Text × ℕ). Unit {0}) (min_value_node (node k w s h l r))
unfolding min_value_node
min_value_node-Returns k w s h leaf r = returns tt
min_value_node-Returns k w s h (node lk lw ls lh ll lr) r = min_value_node-Returns lk lw ls lh ll lr

replaced-Shrunk :
    (s h : ℕ) (l r : Tree)
    → IsAvl l
    → IsAvl r
    → height l ≤ height r + 1
    → height r ≤ height l + 1
    → ((key : Text) → Returns (Shrunk (height r)) (delete r key))
    → Returns (Shrunk (1 + max (height l) (height r))) (
        if is_nil l
        then some r
        else if is_nil r
        then some l
        else (min_value_node r >>= λ m.
            delete r m.0 >>= λ r'. delete_rotations (update (node m.0 m.1 s h l r')) l r'))
replaced-Shrunk s h leaf r v u p q ih = returns (u, ground (arith, max_bounds 0 (height r)))
replaced-Shrunk s h (node lk lw ls lh ll lr) leaf v u p q ih =
    returns (v, ground (arith, max_bounds lh 0))
replaced-Shrunk s h (node lk lw ls lh ll lr) (node rk rw' rs rh rl rr) v u p q ih =
    Returns-bind (min_value_node-Returns rk rw' rs rh rl rr) λ m _.
      Returns-bind (ih m.0) λ r' g. right-Shrunk m.0 m.1 s h (node lk lw ls lh ll lr) r' rh v g p q

-- `delete` from a balanced tree meets no nil pointer, and its result is balanced and at most one
-- lower.
pub delete-Shrunk : (t : Tree) (key : Text) → IsAvl t → Returns (Shrunk (height t)) (delete t key)
unfolding delete
delete-Shrunk leaf key v = returns (tt, inl refl)
delete-Shrunk (node k w s h l r) key v = elim (Bool-cases (text_lt key k)) [
  | inl lt ↦ rw lt (
      rw v.3 (
        Returns-bind (delete-Shrunk l key v.0)
          λ l' g. left-Shrunk k w s h l' r (height l) g v.1 v.4 v.5))
  | inr ge ↦ elim (Bool-cases (text_lt k key)) [
    | inl lt ↦
        rw (ge, lt)
          (rw v.3 (
            Returns-bind (delete-Shrunk r key v.1)
              λ r' g. right-Shrunk k w s h l r' (height r) v.0 g v.4 v.5))
    | inr eq ↦
        rw (ge, eq)
          (rw v.3 (replaced-Shrunk s h l r v.0 v.1 v.4 v.5 (λ key'. delete-Shrunk r key' v.1)))
  ]
]
