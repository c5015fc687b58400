-- ===== src/Avl/Kept.antt =====
-- pkg/weighted_avl/weighted_avl.go: insert and delete on the tree do to its entries what upsert and
-- erase do to a list.
use doq.Common.{
  ℕ, ◌≡◌, refl, sym, ap, List, ◌∷◌, ◌++◌, Option, none, some, true, false, arith, Bool,
  append_assoc, append-nil, if◌then◌else◌, ◌>>=◌, inl, inr, Option-cases,
}
use doq.Common.Int.{pos, negsuc, sub_ℕ, ltb_ℤ}
use doq.Common.Text.{Text, text_lt}
use doq.Avl.{
  Tree, leaf, node, height, get_balance, update, rotate_right, rotate_left, insert_left_heavy,
  insert_right_heavy, insert_rotations, insert, delete_left_heavy, delete_right_heavy,
  delete_rotations, delete, is_nil, min_value_node, entries, with_left, with_right,
}
use doq.Avl.Spec.{Entry, IsAscending, upsert, erase, IsAscending-split}
use doq.Avl.Steps.{
  upsert_left, upsert_right, upsert_here, erase_left, erase_right, erase_here, erase_head,
}

-- If the run returns, its tree has the entries `es`.
pub data Keeps (es : List Entry) : Option Tree → Type 0 where
  stops : Keeps es none
  keeps : {t : Tree} → entries t ≡ es → Keeps es (some t)

module _ {es : List Entry} where
  Keeps-if :
      {x y : Option Tree} (b : Bool)
      → (b ≡ true → Keeps es x)
      → (b ≡ false → Keeps es y)
      → Keeps es (if b then x else y)
  Keeps-if true p q = p refl
  Keeps-if false p q = q refl

  pub Keeps-inv : {r : Option Tree} {t : Tree} → Keeps es r → r ≡ some t → entries t ≡ es
  Keeps-inv stops e = cc
  Keeps-inv (keeps p) e = cc

Keeps-bind :
    {es fs : List Entry} {r : Option Tree} {f : Tree → Option Tree}
    → Keeps es r
    → ((t : Tree) → entries t ≡ es → Keeps fs (f t))
    → Keeps fs (r >>= f)
Keeps-bind stops k = stops
Keeps-bind (keeps e) k = k _ e

rotate_right-Keeps : (t : Tree) → Keeps (entries t) (rotate_right t)
unfolding rotate_right entries
rotate_right-Keeps leaf = stops
rotate_right-Keeps (node k w s h leaf r) = stops
rotate_right-Keeps (node k w s h (node lk lw ls lh ll lr) r) =
    keeps (sym (append_assoc (entries ll) _ _))

rotate_left-Keeps : (t : Tree) → Keeps (entries t) (rotate_left t)
unfolding rotate_left entries
rotate_left-Keeps leaf = stops
rotate_left-Keeps (node k w s h l leaf) = stops
rotate_left-Keeps (node k w s h l (node rk rw' rs rh rl rr)) = keeps (append_assoc (entries l) _ _)

module _ (k : Text) (w s h : ℕ) (l r : Tree) where
  left_double-Keeps :
      Keeps
        (entries (node k w s h l r))
        (rotate_left l >>= λ l'. rotate_right (with_left (update (node k w s h l r)) l'))
  unfolding entries
  left_double-Keeps =
      Keeps-bind (rotate_left-Keeps l)
        λ l' e. rw (← e) (rotate_right-Keeps (with_left (update (node k w s h l r)) l'))

  right_double-Keeps :
      Keeps
        (entries (node k w s h l r))
        (rotate_right r >>= λ r'. rotate_left (with_right (update (node k w s h l r)) r'))
  unfolding entries
  right_double-Keeps =
      Keeps-bind (rotate_right-Keeps r)
        λ r' e. rw (← e) (rotate_left-Keeps (with_right (update (node k w s h l r)) r'))

  delete_rotations-Keeps :
      Keeps (entries (node k w s h l r)) (delete_rotations (update (node k w s h l r)) l r)
  unfolding delete_rotations delete_left_heavy delete_right_heavy entries
  delete_rotations-Keeps =
      Keeps-if (ltb_ℤ (pos 1) (sub_ℕ (height l) (height r)))
        (λ _.
          Keeps-if (ltb_ℤ (get_balance l) (pos 0)) (λ _. left_double-Keeps)
            (λ _. rotate_right-Keeps (update (node k w s h l r))))
        (λ _.
          Keeps-if (ltb_ℤ (sub_ℕ (height l) (height r)) (negsuc 0))
            (λ _.
              Keeps-if (ltb_ℤ (pos 0) (get_balance r)) (λ _. right_double-Keeps)
                (λ _. rotate_left-Keeps (update (node k w s h l r))))
            (λ _. keeps refl))

insert_left_heavy-Keeps :
    (key k : Text) (w s h : ℕ) (l r : Tree)
    → Keeps (entries (node k w s h l r)) (insert_left_heavy key (update (node k w s h l r)) l)
unfolding insert_left_heavy entries
insert_left_heavy-Keeps key k w s h leaf r = stops
insert_left_heavy-Keeps key k w s h (node lk lw ls lh ll lr) r =
    Keeps-if (text_lt key lk)
      (λ _. rotate_right-Keeps (update (node k w s h (node lk lw ls lh ll lr) r)))
      (λ _.
        Keeps-if (text_lt lk key) (λ _. left_double-Keeps k w s h (node lk lw ls lh ll lr) r)
          (λ _. keeps refl))

insert_right_heavy-Keeps :
    (key k : Text) (w s h : ℕ) (l r : Tree)
    → Keeps (entries (node k w s h l r)) (insert_right_heavy key (update (node k w s h l r)) r)
unfolding insert_right_heavy entries
insert_right_heavy-Keeps key k w s h l leaf = stops
insert_right_heavy-Keeps key k w s h l (node rk rw' rs rh rl rr) =
    Keeps-if (text_lt rk key)
      (λ _. rotate_left-Keeps (update (node k w s h l (node rk rw' rs rh rl rr))))
      (λ _.
        Keeps-if (text_lt key rk) (λ _. right_double-Keeps k w s h l (node rk rw' rs rh rl rr))
          (λ _. keeps refl))

insert_rotations-Keeps :
    (key k : Text) (w s h : ℕ) (l r : Tree)
    → Keeps (entries (node k w s h l r)) (insert_rotations key (update (node k w s h l r)) l r)
unfolding insert_rotations entries
insert_rotations-Keeps key k w s h l r =
    Keeps-if (ltb_ℤ (pos 1) (sub_ℕ (height l) (height r)))
      (λ _. insert_left_heavy-Keeps key k w s h l r)
      (λ _.
        Keeps-if (ltb_ℤ (sub_ℕ (height l) (height r)) (negsuc 0))
          (λ _. insert_right_heavy-Keeps key k w s h l r) (λ _. keeps refl))

pub insert-Keeps :
    (t : Tree) (key : Text) (weight : ℕ)
    → IsAscending (entries t)
    → Keeps (upsert key weight (entries t)) (insert t key weight)
unfolding insert entries upsert
insert-Keeps leaf key weight a = keeps refl
insert-Keeps (node k w s h l r) key weight a =
    let (al, ar, bl, br) = IsAscending-split (entries l) (entries r) k w a in
    Keeps-if (text_lt key k)
      (λ lt. Keeps-bind (insert-Keeps l key weight al) λ l' e.
        rw (upsert_left key weight k w (entries l) (entries r) lt, ← e)
          (insert_rotations-Keeps key k w s h l' r))
      (λ ge.
        Keeps-if (text_lt k key)
          (λ lt. Keeps-bind (insert-Keeps r key weight ar) λ r' e.
            rw (upsert_right key weight k w (entries l) (entries r) lt ge bl, ← e)
              (insert_rotations-Keeps key k w s h l r'))
          (λ ge'. keeps (sym (upsert_here key weight k w (entries l) (entries r) ge' ge bl))))

-- The leftmost node holds the first entry.
min_value_node-entries :
    (t : Tree) (m : Entry)
    → min_value_node t ≡ some m
    → (rest : List Entry) × (entries t ≡ m ∷ rest)
unfolding min_value_node entries
min_value_node-entries leaf m e = cc
min_value_node-entries (node k w s h leaf r) m e = (entries r, ground arith)
min_value_node-entries (node k w s h (node lk lw ls lh ll lr) r) m e =
    let (rest, p) = min_value_node-entries (node lk lw ls lh ll lr) m e in
    (rest ++ ((k, w) ∷ entries r), ap (λ es. es ++ ((k, w) ∷ entries r)) p)

replaced-Keeps :
    (k : Text) (w s h : ℕ) (l r : Tree)
    → ((key : Text) → Keeps (erase key (entries r)) (delete r key))
    → Keeps (entries l ++ entries r) (
        if is_nil l
        then some r
        else if is_nil r
        then some l
        else (min_value_node r >>= λ m.
            delete r m.0 >>= λ r'. delete_rotations (update (node m.0 m.1 s h l r')) l r'))
unfolding entries
replaced-Keeps k w s h leaf r ih = keeps refl
replaced-Keeps k w s h (node lk lw ls lh ll lr) leaf ih = keeps (sym (append-nil _))
replaced-Keeps k w s h (node lk lw ls lh ll lr) (node rk rw' rs rh rl rr) ih =
    elim (Option-cases (min_value_node (node rk rw' rs rh rl rr))) [
      | inl e ↦ rw e stops
      | inr (m, e) ↦
          let (rest, p) = min_value_node-entries (node rk rw' rs rh rl rr) m e in
          rw (e, p)
            (Keeps-bind (ih m.0) λ r' q.
              rw (← erase_head m.0 m.1 rest, ← p, ← q)
                (delete_rotations-Keeps m.0 m.1 s h (node lk lw ls lh ll lr) r'))
    ]

pub delete-Keeps :
    (t : Tree) (key : Text) → IsAscending (entries t) → Keeps (erase key (entries t)) (delete t key)
unfolding delete entries erase
delete-Keeps leaf key a = keeps refl
delete-Keeps (node k w s h l r) key a =
    let (al, ar, bl, br) = IsAscending-split (entries l) (entries r) k w a in
    Keeps-if (text_lt key k)
      (λ lt. Keeps-bind (delete-Keeps l key al) λ l' e.
        rw (erase_left key k w (entries l) (entries r) lt, ← e)
          (delete_rotations-Keeps k w s h l' r))
      (λ ge.
        Keeps-if (text_lt k key)
          (λ lt. Keeps-bind (delete-Keeps r key ar) λ r' e.
            rw (erase_right key k w (entries l) (entries r) lt ge bl, ← e)
              (delete_rotations-Keeps k w s h l r'))
          (λ ge'.
            rw (erase_here key k w (entries l) (entries r) ge' ge bl)
              (replaced-Keeps k w s h l r (λ key'. delete-Keeps r key' ar))))
