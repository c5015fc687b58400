-- ===== src/Memory/PriorityQueue/Slice.antt =====
-- pkg/queue/memory/priority_memory_queue.go: the item slice under indices in range.
use mathlib.Core.List.{Perm}
use mathlib.Core.List.Perm
use doq.Common.{
  ℕ, zero, suc, ◌<◌, ◌≡◌, refl, ap, ◌∙◌, List, [], ◌∷◌, ◌++◌, some, arith, ◌==◌, if◌then◌else◌,
  length, get_elem?, set, take,
}
use doq.Common.Int.{pos}
use doq.Memory.PriorityQueue.{Item}

-- Returned by `at` out of range, where no theorem looks.
abbrev no_item : Item
no_item = record { id = 0; priority = pos 0; group = [] }

unfoldable pub at : List Item → ℕ → Item
at [] i = no_item
at (x ∷ a) zero = x
at (x ∷ a) (suc i) = at a i

pub get_elem?-at : (a : List Item) (i : ℕ) → i < length a → get_elem? a i ≡ some (at a i)
unfolding at
get_elem?-at (item ∷ rest) (suc k) h = get_elem?-at rest k (omega arith)
get_elem?-at (item ∷ rest) zero h = refl
get_elem?-at [] k h = absurd (omega arith)

pub length-set : (a : List Item) (i : ℕ) (v : Item) → length (set a i v) ≡ length a
length-set (old ∷ rest) (suc k) new = ap suc (length-set rest k new)
length-set (old ∷ rest) zero new = refl
length-set [] k new = refl

pub at-set :
    (a : List Item) (i j : ℕ) (v : Item)
    → i < length a
    → at (set a i v) j ≡ (if i == j then v else at a j)
unfolding at
at-set [] i j v h = absurd (omega arith)
at-set (x ∷ a) zero zero v h = refl
at-set (x ∷ a) zero (suc j) v h = ground arith
at-set (x ∷ a) (suc i) zero v h = ground arith
at-set (x ∷ a) (suc i) (suc j) v h = ground (arith, at-set a i j v)

pub at-append_left : (a b : List Item) (i : ℕ) → i < length a → at (a ++ b) i ≡ at a i
unfolding at
at-append_left [] b i h = absurd (omega arith)
at-append_left (x ∷ a) b zero h = refl
at-append_left (x ∷ a) b (suc i) h = at-append_left a b i (omega arith)

pub at-append_last : (a : List Item) (x : Item) (n : ℕ) → n ≡ length a → at (a ++ (x ∷ [])) n ≡ x
unfolding at
at-append_last [] x zero h = refl
at-append_last [] x (suc n) h = absurd (omega arith)
at-append_last (y ∷ a) x zero h = absurd (omega arith)
at-append_last (y ∷ a) x (suc n) h = at-append_last a x n (omega arith)

pub length-take : (n : ℕ) (a : List Item) → n < length a → length (take n a) ≡ n
length-take zero a h = refl
length-take (suc n) [] h = absurd (omega arith)
length-take (suc n) (x ∷ a) h = ap suc (length-take n a (omega arith))

pub at-take : (n : ℕ) (a : List Item) (i : ℕ) → i < n → at (take n a) i ≡ at a i
unfolding at
at-take zero a i h = absurd (omega arith)
at-take (suc n) [] i h = refl
at-take (suc n) (x ∷ a) zero h = refl
at-take (suc n) (x ∷ a) (suc i) h = at-take n a i (omega arith)

-- A slice is its last item and the rest.
pub take-perm : (n : ℕ) (a : List Item) → length a ≡ suc n → Perm (at a n ∷ take n a) a
unfolding at
take-perm zero (x ∷ []) h = Perm.refl _
take-perm zero [] h = absurd (omega arith)
take-perm zero (x ∷ y ∷ a) h = absurd (omega arith)
take-perm (suc n) [] h = absurd (omega arith)
take-perm (suc n) (x ∷ a) h =
    Perm.trans (Perm.swap x _ _) (Perm.cons x (take-perm n a (omega arith)))

pub append-perm : (a : List Item) (x : Item) → Perm (a ++ (x ∷ [])) (x ∷ a)
append-perm [] x = Perm.refl _
append-perm (y ∷ a) x = Perm.trans (Perm.cons y (append-perm a x)) (Perm.swap x y a)

-- A write puts the new item in for the old one.
pub set-perm : (a : List Item) (i : ℕ) (v : Item) → i < length a → Perm (at a i ∷ set a i v) (v ∷ a)
unfolding at
set-perm [] k new h = absurd (omega arith)
set-perm (old ∷ rest) zero new h = Perm.swap new old rest
set-perm (old ∷ rest) (suc k) new h =
    let below = set-perm rest k new (omega arith) in
    Perm.trans (Perm.swap old _ _) (Perm.trans (Perm.cons old below) (Perm.swap new old rest))

-- The slice after an exchange.
unfoldable pub exchange : List Item → ℕ → ℕ → List Item
exchange a i j = set (set a i (at a j)) j (at a i)

pub length-exchange : (a : List Item) (i j : ℕ) → length (exchange a i j) ≡ length a
unfolding exchange
length-exchange a i j = length-set (set a i (at a j)) j (at a i) ∙ length-set a i (at a j)

module _ (a : List Item) (i j : ℕ) (hi : i < length a) (hj : j < length a) where
  pub at-exchange :
      (c : ℕ)
      → at (exchange a i j) c ≡ (if j == c then at a i else if i == c then at a j else at a c)
  unfolding exchange
  at-exchange c = rw (
    at-set (set a i (at a j)) j c (at a i) (omega (arith, length-set a i (at a j))),
    at-set a i c (at a j) hi,
  )

  pub exchange-perm : Perm (exchange a i j) a
  unfolding exchange
  exchange-perm =
      let b = set a i (at a j) in
      let kept : at b j ≡ at a j = ground (arith, at-set a i j (at a j)) in
      let second = rw kept at (set-perm b j (at a i) (omega (arith, length-set a i (at a j)))) in
      Perm.cons_inv (Perm.trans second (set-perm a i (at a j) hi))
