-- ===== src/Avl/Sampling.antt =====
-- pkg/weighted_avl/weighted_avl.go: Sample picks each key for as many residues as its weight.
use doq.Common.{
  ℕ, zero, suc, ◌+◌, ◌-◌, ◌%◌, ◌<◌, ◌≡◌, refl, ap, List, [], ◌∷◌, some, Bool, true, false, arith,
  ltb, ◌==◌, if◌then◌else◌, Bool-cases, inl, inr,
}
use mathlib.Core.Option
use doq.Common.Text.{
  Text, text_lt, text_eq, text_eq_refl, eq_of_text_eq, text_lt_irrefl, text_lt_trans,
  text_lt_connected,
}
use doq.Avl.{Tree, leaf, node, sum, sample, sample_seed, mix64, get, entries}
use doq.Avl.Shape.{IsAvl}
use doq.Avl.Spec.{
  Entry, Above, Above-mono, IsAscending, lookup, pick, total, total-append, pick-append,
}
use doq.Avl.Entries.{IsValid, get-lookup}

-- The stored sum is the total weight.
pub sum-total : (t : Tree) → IsAvl t → sum t ≡ total (entries t)
unfolding entries total
sum-total leaf v = refl
sum-total (node k w s h l r) v =
    omega (arith, sum-total l v.0, sum-total r v.1, total-append (entries l) ((k, w) ∷ entries r))

sample-leaf : (r : ℕ) → sample leaf r ≡ pick [] r
unfolding sample pick
sample-leaf r = refl

sample-node :
    (k : Text) (w s h : ℕ) (left right : Tree) (r : ℕ)
    → sample (node k w s h left right) r ≡ (
        if ltb r (sum left)
        then sample left r
        else if ltb r (sum left + w)
        then k
        else sample right (r - sum left - w))
unfolding sample
sample-node k w s h left right r = refl

pick-cons :
    (k : Text) (w : ℕ) (es : List Entry) (r : ℕ)
    → pick ((k, w) ∷ es) r ≡ (if ltb r w then k else pick es (r - w))
unfolding pick
pick-cons k w es r = refl

shifted_test :
    (x y z : Text) (r a w : ℕ)
    → (if ltb r a then x else if ltb r (a + w) then y else z)
      ≡ (if ltb r a then x else if ltb (r - a) w then y else z)
shifted_test x y z r a w = ground arith

-- `sample` walks to the owner of the `r`-th unit of weight.
pub sample-pick : (t : Tree) (r : ℕ) → IsAvl t → sample t r ≡ pick (entries t) r
unfolding entries
sample-pick leaf r v = sample-leaf r
sample-pick (node k w s h left right) r v =
    rw
      (
        sample-node k w s h left right r,
        pick-append (entries left) ((k, w) ∷ entries right) r,
        ← sum-total left v.0,
        pick-cons k w (entries right) (r - sum left),
        sample-pick left r v.0,
        sample-pick right (r - sum left - w) v.1,
      )
      (shifted_test _ _ _ r (sum left) w)

-- How many numbers below `n` pass the test.
unfoldable pub count_below : ℕ → (ℕ → Bool) → ℕ
count_below zero p = 0
count_below (suc n) p = count_below n p + (if p n then 1 else 0)

count_below-add :
    (m n k : ℕ) (p : ℕ → Bool)
    → k ≡ m + n
    → count_below k p ≡ count_below m p + count_below n (λ i. p (m + i))
unfolding count_below
count_below-add m zero k p e = let e' : k ≡ m = omega arith in rw e' (omega arith)
count_below-add m (suc n) zero p e = absurd (omega arith)
count_below-add m (suc n) (suc k) p e =
    let e' : k ≡ m + n = omega arith in rw (count_below-add m n k p e', e') (omega arith)

count_below-ext :
    (n : ℕ) (p q : ℕ → Bool) → ((i : ℕ) → i < n → p i ≡ q i) → count_below n p ≡ count_below n q
unfolding count_below
count_below-ext zero p q h = refl
count_below-ext (suc n) p q h =
    rw (h n (omega arith), count_below-ext n p q (λ i l. h i (omega arith)))

count_below-const : (n : ℕ) (b : Bool) → count_below n (λ _. b) ≡ (if b then n else 0)
unfolding count_below
count_below-const zero true = refl
count_below-const zero false = refl
count_below-const (suc n) b = ground (arith, count_below-const n b)

owned : Text → List Entry → ℕ
owned k es = count_below (total es) (λ r. text_eq (pick es r) k)

owned-nil : (k : Text) → owned k [] ≡ 0
unfolding owned total count_below
owned-nil k = refl

ne_of_text_lt : (k j : Text) → text_lt k j ≡ true → text_eq j k ≡ false
ne_of_text_lt k j h = elim (Bool-cases (text_eq j k)) [
  | inl e ↦ cc (eq_of_text_eq j k e, text_lt_irrefl k)
  | inr e ↦ e
]

owned-cons :
    (k j : Text) (v : ℕ) (es : List Entry)
    → owned k ((j, v) ∷ es) ≡ (if text_eq j k then v else 0) + owned k es
unfolding owned total pick
owned-cons k j v es = rw (
  count_below-add v (total es) (v + total es) (λ r. text_eq (pick ((j, v) ∷ es) r) k) refl,
  count_below-ext v (λ r. text_eq (pick ((j, v) ∷ es) r) k) (λ _. text_eq j k)
      (λ i l. ground arith),
  count_below-const v (text_eq j k),
  count_below-ext (total es) (λ r. text_eq (pick ((j, v) ∷ es) (v + r)) k)
      (λ r. text_eq (pick es r) k)
      (λ i l. let e : v + i - v ≡ i = omega arith in ground (arith, e)),
)

-- Keys above `k` own nothing of what is picked as `k`.
owned-Above : (k : Text) (es : List Entry) → Above k es → owned k es ≡ 0
unfolding total
owned-Above k [] a = owned-nil k
owned-Above k ((j, v) ∷ es) a =
    rw (owned-cons k j v es, owned-Above k es a.1, ne_of_text_lt k j a.0) refl

-- Each key owns as many units as its weight, and a missing key none.
owned-lookup :
    (k : Text) (es : List Entry) → IsAscending es → owned k es ≡ Option.get_or (lookup k es) 0
unfolding lookup
owned-lookup k [] a = owned-nil k
owned-lookup k ((j, v) ∷ es) a = rw (owned-cons k j v es) (
    ground (
      arith,
      owned-lookup k es a.1,
      eq_of_text_eq j k,
      text_eq_refl k,
      text_lt_connected j k,
      text_lt_irrefl k,
      text_lt_irrefl j,
      owned-Above k es,
      λ (h : text_lt k j ≡ true). Above-mono k j es h a.0,
      a.0,
    ))

text_lt-lookup :
    (k j : Text) (v : ℕ) (es : List Entry) → Above k es → lookup j es ≡ some v → text_lt k j ≡ true
unfolding lookup
text_lt-lookup k j v [] a e = cc
text_lt-lookup k j v ((i, u) ∷ es) a e =
    ground (arith, text_lt-lookup k j v es a.1, text_lt_connected i j, a.0)

lookup_first : (k : Text) (v : ℕ) (es : List Entry) → lookup k ((k, v) ∷ es) ≡ some v
unfolding lookup
lookup_first k v es = rw text_lt_irrefl

lookup_later :
    (k j : Text) (v w : ℕ) (es : List Entry)
    → text_lt k j ≡ true
    → lookup j es ≡ some w
    → lookup j ((k, v) ∷ es) ≡ some w
unfolding lookup
lookup_later k j v w es lt e = ground (arith, text_lt_trans k j k, text_lt_irrefl k)

-- The owner of a unit has a positive weight.
pick-positive :
    (es : List Entry) (r : ℕ)
    → IsAscending es
    → r < total es
    → (w : ℕ) × (lookup (pick es r) es ≡ some w) × (0 < w)
unfolding total
pick-positive [] r a h = absurd (omega arith)
pick-positive ((k, v) ∷ es) r a h = elim (Bool-cases (ltb r v)) [
  | inl lt ↦ (v, rw (pick-cons k v es r, lt) (lookup_first k v es), ground arith)
  | inr ge ↦
      let (w, e, p) = pick-positive es (r - v) a.1 (ground arith) in
      let after = text_lt-lookup k (pick es (r - v)) w es a.0 e in
      (w, rw (pick-cons k v es r, ge) (lookup_later k (pick es (r - v)) v w es after e), p)
]

-- Of the residues below the sum, as many lead to a key as it has weight: the pick is proportional.
pub sample_share :
    (t : Tree) (key : Text)
    → IsValid t
    → count_below (sum t) (λ r. text_eq (sample t r) key) ≡ Option.get_or (get t key) 0
unfolding owned
sample_share t key (v, a) =
    rw
      (
        get-lookup t key a,
        count_below-ext (sum t) (λ r. text_eq (sample t r) key)
            (λ r. text_eq (pick (entries t) r) key)
            (λ i _. ap (λ s. text_eq s key) (sample-pick t i v)),
        sum-total t v,
      )
      (owned-lookup key (entries t) a)

-- Whatever the seed, Sample on a tree with weight picks a key of the tree with a positive weight.
pub sample_seed-positive :
    (t : Tree) (seed : ℕ)
    → IsValid t
    → 0 < sum t
    → (w : ℕ) × (get t (sample_seed t seed) ≡ some w) × (0 < w)
unfolding sample_seed
sample_seed-positive t seed (v, a) h =
    let some_weight : (sum t == 0) ≡ false = ground arith in
    let r = mix64 seed % sum t in
    rw (some_weight, get-lookup t _ a, sample-pick t r v)
      (pick-positive (entries t) r a (omega (arith, sum-total t v)))

-- Without weight there is no pick.
pub sample_seed-zero : (t : Tree) (seed : ℕ) → sum t ≡ 0 → sample_seed t seed ≡ []
unfolding sample_seed
sample_seed-zero t seed e = let z : (sum t == 0) ≡ true = ground arith in rw z refl
