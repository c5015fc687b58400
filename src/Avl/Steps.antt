-- ===== src/Avl/Steps.antt =====
-- pkg/weighted_avl/weighted_avl.go: the operations on the list of entries, around one entry.
use doq.Common.{
  ℕ, ◌+◌, ◌≡◌, refl, List, [], ◌∷◌, ◌++◌, none, some, true, false, arith, if◌then◌else◌, Bool-cases,
  inl, inr, ◌⊎◌,
}
use mathlib.Core.Option
use doq.Common.Text.{
  Text, text_lt, text_lt_irrefl, text_lt_trans, text_lt_connected, text_eq, text_eq_refl,
  eq_of_text_eq,
}
use doq.Avl.Spec.{Entry, Below, Above, IsAscending, upsert, erase, lookup, total}

module _ (k : Text) (w : ℕ) (j : Text) (v : ℕ) where
  pub upsert_left :
      (xs ys : List Entry)
      → text_lt k j ≡ true
      → upsert k w (xs ++ ((j, v) ∷ ys)) ≡ upsert k w xs ++ ((j, v) ∷ ys)
  unfolding upsert
  upsert_left [] ys h = rw h
  upsert_left ((i, u) ∷ xs) ys h = ground (arith, upsert_left xs ys h)

  pub upsert_right :
      (xs ys : List Entry)
      → text_lt j k ≡ true
      → text_lt k j ≡ false
      → Below j xs
      → upsert k w (xs ++ ((j, v) ∷ ys)) ≡ xs ++ ((j, v) ∷ upsert k w ys)
  unfolding upsert
  upsert_right [] ys h g b = rw (g, h)
  upsert_right ((i, u) ∷ xs) ys h g b =
      ground (arith, upsert_right xs ys h g b.1, text_lt_trans i j k, text_lt_trans k i j)

  pub upsert_here :
      (xs ys : List Entry)
      → text_lt j k ≡ false
      → text_lt k j ≡ false
      → Below j xs
      → upsert k w (xs ++ ((j, v) ∷ ys)) ≡ xs ++ ((j, w) ∷ ys)
  unfolding upsert
  upsert_here [] ys h g b = rw (g, h, text_lt_connected j k h g)
  upsert_here ((i, u) ∷ xs) ys h g b = ground (
    arith,
    upsert_here xs ys h g b.1,
    text_lt_connected j k,
    text_lt_trans j i j,
    text_lt_irrefl j,
  )

module _ (k : Text) (j : Text) (v : ℕ) where
  pub erase_left :
      (xs ys : List Entry)
      → text_lt k j ≡ true
      → erase k (xs ++ ((j, v) ∷ ys)) ≡ erase k xs ++ ((j, v) ∷ ys)
  unfolding erase
  erase_left [] ys h = rw h
  erase_left ((i, u) ∷ xs) ys h = ground (arith, erase_left xs ys h)

  pub erase_right :
      (xs ys : List Entry)
      → text_lt j k ≡ true
      → text_lt k j ≡ false
      → Below j xs
      → erase k (xs ++ ((j, v) ∷ ys)) ≡ xs ++ ((j, v) ∷ erase k ys)
  unfolding erase
  erase_right [] ys h g b = rw (g, h)
  erase_right ((i, u) ∷ xs) ys h g b =
      ground (arith, erase_right xs ys h g b.1, text_lt_trans i j k, text_lt_trans k i j)

  pub erase_here :
      (xs ys : List Entry)
      → text_lt j k ≡ false
      → text_lt k j ≡ false
      → Below j xs
      → erase k (xs ++ ((j, v) ∷ ys)) ≡ xs ++ ys
  unfolding erase
  erase_here [] ys h g b = rw (g, h)
  erase_here ((i, u) ∷ xs) ys h g b = ground (
    arith,
    erase_here xs ys h g b.1,
    text_lt_connected j k,
    text_lt_trans j i j,
    text_lt_irrefl j,
  )

  pub lookup_left :
      (xs ys : List Entry) → text_lt k j ≡ true → lookup k (xs ++ ((j, v) ∷ ys)) ≡ lookup k xs
  unfolding lookup
  lookup_left [] ys h = rw h
  lookup_left ((i, u) ∷ xs) ys h = ground (arith, lookup_left xs ys h)

  pub lookup_right :
      (xs ys : List Entry)
      → text_lt j k ≡ true
      → text_lt k j ≡ false
      → Below j xs
      → lookup k (xs ++ ((j, v) ∷ ys)) ≡ lookup k ys
  unfolding lookup
  lookup_right [] ys h g b = rw (g, h)
  lookup_right ((i, u) ∷ xs) ys h g b =
      ground (arith, lookup_right xs ys h g b.1, text_lt_trans i j k, text_lt_trans k i j)

  pub lookup_here :
      (xs ys : List Entry)
      → text_lt j k ≡ false
      → text_lt k j ≡ false
      → Below j xs
      → lookup k (xs ++ ((j, v) ∷ ys)) ≡ some v
  unfolding lookup
  lookup_here [] ys h g b = rw (g, h)
  lookup_here ((i, u) ∷ xs) ys h g b = ground (
    arith,
    lookup_here xs ys h g b.1,
    text_lt_connected j k,
    text_lt_trans j i j,
    text_lt_irrefl j,
  )

pub erase_head : (k : Text) (v : ℕ) (es : List Entry) → erase k ((k, v) ∷ es) ≡ es
unfolding erase
erase_head k v es = rw text_lt_irrefl

pub lookup-upsert_self : (k : Text) (w : ℕ) (es : List Entry) → lookup k (upsert k w es) ≡ some w
unfolding lookup upsert
lookup-upsert_self k w [] = rw text_lt_irrefl
lookup-upsert_self k w ((j, v) ∷ es) = ground (arith, lookup-upsert_self k w es, text_lt_irrefl k)

pub total-upsert :
    (k : Text) (w : ℕ) (es : List Entry)
    → IsAscending es
    → total (upsert k w es) + Option.get_or (lookup k es) 0 ≡ total es + w
unfolding total upsert lookup
total-upsert k w [] a = omega arith
total-upsert k w ((j, v) ∷ es) a = ground (arith, total-upsert k w es a.1)

-- Where a key is missing, so is it above every later key.
lookup-Above : (j k : Text) (es : List Entry) → Above k es → text_lt j k ≡ true → lookup j es ≡ none
unfolding lookup
lookup-Above j k [] a h = refl
lookup-Above j k ((i, v) ∷ es) a h = ground (arith, text_lt_trans j k i, a.0)

lookup-Above_self : (k : Text) (es : List Entry) → Above k es → lookup k es ≡ none
unfolding lookup
lookup-Above_self k [] a = refl
lookup-Above_self k ((i, v) ∷ es) a = ground (arith, a.0)

text_eq-cases : (k j : Text) → ((text_eq k j ≡ true) × (k ≡ j)) ⊎ (text_eq k j ≡ false)
text_eq-cases k j = elim (Bool-cases (text_eq k j)) [
  | inl e ↦ inl (e, eq_of_text_eq k j e)
  | inr e ↦ inr e
]

pub lookup-upsert :
    (k : Text) (w : ℕ) (es : List Entry) (j : Text)
    → lookup j (upsert k w es) ≡ (if text_eq k j then some w else lookup j es)
unfolding lookup upsert
lookup-upsert k w [] j =
    ground (arith, text_lt_connected k j, eq_of_text_eq k j, text_eq_refl k, text_lt_irrefl k)
lookup-upsert k w ((i, v) ∷ es) j = ground (
  arith,
  lookup-upsert k w es j,
  text_lt_connected k j,
  text_lt_connected i k,
  text_lt_connected i j,
  text_lt_trans j k i,
  text_lt_trans i k j,
  text_lt_trans k i j,
  eq_of_text_eq k j,
  text_eq_refl k,
  text_lt_irrefl k,
)

pub lookup-erase :
    (k : Text) (es : List Entry) (j : Text)
    → IsAscending es
    → lookup j (erase k es) ≡ (if text_eq k j then none else lookup j es)
unfolding lookup erase
lookup-erase k [] j a = ground arith
lookup-erase k ((i, v) ∷ es) j a = ground (
  arith,
  lookup-erase k es j a.1,
  lookup-Above_self i es a.0,
  lookup-Above j i es a.0,
  text_lt_connected i k,
  text_lt_connected i j,
  text_lt_trans j k i,
  eq_of_text_eq k j,
  text_eq_refl k,
  text_eq_refl i,
  text_lt_irrefl k,
  text_lt_irrefl j,
)
