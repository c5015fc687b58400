-- ===== src/Avl/Spec.antt =====
-- pkg/weighted_avl/weighted_avl.go: what the tree stands for, a list of keys with weights in
-- ascending order of the keys, and its operations on that list.
use doq.Common.{
  ℕ, ◌+◌, ◌-◌, ◌≡◌, List, [], ◌∷◌, ◌++◌, Option, none, some, true, arith, ltb, if◌then◌else◌, All,
  All-append, All-append_left, All-append_right, All-map, Bool-cases, inl, inr,
}
use doq.Common.Text.{Text, text_lt, text_lt_trans, text_lt_connected}

abbrev pub Entry : Type 0
Entry = Text × ℕ

abbrev pub Below : Text → List Entry → Type 0
Below k = All (λ (e : Entry). text_lt e.0 k ≡ true)

abbrev pub Above : Text → List Entry → Type 0
Above k = All (λ (e : Entry). text_lt k e.0 ≡ true)

-- Strictly ascending keys.
abbrev pub IsAscending : List Entry → Type 0
IsAscending [] = Unit
IsAscending (e ∷ es) = Above e.0 es × IsAscending es

unfoldable pub upsert : Text → ℕ → List Entry → List Entry
upsert k w [] = (k, w) ∷ []
upsert k w ((j, v) ∷ es) =
    let rest = upsert k w es in
    if text_lt k j then (k, w) ∷ (j, v) ∷ es else if text_lt j k then (j, v) ∷ rest else (k, w) ∷ es

unfoldable pub erase : Text → List Entry → List Entry
erase k [] = []
erase k ((j, v) ∷ es) =
    let rest = erase k es in
    if text_lt k j then (j, v) ∷ es else if text_lt j k then (j, v) ∷ rest else es

unfoldable pub lookup : Text → List Entry → Option ℕ
lookup k [] = none
lookup k ((j, v) ∷ es) =
    let rest = lookup k es in if text_lt k j then none else if text_lt j k then rest else some v

unfoldable pub total : List Entry → ℕ
total [] = 0
total ((k, w) ∷ es) = w + total es

-- The key that owns the `r`-th unit of weight.
unfoldable pub pick : List Entry → ℕ → Text
pick [] r = []
pick ((k, w) ∷ es) r = let rest = pick es (r - w) in if ltb r w then k else rest

pub total-append : (xs ys : List Entry) → total (xs ++ ys) ≡ total xs + total ys
unfolding total
total-append [] ys = omega arith
total-append ((k, w) ∷ xs) ys = omega (arith, total-append xs ys)

pub pick-append :
    (xs ys : List Entry) (r : ℕ)
    → pick (xs ++ ys) r ≡ (if ltb r (total xs) then pick xs r else pick ys (r - total xs))
unfolding pick total
pick-append [] ys r = ground arith
pick-append ((k, w) ∷ xs) ys r = ground (arith, pick-append xs ys (r - w))

pub Above-mono : (j k : Text) (es : List Entry) → text_lt j k ≡ true → Above k es → Above j es
Above-mono j k es h = All-map _ es (λ e a. text_lt_trans j k e.0 h a)

-- A list ascends around an entry exactly when its halves do, on either side of the key.
pub IsAscending-split :
    (xs ys : List Entry) (k : Text) (w : ℕ)
    → IsAscending (xs ++ ((k, w) ∷ ys))
    → IsAscending xs × IsAscending ys × Below k xs × Above k ys
IsAscending-split [] ys k w h = (tt, h.1, tt, h.0)
IsAscending-split ((j, v) ∷ xs) ys k w h =
    let (a, b, c, d) = IsAscending-split xs ys k w h.1 in
    ((All-append_left _ xs _ h.0, a), b, ((All-append_right _ xs ((k, w) ∷ ys) h.0).0, c), d)

pub IsAscending-join :
    (xs ys : List Entry) (k : Text) (w : ℕ)
    → IsAscending xs
    → IsAscending ys
    → Below k xs
    → Above k ys
    → IsAscending (xs ++ ((k, w) ∷ ys))
IsAscending-join [] ys k w a b c d = (d, b)
IsAscending-join ((j, v) ∷ xs) ys k w a b c d = (
  All-append _ xs ((k, w) ∷ ys) a.0 (c.0, Above-mono j k ys c.0 d),
  IsAscending-join xs ys k w a.1 b c.1 d,
)

pub Above-upsert :
    (j k : Text) (w : ℕ) (es : List Entry)
    → text_lt j k ≡ true
    → Above j es
    → Above j (upsert k w es)
unfolding upsert
Above-upsert j k w [] h a = (h, tt)
Above-upsert j k w ((i, v) ∷ es) h a = ground (arith, Above-upsert j k w es h a.1)

pub upsert-IsAscending :
    (k : Text) (w : ℕ) (es : List Entry) → IsAscending es → IsAscending (upsert k w es)
unfolding upsert
upsert-IsAscending k w [] a = (tt, tt)
upsert-IsAscending k w ((j, v) ∷ es) a = elim (Bool-cases (text_lt k j)) [
  | inl lt ↦ rw lt ((lt, Above-mono k j es lt a.0), a)
  | inr ge ↦ elim (Bool-cases (text_lt j k)) [
    | inl lt ↦ rw (ge, lt) (Above-upsert j k w es lt a.0, upsert-IsAscending k w es a.1)
    | inr ge' ↦ rw (ge, ge') (rw (text_lt_connected j k ge' ge) at a)
  ]
]

pub erase-IsAscending : (k : Text) (es : List Entry) → IsAscending es → IsAscending (erase k es)
unfolding erase
erase-IsAscending k [] a = tt
erase-IsAscending k ((j, v) ∷ es) a =
    ground (arith, erase-IsAscending k es a.1, Above-erase j k es a.0)
  where
    Above-erase : (j k : Text) (es : List Entry) → Above j es → Above j (erase k es)
    Above-erase j k [] a = tt
    Above-erase j k ((i, v) ∷ es) a = ground (arith, Above-erase j k es a.1)

-- The three ways a search goes at an entry in the middle.
