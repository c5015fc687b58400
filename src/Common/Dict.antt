-- ===== src/Common/Dict.antt =====
-- Maps with string keys as association lists.
use doq.Common.Tests.{if◌then◌else◌}
use doq.Common.Text.{Text, text_eq, text_eq_refl, eq_of_text_eq}
use doq.Common.Lists.{length}
use mathlib.Core.Path.{◌≡◌, refl}
use mathlib.Core.Option.{Option, none, some}
use mathlib.Core.List.{List, [], ◌∷◌}
use native.Mathlib.Omega.{arith}

module _ {ℓ} {V : Type ℓ} where
  unfoldable pub lookup : List (Text × V) → Text → Option V
  lookup [] k = none
  lookup ((j, v) ∷ m) k = if text_eq j k then some v else lookup m k

  unfoldable pub insert : List (Text × V) → Text → V → List (Text × V)
  insert [] k v = (k, v) ∷ []
  insert ((j, w) ∷ m) k v = if text_eq j k then (k, v) ∷ m else (j, w) ∷ insert m k v

  unfoldable pub remove : List (Text × V) → Text → List (Text × V)
  remove [] k = []
  remove ((j, w) ∷ m) k = if text_eq j k then remove m k else (j, w) ∷ remove m k

  pub lookup-insert :
      (m : List (Text × V)) (k : Text) (v : V) (j : Text)
      → lookup (insert m k v) j ≡ (if text_eq k j then some v else lookup m j)
  unfolding lookup insert
  lookup-insert [] k v j = refl
  lookup-insert ((i, w) ∷ m) k v j =
      ground (arith, lookup-insert m k v j, eq_of_text_eq i k, eq_of_text_eq k j, text_eq_refl k)

  pub lookup-remove :
      (m : List (Text × V)) (k j : Text)
      → lookup (remove m k) j ≡ (if text_eq k j then none else lookup m j)
  unfolding lookup remove
  lookup-remove [] k j = ground arith
  lookup-remove ((i, w) ∷ m) k j = ground (
    arith,
    lookup-remove m k j,
    eq_of_text_eq i k,
    eq_of_text_eq k j,
    eq_of_text_eq i j,
    text_eq_refl k,
    text_eq_refl j,
  )

  pub lookup-empty : (m : List (Text × V)) (k : Text) → length m ≡ 0 → lookup m k ≡ none
  unfolding lookup
  lookup-empty [] k e = refl
  lookup-empty (x ∷ m) k e = absurd (omega arith)
