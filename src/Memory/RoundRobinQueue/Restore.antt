-- ===== src/Memory/RoundRobinQueue/Restore.antt =====
-- pkg/queue/memory/fair_round_robin_queue.go: a node takes over the scheduling state of its original.
use doq.Common.{
  ◌≡◌, refl, true, false, List, [], ◌∷◌, none, some, arith, ap, append-nil, ◌⊎◌, inl, inr,
}
use doq.Common.Text.{Text, text_eq_refl}
use doq.Memory.RoundRobinQueue.{GroupNode, contains}
use doq.Memory.RoundRobinQueue.Scheduling.{state_of, has_child, listed, unlisted, restore_node}

-- Names that do not repeat, and are none of those seen.
abbrev pub Distinct : List Text → List Text → Type 0
Distinct seen [] = Unit
Distinct seen (name ∷ names) = (contains seen name ≡ false) × Distinct (name ∷ seen) names

contains_head : (names : List Text) (k : Text) → contains (k ∷ names) k ≡ true
unfolding contains
contains_head names k = rw (text_eq_refl k) refl

contains_tail :
    (names : List Text) (x k : Text) → contains names k ≡ true → contains (x ∷ names) k ≡ true
unfolding contains
contains_tail names x k h = ground (arith, h)

listed_all :
    (n : GroupNode) (seen names : List Text)
    → Distinct seen names
    → ((k : Text) → contains names k ≡ true → has_child n k ≡ true)
    → listed n seen names ≡ names
unfolding listed
listed_all n seen [] d h = refl
listed_all n seen (name ∷ names) d h =
    let child = h name (contains_head names name) in
    let rest = listed_all n (name ∷ seen) names d.1 λ k e. h k (contains_tail names name k e) in
    rw (child, d.0) (ap (λ t. name ∷ t) rest)

unlisted_none :
    (seen names : List Text)
    → ((k : Text) → contains names k ≡ true → contains seen k ≡ true)
    → unlisted seen names ≡ []
unfolding unlisted
unlisted_none seen [] h = refl
unlisted_none seen (name ∷ names) h =
    rw (h name (contains_head names name))
      (unlisted_none seen names λ k e. h k (contains_tail names name k e))

-- A node of a rebuilt tree that takes over the state of its original, whose children have the same
-- names: it visits its children in the original's order, from the original's cursor. The original's
-- names do not repeat, its cursor is at one of them, or unset and then no child has the empty name.
pub restore_node-state_of :
    (n original : GroupNode)
    → Distinct [] original.children_list
    → ((k : Text) → contains original.children_list k ≡ true → has_child n k ≡ true)
    → ((k : Text) → contains n.children_list k ≡ true → contains original.children_list k ≡ true)
    → (((original.current_child ≡ none) × (contains original.children_list [] ≡ false))
        ⊎ ((k : Text) × (original.current_child ≡ some k)
            × (contains original.children_list k ≡ true)))
    → restore_node n (state_of original)
      ≡ record n { children_list = original.children_list; current_child = original.current_child }
unfolding restore_node
restore_node-state_of n original distinct known same cursor =
    let names = original.children_list in
    let order = listed_all n [] names distinct known in
    let rest = unlisted_none names n.children_list same in
    rw order (
      rw rest (
        rw (append-nil names) (elim cursor [
          | inl (unset, no_empty) ↦ rw (unset, no_empty) refl
          | inr (k, set, in_list) ↦ rw (set, in_list) refl
        ])))
