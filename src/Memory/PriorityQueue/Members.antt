-- ===== src/Memory/PriorityQueue/Members.antt =====
-- pkg/queue/memory/priority_memory_queue.go: an item that a queue holds is found by its id.
use mathlib.Core.Logic.Or
use mathlib.Core.Logic.{inl}
use mathlib.Core.List.{Mem, mem-cons, not-mem-nil}
use mathlib.Core.List.Perm
use native.Mathlib.Decide.{ℕ_discrete}
use doq.Common.{ℕ, suc, ◌<◌, ◌≡◌, refl, sym, List, [], ◌∷◌, Option, some, arith, length}
use doq.Common.Int.{ℤ}
use doq.Memory.PriorityQueue
use doq.Memory.PriorityQueue.{Item, PriorityQueue}
use doq.Memory.PriorityQueue.Slice.{at, get_elem?-at}
use doq.Memory.PriorityQueue.Valid.{IsValid, Holds}

index_of_Mem :
    (P : Type 0) (xs : List Item) (x : Item)
    → IsProp P
    → ((i : ℕ) → i < length xs → at xs i ≡ x → P)
    → Mem x xs
    → P
unfolding at
index_of_Mem P [] x prop k m = absurd (not-mem-nil m)
index_of_Mem P (y ∷ ys) x prop k m =
    Or.elim prop (mem-cons.0 m) (λ e. k 0 (omega arith) (sym e))
      (index_of_Mem P ys x prop λ i h e. k (suc i) (omega arith) e)

ℤ-discrete : Discrete ℤ
ℤ-discrete = hlevel ℕ_discrete

Item-discrete : Discrete Item
Item-discrete = hlevel (ℕ_discrete, ℤ-discrete)

Found-prop : (r s : Option (Option Item)) → IsProp (r ≡ s)
Found-prop r s = hlevel (Item-discrete)

pub get_of_Mem :
    (pq : PriorityQueue) (x : Item)
    → IsValid pq
    → Mem x pq.items
    → PriorityQueue.get pq x.id ≡ some (some x)
unfolding PriorityQueue.get
get_of_Mem pq x v m =
    index_of_Mem _ pq.items x (Found-prop _ _)
      (λ i h e.
        let at_id = v.indexed.at_index i h in
        let known : pq.id_to_index x.id ≡ some i = rw (← e) at_id in
        rw (known, PriorityQueue.get) (rw (get_elem?-at pq.items i h) (rw e refl)))
      m

pub get_of_Holds :
    (pq p : PriorityQueue) (x : Item)
    → Holds pq (x ∷ pq.items) p
    → PriorityQueue.get p x.id ≡ some (some x)
get_of_Holds pq p x h =
    get_of_Mem p x h.valid ((Perm.mem_iff h.contents).1 (mem-cons.1 ∣ inl refl ∣₁))
