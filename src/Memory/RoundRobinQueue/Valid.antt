-- ===== src/Memory/RoundRobinQueue/Valid.antt =====
-- pkg/queue/memory/fair_round_robin_queue.go: the invariant of the store of nodes, and what a write of
-- a node keeps of it.
use doq.Common.{
  ℕ, zero, suc, ◌+◌, ◌<◌, ◌≡◌, refl, Bool, true, false, List, [], ◌∷◌, ◌++◌, none, some, arith,
  length, get_elem?, set, ap, ◌⊎◌, inl, inr,
}
use doq.Common.Int.{ℤ, pos, ◌+ℤ◌, ◌-ℤ◌}
use doq.Common.Text.{Text, bytes}
use doq.Common.Dict
use doq.Memory.PriorityQueue.Valid
use doq.Memory.PriorityQueue.Valid.{new_queue-IsValid}
use doq.Memory.RoundRobinQueue.{
  GroupNode, RoundRobinQueue, load, put, set_ready, contains, new_group_node,
  new_fair_round_robin_queue,
}

abbrev pub bit : Bool → ℕ
bit true = 1
bit false = 0

-- The nodes that are flagged as ready leaves.
unfoldable pub count_ready : List GroupNode → ℕ
count_ready [] = 0
count_ready (n ∷ ns) = bit n.ready + count_ready ns

-- A node at the address `a` of a store of a size: its parent stands before it, and its children after
-- it; the listed names are children, and the cursor is at one of them.
pub record IsNode (size a : ℕ) (n : GroupNode) : Type 0 where
  pub queue : Valid.IsValid n.queue
  pub parent : (p : ℕ) → n.parent ≡ some p → p < a
  pub children : (k : Text) (c : ℕ) → Dict.lookup n.children k ≡ some c → (a < c) × (c < size)
  pub listed :
      (k : Text) → contains n.children_list k ≡ true → (c : ℕ) × (Dict.lookup n.children k ≡ some c)
  pub cursor : (k : Text) → n.current_child ≡ some k → contains n.children_list k ≡ true

pub record IsValid (q : RoundRobinQueue) : Type 0 where
  pub rooted : 0 < length q.nodes
  pub nodes : (a : ℕ) (n : GroupNode) → load q a ≡ some n → IsNode (length q.nodes) a n
  pub leaves : (k : Text) (a : ℕ) → Dict.lookup q.group_key_to_leaf k ≡ some a → a < length q.nodes
  pub counted : q.ready_leaves ≡ pos (count_ready q.nodes)

pub load_below :
    (ns : List GroupNode) (a : ℕ) → a < length ns → (n : GroupNode) × (get_elem? ns a ≡ some n)
load_below [] a h = elim h [ ]
load_below (n ∷ ns) zero h = (n, refl)
load_below (n ∷ ns) (suc a) h = load_below ns a (omega arith)

pub below_of_load :
    (ns : List GroupNode) (a : ℕ) (n : GroupNode) → get_elem? ns a ≡ some n → a < length ns
below_of_load [] a n e = cc
below_of_load (m ∷ ns) zero n e = omega arith
below_of_load (m ∷ ns) (suc a) n e = omega (arith, below_of_load ns a n e)

pub length-set : (ns : List GroupNode) (a : ℕ) (n : GroupNode) → length (set ns a n) ≡ length ns
length-set [] a n = refl
length-set (m ∷ ns) zero n = refl
length-set (m ∷ ns) (suc a) n = ap suc (length-set ns a n)

pub load-set_self :
    (ns : List GroupNode) (a : ℕ) (n : GroupNode)
    → a < length ns
    → get_elem? (set ns a n) a ≡ some n
load-set_self [] a n h = elim h [ ]
load-set_self (m ∷ ns) zero n h = refl
load-set_self (m ∷ ns) (suc a) n h = load-set_self ns a n (omega arith)

-- What stands in the store after a write: what was written, or what stood there.
pub load-set :
    (ns : List GroupNode) (a b : ℕ) (n m : GroupNode)
    → get_elem? (set ns a n) b ≡ some m
    → ((a ≡ b) × (n ≡ m)) ⊎ (get_elem? ns b ≡ some m)
load-set [] a b n m e = cc
load-set (k ∷ ns) zero zero n m e = inl (refl, cc)
load-set (k ∷ ns) zero (suc b) n m e = inr e
load-set (k ∷ ns) (suc a) zero n m e = inr e
load-set (k ∷ ns) (suc a) (suc b) n m e = elim (load-set ns a b n m e) [
  | inl (p, r) ↦ inl (ap suc p, r)
  | inr r ↦ inr r
]

pub count_ready-set :
    (ns : List GroupNode) (a : ℕ) (n m : GroupNode)
    → get_elem? ns a ≡ some n
    → count_ready (set ns a m) + bit n.ready ≡ count_ready ns + bit m.ready
unfolding count_ready
count_ready-set [] a n m e = cc
count_ready-set (k ∷ ns) zero n m e = let same : k ≡ n = cc in rw same (omega arith)
count_ready-set (k ∷ ns) (suc a) n m e = omega (arith, count_ready-set ns a n m e)

pub count_ready-append :
    (ns ms : List GroupNode) → count_ready (ns ++ ms) ≡ count_ready ns + count_ready ms
unfolding count_ready
count_ready-append [] ms = omega arith
count_ready-append (n ∷ ns) ms = omega (arith, count_ready-append ns ms)

one_more : (c d : ℕ) → d ≡ c + 1 → pos c +ℤ pos 1 ≡ pos d
unfolding ◌+ℤ◌
one_more c d e = ground arith

one_less : (c d : ℕ) → d + 1 ≡ c → pos c -ℤ pos 1 ≡ pos d
unfolding ◌-ℤ◌
one_less c d e = ground arith

module _ (q : RoundRobinQueue) (v : IsValid q) (a : ℕ) (n : GroupNode)
    (there : load q a ≡ some n) where
  below : a < length q.nodes
  below = below_of_load q.nodes a n there

  -- A node that takes the place of another with the same flag.
  pub put-IsValid :
      (m : GroupNode) → IsNode (length q.nodes) a m → m.ready ≡ n.ready → IsValid (put q a m)
  put-IsValid m w same =
      let size = length-set q.nodes a m in
      let count = count_ready-set q.nodes a n m there in
      let kept : count_ready (set q.nodes a m) ≡ count_ready q.nodes =
        omega (arith, count, ap bit same) in
      record {
        rooted = omega (arith, size, v.rooted);
        nodes = λ b k e. rw size (elim (load-set q.nodes a b m k e) [
          | inl (p, r) ↦ rw (← p, ← r) w
          | inr r ↦ v.nodes b k r
        ]);
        leaves = λ k b e. omega (arith, size, v.leaves k b e);
        counted = rw kept v.counted;
      }

  flag-IsValid :
      (r : Bool) (leaves : ℤ)
      → leaves ≡ pos (count_ready (set q.nodes a (record n { ready = r })))
      → IsValid (record (put q a (record n { ready = r })) { ready_leaves = leaves })
  flag-IsValid r leaves e =
      let size = length-set q.nodes a (record n { ready = r }) in
      let w = v.nodes a n there in
      record {
        rooted = omega (arith, size, v.rooted);
        nodes = λ b k f. rw size (elim (load-set q.nodes a b (record n { ready = r }) k f) [
          | inl (p, same) ↦
              rw (← p, ← same)
                (record {
                  queue = w.queue;
                  parent = w.parent;
                  children = w.children;
                  listed = w.listed;
                  cursor = w.cursor;
                })
          | inr old ↦ v.nodes b k old
        ]);
        leaves = λ k b f. omega (arith, size, v.leaves k b f);
        counted = e;
      }

  -- The flag may change if the counter follows it.
  pub set_ready-IsValid : (old new : Bool) → n.ready ≡ old → IsValid (set_ready q a n old new)
  set_ready-IsValid true true e = v
  set_ready-IsValid false false e = v
  set_ready-IsValid false true e = flag-IsValid true _ (
      rw v.counted (
        one_more (count_ready q.nodes) _
          (omega (arith, count_ready-set q.nodes a n (record n { ready = true }) there, ap bit e))))
  set_ready-IsValid true false e = flag-IsValid false _ (
      rw v.counted (
        one_less (count_ready q.nodes) _ (
          omega (arith, count_ready-set q.nodes a n (record n { ready = false }) there, ap bit e))))

no_entry : (k : Text) (c : ℕ) → Dict.lookup {V = ℕ} [] k ≡ some c → ⊥
unfolding Dict.lookup
no_entry k c e = cc

leaf-IsNode : (name : Text) → IsNode 1 0 (new_group_node name none)
unfolding contains
leaf-IsNode name = record {
  queue = new_queue-IsValid true;
  parent = λ p e. cc;
  children = λ k c e. absurd (no_entry k c e);
  listed = λ k e. cc;
  cursor = λ k e. cc;
}

-- A new queue is well formed.
pub new_fair_round_robin_queue-IsValid :
    (max_unacked : ℤ) → IsValid (new_fair_round_robin_queue max_unacked)
unfolding new_fair_round_robin_queue count_ready
new_fair_round_robin_queue-IsValid max_unacked = record {
  rooted = omega arith;
  nodes = only_root;
  leaves = λ k a e. absurd (no_entry k a e);
  counted = refl;
}
  where
    only_root :
        (a : ℕ) (n : GroupNode)
        → get_elem? (new_group_node (bytes "root") none ∷ []) a ≡ some n
        → IsNode 1 a n
    only_root zero n e =
        let same : new_group_node (bytes "root") none ≡ n = cc in
        rw (← same) (leaf-IsNode (bytes "root"))
    only_root (suc a) n e = cc
