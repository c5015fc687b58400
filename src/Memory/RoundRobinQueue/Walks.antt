-- ===== src/Memory/RoundRobinQueue/Walks.antt =====
-- pkg/queue/memory/fair_round_robin_queue.go: a walk down the tree moves cursors, and may take the first
-- message of one leaf.
use doq.Common.{
  ℕ, zero, suc, ◌≡◌, refl, true, false, List, [], ◌∷◌, Option, none, some, arith, length, get_elem?,
  set, ap, sym, ◌∙◌, ◌⊎◌, inl, inr, Option-cases, Bool-cases, ◌==◌,
}
use doq.Common.Text.{Text}
use doq.Memory.PriorityQueue.{Item, PriorityQueue}
use doq.Memory.PriorityQueue.Slice.{at}
use doq.Memory.PriorityQueue.Laws.{Takes}
use doq.Memory.RoundRobinQueue.{GroupNode, RoundRobinQueue, load, put, is_empty, under_limit}
use doq.Memory.RoundRobinQueue.Valid.{IsValid, load_below, below_of_load, length-set, load-set_self}

-- Nothing but cursors differs, and a cursor that is set stays set.
pub record Walks (q q' : RoundRobinQueue) : Type 0 where
  pub frame : q' ≡ record q { nodes = q'.nodes }
  pub size : length q'.nodes ≡ length q.nodes
  pub nodes :
      (b : ℕ) (m : GroupNode)
      → load q b ≡ some m
      → (cursor : Option Text) × (load q' b ≡ some (record m { current_child = cursor }))
        × ((m.current_child ≡ none) ⊎ ((k : Text) × (cursor ≡ some k)))

pub Walks-refl : (q : RoundRobinQueue) → Walks q q
Walks-refl q = record {
  frame = refl;
  size = refl;
  nodes = λ b m e. (m.current_child, e, Option-cases m.current_child);
}

pub Walks-trans : (q r s : RoundRobinQueue) → Walks q r → Walks r s → Walks q s
Walks-trans q r s f g = record {
  frame = g.frame ∙ ap (λ (t : RoundRobinQueue). record t { nodes = s.nodes }) f.frame;
  size = g.size ∙ f.size;
  nodes = λ b m e.
      let (c1, e1, h1) = f.nodes b m e in
      let (c2, e2, h2) = g.nodes b (record m { current_child = c1 }) e1 in
      (
        c2,
        e2,
        elim h1 [
          | inl unset ↦ inl unset
          | inr (k, moved) ↦ elim h2 [ inl unset ↦ cc | inr later ↦ inr later ]
        ],
      );
}

-- A node that takes another's place, and what of the others stays.
pub load-put :
    (ns : List GroupNode) (a b : ℕ) (n m k : GroupNode)
    → get_elem? ns a ≡ some n
    → get_elem? ns b ≡ some k
    → ((n ≡ k) × (get_elem? (set ns a m) b ≡ some m)) ⊎ (get_elem? (set ns a m) b ≡ some k)
load-put [] a b n m k e f = cc
load-put (x ∷ ns) zero zero n m k e f =
    let one : x ≡ n = cc in let two : x ≡ k = cc in inl (sym one ∙ two, refl)
load-put (x ∷ ns) zero (suc b) n m k e f = inr f
load-put (x ∷ ns) (suc a) zero n m k e f = inr f
load-put (x ∷ ns) (suc a) (suc b) n m k e f = load-put ns a b n m k e f

module _ (q : RoundRobinQueue) (a : ℕ) (n : GroupNode) (there : load q a ≡ some n) where
  pub Walks-put : (k : Text) → Walks q (put q a (record n { current_child = some k }))
  Walks-put k = record {
    frame = refl;
    size = length-set q.nodes a (record n { current_child = some k });
    nodes = λ b m e. elim (load-put q.nodes a b n (record n { current_child = some k }) m there e) [
      | inl (same, now) ↦ (
        some k,
        now ∙ ap (λ (t : GroupNode). some (record t { current_child = some k })) same,
        inr (k, refl),
      )
      | inr now ↦ (m.current_child, now, Option-cases m.current_child)
    ];
  }

load-set_other :
    (ns : List GroupNode) (a b : ℕ) (m : GroupNode)
    → (a == b) ≡ false
    → get_elem? (set ns a m) b ≡ get_elem? ns b
load-set_other [] a b m e = refl
load-set_other (x ∷ ns) zero zero m e = absurd (ground arith)
load-set_other (x ∷ ns) zero (suc b) m e = refl
load-set_other (x ∷ ns) (suc a) zero m e = refl
load-set_other (x ∷ ns) (suc a) (suc b) m e = load-set_other ns a b m (ground arith)

-- A walk that does not see a change of a queue.
pub Walks-put_queue :
    (q r : RoundRobinQueue) (b : ℕ) (n : GroupNode) (cursor : Option Text) (rest : PriorityQueue)
    → Walks q r
    → load q b ≡ some n
    → load r b ≡ some (record n { current_child = cursor })
    → ((n.current_child ≡ none) ⊎ ((k : Text) × (cursor ≡ some k)))
    → Walks
        (put q b (record n { queue = rest }))
        (put r b (record n { current_child = cursor; queue = rest }))
Walks-put_queue q r b n cursor rest w e f h =
    let n' = record n { current_child = cursor } in
    let m = record n { queue = rest } in
    let m' = record n { current_child = cursor; queue = rest } in
    record {
      frame = ap (λ (t : RoundRobinQueue). record t { nodes = set r.nodes b m' }) w.frame;
      size = length-set r.nodes b m' ∙ (w.size ∙ sym (length-set q.nodes b m));
      nodes = λ c k g. elim (Bool-cases (b == c)) [
        | inl same ↦
            let p : b ≡ c = ground arith in
            let self = load-set_self q.nodes b m (below_of_load q.nodes b n e) in
            let now = load-set_self r.nodes b m' (below_of_load r.nodes b n' f) in
            let one : m ≡ k = cc in (cursor, rw (← p, ← one) now, rw (← one) h)
        | inr other ↦
            let (cur, old, kept) = w.nodes c k (sym (load-set_other q.nodes b c m other) ∙ g) in
            (cur, load-set_other r.nodes b c m' other ∙ old, kept)
      ];
    }

-- `q'` is `q` without the first message of a leaf, up to cursors; the leaf is `a`, or its group is below
-- its limit.
pub record Serves (q : RoundRobinQueue) (a : ℕ) (item : Item) (q' : RoundRobinQueue) : Type 0 where
  pub leaf : ℕ
  pub node : GroupNode
  pub there : load q leaf ≡ some node
  pub bare : is_empty node.children ≡ true
  pub rest : PriorityQueue
  pub taken : Takes node.queue (at node.queue.items 0) (some item, rest)
  pub result : Walks (put q leaf (record node { queue = rest })) q'
  pub allowed : (leaf ≡ a) ⊎ (under_limit q node.group_key ≡ true)

-- What a call of dequeueFromNode achieves: no message and moved cursors, or the message of a leaf.
abbrev pub Outcome : RoundRobinQueue → ℕ → Option Item × RoundRobinQueue → Type 0
Outcome q a r =
    IsValid r.1
    × (((r.0 ≡ none) × Walks q r.1) ⊎ ((item : Item) × (r.0 ≡ some item) × Serves q a item r.1))

under_limit-Walks :
    (q r : RoundRobinQueue) (key : Text) → Walks q r → under_limit r key ≡ under_limit q key
under_limit-Walks q r key w = ap (λ (t : RoundRobinQueue). under_limit t key) w.frame

-- Cursors that move before and after a message is taken.
Serves-after :
    (q r s : RoundRobinQueue) (a : ℕ) (item : Item)
    → Walks q r
    → Serves r a item s
    → Serves q a item s
Serves-after q r s a item w v =
    let inside = below_of_load r.nodes v.leaf v.node v.there in
    let (n, there) = load_below q.nodes v.leaf (omega (arith, inside, w.size)) in
    let (cursor, moved, kept) = w.nodes v.leaf n there in
    let same : record n { current_child = cursor } ≡ v.node = cc in
    record {
      leaf = v.leaf;
      node = n;
      there = there;
      bare = rw (← same) at v.bare;
      rest = v.rest;
      taken = rw (← same) at v.taken;
      result =
          Walks-trans _ _ s (Walks-put_queue q r v.leaf n cursor v.rest w there moved kept)
            (rw (← same) at v.result);
      allowed = elim v.allowed [
        | inl here ↦ inl here
        | inr below ↦ inr (sym (under_limit-Walks q r n.group_key w) ∙ (rw (← same) at below))
      ];
    }

pub Serves-then :
    (q r s : RoundRobinQueue) (a : ℕ) (item : Item)
    → Serves q a item r
    → Walks r s
    → Serves q a item s
Serves-then q r s a item v w = record {
  leaf = v.leaf;
  node = v.node;
  there = v.there;
  bare = v.bare;
  rest = v.rest;
  taken = v.taken;
  result = Walks-trans _ r s v.result w;
  allowed = v.allowed;
}

pub Outcome-after :
    (q r : RoundRobinQueue) (a : ℕ) (s : Option Item × RoundRobinQueue)
    → Walks q r
    → Outcome r a s
    → Outcome q a s
Outcome-after q r a s w o = (
  o.0,
  elim o.1 [
    | inl (nothing, moved) ↦ inl (nothing, Walks-trans q r s.1 w moved)
    | inr (item, given, v) ↦ inr (item, given, Serves-after q r s.1 a item w v)
  ],
)
