-- ===== src/Memory/RoundRobinQueue/Kept.antt =====
-- pkg/queue/memory/fair_round_robin_queue.go: the walks that change counts and flags keep the invariant
-- and every queue, and end with the fuel they get.
use doq.Common.{
  ℕ, zero, suc, ◌<◌, ◌≡◌, refl, Bool, true, false, List, [], ◌∷◌, Option, none, some, arith, length,
  get_elem?, set, ap, sym, ◌∙◌, inl, inr, Returns, returns, Returns-map, Option-cases,
}
use doq.Common.Text.{Text}
use doq.Common.Dict
use doq.Memory.RoundRobinQueue.{
  GroupNode, RoundRobinQueue, load, put, set_ready, is_ready_leaf, refresh_leaf_ready,
  refresh_group, count_path,
}
use doq.Memory.RoundRobinQueue.Valid.{
  IsValid, load_below, length-set, put-IsValid, set_ready-IsValid,
}

-- The same queues under the same leaves, and the same counters of slots and messages.
pub record Keeps (q q' : RoundRobinQueue) : Type 0 where
  pub size : length q'.nodes ≡ length q.nodes
  pub leaves : q'.group_key_to_leaf ≡ q.group_key_to_leaf
  pub total : q'.total_messages ≡ q.total_messages
  pub slots : q'.unacked_by_group ≡ q.unacked_by_group
  pub limit : q'.max_unacked ≡ q.max_unacked
  pub queues :
      (b : ℕ) (m : GroupNode)
      → load q b ≡ some m
      → (m' : GroupNode) × (load q' b ≡ some m') × (m'.queue ≡ m.queue)

pub Keeps-refl : (q : RoundRobinQueue) → Keeps q q
Keeps-refl q = record {
  size = refl;
  leaves = refl;
  total = refl;
  slots = refl;
  limit = refl;
  queues = λ b m e. (m, e, refl);
}

pub Keeps-trans : (q r s : RoundRobinQueue) → Keeps q r → Keeps r s → Keeps q s
Keeps-trans q r s f g = record {
  size = g.size ∙ f.size;
  leaves = g.leaves ∙ f.leaves;
  total = g.total ∙ f.total;
  slots = g.slots ∙ f.slots;
  limit = g.limit ∙ f.limit;
  queues = λ b m e.
      let (m1, e1, s1) = f.queues b m e in let (m2, e2, s2) = g.queues b m1 e1 in (m2, e2, s2 ∙ s1);
}

queues-set :
    (ns : List GroupNode) (a b : ℕ) (n m k : GroupNode)
    → get_elem? ns a ≡ some n
    → m.queue ≡ n.queue
    → get_elem? ns b ≡ some k
    → (k' : GroupNode) × (get_elem? (set ns a m) b ≡ some k') × (k'.queue ≡ k.queue)
queues-set [] a b n m k e same f = cc
queues-set (x ∷ ns) zero zero n m k e same f =
    let one : x ≡ n = cc in
    let two : x ≡ k = cc in (m, refl, same ∙ ap (λ t. t.queue) (sym one ∙ two))
queues-set (x ∷ ns) zero (suc b) n m k e same f = (k, f, refl)
queues-set (x ∷ ns) (suc a) zero n m k e same f = (k, f, refl)
queues-set (x ∷ ns) (suc a) (suc b) n m k e same f = queues-set ns a b n m k e same f

module _ (q : RoundRobinQueue) (a : ℕ) (n : GroupNode) (there : load q a ≡ some n) where
  pub put-Keeps : (m : GroupNode) → m.queue ≡ n.queue → Keeps q (put q a m)
  put-Keeps m same = record {
    size = length-set q.nodes a m;
    leaves = refl;
    total = refl;
    slots = refl;
    limit = refl;
    queues = λ b k e. queues-set q.nodes a b n m k there same e;
  }

  set_ready-Keeps : (old new : Bool) → Keeps q (set_ready q a n old new)
  set_ready-Keeps true true = Keeps-refl q
  set_ready-Keeps false false = Keeps-refl q
  set_ready-Keeps false true =
      let k = put-Keeps (record n { ready = true }) refl in
      record {
        size = k.size;
        leaves = refl;
        total = refl;
        slots = refl;
        limit = refl;
        queues = k.queues;
      }
  set_ready-Keeps true false =
      let k = put-Keeps (record n { ready = false }) refl in
      record {
        size = k.size;
        leaves = refl;
        total = refl;
        slots = refl;
        limit = refl;
        queues = k.queues;
      }

-- What every walk below achieves.
abbrev pub Preserves : RoundRobinQueue → RoundRobinQueue → Type 0
Preserves q q' = IsValid q' × Keeps q q'

pub Preserves-trans : (q r s : RoundRobinQueue) → Preserves q r → Preserves r s → Preserves q s
Preserves-trans q r s f g = (g.0, Keeps-trans q r s f.1 g.1)

pub refresh_leaf_ready_lem :
    (q : RoundRobinQueue) (a : ℕ)
    → IsValid q
    → a < length q.nodes
    → Returns (Preserves q) (refresh_leaf_ready q a)
unfolding refresh_leaf_ready
refresh_leaf_ready_lem q a v h =
    let (n, there) = load_below q.nodes a h in
    rw there (
      returns (
        set_ready-IsValid q v a n there n.ready (is_ready_leaf q n) refl,
        set_ready-Keeps q a n there n.ready (is_ready_leaf q n),
      ))

pub refresh_group_lem :
    (q : RoundRobinQueue) (group : Text) → IsValid q → Returns (Preserves q) (refresh_group q group)
unfolding refresh_group
refresh_group_lem q group v = elim (Option-cases (Dict.lookup q.group_key_to_leaf group)) [
  | inl missing ↦ rw (missing, refresh_group) (returns (v, Keeps-refl q))
  | inr (a, found) ↦
      rw (found, refresh_group) (refresh_leaf_ready_lem q a v (v.leaves group a found))
]

-- The counts change from a node to the root: as the parents stand before their children, the walk ends.
pub count_path_lem :
    (change : ℕ → ℕ) (fuel : ℕ) (q : RoundRobinQueue) (a : ℕ)
    → IsValid q
    → a < length q.nodes
    → a < fuel
    → Returns (Preserves q) (count_path change fuel q (some a))
unfolding count_path
count_path_lem change zero q a v h f = elim f [ ]
count_path_lem change (suc fuel) q a v h f =
    let (n, there) = load_below q.nodes a h in
    let m = record n { message_count = change n.message_count } in
    let w = v.nodes a n there in
    let q1 = put q a m in
    let v1 =
      put-IsValid q v a n there m
        (record {
          queue = w.queue;
          parent = w.parent;
          children = w.children;
          listed = w.listed;
          cursor = w.cursor;
        })
        refl in
    let k1 = put-Keeps q a n there m refl in
    rw there (
      onward fuel q1 n.parent (v1, k1)
        λ p up.
          let below = w.parent p up in
          count_path_lem change fuel q1 p v1 (omega (arith, k1.size)) (omega arith))
  where
    onward :
        (fuel : ℕ) (q1 : RoundRobinQueue) (parent : Option ℕ)
        → Preserves q q1
        → ((p : ℕ) → parent ≡ some p → Returns (Preserves q1) (count_path change fuel q1 (some p)))
        → Returns (Preserves q) (count_path change fuel q1 parent)
    onward zero q1 none t up = returns t
    onward (suc fuel) q1 none t up = returns t
    onward fuel q1 (some p) t up = Returns-map (up p refl) λ s t'. Preserves-trans q q1 s t t'
