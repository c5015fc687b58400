-- ===== src/Memory/RoundRobinQueue/Slots.antt =====
-- pkg/queue/memory/fair_round_robin_queue.go: the slots of a group, and the flag of its leaf.
use mathlib.Core.Option
use doq.Common.{
  ℕ, zero, suc, ◌<◌, ◌≡◌, refl, Bool, true, false, Option, none, some, arith, length, ap, sym, ◌∙◌,
  inl, inr, Returns, returns, Returns-at, Returns-map, Returns-bind, Option-cases, ◌>>=◌,
  if◌then◌else◌, Bool-cases,
}
use doq.Common.Int.{ℤ, pos, leb_ℤ, ◌+ℤ◌, ◌-ℤ◌}
use doq.Common.Text.{Text, text_eq, text_eq_refl, eq_of_text_eq}
use doq.Common.Dict
use doq.Memory.WeightedQueue.{set_unacked, drop_unacked}
use doq.Memory.RoundRobinQueue.{
  GroupNode, RoundRobinQueue, load, set_ready, is_ready_leaf, refresh_leaf_ready, refresh_group,
  update_weights, mark_unacked,
}
use doq.Memory.RoundRobinQueue.Valid.{IsValid, load_below, load-set_self}
use doq.Memory.RoundRobinQueue.Kept.{Preserves, Keeps-refl, refresh_leaf_ready_lem}

-- The slots that a group has in use.
abbrev pub unacked : RoundRobinQueue → Text → ℤ
unacked q group = Option.get_or (q.unacked_by_group group) (pos 0)

-- The flag of the leaf of a group, if it has one, says whether it has a message to deliver.
abbrev pub IsAccurate : RoundRobinQueue → Text → Type 0
IsAccurate q group =
    (a : ℕ) (n : GroupNode)
    → Dict.lookup q.group_key_to_leaf group ≡ some a
    → load q a ≡ some n
    → n.ready ≡ is_ready_leaf q n

set_ready-IsAccurate :
    (q : RoundRobinQueue) (a : ℕ) (n m : GroupNode) (old new : Bool)
    → a < length q.nodes
    → load q a ≡ some n
    → n.ready ≡ old
    → is_ready_leaf q n ≡ new
    → load (set_ready q a n old new) a ≡ some m
    → m.ready ≡ is_ready_leaf (set_ready q a n old new) m
set_ready-IsAccurate q a n m true true h there e f now =
    let same : n ≡ m = cc in rw (← same) (e ∙ sym f)
set_ready-IsAccurate q a n m false false h there e f now =
    let same : n ≡ m = cc in rw (← same) (e ∙ sym f)
set_ready-IsAccurate q a n m false true h there e f now =
    let written = load-set_self q.nodes a (record n { ready = true }) h in
    let same : record n { ready = true } ≡ m = cc in rw (← same) (sym f)
set_ready-IsAccurate q a n m true false h there e f now =
    let written = load-set_self q.nodes a (record n { ready = false }) h in
    let same : record n { ready = false } ≡ m = cc in rw (← same) (sym f)

refresh_runs :
    (q : RoundRobinQueue) (a : ℕ) (n : GroupNode)
    → load q a ≡ some n
    → refresh_leaf_ready q a ≡ some (set_ready q a n n.ready (is_ready_leaf q n))
unfolding refresh_leaf_ready
refresh_runs q a n there = rw there refl

refresh_group-IsAccurate :
    (q : RoundRobinQueue) (group : Text)
    → IsValid q
    → Returns (λ q'. Preserves q q' × IsAccurate q' group) (refresh_group q group)
unfolding refresh_group
refresh_group-IsAccurate q group v = elim (Option-cases (Dict.lookup q.group_key_to_leaf group)) [
  | inl missing ↦
      rw (missing, refresh_group) (returns ((v, Keeps-refl q), λ a n e f. cc (rw missing at e)))
  | inr (a, found) ↦
      let inside = v.leaves group a found in
      let (n, there) = load_below q.nodes a inside in
      let runs = refresh_runs q a n there in
      let t = Returns-at (refresh_leaf_ready_lem q a v inside) runs in
      rw (found, refresh_group)
        (rw runs (
          returns (
            t,
            λ b m e f.
                let at = rw (t.1.leaves, found) at e in
                let here : a ≡ b = cc in
                set_ready-IsAccurate q a n m n.ready (is_ready_leaf q n) inside there refl refl
                  (rw (← here) at f),
          )))
]

-- What changes a group's slots: the flag of its leaf follows, the queues and the other groups stay.
pub record Counts (q : RoundRobinQueue) (group : Text) (count : ℤ) (q' : RoundRobinQueue)
    : Type 0 where
  pub valid : IsValid q'
  pub accurate : IsAccurate q' group
  pub slots : (g : Text) → unacked q' g ≡ (if text_eq g group then count else unacked q g)
  pub leaves : q'.group_key_to_leaf ≡ q.group_key_to_leaf
  pub total : q'.total_messages ≡ q.total_messages
  pub queues :
      (b : ℕ) (m : GroupNode)
      → load q b ≡ some m
      → (m' : GroupNode) × (load q' b ≡ some m') × (m'.queue ≡ m.queue)

-- Changing the counters of slots alone keeps the invariant.
recount-IsValid :
    (q : RoundRobinQueue) (slots : Text → Option ℤ)
    → IsValid q
    → IsValid (record q { unacked_by_group = slots })
recount-IsValid q slots v = record {
  rooted = v.rooted;
  nodes = v.nodes;
  leaves = v.leaves;
  counted = v.counted;
}

-- Refreshing after the counters have changed.
recount_lem :
    (q : RoundRobinQueue) (group : Text) (slots : Text → Option ℤ) (count : ℤ)
    → IsValid q
    → ((g : Text)
        → Option.get_or (slots g) (pos 0) ≡ (if text_eq g group then count else unacked q g))
    → Returns (Counts q group count) (refresh_group (record q { unacked_by_group = slots }) group)
recount_lem q group slots count v reads =
    Returns-map
      (refresh_group-IsAccurate (record q { unacked_by_group = slots }) group
        (recount-IsValid q slots v))
      λ q' t. record {
        valid = t.0.0;
        accurate = t.1;
        slots = λ g. ap (λ s. Option.get_or (s g) (pos 0)) t.0.1.slots ∙ reads g;
        leaves = t.0.1.leaves;
        total = t.0.1.total;
        queues = t.0.1.queues;
      }

set_reads :
    (q : RoundRobinQueue) (group g : Text) (count : ℤ)
    → Option.get_or (set_unacked q.unacked_by_group group count g) (pos 0)
      ≡ (if text_eq g group then count else unacked q g)
set_reads q group g count = elim (Bool-cases (text_eq g group)) [
  | inl same ↦ rw same refl
  | inr other ↦ rw other refl
]

drop_reads :
    (q : RoundRobinQueue) (group g : Text)
    → Option.get_or (drop_unacked q.unacked_by_group group g) (pos 0)
      ≡ (if text_eq g group then pos 0 else unacked q g)
drop_reads q group g = elim (Bool-cases (text_eq g group)) [
  | inl same ↦ rw same refl
  | inr other ↦ rw other refl
]

-- MarkUnacked takes a slot of the group.
pub take_slot_lem :
    (q : RoundRobinQueue) (group : Text)
    → IsValid q
    → Returns (Counts q group (unacked q group +ℤ pos 1)) (mark_unacked q group)
unfolding mark_unacked
take_slot_lem q group v =
    recount_lem q group (set_unacked q.unacked_by_group group (unacked q group +ℤ pos 1))
      (unacked q group +ℤ pos 1) v λ g. set_reads q group g _

-- One slot fewer, and none below 0.
abbrev pub released : ℤ → ℤ
released count = if leb_ℤ (count -ℤ pos 1) (pos 0) then pos 0 else count -ℤ pos 1

-- UpdateWeights gives a slot of the group back.
pub release_slot_lem :
    (q : RoundRobinQueue) (group : Text) (id : ℕ) (count : ℤ)
    → IsValid q
    → q.unacked_by_group group ≡ some count
    → Returns (Counts q group (released count)) (update_weights q group id)
unfolding update_weights
release_slot_lem q group id count v e =
    rw (e, update_weights)
      (elim (Bool-cases (leb_ℤ (count -ℤ pos 1) (pos 0))) [
        | inl last ↦ rw last (
            recount_lem q group (drop_unacked q.unacked_by_group group) (pos 0) v
              λ g. drop_reads q group g)
        | inr more ↦ rw more (
            recount_lem q group (set_unacked q.unacked_by_group group (count -ℤ pos 1))
              (count -ℤ pos 1) v λ g. set_reads q group g _)
      ])

one_more_less : (n : ℕ) → released (pos n +ℤ pos 1) ≡ pos n
unfolding ◌+ℤ◌ ◌-ℤ◌
one_more_less zero = refl
one_more_less (suc n) = ground arith

one_more_present :
    (o : Option ℤ) (n : ℕ) → Option.get_or o (pos 0) ≡ pos n +ℤ pos 1 → o ≡ some (pos n +ℤ pos 1)
unfolding ◌+ℤ◌
one_more_present none n e = absurd (ground arith)
one_more_present (some c) n e = ap some e

-- Two changes of the slots of one group.
Counts-trans :
    (q r s : RoundRobinQueue) (group : Text) (a b : ℤ)
    → Counts q group a r
    → Counts r group b s
    → Counts q group b s
Counts-trans q r s group a b t u = record {
  valid = u.valid;
  accurate = u.accurate;
  slots = λ g. elim (Bool-cases (text_eq g group)) [
    | inl same ↦ rw same (rw same at (u.slots g))
    | inr other ↦ rw other ((rw other at (u.slots g)) ∙ (rw other at (t.slots g)))
  ];
  leaves = u.leaves ∙ t.leaves;
  total = u.total ∙ t.total;
  queues = λ b' m e.
      let (m1, e1, s1) = t.queues b' m e in
      let (m2, e2, s2) = u.queues b' m1 e1 in (m2, e2, s2 ∙ s1);
}

-- A slot taken by MarkUnacked and given back by UpdateWeights, in a well-formed tree: neither call
-- panics, every group has the slots in use that it had, the flag of the group's leaf says whether it
-- has a message to deliver, and the tree is well formed with the queues that it had.
pub update_weights-mark_unacked :
    (q : RoundRobinQueue) (group : Text) (id n : ℕ)
    → IsValid q
    → unacked q group ≡ pos n
    → Returns
        (λ q'. Counts q group (pos n) q' × ((g : Text) → unacked q' g ≡ unacked q g))
        (mark_unacked q group >>= λ q1. update_weights q1 group id)
update_weights-mark_unacked q group id n v e = Returns-bind (take_slot_lem q group v) λ q1 t.
    let taken : unacked q1 group ≡ pos n +ℤ pos 1 =
      rw (t.slots group) (rw (text_eq_refl group) (ap (λ c. c +ℤ pos 1) e)) in
    let present = one_more_present (q1.unacked_by_group group) n taken in
    Returns-map (release_slot_lem q1 group id (pos n +ℤ pos 1) t.valid present) λ q2 u.
      let c = Counts-trans q q1 q2 group _ (released (pos n +ℤ pos 1)) t u in
      (
        rw one_more_less at c,
        λ g. elim (Bool-cases (text_eq g group)) [
          | inl same ↦
              (rw same at (c.slots g))
              ∙ (one_more_less n ∙ (sym e ∙ ap (unacked q) (sym (eq_of_text_eq g group same))))
          | inr other ↦ rw other at (c.slots g)
        ],
      )
