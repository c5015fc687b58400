-- ===== src/Queue/Redelivery.antt =====
-- pkg/queue/queue.go: a message in flight is delivered again, or dropped at the delivery limit. The
-- store is the Badger store, and the ready messages are in a delayed queue.
use doq.Common.{
  ℕ, ◌+◌, ◌≡◌, refl, sym, ap, Bool, false, ◌∷◌, Option, none, some, if◌then◌else◌, Returns, returns,
  Returns-bind, Bool-cases, inl, inr,
}
use doq.Common.Int.{ℤ, pos, eqb_ℤ}
use doq.Common.Text.{Text}
use doq.Errors.{Error, Result, ok, err}
use doq.Entity.{Message, QueueConfig}
use doq.Storage.{Store, Badger, badger_store}
use doq.Storage
use doq.Storage.Keys.{get_messages_key}
use doq.Storage.Laws.{IsLawful, delete_of_get, get_of_delete}
use doq.Memory.PriorityQueue.{Item, PriorityQueue}
use doq.Memory.PriorityQueue.Slice.{at}
use doq.Memory.PriorityQueue.Laws.{Takes}
use doq.Memory.PriorityQueue.Push.{heap_push_lem}
use doq.Memory.PriorityQueue.Valid.{IsValid, Holds}
use doq.Memory.PriorityQueue.Edit.{delete-unknown}
use doq.Memory.DelayedQueue
use doq.Memory.Interface.{MemoryQueue, delayed_queue}
use doq.Queue
use doq.Queue.{
  Queue, Run, bind, is_fair, ack, ack_timeout, release_acked, redeliver, redeliver_or_drop,
  is_exhausted, default_group, take_in_flight, enqueue_ready,
}
use doq.Queue.Laws.{get-known, take_in_flight_lem}

-- The next step, after one that returns `a`.
pub bind_returns {κ κ'} :
    (M : MemoryQueue) (S : Store) {A B : Type 0} {a : A} {P : Queue M S → Type κ}
    {Q : Result B × Queue M S → Type κ'} (r : Run M S A) (f : A → Queue M S → Run M S B)
    → Returns (λ (s : Result A × Queue M S). (s.0 ≡ ok a) × P s.1) r
    → ((q : Queue M S) → P q → Returns Q (f a q))
    → Returns Q (bind M S r f)
bind_returns M S {a} (some (ok c, q)) f (returns (e, p)) k =
    let same : c ≡ a = cc in rw same (k q p)
bind_returns M S (some (err c, q)) f (returns (e, p)) k = cc
bind_returns M S none f d k = elim d [ ]

-- The item of a message that goes back to the ready queue.
abbrev pub ready_item : Message → ℤ → Item
ready_item message new_priority = record {
  id = message.id;
  priority = if eqb_ℤ new_priority (pos 0) then message.priority else new_priority;
  group = message.group;
}

module _ (b : Badger) where
  -- `q'` is `q` with the message in flight at `i` back among the ready ones, as `x`, and consumers woken.
  pub record Redelivers (q : Queue delayed_queue (badger_store b)) (ready : PriorityQueue) (i : ℕ)
      (x : Item) (q' : Queue delayed_queue (badger_store b)) : Type 0 where
    pub taken :
        Takes q.ack_queue (at q.ack_queue.items i) (some (at q.ack_queue.items i), q'.ack_queue)
    pub added : (p : PriorityQueue) × (q'.queue ≡ some p) × Holds ready (x ∷ ready.items) p
    pub woken : q'.notified ≡ q.notified + 1
    pub configured : q'.config ≡ q.config
    pub stored : q'.store ≡ q.store

  -- `q'` is `q` without the message in flight at `i`, which is not stored any more either.
  pub record Drops (q : Queue delayed_queue (badger_store b)) (ready : PriorityQueue) (i : ℕ)
      (name : Text) (id : ℕ) (q' : Queue delayed_queue (badger_store b)) : Type 0 where
    pub taken :
        Takes q.ack_queue (at q.ack_queue.items i) (some (at q.ack_queue.items i), q'.ack_queue)
    pub unchanged : q'.queue ≡ some ready
    pub silent : q'.notified ≡ q.notified
    pub configured : q'.config ≡ q.config
    pub gone : Storage.get b q'.store name id ≡ err Error.message_not_found

pub enqueue_ready_lem :
    (b : Badger) (ready : PriorityQueue)
    → IsValid ready
    → (group : Text) (x : Item) → ready.id_to_index x.id ≡ none
    → (q : Queue delayed_queue (badger_store b)) → q.queue ≡ some ready
    → Returns
        (λ (q' : Queue delayed_queue (badger_store b)).
          (q' ≡ record q { queue = q'.queue })
          × (p : PriorityQueue) × (q'.queue ≡ some p)
          × Holds ready (x ∷ ready.items) p)
        (enqueue_ready delayed_queue (badger_store b) q group x)
unfolding DelayedQueue.enqueue
enqueue_ready_lem b ready rv group x fresh q e =
    rw e (Returns-bind (heap_push_lem ready x rv fresh) λ p h. returns (refl, p, refl, h))

module _ (b : Badger) (laws : IsLawful b) (q : Queue delayed_queue (badger_store b))
    (v : IsValid q.ack_queue) (config : QueueConfig) (conf : q.config ≡ some config)
    (plain : is_fair delayed_queue (badger_store b) config ≡ false) (ready : PriorityQueue)
    (rv : IsValid ready) (some_ready : q.queue ≡ some ready) (message : Message) (i : ℕ)
    (known : q.ack_queue.id_to_index message.id ≡ some i)
    (fresh : ready.id_to_index message.id ≡ none) where
  redeliver_lem :
      (new_priority : ℤ)
      → Returns
          (Redelivers b q ready i (ready_item message new_priority))
          (redeliver delayed_queue (badger_store b) q config message new_priority)
  unfolding redeliver
  redeliver_lem new_priority =
      let S = badger_store b in
      let Q = Queue delayed_queue S in
      let x = ready_item message new_priority in
      Returns-bind
        (take_in_flight_lem delayed_queue S q v config conf message.id i known default_group)
        λ (r : Option Item × Q) t.
          Returns-bind (enqueue_ready_lem b ready rv message.group x fresh r.1 (rw t.0 some_ready))
            λ (p : Q) h. rw plain (
              returns (record {
                taken = rw (ap (λ (s : Q). s.ack_queue) h.0, ← t.1.result) t.1;
                added = (h.1, h.2, h.3);
                woken = rw (h.0, t.0) refl;
                stored = rw (h.0, t.0) refl;
                configured = rw (h.0, t.0) refl;
              }))

  ready-delete : (group : Text) → DelayedQueue.delete ready group message.id ≡ some (none, ready)
  unfolding DelayedQueue.delete
  ready-delete group = delete-unknown ready message.id fresh

  module _ (stored : Storage.get b q.store config.name message.id ≡ ok message) (db : b.Db)
      (deleted : b.delete q.store (get_messages_key config.name message.id) ≡ ok db) where
    drop_lem :
        Returns
          (λ (r : Result (Unit {0}) × Queue delayed_queue (badger_store b)).
            (r.0 ≡ ok tt) × Drops b q ready i config.name message.id r.1)
          (Queue.delete delayed_queue (badger_store b) q message.id)
    unfolding Queue.delete
    drop_lem =
        let S = badger_store b in
        let Q = Queue delayed_queue S in
        let gone = get_of_delete b laws q.store db config.name message.id deleted in
        let q1 : Q = record q { config = some config; queue = some ready; store = db } in
        simp
          (
            conf,
            delete_of_get b q.store db config.name message stored deleted,
            some_ready,
            ready-delete message.group,
          )
          (Returns-bind
            (take_in_flight_lem delayed_queue S q1 v config refl message.id i known message.group)
            λ (r : Option Item × Q) t.
              rw (t.1.result, plain)
                (returns (
                  refl,
                  record {
                    taken = rw (← t.1.result) t.1;
                    unchanged = rw t.0 refl;
                    silent = rw t.0 refl;
                    configured = rw t.0 (sym conf);
                    gone = rw t.0 gone;
                  },
                )))

    pub redeliver_or_drop_lem :
        (new_priority : ℤ)
        → Returns
            (λ (r : Result Bool × Queue delayed_queue (badger_store b)).
              (r.0 ≡ ok (is_exhausted delayed_queue (badger_store b) config message))
              × (if is_exhausted delayed_queue (badger_store b) config message
                  then Drops b q ready i config.name message.id r.1
                  else Redelivers b q ready i (ready_item message new_priority) r.1))
            (redeliver_or_drop delayed_queue (badger_store b) q message new_priority)
    unfolding redeliver_or_drop
    redeliver_or_drop_lem new_priority =
        let S = badger_store b in
        elim (Bool-cases (is_exhausted delayed_queue S config message)) [
          | inl e ↦
              simp (conf, redeliver_or_drop)
                (rw e (
                  bind_returns delayed_queue S (Queue.delete delayed_queue S q message.id) _
                    drop_lem λ q1 d. returns (refl, d)))
          | inr e ↦
              simp (conf, redeliver_or_drop)
                (rw e (Returns-bind (redeliver_lem new_priority) λ q1 d. returns (refl, d)))
        ]

    -- A message in flight whose deadline has passed: at the delivery limit it is dropped, with its
    -- stored message, and below the limit it goes back to the ready queue with its own priority. This
    -- is a queue of the delayed type, whose stored message is not ready yet; the database has to
    -- delete the key.
    pub ack_timeout_lem :
        Returns
          (λ (r : Result (Unit {0}) × Queue delayed_queue (badger_store b)).
            (r.0 ≡ ok tt)
            × (if is_exhausted delayed_queue (badger_store b) config message
                then Drops b q ready i config.name message.id r.1
                else Redelivers b q ready i (ready_item message (pos 0)) r.1))
          (ack_timeout delayed_queue (badger_store b) q message.id)
    unfolding ack_timeout Queue.get
    ack_timeout_lem =
        let S = badger_store b in
        let inside = (v.indexed.index_at message.id i known).0 in
        simp (get-known q.ack_queue default_group message.id i known inside, conf, stored)
          (bind_returns delayed_queue S (redeliver_or_drop delayed_queue S q message (pos 0)) _
            (redeliver_or_drop_lem (pos 0)) λ q1 d. returns (refl, d))
