-- ===== src/Queue/Restore.antt =====
-- pkg/queue/queue.go: restoring messages from a snapshot into a queue of the delayed type, over the
-- Badger store.
use doq.Common.{
  ℕ, ◌≡◌, ◌≢◌, refl, false, [], ◌∷◌, Option, none, some, ◌>>=◌, set, Returns, returns, Returns-bind,
  Option-cases, ◌⊎◌, inl, inr,
}
use doq.Common.Int.{ℤ}
use doq.Errors.{Result, ok}
use doq.Entity.{Message, QueueConfig}
use doq.Storage.{Badger, badger_store}
use doq.Storage
use doq.Storage.Laws.{IsLawful, store-restore_message_lem}
use doq.Memory.PriorityQueue
use doq.Memory.PriorityQueue.{Item, PriorityQueue}
use doq.Memory.PriorityQueue.Slice.{at}
use doq.Memory.PriorityQueue.Valid.{IsValid, Holds}
use doq.Memory.PriorityQueue.Push.{heap_push_lem}
use doq.Memory.PriorityQueue.Edit.{delete_lem, update_priority_lem}
use doq.Memory.DelayedQueue
use doq.Memory.Interface.{delayed_queue}
use doq.Queue.{Queue, default_group, is_fair}
use doq.Queue.Snapshot.{enqueue_restored, restore_unacked, move_to_unacked}
use doq.Queue.Laws.{get-unknown, get-known}
use doq.Queue.Redelivery.{enqueue_ready_lem}

-- What is stored: the message in the default group, with its delivery count.
abbrev pub restored : Message → Message
restored message = record message { group = default_group }

abbrev pub restored_item : Message → ℤ → Item
restored_item message priority = record {
  id = message.id;
  priority = priority;
  group = default_group;
}

-- The message is in flight with its deadline, and not ready.
abbrev pub IsMoved :
    (b : Badger) → Message → PriorityQueue → ℤ → Queue delayed_queue (badger_store b) → Type 0
IsMoved b message in_flight deadline s =
    Holds in_flight (restored_item message deadline ∷ in_flight.items) s.ack_queue
    × ((p : PriorityQueue) × (s.queue ≡ some p) × (p.id_to_index message.id ≡ none))

module _ (b : Badger) (laws : IsLawful b) (q : Queue delayed_queue (badger_store b))
    (config : QueueConfig) (conf : q.config ≡ some config)
    (plain : is_fair delayed_queue (badger_store b) config ≡ false) (ready : PriorityQueue)
    (rv : IsValid ready) (some_ready : q.queue ≡ some ready) (message : Message)
    (mapped : message.metadata ≢ some []) where
  -- In a configured queue of the delayed type over a lawful store that takes the message, whose ready
  -- queue is well formed: a ready message that a snapshot restores is stored with its delivery count, in
  -- the default group, its metadata none or not empty; it is added to the ready queue unless it is there
  -- already, and the messages in flight stay.
  pub enqueue_restored_lem :
      (db : b.Db)
      → Storage.restore_message b q.store config.name (restored message) ≡ ok db
      → Returns
          (λ (r : Result (Unit {0}) × Queue delayed_queue (badger_store b)).
            (r.0 ≡ ok tt)
            × (Storage.get b r.1.store config.name message.id ≡ ok (restored message))
            × (r.1.ack_queue ≡ q.ack_queue)
            × (((ready.id_to_index message.id ≡ none)
                  × ((p : PriorityQueue) × (r.1.queue ≡ some p)
                      × Holds ready (restored_item message message.priority ∷ ready.items) p))
                ⊎ ((ready.id_to_index message.id ≢ none) × (r.1.queue ≡ some ready))))
          (enqueue_restored delayed_queue (badger_store b) q message)
  unfolding enqueue_restored
  enqueue_restored_lem db e =
      let S = badger_store b in
      let Q = Queue delayed_queue S in
      let found =
        store-restore_message_lem b laws q.store db config.name (restored message) mapped e in
      let q1 : Q = record q { store = db } in
      simp (conf, plain, e, some_ready)
        (elim (Option-cases (ready.id_to_index message.id)) [
          | inl new ↦ simp (get-unknown ready default_group message.id new) (
              rw plain (
                Returns-bind
                  (enqueue_ready_lem b ready rv default_group
                    (restored_item message message.priority) new q1 some_ready)
                  λ (s : Q) h.
                    returns (refl, rw h.0 found, rw h.0 refl, inl (new, (h.1, h.2, h.3)))))
          | inr (i, old) ↦
              simp
                (get-known ready default_group message.id i old
                  (rv.indexed.index_at message.id i old).0)
                (returns (refl, found, refl, inr (λ z. cc, some_ready)))
        ])

  module _ (v : IsValid q.ack_queue) (deadline : ℤ) where
    pushed :
        (db : b.Db) (p : PriorityQueue)
        → q.ack_queue.id_to_index message.id ≡ none
        → p.id_to_index message.id ≡ none
        → Returns
            (λ (s : Queue delayed_queue (badger_store b)).
              (s.store ≡ db) × IsMoved b message q.ack_queue deadline s)
            (DelayedQueue.enqueue q.ack_queue default_group (restored_item message deadline)
              >>= λ a. DelayedQueue.mark_unacked p default_group >>= λ p'.
                  some (record q { store = db; queue = some p'; ack_queue = a }))
    unfolding DelayedQueue.enqueue DelayedQueue.mark_unacked
    pushed db p new gone =
        Returns-bind (heap_push_lem q.ack_queue (restored_item message deadline) v new)
          λ a h. returns (refl, (h, (p, refl, gone)))

    removed :
        (i : ℕ)
        → ready.id_to_index message.id ≡ some i
        → Returns
            (λ (p : PriorityQueue). p.id_to_index message.id ≡ none)
            (PriorityQueue.delete ready message.id >>= λ r. some r.1)
    removed i there =
        let (inside, named) = rv.indexed.index_at message.id i there in
        Returns-bind (delete_lem ready message.id i rv there)
          λ (r : Option Item × PriorityQueue) t. returns (rw named at t.gone)

    move_to_unacked_lem :
        (db : b.Db)
        → q.ack_queue.id_to_index message.id ≡ none
        → Returns
            (λ (s : Queue delayed_queue (badger_store b)).
              (s.store ≡ db) × IsMoved b message q.ack_queue deadline s)
            (move_to_unacked delayed_queue
              (badger_store b)
              (record q { store = db })
              (restored message)
              deadline)
    unfolding move_to_unacked DelayedQueue.delete
    move_to_unacked_lem db new = elim (Option-cases (ready.id_to_index message.id)) [
      | inl absent ↦
          simp (some_ready, get-unknown ready default_group message.id absent)
            (pushed db ready new absent)
      | inr (i, there) ↦
          let (inside, named) = rv.indexed.index_at message.id i there in
          simp (some_ready, get-known ready default_group message.id i there inside)
            (Returns-bind (removed i there) λ p gone. pushed db p new gone)
    ]

    -- In a configured queue of the delayed type over a lawful store that takes the message, whose ready
    -- queue and queue of messages in flight are well formed: a message in flight that a snapshot restores
    -- is stored with its delivery count, in the default group, its metadata none or not empty. If it is in
    -- flight already, its deadline becomes the restored one and the ready queue is left alone; otherwise
    -- it goes into flight with the restored deadline, and is not ready any more.
    pub restore_unacked_lem :
        (db : b.Db)
        → Storage.restore_message b q.store config.name (restored message) ≡ ok db
        → Returns
            (λ (r : Result (Unit {0}) × Queue delayed_queue (badger_store b)).
              (r.0 ≡ ok tt)
              × (Storage.get b r.1.store config.name message.id ≡ ok (restored message))
              × (((q.ack_queue.id_to_index message.id ≡ none)
                    × IsMoved b message q.ack_queue deadline r.1)
                  ⊎ ((i : ℕ) × (q.ack_queue.id_to_index message.id ≡ some i)
                      × (r.1.queue ≡ some ready)
                      × Holds q.ack_queue
                          (set q.ack_queue.items i
                            (record (at q.ack_queue.items i) { priority = deadline }))
                          r.1.ack_queue)))
            (restore_unacked delayed_queue (badger_store b) q message deadline)
    unfolding restore_unacked DelayedQueue.update_priority
    restore_unacked_lem db e =
        let Q = Queue delayed_queue (badger_store b) in
        let found =
          store-restore_message_lem b laws q.store db config.name (restored message) mapped e in
        simp (conf, plain, e)
          (elim (Option-cases (q.ack_queue.id_to_index message.id)) [
            | inl new ↦ simp (get-unknown q.ack_queue default_group message.id new) (
                rw plain (
                  Returns-bind (move_to_unacked_lem db new)
                    λ (s : Q) h. returns (refl, rw h.0 found, inl (new, h.1))))
            | inr (i, known) ↦
                simp
                  (get-known q.ack_queue default_group message.id i known
                    (v.indexed.index_at message.id i known).0)
                  (rw plain (
                    Returns-bind (update_priority_lem q.ack_queue message.id i v known deadline)
                      λ p h. returns (refl, found, inr (i, known, some_ready, h))))
          ])
