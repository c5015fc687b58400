-- ===== src/Queue/Priority.antt =====
-- pkg/queue/queue.go: UpdatePriority of a queue of the delayed type, over the Badger store.
use doq.Common.{
  ℕ, ◌≡◌, ◌≢◌, refl, [], none, some, set, Returns, returns, Returns-bind, Returns-map, Option-cases,
  ◌⊎◌, inl, inr,
}
use doq.Common.Int.{ℤ}
use doq.Errors.{Error, Result, ok, err}
use doq.Entity.{Message, QueueConfig}
use doq.Storage.{Badger, badger_store}
use doq.Storage
use doq.Storage.Laws.{IsLawful, store-update_priority_lem}
use doq.Memory.PriorityQueue
use doq.Memory.PriorityQueue.{PriorityQueue, write_priority}
use doq.Memory.PriorityQueue.Slice.{at, get_elem?-at}
use doq.Memory.PriorityQueue.Valid.{IsValid, Holds}
use doq.Memory.PriorityQueue.Edit.{update_priority_lem}
use doq.Memory.DelayedQueue
use doq.Memory.Interface.{delayed_queue}
use doq.Queue
use doq.Queue.{Queue, write_in_flight}
use doq.Queue.Laws.{get-unknown, get-known}

-- A ready message has the new priority in the ready queue, and those in flight stay.
abbrev pub ReadyChanged :
    (b : Badger) (q : Queue delayed_queue (badger_store b)) (ready : PriorityQueue)
    → ℕ
    → ℤ
    → Queue delayed_queue (badger_store b)
    → Type 0
ReadyChanged b q ready id priority s =
    (i : ℕ) × (ready.id_to_index id ≡ some i)
    × (s.ack_queue ≡ q.ack_queue)
    × ((p : PriorityQueue) × (s.queue ≡ some p)
        × Holds ready (set ready.items i (record (at ready.items i) { priority = priority })) p)

-- A message in flight has the new priority in place of its deadline, in the position it had.
abbrev pub DeadlineChanged :
    (b : Badger) (q : Queue delayed_queue (badger_store b)) (ready : PriorityQueue)
    → ℕ
    → ℤ
    → Queue delayed_queue (badger_store b)
    → Type 0
DeadlineChanged b q ready id priority s =
    (i : ℕ) × (ready.id_to_index id ≡ none)
    × (q.ack_queue.id_to_index id ≡ some i)
    × (s.queue ≡ some ready)
    × (s.ack_queue ≡ record q.ack_queue {
      items = set q.ack_queue.items i (record (at q.ack_queue.items i) { priority = priority });
    })

module _ (b : Badger) (laws : IsLawful b) (q : Queue delayed_queue (badger_store b))
    (config : QueueConfig) (conf : q.config ≡ some config) (ready : PriorityQueue)
    (rv : IsValid ready) (some_ready : q.queue ≡ some ready) (id : ℕ) (message : Message)
    (stored : Storage.get b q.store config.name id ≡ ok message) (priority : ℤ) where
  update_priority-lost :
      ready.id_to_index id ≡ none
      → q.ack_queue.id_to_index id ≡ none
      → Queue.update_priority delayed_queue (badger_store b) q id priority
        ≡ some (err Error.message_not_found, q)
  unfolding Queue.update_priority
  update_priority-lost e f = simp (
    conf,
    stored,
    some_ready,
    get-unknown ready message.group id e,
    get-unknown q.ack_queue message.group id f,
  )

  absent :
      ready.id_to_index id ≡ none → (PriorityQueue.update_priority ready id priority ≡ some ready)
  unfolding PriorityQueue.update_priority
  absent e = rw (e, PriorityQueue.update_priority) refl

  module _ (mapped : message.metadata ≢ some []) (updated : Message) (db : b.Db)
      (taken : Storage.update_priority b q.store config.name id priority ≡ ok (updated, db)) where
    update_priority-ready :
        (i : ℕ)
        → ready.id_to_index id ≡ some i
        → Returns
            (λ (r : Result (Unit {0}) × Queue delayed_queue (badger_store b)).
              (r.0 ≡ ok tt)
              × (Storage.get b r.1.store config.name id
                  ≡ ok (record message { priority = priority }))
              × ReadyChanged b q ready id priority r.1)
            (Queue.update_priority delayed_queue (badger_store b) q id priority)
    unfolding Queue.update_priority DelayedQueue.update_priority
    update_priority-ready i known =
        let found =
          store-update_priority_lem b laws q.store db config.name id priority message updated stored
            mapped taken in
        simp
          (
            conf,
            stored,
            some_ready,
            taken,
            get-known ready message.group id i known (rv.indexed.index_at id i known).0,
          )
          (Returns-bind (update_priority_lem ready id i rv known priority)
            λ p h. returns (refl, found, (i, known, refl, (p, refl, h))))

    update_priority-in_flight :
        (i : ℕ)
        → IsValid q.ack_queue
        → ready.id_to_index id ≡ none
        → q.ack_queue.id_to_index id ≡ some i
        → Returns
            (λ (r : Result (Unit {0}) × Queue delayed_queue (badger_store b)).
              (r.0 ≡ ok tt)
              × (Storage.get b r.1.store config.name id
                  ≡ ok (record message { priority = priority }))
              × DeadlineChanged b q ready id priority r.1)
            (Queue.update_priority delayed_queue (badger_store b) q id priority)
    unfolding Queue.update_priority DelayedQueue.update_priority write_in_flight write_priority
    update_priority-in_flight i v fresh known =
        let found =
          store-update_priority_lem b laws q.store db config.name id priority message updated stored
            mapped taken in
        let inside = (v.indexed.index_at id i known).0 in
        simp
          (
            conf,
            stored,
            some_ready,
            taken,
            known,
            get-unknown ready message.group id fresh,
            get-known q.ack_queue message.group id i known inside,
            get_elem?-at q.ack_queue.items i inside,
          )
          (simp (absent fresh) (returns (refl, found, (i, fresh, refl, refl, refl))))

    -- Changing the priority of a stored message, in a configured queue of the delayed type over a
    -- lawful store that takes the change, both queues well formed, the metadata none or not empty.
    -- If the message is neither ready nor in flight, the operation fails with "message not found" and
    -- changes nothing. Otherwise it succeeds and the new priority is stored. A ready message gets
    -- the new priority in the ready queue, and those in flight stay. A message that is only in flight
    -- has its deadline overwritten by the new priority, at the position it had, and the ready queue
    -- stays.
    pub queue-update_priority_lem :
        IsValid q.ack_queue
        → Returns
            (λ (r : Result (Unit {0}) × Queue delayed_queue (badger_store b)).
              ((ready.id_to_index id ≡ none)
                × (q.ack_queue.id_to_index id ≡ none)
                × (r ≡ (err Error.message_not_found, q)))
              ⊎ ((r.0 ≡ ok tt)
                  × (Storage.get b r.1.store config.name id
                      ≡ ok (record message { priority = priority }))
                  × (ReadyChanged b q ready id priority r.1
                      ⊎ DeadlineChanged b q ready id priority r.1)))
            (Queue.update_priority delayed_queue (badger_store b) q id priority)
    queue-update_priority_lem v = elim (Option-cases (ready.id_to_index id)) [
      | inr (i, known) ↦ Returns-map (update_priority-ready i known) λ r h. inr (h.0, h.1, inl h.2)
      | inl fresh ↦ elim (Option-cases (q.ack_queue.id_to_index id)) [
        | inr (i, known) ↦
            Returns-map (update_priority-in_flight i v fresh known) λ r h. inr (h.0, h.1, inr h.2)
        | inl missing ↦
            rw (update_priority-lost fresh missing) (returns (inl (fresh, missing, refl)))
      ]
    ]
