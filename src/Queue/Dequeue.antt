-- ===== src/Queue/Dequeue.antt =====
-- pkg/queue/queue.go: Dequeue of a queue of the delayed type, over the Badger store.
use doq.Common.{
  ℕ, ◌+◌, ◌%◌, ◌^◌, ◌≡◌, ◌≢◌, refl, sym, ap, ◌∙◌, true, false, [], ◌∷◌, Option, none, some, arith,
  ◌==◌, length, Returns, returns, Returns-bind, Bool-cases, ◌⊎◌, inl, inr,
}
use doq.Common.Int.{ℤ, pos, ◌+ℤ◌}
use doq.Errors.{Error, Result, ok, err}
use doq.Entity.{Message, QueueConfig}
use doq.Storage.{Badger, badger_store}
use doq.Storage
use doq.Storage.Laws.{IsLawful, store-dequeue_lem}
use doq.Memory.PriorityQueue.{Item, PriorityQueue}
use doq.Memory.PriorityQueue.Slice.{at}
use doq.Memory.PriorityQueue.Laws.{Takes}
use doq.Memory.PriorityQueue.Push.{heap_push_lem}
use doq.Memory.PriorityQueue.Valid.{IsValid, Holds}
use doq.Memory.DelayedQueue
use doq.Memory.DelayedQueue.Laws.{AllDelayed, HeadDue, dequeue-Dequeues}
use doq.Memory.Interface.{delayed_queue}
use doq.Queue
use doq.Queue.{Queue, default_group}

module _ (b : Badger) (laws : IsLawful b) (q : Queue delayed_queue (badger_store b))
    (ready : PriorityQueue) (rv : IsValid ready) (mode : ready.min_first ≡ true)
    (some_ready : q.queue ≡ some ready) (config : QueueConfig) (conf : q.config ≡ some config) where
  abbrev pub head : Item
  head = at ready.items 0

  -- The head of the ready queue is delivered: it moves to the queue of those in flight, with the
  -- timeout from now as its deadline, and its stored delivery count grows by 1.
  pub record Delivers (now : ℤ) (m : Message)
      (r : Result Message × Queue delayed_queue (badger_store b)) : Type 0 where
    pub due : HeadDue ready now
    pub result : r.0 ≡ ok (record m { delivery_count = (m.delivery_count + 1) % 2 ^ 32 })
    pub counted : Storage.get b r.1.store config.name head.id ≡ r.0
    pub taken : (p : PriorityQueue) × (r.1.queue ≡ some p) × Takes ready head (some head, p)
    pub in_flight :
        Holds q.ack_queue
          (record {
            id = head.id;
            priority = now +ℤ pos config.settings.ack_timeout;
            group = m.group;
          }
            ∷ q.ack_queue.items)
          r.1.ack_queue

  module _ (v : IsValid q.ack_queue) (m m' : Message) (db : b.Db)
      (fresh : q.ack_queue.id_to_index head.id ≡ none)
      (stored : Storage.get b q.store config.name head.id ≡ ok m) (plain : m.metadata ≢ some [])
      (written : Storage.dequeue b q.store config.name head.id false ≡ ok (m', db)) where
    delivery :
        (m' ≡ record m { delivery_count = (m.delivery_count + 1) % 2 ^ 32 })
        × (Storage.get b db config.name head.id ≡ ok m')
    delivery =
        store-dequeue_lem b laws q.store db config.name head.id false m m' stored plain written

    abbrev deadline : ℤ → Item
    deadline now = record {
      id = head.id;
      priority = now +ℤ pos config.settings.ack_timeout;
      group = m'.group;
    }

    -- Dequeue of a queue of the delayed type without automatic acknowledgement, when the store has the
    -- head and can write it, and the head is not in flight already: either every ready message is delayed,
    -- and "queue is empty" is returned and nothing changes, or the head is delivered.
    pub queue-dequeue_lem :
        (seed : ℕ) (now : ℤ)
        → Returns
            (λ (r : Result Message × Queue delayed_queue (badger_store b)).
              (AllDelayed ready now × (r ≡ (err Error.empty_queue, q))) ⊎ Delivers now m r)
            (Queue.dequeue delayed_queue (badger_store b) q false seed now)
    unfolding Queue.dequeue DelayedQueue.len DelayedQueue.enqueue
    queue-dequeue_lem seed now = elim (Bool-cases (length ready.items == 0)) [
      | inl empty ↦
          simp (some_ready, conf) (rw empty (returns (inl (λ i h. absurd (ground arith), refl))))
      | inr full ↦
          simp (some_ready, conf)
            (rw full (
              Returns-bind (dequeue-Dequeues ready rv now mode false seed)
                λ (r : Option Item × PriorityQueue) t. elim t [
                  | inl (d, e) ↦ rw e (
                      returns (
                        inl (
                          d,
                          ap (λ o. (err Error.empty_queue, record q { queue = o }))
                              (ap (λ (s : Option Item × PriorityQueue). some s.1) e
                                ∙ sym some_ready),
                        )))
                  | inr (due, t) ↦
                      simp (t.result, written)
                        (Returns-bind (heap_push_lem q.ack_queue (deadline now) v fresh) λ p h.
                          returns (
                            inr (record {
                              due = due;
                              result = ap ok delivery.0;
                              counted = delivery.1;
                              taken = (_, refl, rw t.result at t);
                              in_flight = rw (ap (λ (n : Message). n.group) delivery.0) at h;
                            })))
                ]))
    ]
