-- ===== src/Queue/Enqueue.antt =====
-- pkg/queue/queue.go: Enqueue of a queue of the delayed type, over the Badger store.
use doq.Common.{
  ◌+◌, ◌<◌, ◌^◌, ◌≡◌, ◌≢◌, refl, ap, ◌∙◌, false, [], ◌∷◌, none, some, ◌>>=◌, Returns, returns,
  Returns-bind, Option-cases, ◌⊎◌, inl, inr,
}
use doq.Common.Text.{Text}
use doq.Errors.{Result, ok}
use doq.Entity.{Message, QueueConfig}
use doq.Storage.{Badger, badger_store}
use doq.Storage
use doq.Storage.Laws.{IsLawful, store-enqueue_lem}
use doq.Memory.PriorityQueue.{Item, PriorityQueue}
use doq.Memory.PriorityQueue.Valid.{IsValid, Holds}
use doq.Memory.Interface.{delayed_queue}
use doq.Queue
use doq.Queue.{Queue, default_group, is_fair, enqueue_ready, notify}
use doq.Queue.Laws.{get-unknown, get-known}
use doq.Queue.Redelivery.{enqueue_ready_lem}

module _ (b : Badger) (laws : IsLawful b) (q : Queue delayed_queue (badger_store b))
    (config : QueueConfig) (conf : q.config ≡ some config)
    (plain : is_fair delayed_queue (badger_store b) config ≡ false) (ready : PriorityQueue)
    (rv : IsValid ready) (some_ready : q.queue ≡ some ready) (message : Message)
    (bound : message.id < 2 ^ 64) (mapped : message.metadata ≢ some []) where
  -- What is stored: the message in the default group, never delivered.
  abbrev pub stored_message : Message
  stored_message = record message { group = default_group; delivery_count = 0 }

  -- The item of the message.
  abbrev pub new_item : Item
  new_item = record { id = message.id; priority = message.priority; group = default_group }

  woken :
      (db : b.Db) (group : Text)
      → ready.id_to_index message.id ≡ none
      → Returns
          (λ (s : Queue delayed_queue (badger_store b)).
            (s.notified ≡ q.notified + 1)
            × (s.ack_queue ≡ q.ack_queue)
            × (s.store ≡ db)
            × (p : PriorityQueue) × (s.queue ≡ some p)
            × Holds ready (new_item ∷ ready.items) p)
          (enqueue_ready delayed_queue (badger_store b) (record q { store = db }) group new_item
            >>= λ q'. some (notify delayed_queue (badger_store b) q'))
  woken db group new =
      Returns-bind
        (enqueue_ready_lem b ready rv group new_item new (record q { store = db }) some_ready)
        λ (s : Queue delayed_queue (badger_store b)) h.
          returns (rw h.0 refl, rw h.0 refl, rw h.0 refl, h.1, h.2, h.3)

  -- Enqueue, when the store takes the message: it is stored in the default group with a delivery count
  -- of 0. A message with a new id is also added to the ready queue and wakes consumers; for an id that
  -- is ready already, the ready queue is left as it is, with the old priority, although the store has the
  -- message with the new one and the code's log speaks of an update of the priority.
  pub queue-enqueue_lem :
      (m : Message) (db : b.Db)
      → Storage.enqueue b q.store config.name (record message { group = default_group })
        ≡ ok (m, db)
      → Returns
          (λ (r : Result Message × Queue delayed_queue (badger_store b)).
            (r.0 ≡ ok stored_message)
            × (Storage.get b r.1.store config.name message.id ≡ ok stored_message)
            × (r.1.ack_queue ≡ q.ack_queue)
            × (((ready.id_to_index message.id ≡ none)
                  × (r.1.notified ≡ q.notified + 1)
                  × ((p : PriorityQueue) × (r.1.queue ≡ some p)
                      × Holds ready (new_item ∷ ready.items) p))
                ⊎ ((ready.id_to_index message.id ≢ none)
                    × (r.1.notified ≡ q.notified)
                    × (r.1.queue ≡ some ready))))
          (Queue.enqueue delayed_queue (badger_store b) q message)
  unfolding Queue.enqueue
  queue-enqueue_lem m db e =
      let S = badger_store b in
      let (found, same, _) =
        store-enqueue_lem b laws q.store db config.name (record message { group = default_group }) m
          bound mapped e in
      simp (conf, plain, e, some_ready)
        (elim (Option-cases (ready.id_to_index message.id)) [
          | inl new ↦ simp (get-unknown ready default_group message.id new) (
              rw plain (
                Returns-bind (woken db m.group new) λ (s : Queue delayed_queue S) w.
                  returns (
                    ap ok same,
                    rw w.2 (found ∙ ap ok same),
                    w.1,
                    inl (new, w.0, (w.3, w.4, w.5)),
                  )))
          | inr (i, old) ↦
              simp
                (get-known ready default_group message.id i old
                  (rv.indexed.index_at message.id i old).0)
                (returns (ap ok same, found ∙ ap ok same, refl, inr (λ z. cc, refl, some_ready)))
        ])
