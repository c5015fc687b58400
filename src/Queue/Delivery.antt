-- ===== src/Queue/Delivery.antt =====
-- pkg/queue/queue.go: acknowledging a message in flight, over the Badger store.
use doq.Common.{ℕ, ◌<◌, ◌^◌, ◌≡◌, refl, false, Option, none, some, Returns, returns, Returns-bind}
use doq.Common.Int.{pos}
use doq.Errors.{Error, Result, ok, err}
use doq.Entity.{QueueConfig}
use doq.Storage.{Store, Badger, badger_store}
use doq.Storage
use doq.Storage.Keys.{get_messages_key}
use doq.Storage.Laws.{IsLawful, get_of_delete}
use doq.Memory.PriorityQueue.{Item}
use doq.Memory.PriorityQueue.Slice.{at}
use doq.Memory.PriorityQueue.Laws.{Takes}
use doq.Memory.PriorityQueue.Valid.{IsValid}
use doq.Memory.Interface.{MemoryQueue}
use doq.Queue.{Queue, is_fair, ack, release_acked, default_group}
use doq.Queue.Laws.{get-known, not_in_flight, take_in_flight_lem}

module _ (b : Badger) (laws : IsLawful b) (M : MemoryQueue) (q : Queue M (badger_store b))
    (v : IsValid q.ack_queue) (config : QueueConfig) (ready : q.config ≡ some config)
    (plain : is_fair M (badger_store b) config ≡ false) (id i : ℕ)
    (known : q.ack_queue.id_to_index id ≡ some i) (bound : id < 2 ^ 64) where
  acked :
      (db : b.Db)
      → b.delete q.store (get_messages_key config.name id) ≡ ok db
      → (badger_store b).ack q.store config.name id ≡ ok db
  unfolding Storage.ack
  acked db d = d

  -- Acknowledging a message in flight of a queue that is not fair takes it out of flight, and its
  -- stored message away; a second acknowledgement finds nothing. The database has to delete the key.
  pub ack_lem :
      (db : b.Db)
      → b.delete q.store (get_messages_key config.name id) ≡ ok db
      → Returns
          (λ (r : Result (Unit {0}) × Queue M (badger_store b)).
            (r.0 ≡ ok tt)
            × Takes q.ack_queue
                (at q.ack_queue.items i)
                (some (at q.ack_queue.items i), r.1.ack_queue)
            × (Storage.get b r.1.store config.name id ≡ err Error.message_not_found)
            × (ack M (badger_store b) r.1 id ≡ some (err Error.message_not_found, r.1)))
          (ack M (badger_store b) q id)
  unfolding ack release_acked
  ack_lem db d =
      let (inside, named) = v.indexed.index_at id i known in
      let S = badger_store b in
      simp
        (
          get-known q.ack_queue default_group id i known inside,
          ack,
          ready,
          plain,
          named,
          acked db d,
        )
        (Returns-bind
          (take_in_flight_lem M S (record q { config = some config; store = db }) v config refl id i
            known default_group)
          λ (r : Option Item × Queue M S) t.
            let gone : r.1.ack_queue.id_to_index id ≡ none = rw named at t.1.gone in
            returns (
              refl,
              rw t.1.result at t.1,
              rw t.0 (get_of_delete b laws q.store db config.name id d),
              (not_in_flight M S r.1 id (pos 0) (pos 0) none gone).0,
            ))
