-- ===== src/Queue/Tests.antt =====
-- pkg/queue/queue.go: the properties at a queue of the delayed type with one message, ready or in flight.
use doq.Common.{ℕ, set, ◌≡◌, ◌≢◌, refl, true, false, [], ◌∷◌, none, some, arith, ◌⊎◌, Returns}
use doq.Common.Int.{ℤ, pos, ◌+ℤ◌}
use doq.Common.Text.{bytes, text_eq}
use doq.Common.Dict
use doq.Errors.{Error, Result, ok, err}
use doq.Entity.{Message, QueueConfig, QueueSettings, config_to_proto}
use doq.Storage
use doq.Storage.{badger_store, read_message, write_message, changed_message}
use doq.Storage.Keys.{get_messages_key, get_messages_prefix, uint64_to_bytes, get_queue_key}
use doq.Storage.Tests.{name, letter, delivered, one_letter}
use doq.Storage.Tests.Table.{table, table-IsLawful, Stored}
use doq.Memory.PriorityQueue.{new_priority_queue, PriorityQueue}
use doq.Memory.PriorityQueue.Slice.{at}
use doq.Memory.PriorityQueue.Laws.{Takes}
use doq.Memory.PriorityQueue.Valid.{Holds, new_queue-IsValid}
use doq.Memory.DelayedQueue.Laws.{AllDelayed}
use doq.Memory.Tests.Data.{first, one_item, one_item-IsValid, two_greatest, two_greatest-IsValid}
use doq.Memory.DelayedQueue.{update_max_unacked}
use doq.Memory.Interface.{delayed_queue}
use doq.Queue
use doq.Queue.{Queue, new_queue, ack, nack, touch, ack_timeout, expire_acks}
use doq.Queue.Laws.{expire_acks-blocked, touch_lem}
use doq.Queue.Delivery.{ack_lem}
use doq.Queue.Redelivery.{Drops, ack_timeout_lem}
use doq.Queue.Dequeue.{Delivers, queue-dequeue_lem}
use doq.Queue.Enqueue.{queue-enqueue_lem}
use doq.Queue.Nack.{nack_lem}
use doq.Queue.Snapshot.{restore_unacked}
use doq.Queue.Priority.{ReadyChanged, DeadlineChanged, queue-update_priority_lem}
use doq.Queue.Restore.{IsMoved, restore_unacked_lem}
use doq.Queue.Config.{Kind, check_kind, with_ack_timeout, create_queue, update_queue, load}
use doq.Queue.Config.Update.{Updates, update_queue-Updates}
use doq.Queue.Config.Laws.{create_queue-load}

abbrev pub config : QueueConfig
config = record {
  name = name;
  queue_type = bytes "delayed";
  settings = record { strategy = []; max_unacked = pos 0; ack_timeout = 30; delivery_limit = 1 };
}

abbrev pub Delayed : Type 0
Delayed = Queue delayed_queue (badger_store table)

-- One message in flight, delivered once.
abbrev pub in_flight : Delayed
in_flight = record {
  config = some config;
  queue = some (new_priority_queue true);
  ack_queue = one_item false;
  notified = 0;
  store = (get_messages_key name 1, Stored.message delivered) ∷ [];
}

-- One message ready.
abbrev waiting : Delayed
waiting = record {
  config = some config;
  queue = some (one_item true);
  ack_queue = new_priority_queue false;
  notified = 0;
  store = one_letter;
}

-- Two messages in flight, with the deadlines 7 and 5.
abbrev two_in_flight : Delayed
two_in_flight = record in_flight { ack_queue = two_greatest }

-- At time 6 the deadline 5 has passed, and the deadline 7 has not.
expire_acks-blocked_example :
    expire_acks delayed_queue (badger_store table) 9 (λ q id. some (true, q)) two_in_flight (pos 6)
    ≡ some two_in_flight
unfolding at
expire_acks-blocked_example =
    expire_acks-blocked delayed_queue (badger_store table) two_in_flight two_greatest-IsValid 8
      (λ q id. some (true, q)) (pos 6) 0 refl (omega arith) refl

touch_lem_example :
    Returns
      (λ (r : Result (Unit {0}) × Delayed).
        (r.0 ≡ ok tt)
        × (r.1 ≡ record in_flight { ack_queue = r.1.ack_queue })
        × Holds (one_item false) (record first { priority = pos 38 } ∷ []) r.1.ack_queue)
      (touch delayed_queue (badger_store table) in_flight 1 (pos 8))
unfolding at ◌+ℤ◌
touch_lem_example =
    touch_lem delayed_queue (badger_store table) in_flight (one_item-IsValid false) config refl 1 0
      refl (pos 8)

ack_lem_example :
    Returns
      (λ (r : Result (Unit {0}) × Delayed).
        (r.0 ≡ ok tt)
        × Takes (one_item false) first (some first, r.1.ack_queue)
        × (Storage.get table r.1.store name 1 ≡ err Error.message_not_found)
        × (ack delayed_queue (badger_store table) r.1 1 ≡ some (err Error.message_not_found, r.1)))
      (ack delayed_queue (badger_store table) in_flight 1)
unfolding at text_eq Dict.remove get_messages_key get_messages_prefix uint64_to_bytes
ack_lem_example =
    ack_lem table table-IsLawful delayed_queue in_flight (one_item-IsValid false) config refl refl 1
      0 refl (omega arith) [] refl

ack_timeout_lem_example :
    Returns
      (λ (r : Result (Unit {0}) × Delayed).
        (r.0 ≡ ok tt) × Drops table in_flight (new_priority_queue true) 0 name 1 r.1)
      (ack_timeout delayed_queue (badger_store table) in_flight 1)
unfolding text_eq Storage.get Dict.lookup Dict.remove get_messages_key get_messages_prefix
    uint64_to_bytes
ack_timeout_lem_example =
    ack_timeout_lem table table-IsLawful in_flight (one_item-IsValid false) config refl refl
      (new_priority_queue true) (new_queue-IsValid true) refl delivered 0 refl refl refl [] refl

queue-dequeue_lem_example :
    Returns
      (λ (r : Result Message × Delayed).
        (AllDelayed (one_item true) (pos 9) × (r ≡ (err Error.empty_queue, waiting)))
        ⊎ Delivers table table-IsLawful waiting
            (one_item true)
            (one_item-IsValid true)
            refl
            refl
            config
            refl
            (pos 9)
            letter
            r)
      (Queue.dequeue delayed_queue (badger_store table) waiting false 3 (pos 9))
unfolding at text_eq Storage.get Storage.dequeue read_message Dict.lookup Dict.insert
    get_messages_key get_messages_prefix uint64_to_bytes
queue-dequeue_lem_example =
    queue-dequeue_lem table table-IsLawful waiting (one_item true) (one_item-IsValid true) refl refl
      config refl (new_queue-IsValid false) letter delivered
      ((get_messages_key name 1, Stored.message delivered) ∷ []) refl refl (λ e. cc) refl 3 (pos 9)

abbrev pub make : Kind → ℤ → PriorityQueue
make kind max_unacked = new_priority_queue true

create_queue-load_example :
    Returns
      (λ (r : Result (Unit {0}) × Delayed).
        (r.0 ≡ ok tt)
        × (r.1.config ≡ some (config_to_proto config))
        × (load delayed_queue
              (badger_store table)
              60
              make
              (new_queue delayed_queue (badger_store table) r.1.store)
              name
            ≡ some (
              ok tt,
              record (new_queue delayed_queue (badger_store table) r.1.store) {
                config = r.1.config;
                queue = r.1.queue;
              },
            )))
      (create_queue delayed_queue
        (badger_store table)
        60
        make
        (new_queue delayed_queue (badger_store table) [])
        (config_to_proto config))
unfolding Storage.create_queue check_kind with_ack_timeout text_eq Dict.insert
create_queue-load_example =
    create_queue-load table table-IsLawful delayed_queue 60 make
      (new_queue delayed_queue (badger_store table) []) config (config_to_proto config).settings
      ((get_queue_key name, Stored.config (config_to_proto config)) ∷ []) refl refl

-- Settings without a timeout, with another delivery limit.
abbrev other_settings : QueueSettings
other_settings = record config.settings { ack_timeout = 0; delivery_limit = 3 }

unlimited : update_max_unacked (new_priority_queue true) (pos 0) ≡ some (new_priority_queue true)
unfolding update_max_unacked
unlimited = refl

update_queue-Updates_example :
    Returns
      (Updates table table-IsLawful delayed_queue 60
        (omega arith)
        make
        config
        (new_priority_queue true)
        (one_item false)
        0
        in_flight.store
        other_settings
        (new_priority_queue true)
        unlimited)
      (update_queue delayed_queue (badger_store table) 60 make in_flight other_settings)
update_queue-Updates_example =
    update_queue-Updates table table-IsLawful delayed_queue 60 (omega arith) make config
      (new_priority_queue true) (one_item false) 0 in_flight.store other_settings
      (new_priority_queue true) unlimited

-- The queue without messages.
abbrev idle : Delayed
idle = record waiting { queue = some (new_priority_queue true); store = [] }

queue-enqueue_lem_example :
    Returns
      (λ (r : Result Message × Delayed).
        (r.0 ≡ ok letter)
        × (Storage.get table r.1.store name 1 ≡ ok letter)
        × (r.1.ack_queue ≡ idle.ack_queue)
        × ((((new_priority_queue true).id_to_index 1 ≡ none)
              × (r.1.notified ≡ 1)
              × ((p : PriorityQueue) × (r.1.queue ≡ some p)
                  × Holds
                      (new_priority_queue true)
                      (record { id = 1; priority = pos 7; group = bytes "default" } ∷ [])
                      p))
            ⊎ (((new_priority_queue true).id_to_index 1 ≢ none)
                × (r.1.notified ≡ 0)
                × (r.1.queue ≡ some (new_priority_queue true)))))
      (Queue.enqueue delayed_queue (badger_store table) idle letter)
unfolding Storage.enqueue write_message Dict.insert text_eq
queue-enqueue_lem_example =
    queue-enqueue_lem table table-IsLawful idle config refl refl (new_priority_queue true)
      (new_queue-IsValid true) refl letter (omega arith) (λ e. cc) letter one_letter refl

nack_lem_example :
    Returns
      (λ (r : Result (Unit {0}) × Delayed).
        (r.0 ≡ ok tt) × Drops table in_flight (new_priority_queue true) 0 name 1 r.1)
      (nack delayed_queue (badger_store table) in_flight 1 (pos 3) none)
unfolding text_eq Storage.get Storage.update_message changed_message read_message Dict.lookup
    Dict.insert Dict.remove get_messages_key get_messages_prefix uint64_to_bytes
nack_lem_example =
    nack_lem table table-IsLawful in_flight (one_item-IsValid false) config refl refl
      (new_priority_queue true) (new_queue-IsValid true) refl delivered 0 refl refl refl [] refl
      (pos 3) none
      ((get_messages_key name 1, Stored.message (record delivered { priority = pos 3 })) ∷ []) refl

restore_unacked_lem_example :
    Returns
      (λ (r : Result (Unit {0}) × Delayed).
        (r.0 ≡ ok tt)
        × (Storage.get table r.1.store name 1 ≡ ok letter)
        × ((((new_priority_queue false).id_to_index 1 ≡ none)
              × IsMoved table letter (new_priority_queue false) (pos 9) r.1)
            ⊎ ((i : ℕ) × ((new_priority_queue false).id_to_index 1 ≡ some i)
                × (r.1.queue ≡ some (one_item true))
                × Holds
                    (new_priority_queue false)
                    (set [] i (record (at [] i) { priority = pos 9 }))
                    r.1.ack_queue)))
      (restore_unacked delayed_queue (badger_store table) waiting letter (pos 9))
unfolding Storage.restore_message write_message Dict.insert text_eq get_messages_key
    get_messages_prefix uint64_to_bytes
restore_unacked_lem_example =
    restore_unacked_lem table table-IsLawful waiting config refl refl (one_item true)
      (one_item-IsValid true) refl letter (λ e. cc) (new_queue-IsValid false) (pos 9) one_letter
      refl

-- The message in flight has the deadline 9 in place of its own.
queue-update_priority_lem_example :
    Returns
      (λ (r : Result (Unit {0}) × Delayed).
        (((new_priority_queue true).id_to_index 1 ≡ none)
          × ((one_item false).id_to_index 1 ≡ none)
          × (r ≡ (err Error.message_not_found, in_flight)))
        ⊎ ((r.0 ≡ ok tt)
            × (Storage.get table r.1.store name 1 ≡ ok (record delivered { priority = pos 9 }))
            × (ReadyChanged table in_flight (new_priority_queue true) 1 (pos 9) r.1
                ⊎ DeadlineChanged table in_flight (new_priority_queue true) 1 (pos 9) r.1)))
      (Queue.update_priority delayed_queue (badger_store table) in_flight 1 (pos 9))
unfolding text_eq Storage.get Storage.update_priority read_message Dict.lookup Dict.insert
    Dict.remove get_messages_key get_messages_prefix uint64_to_bytes
queue-update_priority_lem_example =
    queue-update_priority_lem table table-IsLawful in_flight config refl (new_priority_queue true)
      (new_queue-IsValid true) refl 1 delivered refl (pos 9) (λ e. cc)
      (record delivered { priority = pos 9 })
      ((get_messages_key name 1, Stored.message (record delivered { priority = pos 9 })) ∷ []) refl
      (one_item-IsValid false)
