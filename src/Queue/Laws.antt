-- ===== src/Queue/Laws.antt =====
-- pkg/queue/queue.go: the messages in flight: touching, acknowledging and expiring them.
use doq.Common.{
  ℕ, suc, ◌<◌, ◌≡◌, refl, Bool, true, false, List, Option, none, some, arith, ◌==◌, length, set,
  Returns, returns, Returns-bind,
}
use doq.Common.Int.{ℤ, pos, ltb_ℤ, ◌+ℤ◌}
use doq.Common.Text.{Text}
use doq.Errors.{Error, Result, ok, err}
use doq.Entity.{QueueConfig}
use doq.Storage.{Store}
use doq.Memory.PriorityQueue.{Item, PriorityQueue, size, item_less, peek}
use doq.Memory.PriorityQueue.Slice.{at, get_elem?-at}
use doq.Memory.PriorityQueue.Order.{Le}
use doq.Memory.PriorityQueue.Laws.{Takes}
use doq.Memory.PriorityQueue.Valid.{IsValid, Holds, root_least}
use doq.Memory.PriorityQueue.Edit.{delete_lem, update_priority_lem}
use doq.Memory.PriorityQueue
use doq.Memory.DelayedQueue
use doq.Memory.Interface.{MemoryQueue}
use doq.Queue.{Queue, touch, ack, nack, ack_timeout, expire_acks, default_group, take_in_flight}

-- In a queue that serves the greatest first, an item that may stand first is scheduled no earlier.
greatest_time :
    (x y : Item) (now : ℤ)
    → Le false x y
    → ltb_ℤ now y.priority ≡ true
    → ltb_ℤ now x.priority ≡ true
unfolding item_less
greatest_time x y now l h = ground arith

pub get-unknown :
    (p : PriorityQueue) (group : Text) (id : ℕ)
    → p.id_to_index id ≡ none
    → DelayedQueue.get p group id ≡ some none
unfolding DelayedQueue.get PriorityQueue.get
get-unknown p group id e = rw (e, PriorityQueue.get)

pub get-known :
    (p : PriorityQueue) (group : Text) (id i : ℕ)
    → p.id_to_index id ≡ some i
    → i < length p.items
    → DelayedQueue.get p group id ≡ some (some (at p.items i))
unfolding DelayedQueue.get PriorityQueue.get
get-known p group id i e h = rw (e, PriorityQueue.get, get_elem?-at p.items i h)

module _ (M : MemoryQueue) (S : Store) (q : Queue M S) where
  -- A message that is not in flight cannot be acknowledged, refused, touched or expired: each of the
  -- four fails with "message not found" and changes nothing.
  pub not_in_flight :
      (id : ℕ) (priority now : ℤ) (metadata : Option (List (Text × Text)))
      → q.ack_queue.id_to_index id ≡ none
      → (ack M S q id ≡ some (err Error.message_not_found, q))
        × (nack M S q id priority metadata ≡ some (err Error.message_not_found, q))
        × (touch M S q id now ≡ some (err Error.message_not_found, q))
        × (ack_timeout M S q id ≡ some (err Error.message_not_found, q))
  unfolding ack nack touch ack_timeout
  not_in_flight id priority now metadata e =
      let g = get-unknown q.ack_queue default_group id e in
      (rw (g, ack), rw (g, nack), rw (g, touch), rw (g, ack_timeout))

  module _ (v : IsValid q.ack_queue) where
    -- One message in flight whose deadline has not passed keeps every deadline from expiring: the
    -- sweep of expired deadlines then does nothing, in a queue of messages in flight that puts the
    -- greatest deadline first, as NewQueue makes it.
    pub expire_acks-blocked :
        (fuel : ℕ) (handler : Queue M S → ℕ → Option (Bool × Queue M S)) (now : ℤ) (i : ℕ)
        → q.ack_queue.min_first ≡ false
        → i < length q.ack_queue.items
        → ltb_ℤ now (at q.ack_queue.items i).priority ≡ true
        → expire_acks M S (suc fuel) handler q now ≡ some q
    unfolding expire_acks DelayedQueue.peek_ready_item peek
    expire_acks-blocked fuel handler now i mode h later =
        let a = q.ack_queue.items in
        let full : (length a == 0) ≡ false = ground arith in
        let head =
          greatest_time (at a 0) (at a i) now (rw mode at (root_least q.ack_queue i v h)) later in
        rw (expire_acks, full, get_elem?-at a 0 (omega arith), head)

    module _ (config : QueueConfig) (ready : q.config ≡ some config) (id i : ℕ)
        (known : q.ack_queue.id_to_index id ≡ some i) where
      inside : i < length q.ack_queue.items
      inside = (v.indexed.index_at id i known).0

      named : (at q.ack_queue.items i).id ≡ id
      named = (v.indexed.index_at id i known).1

      -- Touching a message in flight moves its deadline to the timeout from now, and nothing else.
      pub touch_lem :
          (now : ℤ)
          → Returns
              (λ (r : Result (Unit {0}) × Queue M S).
                (r.0 ≡ ok tt)
                × (r.1 ≡ record q { ack_queue = r.1.ack_queue })
                × Holds q.ack_queue
                    (set q.ack_queue.items i (record (at q.ack_queue.items i) {
                      priority = now +ℤ pos config.settings.ack_timeout;
                    }))
                    r.1.ack_queue)
              (touch M S q id now)
      unfolding touch DelayedQueue.update_priority
      touch_lem now =
          rw (get-known q.ack_queue default_group id i known inside, touch, ready)
            (Returns-bind
              (update_priority_lem q.ack_queue id i v known
                (now +ℤ pos config.settings.ack_timeout))
              λ p t. returns (refl, refl, t))

      -- Taking a known message out of those in flight.
      pub take_in_flight_lem :
          (group : Text)
          → Returns
              (λ (r : Option Item × Queue M S).
                (r.1 ≡ record q { ack_queue = r.1.ack_queue })
                × Takes q.ack_queue (at q.ack_queue.items i) (r.0, r.1.ack_queue))
              (take_in_flight M S q group id)
      unfolding DelayedQueue.delete
      take_in_flight_lem group =
          Returns-bind (delete_lem q.ack_queue id i v known) λ r t. returns (refl, t)
