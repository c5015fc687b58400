-- ===== src/Queue.antt =====
-- pkg/queue/queue.go: a queue of messages: the ready messages in a memory queue, the messages in
-- flight in a delayed queue with their acknowledgement deadlines, and the stored messages. The memory
-- queue and the store are taken by their interfaces. Statistics, metrics and logging are left out;
-- `notified` counts the wake-ups of waiting consumers. `none` is a run-time panic: a nil configuration
-- or memory queue, or a panic below. Times are Unix seconds.
pub mod Config
pub mod Snapshot
pub mod Persist
pub mod Laws
pub mod Delivery
pub mod Redelivery
pub mod Tests
pub mod Dequeue
pub mod Enqueue
pub mod Nack
pub mod Priority
pub mod Restore
use doq.Common.{
  ℕ, zero, suc, ◌+◌, Bool, true, false, not, ◌&&◌, ◌||◌, List, [], Option, none, some, ltb, leb,
  ◌==◌, if◌then◌else◌, ◌>>=◌,
}
use doq.Common.Int.{ℤ, pos, eqb_ℤ, ◌+ℤ◌}
use doq.Common.Text.{Text, bytes, text_eq}
use doq.Errors.{Error, Result, ok, err}
use doq.Entity.{Message, QueueConfig}
use doq.Storage.{Store}
use doq.Memory.PriorityQueue.{Item, PriorityQueue, new_priority_queue, write_priority}
use doq.Memory.DelayedQueue
use doq.Memory.Interface.{MemoryQueue}

abbrev pub default_group : Text
default_group = bytes "default"

abbrev pub fair : Text
fair = bytes "fair"

abbrev is_some {ℓ} : {A : Type ℓ} → Option A → Bool
is_some none = false
is_some (some a) = true

abbrev has_id : Option Item → ℕ → Bool
has_id none id = false
has_id (some item) id = item.id == id

module _ (M : MemoryQueue) (S : Store) where
  pub record Queue : Type 0 where
    pub config : Option QueueConfig
    pub queue : Option M.State
    pub ack_queue : PriorityQueue
    pub notified : ℕ
    pub store : S.State

  -- The queue of messages in flight puts the greatest deadline first: NewDelayedQueue(false).
  abbrev pub new_queue : S.State → Queue
  new_queue store = record {
    config = none;
    queue = none;
    ack_queue = DelayedQueue.new_delayed_queue false;
    notified = 0;
    store = store;
  }

  -- A step of the queue: a result or an error, and the state that it leaves; `none` is a panic.
  abbrev pub Run : Type 0 → Type 0
  Run A = Option (Result A × Queue)

  -- The next step, after `if err != nil { return err }`.
  abbrev pub bind : {A B : Type 0} → Run A → (A → Queue → Run B) → Run B
  bind none f = none
  bind (some (ok a, q)) f = f a q
  bind (some (err e, q)) f = some (err e, q)

  -- A call of the store that reads; and one that writes.
  abbrev pub reading : {A : Type 0} → Queue → Result A → Run A
  reading q r = some (r, q)

  abbrev pub writing : Queue → Result (Message × S.State) → Run Message
  writing q (ok (msg, s)) = some (ok msg, record q { store = s })
  writing q (err e) = some (err e, q)

  abbrev pub storing : Queue → Result S.State → Run (Unit {0})
  storing q (ok s) = some (ok tt, record q { store = s })
  storing q (err e) = some (err e, q)

  abbrev pub is_fair : QueueConfig → Bool
  is_fair config = text_eq config.queue_type fair

  abbrev pub notify : Queue → Queue
  notify q = record q { notified = q.notified + 1 }

  -- Taking a message out of the queue of those in flight.
  abbrev pub take_in_flight : Queue → Text → ℕ → Option (Option Item × Queue)
  take_in_flight q group id = do
    r ← DelayedQueue.delete q.ack_queue group id
    some (r.0, record q { ack_queue = r.1 })

  -- `q.queue.UpdateWeights(group, id)`
  abbrev pub release : Queue → Text → ℕ → Option Queue
  release q group id = do
    ready ← q.queue
    ready' ← M.update_weights ready group id
    some (record q { queue = some ready' })

  abbrev pub enqueue_ready : Queue → Text → Item → Option Queue
  enqueue_ready q group item = do
    ready ← q.queue
    ready' ← M.enqueue ready group item
    some (record q { queue = some ready' })

  unfoldable pub get : Queue → ℕ → Run Message
  get q id = do config ← q.config; reading q (S.get q.store config.name id)

  -- `return item, nil` of a step that cannot fail.
  abbrev pub done : Option Queue → Run (Unit {0})
  done r = do q ← r; some (ok tt, q)

  unfoldable pub enqueue : Queue → Message → Run Message
  enqueue q message = do
    config ← q.config
    let group = if is_fair config then message.group else default_group
    bind (writing q (S.enqueue q.store config.name (record message { group = group }))) λ msg q1. do
      ready ← q1.queue
      item ← M.get ready group message.id
      q2 ← elim item [
        | some _ ↦ some q1
        | none ↦ (do
          q' ←
              enqueue_ready q1 msg.group
                (record { id = message.id; priority = message.priority; group = group })
          some (notify q'))
      ]
      some (ok msg, q2)

  unfoldable pub dequeue : Queue → Bool → ℕ → ℤ → Run Message
  dequeue q ack seed now = do
    ready ← q.queue
    config ← q.config
    let take : Run Message = do
      r ← M.dequeue ready ack seed now
      let q1 = record q { queue = some r.1 }
      elim r.0 [
        | none ↦ some (err Error.empty_queue, q1)
        | some item ↦ bind (writing q1 (S.dequeue q.store config.name item.id ack)) λ msg q2.
            if ack then some (ok msg, q2) else (do
              in_flight ← DelayedQueue.enqueue q2.ack_queue default_group (record {
                id = item.id;
                priority = now +ℤ pos config.settings.ack_timeout;
                group = msg.group;
              })
              some (ok msg, record q2 { ack_queue = in_flight }))
      ]
    if M.len ready == 0 then some (err Error.empty_queue, q) else take

  unfoldable pub peek_ready : Queue → ℤ → Option (Bool × ℤ)
  peek_ready q now = do ready ← q.queue; M.peek_ready ready now

  unfoldable pub delete : Queue → ℕ → Run (Unit {0})
  delete q id = do
    config ← q.config
    bind (writing q (S.delete q.store config.name id)) λ msg q1. do
      ready ← q1.queue
      r ← M.delete ready msg.group id
      s ← take_in_flight (record q1 { queue = some r.1 }) msg.group id
      done (elim s.0 [
        | none ↦ some s.1
        | some _ ↦ (if is_fair config then release s.1 msg.group id else some s.1)
      ])

  -- The pointer write `queueItem.UpdatePriority(newPriority)`: to an item of the memory queue it is the
  -- write that the queue's own UpdatePriority makes again; to an item in flight it is made here.
  unfoldable pub write_in_flight : Queue → ℕ → ℤ → Option Queue
  write_in_flight q id priority = elim (q.ack_queue.id_to_index id) [
    | none ↦ some q
    | some index ↦ (do
      in_flight ← write_priority q.ack_queue index priority
      some (record q { ack_queue = in_flight }))
  ]

  unfoldable pub update_priority : Queue → ℕ → ℤ → Run (Unit {0})
  update_priority q id priority = do
    config ← q.config
    bind (reading q (S.get q.store config.name id)) λ msg _. do
      ready ← q.queue
      item ← M.get ready msg.group id
      let write : Run (Unit {0}) =
          bind (writing q (S.update_priority q.store config.name id priority)) λ _ q1. do
            q2 ← elim item [ some _ ↦ some q1 | none ↦ write_in_flight q1 id priority ]
            ready' ← M.update_priority ready msg.group id priority
            some (ok tt, record q2 { queue = some ready' })
      elim item [
        | some _ ↦ write
        | none ↦ (do
          unacked ← DelayedQueue.get q.ack_queue msg.group id
          elim unacked [ some _ ↦ write | none ↦ some (err Error.message_not_found, q) ])
      ]

  unfoldable pub touch : Queue → ℕ → ℤ → Run (Unit {0})
  touch q id now = do
    item ← DelayedQueue.get q.ack_queue default_group id
    elim item [
      | none ↦ some (err Error.message_not_found, q)
      | some _ ↦ (do
        config ← q.config
        in_flight ←
            DelayedQueue.update_priority q.ack_queue default_group id
              (now +ℤ pos config.settings.ack_timeout)
        some (ok tt, record q { ack_queue = in_flight }))
    ]

  -- The part of Ack for a fair queue.
  unfoldable pub release_acked : Queue → QueueConfig → ℕ → Run (Unit {0})
  release_acked q config id =
      if is_fair config
      then bind (reading q (S.get q.store config.name id))
          (λ msg _. done (release q msg.group msg.id))
      else some (ok tt, q)

  unfoldable pub ack : Queue → ℕ → Run (Unit {0})
  ack q id = do
    item ← DelayedQueue.get q.ack_queue default_group id
    elim item [
      | none ↦ some (err Error.message_not_found, q)
      | some item ↦ (do
        config ← q.config
        bind (release_acked q config item.id) λ _ q1.
            bind (storing q1 (S.ack q1.store config.name item.id))
              λ _ q2. do r ← take_in_flight q2 default_group item.id; some (ok tt, r.1))
    ]

  -- Whether redeliverOrDrop drops the message.
  abbrev pub is_exhausted : QueueConfig → Message → Bool
  is_exhausted config message =
      ltb 0 config.settings.delivery_limit
      && leb config.settings.delivery_limit message.delivery_count

  unfoldable pub redeliver : Queue → QueueConfig → Message → ℤ → Option Queue
  redeliver q config message new_priority = do
    r ← take_in_flight q default_group message.id
    q1 ← enqueue_ready r.1 message.group (record {
      id = message.id;
      priority = if eqb_ℤ new_priority (pos 0) then message.priority else new_priority;
      group = message.group;
    })
    q2 ← if is_fair config then release q1 message.group message.id else some q1
    some (notify q2)

  unfoldable pub redeliver_or_drop : Queue → Message → ℤ → Run Bool
  redeliver_or_drop q message new_priority = do
    config ← q.config
    if is_exhausted config message
        then bind (delete q message.id) (λ _ q1. some (ok true, q1))
        else (do q1 ← redeliver q config message new_priority; some (ok false, q1))

  unfoldable pub nack : Queue → ℕ → ℤ → Option (List (Text × Text)) → Run (Unit {0})
  nack q id priority metadata = do
    item ← DelayedQueue.get q.ack_queue default_group id
    elim item [
      | none ↦ some (err Error.message_not_found, q)
      | some item ↦ bind (get q item.id) λ message q1.
          bind (redeliver_or_drop q1 message priority) λ dropped q2. do
            config ← q2.config
            let changed = not (eqb_ℤ priority (pos 0)) && not (eqb_ℤ priority message.priority)
            if not dropped && (is_some metadata || changed)
                then storing q2
                    (S.update_message q2.store config.name message.id priority [] metadata)
                else some (ok tt, q2)
    ]

  -- The message is gone from the store: its stale entry is dropped.
  unfoldable pub drop_stale : Queue → Item → ℕ → Option Queue
  drop_stale q item id = do
    r ← take_in_flight q default_group id
    config ← q.config
    elim r.0 [
      | none ↦ some r.1
      | some _ ↦ (if is_fair config then release r.1 item.group id else some r.1)
    ]

  unfoldable pub ack_timeout : Queue → ℕ → Run (Unit {0})
  ack_timeout q id = do
    item ← DelayedQueue.get q.ack_queue default_group id
    elim item [
      | none ↦ some (err Error.message_not_found, q)
      | some item ↦ (do
        found ← get q id
        elim found.0 [
          | err e ↦ (do q1 ← drop_stale q item id; some (err e, q1))
          | ok message ↦ bind (redeliver_or_drop q message (pos 0)) (λ _ q1. some (ok tt, q1))
        ])
    ]

  -- expireAcks with a handler, which may change the queue and reports whether it succeeded. The fuel
  -- bounds the rounds of one tick.
  unfoldable pub expire_acks : ℕ → (Queue → ℕ → Option (Bool × Queue)) → Queue → ℤ → Option Queue
  expire_acks zero handler q now = none
  expire_acks (suc fuel) handler q now = do
    item ← DelayedQueue.peek_ready_item q.ack_queue now
    elim item [
      | none ↦ some q
      | some item ↦ (do
        r ← handler q item.id
        let again = expire_acks fuel handler r.1 now
        if r.0
            then (do
              next ← DelayedQueue.peek_ready_item r.1.ack_queue now
              if has_id next item.id then some r.1 else again)
            else some r.1)
    ]

  unfoldable pub len : Queue → Option ℕ
  len q = do ready ← q.queue; some (M.len ready)
