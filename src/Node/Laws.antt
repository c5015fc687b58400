-- ===== src/Node/Laws.antt =====
-- pkg/raft/commands.go: the guard of Dequeue.
use doq.Common.{
  ℕ, ◌≡◌, refl, sym, Bool, true, false, none, some, ◌==◌, Option-cases, Bool-cases, inl, inr,
}
use std.Path.{subst}
use doq.Common.Int.{ℤ, ltb_ℤ}
use doq.Common.Text.{Text}
use doq.Errors.{Error, ok, err}
use doq.Entity.{QueueConfig}
use doq.Storage.{Store}
use doq.Memory.Interface.{delayed_queue}
use doq.Memory.PriorityQueue.{PriorityQueue, size, peek}
use doq.Memory.DelayedQueue
use doq.Queue
use doq.Queue.{Queue}
use doq.Queue.Config.{Kind}
use doq.Manager.{QueueManager, get_queue, keep}
use doq.Fsm.{Command, apply, on_queue, failed}
use doq.Node
use doq.Node.{
  Cluster, Node, leader_grpc_addr, forward, enqueue, get, delete, ack, nack, touch, update_priority,
  create_queue, update_queue, delete_queue, propose_ack_timeout,
}

-- A queue of the delayed type that is not ready has nothing to dequeue at that time.
delayed_queue-idle :
    (q : PriorityQueue) (now wait : ℤ) (ack : Bool) (seed : ℕ)
    → DelayedQueue.peek_ready q now ≡ some (false, wait)
    → DelayedQueue.dequeue q ack seed now ≡ some (none, q)
unfolding DelayedQueue.peek_ready DelayedQueue.dequeue
delayed_queue-idle q now wait ack seed e = elim (Bool-cases (size q == 0)) [
  | inl empty ↦ rw empty refl
  | inr full ↦
      let e1 = rw full at e in
      rw full (elim (Option-cases (peek q)) [
        | inl none_there ↦ cc (rw none_there at e1)
        | inr (head, there) ↦
            let e2 = rw there at e1 in
            rw there (elim (Bool-cases (ltb_ℤ now head.priority)) [
              | inl later ↦ rw later refl
              | inr due ↦ cc (rw due at e2)
            ])
      ])
]

queue-dequeue_idle :
    (S : Store) (ready in_flight : PriorityQueue) (notified : ℕ) (store : S.State)
    (config : QueueConfig) (now : ℤ) (auto_ack : Bool) (seed : ℕ)
    → DelayedQueue.dequeue ready auto_ack seed now ≡ some (none, ready)
    → let q : Queue delayed_queue S = record {
      config = some config;
      queue = some ready;
      ack_queue = in_flight;
      notified = notified;
      store = store;
    } in
      Queue.dequeue delayed_queue S q auto_ack seed now ≡ some (err Error.empty_queue, q)
unfolding Queue.dequeue
queue-dequeue_idle S ready in_flight notified store config now auto_ack seed idle =
    elim (Bool-cases (DelayedQueue.len ready == 0)) [
      | inl empty ↦ rw empty refl
      | inr full ↦ rw full (rw idle refl)
    ]

idle_queue :
    (S : Store) (q : Queue delayed_queue S) (config : QueueConfig) (now wait : ℤ) (auto_ack : Bool)
    (seed : ℕ)
    → q.config ≡ some config
    → Queue.peek_ready delayed_queue S q now ≡ some (false, wait)
    → Queue.dequeue delayed_queue S q auto_ack seed now ≡ some (err Error.empty_queue, q)
unfolding Queue.peek_ready
idle_queue S q config now wait auto_ack seed conf e = elim (Option-cases q.queue) [
  | inl none_there ↦ cc (rw (none_there, Queue.peek_ready) at e)
  | inr (ready, there) ↦
      let e1 = rw (there, Queue.peek_ready) at e in
      let same : record q { config = some config; queue = some ready } ≡ q =
        λ i. record q { config = sym conf i; queue = sym there i } in
      subst
        (λ (x : Queue delayed_queue S).
          Queue.dequeue delayed_queue S x auto_ack seed now ≡ some (err Error.empty_queue, x))
        same
        (queue-dequeue_idle S ready q.ack_queue q.notified q.store config now auto_ack seed
          (delayed_queue-idle ready now wait auto_ack seed e1))
]

module _ (S : Store) (d : ℕ) (make : Kind → ℤ → PriorityQueue)
    (C : Cluster (QueueManager delayed_queue S d make)) (n : Node delayed_queue S d make C) where
  -- Dequeue of a queue of the delayed type that the local replica finds, with its configuration, and that
  -- has no message ready at the time: the node, leader or not, answers "queue is empty" and neither puts
  -- a command into the log nor calls another node. Nothing is lost by it: the state machine would give
  -- the command the same answer, at any index, if it were appended at that time, and keep the queue.
  pub dequeue-idle :
      (queue_name : Text) (auto_ack : Bool) (now wait : ℤ) (q : Queue delayed_queue S)
      (config : QueueConfig) (m : QueueManager delayed_queue S d make)
      → get_queue delayed_queue S d make n.manager queue_name ≡ some (ok q, m)
      → q.config ≡ some config
      → Queue.peek_ready delayed_queue S q now ≡ some (false, wait)
      → (Node.dequeue delayed_queue S d make C n queue_name auto_ack now
          ≡ some (err Error.empty_queue, record n { manager = m }))
        × ((index : ℕ)
            → apply delayed_queue S d make n.manager index now (Command.dequeue queue_name auto_ack)
              ≡ some (
                failed queue_name Error.empty_queue,
                keep delayed_queue S d make m queue_name true q,
              ))
  unfolding Node.dequeue apply on_queue
  dequeue-idle queue_name auto_ack now wait q config m found conf e = (
    rw (found, Node.dequeue) (rw e refl),
    λ index. rw (found, on_queue) (rw (idle_queue S q config now wait auto_ack index conf e) refl),
  )
