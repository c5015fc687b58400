-- ===== src/Api/Grpc/Streams/Laws.antt =====
-- pkg/grpc/server.go with pkg/raft/commands.go: a consumer that waits at a queue with nothing to deliver.
use doq.Common.{ℕ, ◌≡◌, refl, Bool, false, List, [], ◌∷◌, some, ◌⊎◌, inl, inr, Bool-cases}
use doq.Common.Int.{ℤ}
use doq.Common.Text.{Text}
use doq.Errors.{Error, ok, err}
use doq.Entity.{QueueConfig}
use doq.Storage.{Store}
use doq.Memory.Interface.{delayed_queue}
use doq.Memory.PriorityQueue.{PriorityQueue}
use doq.Queue
use doq.Queue.{Queue}
use doq.Queue.Config.{Kind}
use doq.Manager.{QueueManager, get_queue}
use doq.Node
use doq.Node.{Cluster, Node}
use doq.Node.Laws.{dequeue-idle}
use doq.Api.Grpc.Streams.{Client, Ending, Round, dequeue_loop}

module _ (S : Store) (d : ℕ) (make : Kind → ℤ → PriorityQueue)
    (C : Cluster (QueueManager delayed_queue S d make)) (K : Client)
    (n : Node delayed_queue S d make C) (queue_name : Text) (q : Queue delayed_queue S)
    (config : QueueConfig)
    (found : get_queue delayed_queue S d make n.manager queue_name ≡ some (ok q, n.manager))
    (conf : q.config ≡ some config) where
  -- Nothing is ready in any of the rounds.
  unfoldable pub AllIdle : List Round → Type 0
  AllIdle [] = Unit
  AllIdle (round ∷ rounds) =
      ((wait : ℤ) × (Queue.peek_ready delayed_queue S q round.now ≡ some (false, wait)))
      × AllIdle rounds

  peek_ready-idle :
      (now wait : ℤ)
      → Queue.peek_ready delayed_queue S q now ≡ some (false, wait)
      → Node.peek_ready delayed_queue S d make C n queue_name now ≡ some ((false, wait), n)
  unfolding Node.peek_ready
  peek_ready-idle now wait e = rw (found, Node.peek_ready) (rw e refl)

  dequeue-waits :
      (ack : Bool) (now wait : ℤ)
      → Queue.peek_ready delayed_queue S q now ≡ some (false, wait)
      → Node.dequeue delayed_queue S d make C n queue_name ack now ≡ some (err Error.empty_queue, n)
  dequeue-waits ack now wait e =
      (dequeue-idle S d make C n queue_name ack now wait q config n.manager found conf e).0

  -- A stream whose consumer waits at a queue of the delayed type, which the node has loaded, and which
  -- has nothing ready in any round, goes on or is closed with the consumer: it does not fail, sends
  -- nothing, and leaves the node, with the Raft log, as it was.
  pub dequeue_loop-idle :
      (ack : Bool) (sent : K.Sent) (rounds : List Round)
      → AllIdle rounds
      → (ending : Ending) × ((ending ≡ Ending.open_still) ⊎ (ending ≡ Ending.closed))
        × (dequeue_loop delayed_queue S d make C K queue_name ack n sent rounds
            ≡ some (ending, sent, n))
  unfolding dequeue_loop AllIdle
  dequeue_loop-idle ack sent [] idle = (Ending.open_still, inl refl, refl)
  dequeue_loop-idle ack sent (round ∷ rounds) ((wait, e), idle) =
      let (ending, how, rest) = dequeue_loop-idle ack sent rounds idle in
      let waits = dequeue-waits ack round.now wait e in
      let peeks = peek_ready-idle round.now wait e in
      elim (Bool-cases round.gone) [
        | inl gone ↦ (Ending.closed, inr refl, rw (gone, dequeue_loop) refl)
        | inr there ↦ elim (Bool-cases round.gone_waiting) [
          | inl gone ↦ (
            Ending.closed,
            inr refl,
            rw (there, dequeue_loop) (rw waits (rw peeks (rw gone refl))),
          )
          | inr still ↦
              (ending, how, rw (there, dequeue_loop) (rw waits (rw peeks (rw still rest))))
        ]
      ]
