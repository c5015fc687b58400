-- ===== src/Api/Grpc/Streams.antt =====
-- pkg/grpc/server.go: the streams of enqueue and dequeue requests. What a client sends is a list, whose
-- end is io.EOF, and sending to it is a parameter. The state of the node is the one that the handler has
-- left it in; logging, and the length of the waits for a message, are left out.
pub mod Laws
mod Tests
use doq.Common.{ℕ, Bool, true, false, List, [], ◌∷◌, Option, some, ◌>>=◌}
use doq.Common.Int.{ℤ}
use doq.Common.Text.{Text}
use doq.Errors.{Error, Result, ok, err}
use doq.Entity.{Message}
use doq.Storage.{Store}
use doq.Memory.Interface.{MemoryQueue}
use doq.Queue.Config.{Kind}
use doq.Manager.{QueueManager}
use doq.Node
use doq.Node.{Cluster, Node}
use doq.Api.Grpc.{map_error}

-- The stream's Send.
pub record Client : Type 1 where
  pub Sent : Type 0
  pub send : Sent → Message → Result Sent

-- How a stream ends; one that goes on has no end yet.
pub data Ending : Type 0 where
  open_still : Ending
  closed : Ending
  failed : Error → Ending

-- One round of the loop of DequeueStream: the time, whether the consumer is gone before it or while it
-- waits for a message, and the consumer's signal after a message.
pub record Round : Type 0 where
  pub now : ℤ
  pub gone : Bool
  pub gone_waiting : Bool
  pub signal : Result (Unit {0})

module _ (M : MemoryQueue) (S : Store) (d : ℕ) (make : Kind → ℤ → M.State)
    (C : Cluster (QueueManager M S d make)) (K : Client) where
  abbrev pub Outcome : Type 0
  Outcome = Ending × K.Sent × Node M S d make C

  unfoldable pub enqueue_stream :
      Node M S d make C → K.Sent → List (Result (Text × Message)) → Outcome
  enqueue_stream n sent [] = (Ending.closed, sent, n)
  enqueue_stream n sent (err e ∷ requests) = (Ending.failed e, sent, n)
  enqueue_stream n sent (ok (queue_name, req) ∷ requests) =
      let r = Node.enqueue M S d make C n queue_name req in
      elim r.0 [
        | err e ↦ (Ending.failed (map_error e), sent, r.1)
        | ok message ↦ elim (K.send sent message) [
          | err e ↦ (Ending.failed e, sent, r.1)
          | ok sent' ↦ enqueue_stream r.1 sent' requests
        ]
      ]

  -- After an error of Dequeue the handler waits and tries again.
  unfoldable pub dequeue_loop :
      Text → Bool → Node M S d make C → K.Sent → List Round → Option Outcome
  dequeue_loop queue_name ack n sent [] = some (Ending.open_still, sent, n)
  dequeue_loop queue_name ack n sent (round ∷ rounds) = elim round.gone [
    | true ↦ some (Ending.closed, sent, n)
    | false ↦ (do
      r ← Node.dequeue M S d make C n queue_name ack round.now
      elim r.0 [
        | err e ↦ (do
          w ← Node.peek_ready M S d make C r.1 queue_name round.now
          elim round.gone_waiting [
            | true ↦ some (Ending.closed, sent, w.1)
            | false ↦ dequeue_loop queue_name ack w.1 sent rounds
          ])
        | ok message ↦ elim (K.send sent message) [
          | err e ↦ some (Ending.failed e, sent, r.1)
          | ok sent' ↦ elim round.signal [
            | err e ↦ some (Ending.failed e, sent', r.1)
            | ok _ ↦ dequeue_loop queue_name ack r.1 sent' rounds
          ]
        ]
      ])
  ]

  -- The parameters are those of the first request, unless its name is empty.
  unfoldable pub dequeue_stream :
      Node M S d make C → K.Sent → Result (Text × Bool) → List Round → Option Outcome
  unfolding dequeue_loop
  dequeue_stream n sent (err e) rounds = some (Ending.failed e, sent, n)
  dequeue_stream n sent (ok ([], ack)) rounds = dequeue_loop [] false n sent rounds
  dequeue_stream n sent (ok (c ∷ name, ack)) rounds = dequeue_loop (c ∷ name) ack n sent rounds
