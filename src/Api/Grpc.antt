-- ===== src/Api/Grpc.antt =====
-- pkg/grpc/server.go: the handlers of requests, over a node. A response with an error beside it is the
-- error, as gRPC sends no more; a settings message that is missing is `none`. Contexts and logging are
-- left out. Stats and ids go through unchanged, and are in Node.
pub mod Streams
pub mod Laws
use doq.Common.{
  ℕ, zero, suc, ◌-◌, Bool, true, false, ◌&&◌, ◌||◌, List, [], ◌∷◌, map, Option, none, some, ◌>>=◌,
  leb, ltb, if◌then◌else◌, ◌==◌,
}
use doq.Common.Int.{ℤ, pos}
use doq.Common.Text.{Text}
use doq.Errors.{Error, Result, ok, err}
use doq.Entity.{Message, QueueConfig, QueueSettings}
use doq.Storage.{Store}
use doq.Memory.Interface.{MemoryQueue}
use doq.Queue.Config.{Kind}
use doq.Manager.{QueueManager}
use doq.Fsm.{Command}
use doq.Node
use doq.Node.{Cluster, Node, Reply}
use doq.Api
use doq.Api.{grpc_code}

-- mapError: the status error of the response.
abbrev pub map_error : Error → Error
map_error e = Error.status (grpc_code e)

-- strings.ToUpper, of ASCII.
abbrev pub to_upper : Text → Text
to_upper s = map (λ c. if leb 97 c && leb c 122 then c - 32 else c) s

module _ (M : MemoryQueue) (S : Store) (d : ℕ) (make : Kind → ℤ → M.State)
    (C : Cluster (QueueManager M S d make)) where
  abbrev pub mapped : {A : Type 0} → Reply M S d make C A → Reply M S d make C A
  mapped (ok a, n) = (ok a, n)
  mapped (err e, n) = (err (map_error e), n)

  -- The ids of a loop with that many rounds.
  unfoldable pub next_ids : ℕ → C.State → List ℕ × C.State
  next_ids zero s = ([], s)
  next_ids (suc n) s =
      let r = C.generate_id s in let rest = next_ids n r.1 in (r.0 ∷ rest.0, rest.1)

  unfoldable pub generate_ids : Node M S d make C → ℕ → Reply M S d make C (List ℕ)
  unfolding next_ids
  generate_ids n number =
      let r = next_ids number n.cluster in
      if number == 0 || ltb 1000 number
      then (err (Error.status Api.invalid_argument), n)
      else (ok r.0, record n { cluster = r.1 })

  unfoldable pub create_queue :
      Node M S d make C → Text → Text → Option QueueSettings → Reply M S d make C (Unit {0})
  create_queue n queue_type name none = (err (Error.status Api.invalid_argument), n)
  create_queue n queue_type name (some settings) = mapped (
      Node.create_queue M S d make C n queue_type name
        (record settings { strategy = to_upper settings.strategy }))

  -- The delivery limit of the request is not passed on.
  unfoldable pub update_queue :
      Node M S d make C → Text → Option QueueSettings → Reply M S d make C (Unit {0})
  update_queue n name none = (err (Error.status Api.invalid_argument), n)
  update_queue n name (some settings) = mapped (
      Node.update_queue M S d make C n name
        (record settings { strategy = to_upper settings.strategy; delivery_limit = 0 }))

  unfoldable pub delete_queue : Node M S d make C → Text → Reply M S d make C (Unit {0})
  delete_queue n name = mapped (Node.delete_queue M S d make C n name)

  unfoldable pub enqueue : Node M S d make C → Text → Message → Reply M S d make C Message
  enqueue n queue_name req = mapped (Node.enqueue M S d make C n queue_name req)

  unfoldable pub dequeue : Node M S d make C → Text → Bool → ℤ → Option (Reply M S d make C Message)
  dequeue n queue_name ack now = do
    r ← Node.dequeue M S d make C n queue_name ack now
    some (mapped r)

  unfoldable pub get : Node M S d make C → Text → ℕ → Reply M S d make C Message
  get n queue_name id = mapped (Node.get M S d make C n queue_name id)

  unfoldable pub delete : Node M S d make C → Text → ℕ → Reply M S d make C (Unit {0})
  delete n queue_name id = mapped (Node.delete M S d make C n queue_name id)

  unfoldable pub ack : Node M S d make C → Text → ℕ → Reply M S d make C (Unit {0})
  ack n queue_name id = mapped (Node.ack M S d make C n queue_name id)

  unfoldable pub nack :
      Node M S d make C → Text → ℕ → ℤ → Option (List (Text × Text)) → Reply M S d make C (Unit {0})
  nack n queue_name id priority metadata =
      mapped (Node.nack M S d make C n queue_name id priority metadata)

  unfoldable pub touch : Node M S d make C → Text → ℕ → Reply M S d make C (Unit {0})
  touch n queue_name id = mapped (Node.touch M S d make C n queue_name id)

  unfoldable pub update_priority : Node M S d make C → Text → ℕ → ℤ → Reply M S d make C (Unit {0})
  update_priority n queue_name id priority =
      mapped (Node.update_priority M S d make C n queue_name id priority)
