-- ===== src/Node.antt =====
-- pkg/raft/commands.go: the commands of a node. The leader puts a command into the Raft log, which every
-- replica applies; another node hands the request to the leader over gRPC. hashicorp/raft, the gRPC
-- client, protobuf and the generator of ids are parameters; contexts and logging are left out. `none` is
-- a run-time panic. pkg/raft/leader_configuration.go is in Leader, the membership of node.go in Members.
pub mod Leader
pub mod Members
pub mod Laws
pub mod Tests
use doq.Common.{
  ℕ, suc, ◌+◌, ◌-◌, ◌%◌, ◌^◌, Bool, true, false, not, ◌||◌, List, [], Option, none, some,
  if◌then◌else◌, ◌>>=◌, ◌==◌,
}
use doq.Common.Int.{ℤ, pos, negsuc}
use doq.Common.Text.{Text, bytes, text_eq}
use doq.Errors.{Error, Result, ok, err}
use doq.Entity.{Message, QueueConfig, QueueSettings, to_proto}
use doq.Storage.{Store}
use doq.Memory.Interface.{MemoryQueue}
use doq.Queue
use doq.Queue.{Queue}
use doq.Queue.Config.{Kind}
use doq.Manager
use doq.Manager.{QueueManager, get_queue}
use doq.Fsm.{Command, FsmResponse}
use doq.Node.Leader.{LeaderConfig}

-- What a node stands on, with the state of all of it. `apply` puts a command into the log and gives what
-- the local state machine answers, or the error of the log; `call` is the request of that command to the
-- node at an address, with the message of the reply.
pub record Cluster (Manager : Type 0) : Type 1 where
  pub State : Type 0
  pub is_leader : State → Bool
  pub marshal : Command → Result (Unit {0})
  pub apply : State → Manager → Command → Result FsmResponse × State × Manager
  pub call : State → Text → Command → Result Message × State
  pub generate_id : State → ℕ × State

module _ (M : MemoryQueue) (S : Store) (default_timeout : ℕ) (make : Kind → ℤ → M.State)
    (C : Cluster (QueueManager M S default_timeout make)) where
  pub record Node : Type 0 where
    pub node_id : Text
    pub leader_config : LeaderConfig
    pub manager : QueueManager M S default_timeout make
    pub cluster : C.State

  abbrev pub Reply : Type 0 → Type 0
  Reply A = Result A × Node

  -- The address of the leader, unless there is none, or it is this node, which does not lead.
  unfoldable pub leader_grpc_addr : Node → Result Text
  leader_grpc_addr n =
      if text_eq n.leader_config.leader_grpc_addr [] || text_eq n.leader_config.id n.node_id
      then err Error.no_raft_leader
      else ok n.leader_config.leader_grpc_addr

  abbrev pub call_leader : Node → Command → Result Text → Reply Message
  call_leader n command (err e) = (err e, n)
  call_leader n command (ok address) =
      let r = C.call n.cluster address command in (r.0, record n { cluster = r.1 })

  -- The request of a node that does not lead.
  unfoldable pub forward : Node → Command → Reply Message
  forward n command = call_leader n command (leader_grpc_addr n)

  -- The error of a response is the error of the call.
  abbrev pub answer : Option Error → FsmResponse → Result FsmResponse
  answer none response = ok response
  answer (some e) response = err e

  abbrev pub answered : Result FsmResponse → Result FsmResponse
  answered (err e) = err e
  answered (ok response) = answer response.error response

  abbrev pub apply_marshalled : Node → Command → Result (Unit {0}) → Reply FsmResponse
  apply_marshalled n command (err e) = (err e, n)
  apply_marshalled n command (ok _) =
      let r = C.apply n.cluster n.manager command in
      (answered r.0, record n { cluster = r.1; manager = r.2 })

  -- The command of the leader.
  unfoldable pub commit : Node → Command → Reply FsmResponse
  commit n command = apply_marshalled n command (C.marshal command)

  abbrev pub on_ok : {A B : Type 0} → (A → B) → Reply A → Reply B
  on_ok f (ok a, n) = (ok (f a), n)
  on_ok f (err e, n) = (err e, n)

  -- The message of a response, and that of a reply, which the node copies field by field.
  abbrev pub response_message : FsmResponse → Message
  response_message r = record {
    group = r.group;
    id = r.id;
    priority = r.priority;
    content = r.content;
    metadata = r.metadata;
    delivery_count = r.delivery_count;
  }

  -- The commands that answer with a message, and those that answer with success alone.
  abbrev pub submit_for_message : Node → Command → Reply Message
  submit_for_message n command =
      if C.is_leader n.cluster then on_ok response_message (commit n command) else forward n command

  abbrev pub submit : Node → Command → Reply (Unit {0})
  submit n command =
      if C.is_leader n.cluster
      then on_ok (λ _. tt) (commit n command)
      else on_ok (λ _. tt) (forward n command)

  -- The id of a message: the one given, or a new one for 0.
  abbrev pub with_id : Node → ℕ → ℕ × Node
  with_id n id =
      if id == 0
      then (let r = C.generate_id n.cluster in (r.0, record n { cluster = r.1 }))
      else (id, n)

  -- The answer carries the group that the caller gave.
  unfoldable pub enqueue : Node → Text → Message → Reply Message
  enqueue n queue_name msg =
      let grouped = λ (m : Message). record m { group = msg.group } in
      if C.is_leader n.cluster
      then (let r = with_id n msg.id in
          on_ok (λ response. grouped (response_message response))
            (commit r.1 (Command.enqueue queue_name (record msg { id = r.0 }))))
      else on_ok grouped (forward n (Command.enqueue queue_name msg))

  abbrev pub is_ready : Result (Queue M S) → ℤ → Option (Bool × ℤ)
  is_ready (err e) now = some (false, pos 0)
  is_ready (ok q) now = Queue.peek_ready M S q now

  unfoldable pub peek_ready : Node → Text → ℤ → Option ((Bool × ℤ) × Node)
  peek_ready n queue_name now = do
    found ← get_queue M S default_timeout make n.manager queue_name
    ready ← is_ready found.0 now
    some (ready, record n { manager = found.1 })

  -- Whether the local queue is there, and has nothing to deliver.
  abbrev pub is_idle : Result (Queue M S) → ℤ → Option Bool
  is_idle (err e) now = some false
  is_idle (ok q) now = do ready ← Queue.peek_ready M S q now; some (not ready.0)

  unfoldable pub dequeue : Node → Text → Bool → ℤ → Option (Reply Message)
  dequeue n queue_name ack now = do
    found ← get_queue M S default_timeout make n.manager queue_name
    idle ← is_idle found.0 now
    let n' = record n { manager = found.1 }
    some (
        if idle
        then (err Error.empty_queue, n')
        else submit_for_message n' (Command.dequeue queue_name ack))

  unfoldable pub get : Node → Text → ℕ → Reply Message
  get n queue_name id = submit_for_message n (Command.get queue_name id)

  unfoldable pub delete : Node → Text → ℕ → Reply (Unit {0})
  delete n queue_name id = submit n (Command.delete queue_name id)

  unfoldable pub ack : Node → Text → ℕ → Reply (Unit {0})
  ack n queue_name id = submit n (Command.ack queue_name id)

  unfoldable pub nack : Node → Text → ℕ → ℤ → Option (List (Text × Text)) → Reply (Unit {0})
  nack n queue_name id priority metadata = submit n (Command.nack queue_name id priority metadata)

  unfoldable pub touch : Node → Text → ℕ → Reply (Unit {0})
  touch n queue_name id = submit n (Command.touch queue_name id)

  unfoldable pub update_priority : Node → Text → ℕ → ℤ → Reply (Unit {0})
  update_priority n queue_name id priority =
      submit n (Command.update_priority queue_name id priority)

  unfoldable pub create_queue : Node → Text → Text → QueueSettings → Reply (Unit {0})
  create_queue n queue_type queue_name settings = submit n (
      Command.create_queue
        (record { name = queue_name; queue_type = queue_type; settings = to_proto settings }))

  unfoldable pub update_queue : Node → Text → QueueSettings → Reply (Unit {0})
  update_queue n queue_name settings =
      submit n (Command.update_queue queue_name (to_proto settings))

  unfoldable pub delete_queue : Node → Text → Reply (Unit {0})
  delete_queue n queue_name = submit n (Command.delete_queue queue_name)

  -- An error of the state machine is logged: the message has left the queue of those in flight.
  abbrev pub proposed : Result FsmResponse → Result (Unit {0})
  proposed (ok _) = ok tt
  proposed (err e) = err e

  abbrev pub propose : Node → Command → Result (Unit {0}) → Reply (Unit {0})
  propose n command (err e) = (err e, n)
  propose n command (ok _) =
      let r = C.apply n.cluster n.manager command in
      (proposed r.0, record n { cluster = r.1; manager = r.2 })

  -- The handler of expired deadlines. Raft is there: a node without it does not lead.
  unfoldable pub propose_ack_timeout : Node → Text → ℕ → Reply (Unit {0})
  propose_ack_timeout n queue_name id =
      let command = Command.ack_timeout queue_name id in
      if C.is_leader n.cluster
      then propose n command (C.marshal command)
      else (err Error.not_raft_leader, n)
