-- ===== src/Queue/Persist.antt =====
-- pkg/queue/queue.go: what a snapshot keeps of a queue, from its memory and from the store. The items
-- that the store's PersistSnapshot writes are a parameter.
use doq.Common.{List, [], ◌∷◌, map, Option, none, some, ◌>>=◌}
use doq.Errors.{Result, ok}
use doq.Entity.{QueueConfig}
use doq.Proto.{SnapshotItem, UnackedMessage, RoundRobinNode}
use doq.Storage.{Store}
use doq.Storage.Snapshot.{ItemCodec, SnapshotSink}
use doq.Storage.Persist.{PersistError, persist_items, and_then}
use doq.Memory.RoundRobinQueue.{RoundRobinQueue}
use doq.Memory.RoundRobinQueue.Scheduling.{
  SchedulingNode, scheduling_state, restore_scheduling_state,
}
use doq.Memory.Interface.{MemoryQueue}
use doq.Queue.{Queue}
use doq.Queue.Snapshot.{unacked_snapshot}

-- schedulingStater, for a type of memory queues.
pub record SchedulingStater (State : Type 0) : Type 0 where
  pub scheduling_state : State → Option (List SchedulingNode)
  pub restore_scheduling_state : State → List SchedulingNode → Option State

abbrev pub round_robin_stater : SchedulingStater RoundRobinQueue
round_robin_stater = record {
  scheduling_state = scheduling_state;
  restore_scheduling_state = restore_scheduling_state;
}

pub record SnapshotState : Type 0 where
  pub unacked : List UnackedMessage
  pub round_robin : Option (List RoundRobinNode)

abbrev pub to_proto_node : SchedulingNode → RoundRobinNode
to_proto_node n = record { path = n.path; children = n.children; current = n.current }

abbrev pub of_proto_node : RoundRobinNode → SchedulingNode
of_proto_node n = record { path = n.path; children = n.children; current = n.current }

abbrev pub round_robin_item : Option (List RoundRobinNode) → List (Result SnapshotItem)
round_robin_item none = []
round_robin_item (some nodes) = ok (SnapshotItem.round_robin_state nodes) ∷ []

-- A state that was not captured is empty.
abbrev pub or_empty : Option SnapshotState → SnapshotState
or_empty none = record { unacked = []; round_robin = none }
or_empty (some state) = state

module _ (M : MemoryQueue) (S : Store) (stater : Option (SchedulingStater M.State)) where
  unfoldable pub capture_snapshot_state : Queue M S → Option SnapshotState
  capture_snapshot_state q = elim stater [
    | none ↦ some (record { unacked = unacked_snapshot M S q; round_robin = none })
    | some s ↦ elim q.queue [
      | none ↦ some (record { unacked = unacked_snapshot M S q; round_robin = none })
      | some ready ↦ (do
        nodes ← s.scheduling_state ready
        some (record {
          unacked = unacked_snapshot M S q;
          round_robin = some (map to_proto_node nodes);
        }))
    ]
  ]

  unfoldable pub restore_round_robin_state : Queue M S → List RoundRobinNode → Option (Queue M S)
  restore_round_robin_state q nodes = elim stater [
    | none ↦ some q
    | some s ↦ elim q.queue [
      | none ↦ some q
      | some ready ↦ (do
        ready' ← s.restore_scheduling_state ready (map of_proto_node nodes)
        some (record q { queue = some ready' }))
    ]
  ]

module _ (M : MemoryQueue) (S : Store) (p : ItemCodec) (k : SnapshotSink) (Txn : Type 0)
    (stored : Txn → QueueConfig → List UnackedMessage → List (Result SnapshotItem)) where
  unfoldable pub persist_snapshot :
      k.Sink → Txn → Queue M S → Option SnapshotState → Option (k.Sink × Option PersistError)
  persist_snapshot sink txn q captured = do
    config ← q.config
    let state = or_empty captured
    some (
        and_then p k (persist_items p k sink (stored txn config state.unacked))
          λ sink'. persist_items p k sink' (round_robin_item state.round_robin))
