-- ===== src/Manager/Persist.antt =====
-- pkg/queue/manager.go: capturing and writing the snapshots of all queues, in the order of the list that
-- stands for the map.
use doq.Common.{List, [], ◌∷◌, Option, none, some, ◌>>=◌}
use doq.Common.Text.{Text}
use doq.Common.Dict
use doq.Errors.{Result}
use doq.Entity.{QueueConfig}
use doq.Proto.{SnapshotItem, UnackedMessage}
use doq.Storage.{Store}
use doq.Storage.Snapshot.{ItemCodec, SnapshotSink}
use doq.Storage.Persist.{PersistError}
use doq.Memory.Interface.{MemoryQueue}
use doq.Queue.{Queue}
use doq.Queue.Persist
use doq.Queue.Persist.{SchedulingStater, SnapshotState}

module _ (M : MemoryQueue) (S : Store) (stater : Option (SchedulingStater M.State)) where
  unfoldable pub capture_snapshot_state :
      List (Text × Queue M S) → Option (List (Text × SnapshotState))
  capture_snapshot_state [] = some []
  capture_snapshot_state ((name, q) ∷ rest) = do
    state ← Persist.capture_snapshot_state M S stater q
    states ← capture_snapshot_state rest
    some ((name, state) ∷ states)

module _ (M : MemoryQueue) (S : Store) (p : ItemCodec) (k : SnapshotSink) (Txn : Type 0)
    (stored : Txn → QueueConfig → List UnackedMessage → List (Result SnapshotItem)) where
  unfoldable pub persist_snapshot :
      k.Sink
      → Txn
      → List (Text × Queue M S)
      → List (Text × SnapshotState)
      → Option (k.Sink × Option PersistError)
  persist_snapshot sink txn [] states = some (sink, none)
  persist_snapshot sink txn ((name, q) ∷ rest) states = do
    r ← Persist.persist_snapshot M S p k Txn stored sink txn q (Dict.lookup states name)
    elim r.1 [ some e ↦ some (r.0, some e) | none ↦ persist_snapshot r.0 txn rest states ]
