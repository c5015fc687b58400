-- ===== src/Fsm/Snapshot.antt =====
-- pkg/raft/fsm.go: Snapshot, Persist and Restore. The transaction on the database is the store at that
-- time. Restore keeps a pointer to the queue whose items it is reading, here the name of that queue, and
-- a map that is nil before the first queue; a message before the first queue is a run-time panic.
mod Written
mod Items
pub mod Laws
mod Tests
use doq.Common.{
  ℕ, zero, suc, List, [], ◌∷◌, Option, none, some, true, ◌>>=◌, ◌==◌, if◌then◌else◌, length,
}
use doq.Common.Int.{ℤ}
use doq.Common.Text.{Text}
use doq.Common.Dict
use doq.Errors.{Error, Result, ok, err}
use doq.Entity.{Message, QueueConfig}
use doq.Proto.{SnapshotItem, UnackedMessage, LeaderConfiguration}
use doq.Storage.{Store}
use doq.Storage.Snapshot
use doq.Storage.Snapshot.{ItemCodec, SnapshotSink, ReadError, read_snapshot_item}
use doq.Storage.Persist.{PersistError, persist_items}
use doq.Memory.Interface.{MemoryQueue}
use doq.Queue.{Queue, Run}
use doq.Queue.Config.{Kind}
use doq.Queue.Snapshot.{enqueue_restored, restore_unacked}
use doq.Queue.Persist.{SchedulingStater, SnapshotState, restore_round_robin_state}
use doq.Manager
use doq.Manager.{QueueManager, with_store, keep}
use doq.Manager.Persist.{capture_snapshot_state, persist_snapshot}
use doq.Node.Leader.{Net, LeaderConfig, set}

-- The announced addresses, as a snapshot has them.
abbrev pub leader_item : LeaderConfig → SnapshotItem
leader_item c = SnapshotItem.leader_configuration (record {
  node_id = c.id;
  raft_addr = c.raft_addr;
  grpc_addr = c.grpc_addr;
  http_addr = c.http_addr;
})

unfoldable pub deadline_of : List (ℕ × ℤ) → ℕ → Option ℤ
deadline_of [] id = none
deadline_of ((i, deadline) ∷ rest) id = if i == id then some deadline else deadline_of rest id

pub data RestoreError : Type 0 where
  not_reset : Error → RestoreError
  not_read : ReadError → RestoreError
  unknown_item : RestoreError

module _ (M : MemoryQueue) (S : Store) (default_timeout : ℕ) (make : Kind → ℤ → M.State) where
  pub record Fsm : Type 0 where
    pub manager : QueueManager M S default_timeout make
    pub leader_config : LeaderConfig

  pub record FsmSnapshot : Type 0 where
    pub txn : S.State
    pub queue_states : List (Text × SnapshotState)

  unfoldable pub snapshot : Option (SchedulingStater M.State) → Fsm → Option FsmSnapshot
  snapshot stater f = do
    states ← capture_snapshot_state M S stater f.manager.queues
    some (record { txn = f.manager.store; queue_states = states })

  -- The queues and the leader's addresses are those at the time of writing.
  unfoldable pub persist :
      (p : ItemCodec) (k : SnapshotSink)
      → (S.State → QueueConfig → List UnackedMessage → List (Result SnapshotItem))
      → Fsm
      → FsmSnapshot
      → k.Sink
      → Option (k.Sink × Option PersistError)
  persist p k stored f s sink =
      let r = persist_items p k sink (ok (leader_item f.leader_config) ∷ []) in
      elim r.1 [
        | some e ↦ some (r.0, some e)
        | none ↦ persist_snapshot M S p k S.State stored r.0 s.txn f.manager.queues s.queue_states
      ]

  module _ (stater : Option (SchedulingStater M.State)) (net : Net) where
    pub record Progress : Type 0 where
      pub fsm : Fsm
      pub current : Option Text
      pub unacked : Option (List (ℕ × ℤ))

    abbrev pub with_manager : Fsm → QueueManager M S default_timeout make → Fsm
    with_manager f m = record f { manager = m }

    -- A call of the current queue.
    abbrev pub on_current : {A : Type 0} → Progress → (Queue M S → Run M S A) → Option Progress
    on_current r op = do
      name ← r.current
      q ← Dict.lookup r.fsm.manager.queues name
      s ← op (with_store M S default_timeout make r.fsm.manager q)
      some (record r {
        fsm = with_manager r.fsm (keep M S default_timeout make r.fsm.manager name true s.1);
      })

    abbrev pub restore_leader : Progress → LeaderConfiguration → Progress
    restore_leader r c = record r {
      fsm = record r.fsm {
        leader_config =
            (set net r.fsm.leader_config c.node_id c.raft_addr c.grpc_addr c.http_addr).0;
      };
    }

    abbrev pub name_of : {A : Type 0} → Text → Result A → Option Text
    name_of name (ok _) = some name
    name_of name (err _) = none

    abbrev pub restore_queue : Progress → QueueConfig → Option Progress
    restore_queue r config = do
      s ← Manager.create_queue M S default_timeout make r.fsm.manager config
      some (record {
        fsm = with_manager r.fsm s.1;
        current = name_of config.name s.0;
        unacked = some [];
      })

    abbrev pub restore_marker : Progress → UnackedMessage → Option Progress
    restore_marker r u = do
      unacked ← r.unacked
      some (record r { unacked = some ((u.id, u.ack_deadline) ∷ unacked) })

    abbrev pub marked : Option (List (ℕ × ℤ)) → ℕ → Option ℤ
    marked none id = none
    marked (some unacked) id = deadline_of unacked id

    abbrev pub restore_message : Progress → Message → Option Progress
    restore_message r msg = elim (marked r.unacked msg.id) [
      | some deadline ↦ on_current r λ q. restore_unacked M S q msg deadline
      | none ↦ on_current r λ q. enqueue_restored M S q msg
    ]

    abbrev pub run : Option (Queue M S) → Run M S (Unit {0})
    run none = none
    run (some q) = some (ok tt, q)

    -- One item, or the error of an item that none of the cases holds.
    unfoldable pub restore_item : Progress → SnapshotItem → Option (Progress × Option RestoreError)
    restore_item r SnapshotItem.unset = some (r, some RestoreError.unknown_item)
    restore_item r (SnapshotItem.leader_configuration c) = some (restore_leader r c, none)
    restore_item r (SnapshotItem.queue config) = do s ← restore_queue r config; some (s, none)
    restore_item r (SnapshotItem.unacked_message u) = do s ← restore_marker r u; some (s, none)
    restore_item r (SnapshotItem.round_robin_state nodes) = elim r.current [
      | none ↦ some (r, none)
      | some name ↦ (do
        s ← on_current r λ q. run (restore_round_robin_state M S stater q nodes)
        some (s, none))
    ]
    restore_item r (SnapshotItem.message msg) = do s ← restore_message r msg; some (s, none)

    -- The end of the stream before an item is the end of the snapshot.
    abbrev pub read_end : Fsm → ReadError → Fsm × Option RestoreError
    read_end f ReadError.end_of_file = (f, none)
    read_end f e = (f, some (RestoreError.not_read e))

    module _ (p : ItemCodec) where
      -- The loop over the items of a stream, each of which takes four bytes at least.
      unfoldable pub restore_loop : ℕ → Progress → Text → Option (Fsm × Option RestoreError)
      restore_loop zero r reader = none
      restore_loop (suc fuel) r reader =
          let item = read_snapshot_item p reader in
          elim item.0 [
            | Snapshot.err e ↦ some (read_end r.fsm e)
            | Snapshot.ok i ↦ (do
              s ← restore_item r i
              elim s.1 [ some e ↦ some (s.0.fsm, some e) | none ↦ restore_loop fuel s.0 item.1 ])
          ]

      -- The state before the loop is that of an empty manager.
      unfoldable pub restore : Fsm → Text → Option (Fsm × Option RestoreError)
      unfolding restore_loop
      restore f reader = do
        s ← Manager.reset M S default_timeout make f.manager
        let f' = with_manager f s.1
        elim s.0 [
          | err e ↦ some (f', some (RestoreError.not_reset e))
          | ok _ ↦
              restore_loop (suc (length reader))
                (record { fsm = f'; current = none; unacked = none }) reader
        ]
