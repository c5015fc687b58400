-- ===== src/Fsm/Snapshot/Written.antt =====
-- pkg/raft/fsm.go, pkg/queue: writing a snapshot writes the items of each queue in turn.
use doq.Common.{
  ◌≡◌, refl, ◌∙◌, List, [], ◌∷◌, ◌++◌, Option, none, some, ◌>>=◌, Option-cases, inl, inr,
}
use doq.Common.Text.{Text}
use doq.Common.Dict
use doq.Errors.{Result, ok, err}
use doq.Entity.{QueueConfig}
use doq.Proto.{SnapshotItem, UnackedMessage}
use doq.Storage.{Store}
use doq.Storage.Snapshot.{ItemCodec, SnapshotSink, write_snapshot_item}
use doq.Storage.Persist.{PersistError, persist_items, and_then}
use doq.Memory.Interface.{MemoryQueue}
use doq.Queue.{Queue}
use doq.Queue.Persist as QueuePersist
use doq.Queue.Persist.{SnapshotState, round_robin_item, or_empty}
use doq.Manager.Persist as ManagerPersist

module _ (p : ItemCodec) (k : SnapshotSink) where
  pub persist_items-append :
      (sink : k.Sink) (xs ys : List (Result SnapshotItem))
      → persist_items p k sink (xs ++ ys)
        ≡ and_then p k (persist_items p k sink xs) (λ s. persist_items p k s ys)
  unfolding persist_items
  persist_items-append sink [] ys = refl
  persist_items-append sink (err e ∷ xs) ys = refl
  persist_items-append sink (ok item ∷ xs) ys =
      elim (Option-cases (write_snapshot_item p k sink item).1) [
        | inl written ↦
            rw (written, persist_items)
              (persist_items-append (write_snapshot_item p k sink item).0 xs ys)
        | inr (e, failed) ↦ rw (failed, persist_items) refl
      ]

-- A part that is written only if the part before it was.
pub both_written :
    {Sink : Type 0} (r : Option (Sink × Option PersistError)) (sink' : Sink)
    (next : Sink → Option (Sink × Option PersistError))
    → (r >>= λ r. elim r.1 [ some e ↦ some (r.0, some e) | none ↦ next r.0 ]) ≡ some (sink', none)
    → (sink : Sink) × (r ≡ some (sink, none)) × (next sink ≡ some (sink', none))
both_written none sink' next e = cc
both_written (some (sink, none)) sink' next e = (sink, refl, e)
both_written (some (sink, some x)) sink' next e = cc

-- The items of each queue in turn, with the error of one that cannot be read in its place.
module _ (M : MemoryQueue) (S : Store)
    (stored : S.State → QueueConfig → List UnackedMessage → List (Result SnapshotItem)) where
  unfoldable pub queues_items :
      S.State
      → List (Text × Queue M S)
      → List (Text × SnapshotState)
      → Option (List (Result SnapshotItem))
  queues_items txn [] states = some []
  queues_items txn ((name, q) ∷ rest) states = do
    config ← q.config
    others ← queues_items txn rest states
    let state = or_empty (Dict.lookup states name)
    some ((stored txn config state.unacked ++ round_robin_item state.round_robin) ++ others)

  module _ (p : ItemCodec) (k : SnapshotSink) where
    pub persist_snapshot-queues_items :
        (sink sink' : k.Sink) (txn : S.State) (queues : List (Text × Queue M S))
        (states : List (Text × SnapshotState))
        → ManagerPersist.persist_snapshot M S p k S.State stored sink txn queues states
          ≡ some (sink', none)
        → (rs : List (Result SnapshotItem)) × (queues_items txn queues states ≡ some rs)
          × (persist_items p k sink rs ≡ (sink', none))
    unfolding ManagerPersist.persist_snapshot QueuePersist.persist_snapshot queues_items
        persist_items
    persist_snapshot-queues_items sink sink' txn [] states e = ([], refl, cc)
    persist_snapshot-queues_items sink sink' txn ((name, q) ∷ rest) states e =
        let (s, written, more) =
          both_written
            (QueuePersist.persist_snapshot M S p k S.State stored sink txn q
              (Dict.lookup states name))
            sink' (λ s. ManagerPersist.persist_snapshot M S p k S.State stored s txn rest states)
            e in
        let state = or_empty (Dict.lookup states name) in
        let (rs, listed, others) = persist_snapshot-queues_items s sink' txn rest states more in
        elim (Option-cases q.config) [
          | inl missing ↦ cc (rw (missing, QueuePersist.persist_snapshot) at written)
          | inr (config, conf) ↦
              let first = stored txn config state.unacked in
              let mine = first ++ round_robin_item state.round_robin in
              let w1 = rw (conf, QueuePersist.persist_snapshot) at written in
              let w2 : persist_items p k sink mine ≡ (s, none) =
                persist_items-append p k sink first (round_robin_item state.round_robin) ∙ cc in
              (
                mine ++ rs,
                rw (conf, listed) refl,
                persist_items-append p k sink mine rs ∙ rw w2 others,
              )
        ]
