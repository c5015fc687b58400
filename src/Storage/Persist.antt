-- ===== src/Storage/Persist.antt =====
-- pkg/storage/badger_store.go: what a snapshot has of a queue, and writing it. The items are listed
-- first, with the error of one that cannot be read in its place, and then written one by one up to the
-- first error, as the code does with an item at a time.
use doq.Common.{List, [], ◌∷◌, ◌++◌, map, Option, none, some}
use doq.Common.Text.{Text}
use doq.Errors.{Error, Result, ok, err, ◌>>?◌}
use doq.Entity.{Message, QueueConfig, config_to_proto}
use doq.Proto.{SnapshotItem, UnackedMessage}
use doq.Storage.{Badger}
use doq.Storage.Keys.{get_messages_prefix}
use doq.Storage.Snapshot.{ItemCodec, SnapshotSink, WriteError, write_snapshot_item}

pub data PersistError : Type 0 where
  not_written : WriteError → PersistError
  not_read : Error → PersistError

abbrev pub message_item : Result Message → Result SnapshotItem
message_item (ok msg) = ok (SnapshotItem.message msg)
message_item (err e) = err e

module _ (b : Badger) where
  unfoldable pub message_items : b.Db → List Text → List (Result SnapshotItem)
  message_items txn [] = []
  message_items txn (key ∷ keys) =
      message_item (b.get txn key >>? b.unmarshal) ∷ message_items txn keys

  -- The configuration, the messages in flight, and the messages.
  unfoldable pub queue_items : b.Db → QueueConfig → List UnackedMessage → List (Result SnapshotItem)
  unfolding message_items
  queue_items txn config unacked =
      ok (SnapshotItem.queue (config_to_proto config))
      ∷ (map (λ u. ok (SnapshotItem.unacked_message u)) unacked
          ++ message_items txn (b.keys_with txn (get_messages_prefix config.name)))

module _ (p : ItemCodec) (k : SnapshotSink) where
  unfoldable pub persist_items : k.Sink → List (Result SnapshotItem) → k.Sink × Option PersistError
  persist_items sink [] = (sink, none)
  persist_items sink (err e ∷ items) = (sink, some (PersistError.not_read e))
  persist_items sink (ok item ∷ items) =
      let r = write_snapshot_item p k sink item in
      elim r.1 [
        | some e ↦ (r.0, some (PersistError.not_written e))
        | none ↦ persist_items r.0 items
      ]

  -- The next part is written if the last one was.
  abbrev pub and_then :
      k.Sink × Option PersistError
      → (k.Sink → k.Sink × Option PersistError)
      → k.Sink × Option PersistError
  and_then (sink, none) next = next sink
  and_then (sink, some e) next = (sink, some e)

  unfoldable pub persist_snapshot :
      (b : Badger)
      → k.Sink
      → b.Db
      → QueueConfig
      → List UnackedMessage
      → k.Sink × Option PersistError
  persist_snapshot b sink txn config unacked = persist_items sink (queue_items b txn config unacked)
