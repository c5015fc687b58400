-- ===== src/Storage/Snapshot/Tests.antt =====
-- pkg/storage/snapshot.go: the properties over a buffer, with an encoding that knows one item.
use doq.Common.{◌^◌, ◌<◌, ◌≡◌, refl, ◌++◌, Option, none, some, arith, take, length}
use doq.Common.Text.{Text, bytes}
use doq.Proto.{SnapshotItem, as_read}
use doq.Storage.Snapshot.{ItemCodec, SnapshotSink, read_snapshot_item, put_uint32}
use doq.Storage.Snapshot.Laws.{IsLawful, KeepsWrites, FailsMidway, frame, read_snapshot_item-cut}

abbrev encoding : SnapshotItem → Option Text
encoding SnapshotItem.unset = some (bytes "xyz")
encoding _ = none

abbrev pub codec : ItemCodec
codec = record { marshal = encoding; unmarshal = λ content. some SnapshotItem.unset }

decoded_unset :
    (item : SnapshotItem) (content : Text)
    → encoding item ≡ some content
    → (some SnapshotItem.unset ≡ some (as_read item)) × (length content < 2 ^ 31)
decoded_unset SnapshotItem.unset content e =
    (refl, let t : bytes "xyz" ≡ content = cc in rw (← t) (omega arith))
decoded_unset (SnapshotItem.queue c) content e = cc
decoded_unset (SnapshotItem.message m) content e = cc
decoded_unset (SnapshotItem.leader_configuration l) content e = cc
decoded_unset (SnapshotItem.unacked_message u) content e = cc
decoded_unset (SnapshotItem.round_robin_state s) content e = cc

pub codec-IsLawful : IsLawful codec
codec-IsLawful = record { decoded = decoded_unset }

abbrev pub buffer : SnapshotSink
buffer = record { Sink = Text; write = λ s b. some (s ++ b) }

pub buffer-KeepsWrites : KeepsWrites buffer (λ s. s)
buffer-KeepsWrites = record { appended = λ s s' b e. cc }

read_snapshot_item-cut_example :
    FailsMidway (read_snapshot_item codec (take 6 (frame (bytes "xyz")))).0
unfolding frame put_uint32
read_snapshot_item-cut_example =
    read_snapshot_item-cut codec codec-IsLawful SnapshotItem.unset (bytes "xyz") 6 refl
      (omega arith) (omega arith)
