-- ===== src/Storage/Snapshot.antt =====
-- pkg/storage/snapshot.go: the items of a snapshot on a stream of bytes, each behind its length.
-- Protobuf and the sink are parameters. A reader is the list of the bytes that are left, and
-- io.ReadFull takes a number of them.
pub mod Laws
pub mod Tests
use doq.Common.{
  ℕ, zero, suc, ◌+◌, ◌*◌, ◌-◌, ◌/◌, ◌%◌, ◌^◌, List, [], ◌∷◌, Option, none, some, length, ◌==◌,
  if◌then◌else◌, ltb, take,
}
use doq.Common.Text.{Text}
use doq.Entity.{Message, QueueConfig}
use doq.Proto.{SnapshotItem}

-- proto.Marshal and proto.Unmarshal of a SnapshotItem.
pub record ItemCodec : Type 0 where
  pub marshal : SnapshotItem → Option Text
  pub unmarshal : Text → Option SnapshotItem

-- raft.SnapshotSink: a write may fail.
pub record SnapshotSink : Type 1 where
  pub Sink : Type 0
  pub write : Sink → Text → Option Sink

pub data WriteError : Type 0 where
  marshal_failed : WriteError
  length_failed : WriteError
  data_failed : WriteError

-- binary.LittleEndian.PutUint32
unfoldable pub put_uint32 : ℕ → Text
put_uint32 u = (u % 256) ∷ (u / 2 ^ 8 % 256) ∷ (u / 2 ^ 16 % 256) ∷ (u / 2 ^ 24 % 256) ∷ []

-- binary.LittleEndian.Uint32, of four bytes.
unfoldable pub uint32 : Text → ℕ
uint32 (a ∷ b ∷ c ∷ d ∷ []) = a + b * 2 ^ 8 + c * 2 ^ 16 + d * 2 ^ 24
uint32 _ = 0

module _ (p : ItemCodec) (k : SnapshotSink) where
  -- What is written stays written when a later write fails.
  unfoldable pub write_snapshot_item : k.Sink → SnapshotItem → k.Sink × Option WriteError
  write_snapshot_item sink item = elim (p.marshal item) [
    | none ↦ (sink, some WriteError.marshal_failed)
    | some content ↦ elim (k.write sink (put_uint32 (length content % 2 ^ 32))) [
      | none ↦ (sink, some WriteError.length_failed)
      | some sink' ↦ elim (k.write sink' content) [
        | none ↦ (sink', some WriteError.data_failed)
        | some sink'' ↦ (sink'', none)
      ]
    ]
  ]

pub data ReadError : Type 0 where
  end_of_file : ReadError
  unexpected_end : ReadError
  no_length : ReadError
  no_content : ReadError
  unmarshal_failed : ReadError
  no_item : ReadError → ReadError
  incorrect_type : ReadError

pub data Read {ℓ} (A : Type ℓ) : Type ℓ where
  ok : A → Read A
  err : ReadError → Read A

unfoldable pub skip : ℕ → Text → Text
skip zero bytes = bytes
skip (suc n) [] = []
skip (suc n) (b ∷ bytes) = skip n bytes

-- io.ReadFull: the bytes, and those that are left. The end of the file is the error only where not a
-- byte was read.
unfoldable pub read_full : ℕ → Text → Read Text × Text
unfolding skip
read_full n bytes =
    if ltb (length bytes) n
    then (if length bytes == 0 then err ReadError.end_of_file else err ReadError.unexpected_end, [])
    else (ok (take n bytes), skip n bytes)

-- The errors that keep their identity: io.EOF before the length alone.
abbrev pub length_error : ReadError → ReadError
length_error ReadError.end_of_file = ReadError.end_of_file
length_error _ = ReadError.no_length

module _ (p : ItemCodec) where
  abbrev pub decode : Read Text × Text → Read SnapshotItem × Text
  decode (err _, rest) = (err ReadError.no_content, rest)
  decode (ok content, rest) = (
    elim (p.unmarshal content) [ none ↦ err ReadError.unmarshal_failed | some item ↦ ok item ],
    rest,
  )

  abbrev pub read_content : Read Text × Text → Read SnapshotItem × Text
  read_content (err e, rest) = (err (length_error e), rest)
  read_content (ok prefix, rest) = decode (read_full (uint32 prefix) rest)

  unfoldable pub read_snapshot_item : Text → Read SnapshotItem × Text
  read_snapshot_item reader = read_content (read_full 4 reader)

  abbrev pub queue_of : Read SnapshotItem → Read QueueConfig
  queue_of (err e) = err (ReadError.no_item e)
  queue_of (ok (SnapshotItem.queue config)) = ok config
  queue_of (ok _) = err ReadError.incorrect_type

  abbrev pub message_of : Read SnapshotItem → Read Message
  message_of (err e) = err (ReadError.no_item e)
  message_of (ok (SnapshotItem.message message)) = ok message
  message_of (ok _) = err ReadError.incorrect_type

  unfoldable pub read_snapshot_queue_item : Text → Read QueueConfig × Text
  read_snapshot_queue_item reader = let r = read_snapshot_item reader in (queue_of r.0, r.1)

  unfoldable pub read_snapshot_message_item : Text → Read Message × Text
  read_snapshot_message_item reader = let r = read_snapshot_item reader in (message_of r.0, r.1)
