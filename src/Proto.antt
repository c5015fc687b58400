-- ===== src/Proto.antt =====
-- pkg/proto/doq.proto: the items that a snapshot is made of. Their encoding is generated code.
use doq.Common.{ℕ, List, [], ◌∷◌, Option, none, some}
use doq.Common.Int.{ℤ}
use doq.Common.Text.{Text}
use doq.Entity.{Message, QueueConfig, config_to_proto}

pub record LeaderConfiguration : Type 0 where
  pub node_id : Text
  pub raft_addr : Text
  pub grpc_addr : Text
  pub http_addr : Text

-- A message dequeued and not yet acknowledged, with its deadline in seconds.
pub record UnackedMessage : Type 0 where
  pub id : ℕ
  pub ack_deadline : ℤ

-- The scheduling state of one inner node of a round-robin queue's group tree.
pub record RoundRobinNode : Type 0 where
  pub path : Text
  pub children : List Text
  pub current : Text

-- `unset` is an item that none of the cases holds.
pub data SnapshotItem : Type 0 where
  unset : SnapshotItem
  queue : QueueConfig → SnapshotItem
  message : Message → SnapshotItem
  leader_configuration : LeaderConfiguration → SnapshotItem
  unacked_message : UnackedMessage → SnapshotItem
  round_robin_state : List RoundRobinNode → SnapshotItem

-- A map as protobuf reads it: an empty one as nil.
abbrev pub read_map : Option (List (Text × Text)) → Option (List (Text × Text))
read_map none = none
read_map (some []) = none
read_map (some (entry ∷ entries)) = some (entry ∷ entries)

-- An item as protobuf reads it back: the strategy of a queue is a name of the enumeration and its limit
-- has 32 bits, and an empty map of metadata is nil.
abbrev pub as_read : SnapshotItem → SnapshotItem
as_read SnapshotItem.unset = SnapshotItem.unset
as_read (SnapshotItem.queue config) = SnapshotItem.queue (config_to_proto config)
as_read (SnapshotItem.message msg) =
    SnapshotItem.message (record msg { metadata = read_map msg.metadata })
as_read (SnapshotItem.leader_configuration c) = SnapshotItem.leader_configuration c
as_read (SnapshotItem.unacked_message u) = SnapshotItem.unacked_message u
as_read (SnapshotItem.round_robin_state nodes) = SnapshotItem.round_robin_state nodes
