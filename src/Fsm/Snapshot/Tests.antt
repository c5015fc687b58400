-- ===== src/Fsm/Snapshot/Tests.antt =====
-- pkg/raft/fsm.go: the snapshot of a node with one queue and one message, restored.
use doq.Common.{
  ℕ, zero, suc, ◌<◌, ◌^◌, ◌≡◌, refl, ap, List, [], ◌∷◌, map, Option, none, some, arith, length,
}
use native.Mathlib.Decide.{ℕ_discrete}
use doq.Common.Int.{ℤ, pos}
use doq.Common.Text.{Text, bytes, text_eq}
use doq.Proto.{SnapshotItem, UnackedMessage, as_read}
use doq.Entity.{Message, config_to_proto}
use doq.Storage.Snapshot.{ItemCodec, write_snapshot_item, put_uint32}
use doq.Storage.Tests.{name, delivered}
use doq.Queue.Tests.{config, make, in_flight}
use doq.Node.Leader.{LeaderConfig, Net}
use doq.Fsm.Snapshot.{leader_item, Fsm, FsmSnapshot, persist, restore}
use doq.Fsm.Snapshot.Items.{Parts}
use doq.Fsm.Snapshot.Laws.{restore_items, restore-persist}
use doq.Storage.{badger_store, delete_all}
use doq.Storage.Persist.{persist_items, queue_items}
use doq.Manager.Persist as ManagerPersist
use doq.Queue.Persist as QueuePersist
use doq.Storage.Keys.{get_messages_prefix, get_messages_key, uint64_to_bytes}
use doq.Common.Dict
use doq.Storage.Tests.Table.{table}
use doq.Storage.Snapshot.Laws.{IsLawful}
use doq.Storage.Snapshot.Tests.{buffer, buffer-KeepsWrites}
use doq.Memory.Interface.{delayed_queue}
use doq.Manager.{QueueManager, reset}

abbrev List-Discrete : {A : Type 0} → Discrete A → Discrete (List A)
List-Discrete d [] [] = yes refl
List-Discrete d [] (y ∷ ys) = no λ e. cc
List-Discrete d (x ∷ xs) [] = no λ e. cc
List-Discrete d (x ∷ xs) (y ∷ ys) =
    let rest = List-Discrete d xs ys in
    elim (d x y) [
      | no differs ↦ no λ e. differs (cc)
      | yes same ↦ elim rest [ no differs ↦ no λ e. differs (cc) | yes same' ↦ yes (cc) ]
    ]

abbrev ℤ-Discrete : Discrete ℤ
ℤ-Discrete = hlevel (ℕ_discrete)

abbrev Message-Discrete : Discrete Message
Message-Discrete = hlevel (ℕ_discrete, ℤ-Discrete, List-Discrete)

abbrev SnapshotItem-Discrete : Discrete SnapshotItem
SnapshotItem-Discrete = hlevel (ℕ_discrete, ℤ-Discrete, List-Discrete, Message-Discrete)

abbrev next : Option ℕ → Option ℕ
next none = none
next (some n) = some (suc n)

abbrev here : {i j : SnapshotItem} → Dec (i ≡ j) → Option ℕ → Option ℕ
here (yes _) later = some 0
here (no _) later = next later

abbrev position : List SnapshotItem → SnapshotItem → Option ℕ
position [] i = none
position (j ∷ known) i = here (SnapshotItem-Discrete i j) (position known i)

abbrev item_at : List SnapshotItem → ℕ → Option SnapshotItem
item_at [] n = none
item_at (j ∷ known) zero = some j
item_at (j ∷ known) (suc n) = item_at known n

-- An encoding that knows some items, by their number.
abbrev encode : Option ℕ → Option Text
encode none = none
encode (some n) = some (n ∷ [])

abbrev reading : Option SnapshotItem → Option SnapshotItem
reading none = none
reading (some i) = some (as_read i)

abbrev decode : List SnapshotItem → Text → Option SnapshotItem
decode known [] = none
decode known (n ∷ rest) = reading (item_at known n)

abbrev codec : List SnapshotItem → ItemCodec
codec known = record { marshal = λ i. encode (position known i); unmarshal = decode known }

item_at-here :
    (known : List SnapshotItem) (i j : SnapshotItem) (d : Dec (i ≡ j)) (later : Option ℕ) (n : ℕ)
    → here d later ≡ some n
    → ((m : ℕ) → later ≡ some m → item_at known m ≡ some i)
    → item_at (j ∷ known) n ≡ some i
item_at-here known i j (yes same) later zero e rest = cc
item_at-here known i j (yes same) later (suc n) e rest = cc
item_at-here known i j (no differs) none n e rest = cc
item_at-here known i j (no differs) (some m) zero e rest = cc
item_at-here known i j (no differs) (some m) (suc n) e rest = rest n (ap (λ k. k) (cc))

item_at-position :
    (known : List SnapshotItem) (i : SnapshotItem) (n : ℕ)
    → position known i ≡ some n
    → item_at known n ≡ some i
item_at-position [] i n e = cc
item_at-position (j ∷ known) i n e =
    item_at-here known i j (SnapshotItem-Discrete i j) (position known i) n e
      (item_at-position known i)

decoded :
    (known : List SnapshotItem) (i : SnapshotItem) (content : Text) (found : Option ℕ)
    → position known i ≡ found
    → encode found ≡ some content
    → (decode known content ≡ some (as_read i)) × (length content < 2 ^ 31)
decoded known i content none p e = cc
decoded known i content (some n) p e =
    let same : n ∷ [] ≡ content = cc in
    rw (← same) (ap reading (item_at-position known i n p), omega arith)

codec-IsLawful : (known : List SnapshotItem) → IsLawful (codec known)
codec-IsLawful known = record {
  decoded = λ i content e. decoded known i content (position known i) refl e;
}

abbrev marker : UnackedMessage
marker = record { id = 1; ack_deadline = pos 8 }

abbrev leader : LeaderConfig
leader = record {
  id = bytes "a";
  http_addr = bytes "h:3";
  raft_addr = bytes "h:1";
  grpc_addr = bytes "h:2";
  leader_http_addr = bytes "h:3";
  leader_grpc_addr = bytes "h:2";
  leader_raft_addr = bytes "h:1";
}

abbrev items : List SnapshotItem
items =
    leader_item leader
    ∷ SnapshotItem.queue (config_to_proto config)
    ∷ SnapshotItem.unacked_message marker
    ∷ SnapshotItem.message delivered
    ∷ []

abbrev net : Net
net = record { split_host_port = λ a. none; join_host_port = λ a b. a }

abbrev node : Fsm delayed_queue (badger_store table) 60 make
node = record {
  manager = record { queues = (name, in_flight) ∷ []; store = in_flight.store };
  leader_config = leader;
}

abbrev captured : FsmSnapshot delayed_queue (badger_store table) 60 make
captured = record {
  txn = in_flight.store;
  queue_states = (name, record { unacked = marker ∷ []; round_robin = none }) ∷ [];
}

abbrev frames : Text
frames = 1 ∷ 0 ∷ 0 ∷ 0 ∷ 0 ∷ 1 ∷ 0 ∷ 0 ∷ 0 ∷ 1 ∷ 1 ∷ 0 ∷ 0 ∷ 0 ∷ 2 ∷ 1 ∷ 0 ∷ 0 ∷ 0 ∷ 3 ∷ []

abbrev empty : QueueManager delayed_queue (badger_store table) 60 make
empty = record { queues = []; store = [] }

restore-persist_example :
    (others : List SnapshotItem) × Parts table delayed_queue captured.txn node.manager.queues
      captured.queue_states others
    × (restore delayed_queue (badger_store table) 60 make none net (codec items) node frames
        ≡ restore_items delayed_queue
            (badger_store table)
            60
            make
            none
            net
            (record { fsm = record node { manager = empty }; current = none; unacked = none })
            (leader_item leader ∷ map as_read others))
unfolding persist persist_items write_snapshot_item ℕ_discrete ManagerPersist.persist_snapshot
    QueuePersist.persist_snapshot queue_items text_eq Dict.lookup get_messages_prefix
    get_messages_key uint64_to_bytes put_uint32 reset delete_all
restore-persist_example =
    restore-persist delayed_queue table 60 make none net (codec items) (codec-IsLawful items) buffer
      (λ s. s) buffer-KeepsWrites node node captured [] frames empty refl refl refl
