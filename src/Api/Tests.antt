-- ===== src/Api/Tests.antt =====
-- pkg/http and pkg/grpc: a follower whose leader has lost its quorum, and one whose leader answers.
use doq.Common.{◌≡◌, refl, Bool, true, false, [], some, ℕ, zero, suc}
use doq.Common.Text.{Text, bytes, text_eq}
use doq.Errors.{Error, Result, ok}
use doq.Entity.{Message}
use doq.Storage.{badger_store}
use doq.Storage.Tests.{name}
use doq.Storage.Tests.Table.{table}
use doq.Memory.Interface.{delayed_queue}
use doq.Queue.Tests.{make}
use doq.Manager.{QueueManager}
use doq.Fsm.{Command, named}
use doq.Node
use doq.Node.{Cluster, Node}
use doq.Api.Grpc
use doq.Api.Grpc.Laws.{no_content, reply, reply-forwarded}
use doq.Api.{http_code, grpc_code}
use doq.Api.Laws.{http_code-grpc_code}

http_code-grpc_code_example :
    (http_code (Error.status (grpc_code Error.no_raft_leader)) ≡ 500)
    × (grpc_code (Error.status (grpc_code Error.no_raft_leader)) ≡ grpc_code Error.no_raft_leader)
http_code-grpc_code_example = http_code-grpc_code Error.no_raft_leader

abbrev Manager : Type 0
Manager = QueueManager delayed_queue (badger_store table) 60 make

abbrev answer : Command → Message
answer (Command.enqueue q msg) = record no_content { group = msg.group }
answer _ = no_content

-- One node leads, whose state machine answers every command with an empty message.
abbrev cluster : Cluster Manager
cluster = record {
  State = Bool;
  is_leader = λ s. s;
  marshal = λ c. ok tt;
  apply = λ s m c. (ok (named []), s, m);
  call = λ s address c. (ok (answer c), s);
  generate_id = λ s. (1, s);
}

abbrev node : Bool → Node delayed_queue (badger_store table) 60 make cluster
node leads = record {
  node_id = bytes "b";
  leader_config = record {
    id = bytes "a";
    http_addr = [];
    raft_addr = [];
    grpc_addr = [];
    leader_http_addr = [];
    leader_grpc_addr = bytes "h:2";
    leader_raft_addr = [];
  };
  manager = record { queues = []; store = [] };
  cluster = leads;
}

enqueue_answers :
    (q : Text) (id : ℕ) (msg : Message) (r : Result Message)
    → some
        (Grpc.enqueue delayed_queue
          (badger_store table)
          60
          make
          cluster
          (node true)
          q
          (record msg { id = id })).0
      ≡ some r
    → ok (record no_content { group = msg.group }) ≡ r
unfolding Grpc.enqueue Node.enqueue Node.commit
enqueue_answers q zero msg r e = cc
enqueue_answers q (suc id) msg r e = cc

answers :
    (c : Command) (r : Result Message)
    → reply delayed_queue (badger_store table) 60 make cluster (node true) c ≡ some r
    → ok (answer c) ≡ r
unfolding reply Grpc.enqueue Grpc.get Grpc.delete Grpc.ack Grpc.nack Grpc.touch Grpc.update_priority
    Grpc.create_queue Grpc.update_queue Grpc.delete_queue Node.enqueue Node.get Node.delete Node.ack
    Node.nack Node.touch Node.update_priority Node.create_queue Node.update_queue Node.delete_queue
    Node.commit
answers (Command.enqueue q msg) r e = enqueue_answers q msg.id msg r e
answers (Command.get q id) r e = cc
answers (Command.delete q id) r e = cc
answers (Command.ack q id) r e = cc
answers (Command.nack q id priority metadata) r e = cc
answers (Command.touch q id) r e = cc
answers (Command.update_priority q id priority) r e = cc
answers (Command.create_queue config) r e = cc
answers (Command.update_queue q settings) r e = cc
answers (Command.delete_queue q) r e = cc
answers (Command.dequeue q auto_ack) r e = cc
answers (Command.ack_timeout q id) r e = cc

reply-forwarded_example :
    reply delayed_queue (badger_store table) 60 make cluster (node false) (Command.ack name 1)
    ≡ reply delayed_queue (badger_store table) 60 make cluster (node true) (Command.ack name 1)
unfolding text_eq Node.leader_grpc_addr
reply-forwarded_example =
    reply-forwarded delayed_queue (badger_store table) 60 make cluster (node false) refl
      (bytes "h:2") refl (node true) answers (Command.ack name 1)
