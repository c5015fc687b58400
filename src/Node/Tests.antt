-- ===== src/Node/Tests.antt =====
-- pkg/raft/commands.go: a follower with a queue that has nothing ready.
use doq.Common.{ℕ, ◌≡◌, refl, true, false, [], ◌∷◌, some}
use doq.Common.Int.{pos}
use doq.Common.Text.{bytes, text_eq}
use doq.Common.Dict
use doq.Errors.{Error, ok, err}
use doq.Storage.{badger_store}
use doq.Storage.Tests.{name}
use doq.Storage.Tests.Table.{table}
use doq.Memory.Interface.{delayed_queue}
use doq.Memory.DelayedQueue
use doq.Queue
use doq.Queue.Tests.{config, make, in_flight}
use doq.Manager.{QueueManager, get_queue, keep}
use doq.Fsm.{Command, apply, failed}
use doq.Node
use doq.Node.{Cluster, Node}
use doq.Node.Leader.{new_leader_config}
use doq.Node.Laws.{dequeue-idle}

abbrev pub Manager : Type 0
Manager = QueueManager delayed_queue (badger_store table) 60 make

-- No node leads, and none answers.
abbrev pub cluster : Cluster Manager
cluster = record {
  State = Unit {0};
  is_leader = λ s. false;
  marshal = λ c. ok tt;
  apply = λ s m c. (err Error.not_raft_leader, s, m);
  call = λ s address c. (err (Error.status 14), s);
  generate_id = λ s. (1, s);
}

abbrev manager : Manager
manager = record { queues = (name, in_flight) ∷ []; store = in_flight.store }

abbrev pub follower : Node delayed_queue (badger_store table) 60 make cluster
follower = record {
  node_id = bytes "b";
  leader_config = new_leader_config (bytes "a") (bytes "h:1") (bytes "h:2");
  manager = manager;
  cluster = tt;
}

dequeue-idle_example :
    (Node.dequeue delayed_queue (badger_store table) 60 make cluster follower name false (pos 9)
      ≡ some (err Error.empty_queue, follower))
    × ((index : ℕ)
        → apply delayed_queue
            (badger_store table)
            60
            make
            manager
            index
            (pos 9)
            (Command.dequeue name false)
          ≡ some (
            failed name Error.empty_queue,
            keep delayed_queue (badger_store table) 60 make manager name true in_flight,
          ))
unfolding Dict.lookup text_eq get_queue Queue.peek_ready DelayedQueue.peek_ready
dequeue-idle_example =
    dequeue-idle (badger_store table) 60 make cluster follower name false (pos 9) (pos 0) in_flight
      config manager refl refl refl
