-- ===== src/Lib.antt =====
-- DOQ is a message queue server whose queues are replicated by Raft. Producers enqueue messages and
-- consumers dequeue them; a dequeued message is in flight until it is acknowledged, refused (nack), or
-- its deadline passes, and a message whose deliveries reach a limit is dropped. A command goes through
-- the Raft log and is applied on every replica by the state machine (pkg/raft/fsm.go), which finds the
-- queue in the queue manager (pkg/queue/manager.go). A queue (pkg/queue/queue.go) keeps the ready
-- messages in a memory queue (pkg/queue/memory), the messages in flight in a delayed queue by their
-- deadlines, and the contents of all messages in the store (pkg/storage). A weighted fair queue picks
-- the group to serve by a tree of weights (pkg/weighted_avl).
--
-- The files:
--   Common         the names that the modules share: Boolean tests, the conditional, the option monad
--                  and `Returns` (Common/Tests), lists, integers, strings as lists of bytes, and
--                  association lists.
--   Errors, Entity pkg/errors and pkg/entity: error values, results, messages, settings.
--   Avl            pkg/weighted_avl/weighted_avl.go. Avl/Shape says which trees are balanced, Balance
--                  and Shrink are about the shape after insert and delete, Spec and Steps about the
--                  sorted list of entries, Kept and Entries about its agreement with the tree, and
--                  Sampling about the distribution of Sample.
--   Memory/PriorityQueue, Memory/DelayedQueue, Memory/WeightedQueue
--                  priority_memory_queue.go with container/heap, delayed_queue.go, and
--                  fair_weighted_queue.go of pkg/queue/memory; Memory/Interface is memory_queue.go.
--   Memory/RoundRobinQueue
--                  fair_round_robin_queue.go; Dequeue has what takes messages out, Scheduling the state
--                  that snapshots keep. Valid is the invariant of the tree, Kept, Enter, Enqueue and Slots what
--                  the calls keep of it, Walks, Advance and Pick about the walk of Dequeue.
--   Storage        pkg/storage/store.go as a record of operations, and badger_store.go, which fills it.
--                  Storage/Keys has the keys, Laws and DeleteQueue what the operations do.
--   Storage/Snapshot, Persist
--                  pkg/storage/snapshot.go, with the items of pkg/proto/doq.proto in Proto, and
--                  PersistSnapshot of badger_store.go; Queue/Persist, Manager/Persist and Fsm/Snapshot
--                  are the snapshots of the layers above, down to Restore of pkg/raft/fsm.go.
--   Queue          pkg/queue/queue.go over any memory queue and any store: the operations on messages;
--                  Queue/Config the settings and loading, Queue/Snapshot restoring from a snapshot;
--                  Queue/Enqueue, Dequeue, Delivery, Redelivery, Nack, Priority and Restore are about
--                  the ways of a message through a queue of the delayed type.
--   Manager, Fsm   pkg/queue/manager.go and the handlers of pkg/raft/fsm.go.
--   Node           the commands of pkg/raft/commands.go; Node/Leader is leader_configuration.go, and
--                  Node/Members has Join and Leave of node.go.
--   Api            pkg/grpc/errors.go and pkg/http/errors.go: the codes of errors; Api/Grpc has the
--                  handlers of pkg/grpc/server.go, Api/Grpc/Streams its streams, and Api/Http the
--                  handlers of messages.go, queues.go and cluster.go of pkg/http.
--   The Tests modules hold the data of the examples, and each result at a concrete input.
--
-- How the code is modelled. Each lock gives a call its object to itself, so that an operation is a
-- function from the state before to the state after. `none` is a run-time panic: an index out of
-- range, a nil dereference, a failed type assertion. Errors are values of `Result`. Seconds of Unix
-- time, priorities and counters are integers; a delivery count is taken modulo 2 ^ 32, the wait until a
-- head is due is an int64 of nanoseconds, and ids are below 2 ^ 64 where that matters. The clock and the seed are arguments, as the state machine passes them.
-- The loops of container/heap run on fuel, one round for each index on the path, and the theorems on
-- the heap say that the runs return. The rounds of one tick of expireAcks are bounded by a number that
-- the caller gives, since its handler is arbitrary. A walk in the tree of groups has as many rounds as
-- there are nodes, which is enough because a parent stands before its children in the store. The loop
-- of Restore has one round more than the stream has bytes, of which an item takes four at least.
--
-- Parameters: Badger and protobuf (a database by keys, and encodings), float64 (the operations that
-- CalculateWeight uses), hashicorp/raft with the gRPC client and the generator of ids (one record of
-- operations, Node.Cluster), the splitting of addresses, the handler of expired deadlines, and the choice of the memory queue's
-- constructor. What is assumed of the database is in Storage/Laws, of protobuf and the
-- sink of a snapshot in Storage/Snapshot/Laws, of Raft's membership in Node/Members/Laws.
--
-- Not modelled: the set-up of Raft and its transport, the announcement of the leader, the handlers that
-- copy statistics and the list of servers, the gRPC proxy and interceptors, HTTP routes and middleware,
-- metrics, logging, configuration and cluster discovery, the background goroutines and tickers.
pub mod Common
pub mod Errors
pub mod Entity
pub mod Proto
pub mod Avl
pub mod Memory
pub mod Storage
pub mod Queue
pub mod Manager
pub mod Fsm
pub mod Node
pub mod Api
