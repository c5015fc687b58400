-- ===== src/Fsm.antt =====
-- pkg/raft/fsm.go: the state machine that Raft replicates. A log entry is a command, applied with the
-- entry's index as the seed and its append time as the clock. The state is the queue manager. The
-- command that announces the leader's addresses is left out: it writes a record of its own, which no
-- other command reads. Logging and the wording of errors are left out. `none` is a run-time panic.
pub mod Laws
pub mod Snapshot
use doq.Common.{ℕ, Bool, true, List, [], Option, none, some, ◌>>=◌}
use doq.Common.Int.{ℤ, pos}
use doq.Common.Text.{Text}
use doq.Common.Dict
use doq.Errors.{Error, Result, ok, err}
use doq.Entity.{Message, QueueConfig, QueueSettings}
use doq.Storage.{Store}
use doq.Memory.Interface.{MemoryQueue}
use doq.Queue
use doq.Queue.{Queue, Run}
use doq.Queue.Config.{Kind}
use doq.Manager
use doq.Manager.{QueueManager, Call, get_queue, keep}

pub data Command : Type 0 where
  enqueue : Text → Message → Command
  dequeue : Text → Bool → Command
  get : Text → ℕ → Command
  delete : Text → ℕ → Command
  ack : Text → ℕ → Command
  nack : Text → ℕ → ℤ → Option (List (Text × Text)) → Command
  touch : Text → ℕ → Command
  ack_timeout : Text → ℕ → Command
  update_priority : Text → ℕ → ℤ → Command
  create_queue : QueueConfig → Command
  update_queue : Text → QueueSettings → Command
  delete_queue : Text → Command

pub record FsmResponse : Type 0 where
  pub queue_name : Text
  pub id : ℕ
  pub group : Text
  pub priority : ℤ
  pub content : Text
  pub metadata : Option (List (Text × Text))
  pub delivery_count : ℕ
  pub error : Option Error

-- A response with the name, and the zero values of the other fields.
abbrev pub named : Text → FsmResponse
named queue_name = record {
  queue_name = queue_name;
  id = 0;
  group = [];
  priority = pos 0;
  content = [];
  metadata = none;
  delivery_count = 0;
  error = none;
}

abbrev pub failed : Text → Error → FsmResponse
failed queue_name e = record (named queue_name) { error = some e }

abbrev pub message_response : Text → Message → FsmResponse
message_response queue_name msg = record {
  queue_name = queue_name;
  id = msg.id;
  group = msg.group;
  priority = msg.priority;
  content = msg.content;
  metadata = msg.metadata;
  delivery_count = msg.delivery_count;
  error = none;
}

abbrev pub id_response : Text → ℕ → FsmResponse
id_response queue_name id = record (named queue_name) { id = id }

module _ (M : MemoryQueue) (S : Store) (default_timeout : ℕ) (make : Kind → ℤ → M.State) where
  abbrev pub State : Type 0
  State = QueueManager M S default_timeout make

  -- The response to a call, by the response to its result.
  abbrev pub respond :
      {A : Type 0}
      → Text
      → (A → FsmResponse)
      → Call M S default_timeout make A
      → Option (FsmResponse × State)
  respond queue_name f none = none
  respond queue_name f (some (ok a, m)) = some (f a, m)
  respond queue_name f (some (err e, m)) = some (failed queue_name e, m)

  -- A call of a queue that the manager finds.
  unfoldable pub on_queue :
      {A : Type 0} → State → Text → (Queue M S → Run M S A) → Call M S default_timeout make A
  on_queue m queue_name op = do
    found ← get_queue M S default_timeout make m queue_name
    elim found.0 [
      | err e ↦ some (err e, found.1)
      | ok q ↦ (do r ← op q; some (r.0, keep M S default_timeout make found.1 queue_name true r.1))
    ]

  abbrev pub apply_enqueue : State → Text → Message → Option (FsmResponse × State)
  apply_enqueue m name msg =
      respond name (message_response name) (on_queue m name λ q. Queue.enqueue M S q msg)

  -- The log index seeds the pick of a weighted fair queue.
  abbrev pub apply_dequeue : State → Text → Bool → ℕ → ℤ → Option (FsmResponse × State)
  apply_dequeue m name auto_ack index now =
      respond name (message_response name)
        (on_queue m name λ q. Queue.dequeue M S q auto_ack index now)

  abbrev pub apply_get : State → Text → ℕ → Option (FsmResponse × State)
  apply_get m name id =
      respond name (message_response name) (on_queue m name λ q. Queue.get M S q id)

  abbrev pub apply_delete : State → Text → ℕ → Option (FsmResponse × State)
  apply_delete m name id =
      respond name (λ _. id_response name id) (on_queue m name λ q. Queue.delete M S q id)

  abbrev pub apply_ack : State → Text → ℕ → Option (FsmResponse × State)
  apply_ack m name id =
      respond name (λ _. id_response name id) (on_queue m name λ q. Queue.ack M S q id)

  abbrev pub apply_nack :
      State → Text → ℕ → ℤ → Option (List (Text × Text)) → Option (FsmResponse × State)
  apply_nack m name id priority metadata =
      respond name (λ _. record (id_response name id) { metadata = metadata })
        (on_queue m name λ q. Queue.nack M S q id priority metadata)

  abbrev pub apply_touch : State → Text → ℕ → ℤ → Option (FsmResponse × State)
  apply_touch m name id now =
      respond name (λ _. id_response name id) (on_queue m name λ q. Queue.touch M S q id now)

  abbrev pub apply_ack_timeout : State → Text → ℕ → Option (FsmResponse × State)
  apply_ack_timeout m name id =
      respond name (λ _. id_response name id) (on_queue m name λ q. Queue.ack_timeout M S q id)

  abbrev pub apply_update_priority : State → Text → ℕ → ℤ → Option (FsmResponse × State)
  apply_update_priority m name id priority =
      respond name (λ _. record (id_response name id) { priority = priority })
        (on_queue m name λ q. Queue.update_priority M S q id priority)

  abbrev pub apply_create_queue : State → QueueConfig → Option (FsmResponse × State)
  apply_create_queue m config =
      respond config.name (λ _. named config.name)
        (Manager.create_queue M S default_timeout make m config)

  abbrev pub apply_update_queue : State → Text → QueueSettings → Option (FsmResponse × State)
  apply_update_queue m name settings =
      respond name (λ _. named name) (Manager.update_queue M S default_timeout make m name settings)

  abbrev pub apply_delete_queue : State → Text → Option (FsmResponse × State)
  apply_delete_queue m name =
      respond name (λ _. named name) (Manager.delete_queue M S default_timeout make m name)

  unfoldable pub apply : State → ℕ → ℤ → Command → Option (FsmResponse × State)
  apply m index now (Command.enqueue name msg) = apply_enqueue m name msg
  apply m index now (Command.dequeue name auto_ack) = apply_dequeue m name auto_ack index now
  apply m index now (Command.get name id) = apply_get m name id
  apply m index now (Command.delete name id) = apply_delete m name id
  apply m index now (Command.ack name id) = apply_ack m name id
  apply m index now (Command.nack name id priority metadata) =
      apply_nack m name id priority metadata
  apply m index now (Command.touch name id) = apply_touch m name id now
  apply m index now (Command.ack_timeout name id) = apply_ack_timeout m name id
  apply m index now (Command.update_priority name id priority) =
      apply_update_priority m name id priority
  apply m index now (Command.create_queue config) = apply_create_queue m config
  apply m index now (Command.update_queue name settings) = apply_update_queue m name settings
  apply m index now (Command.delete_queue name) = apply_delete_queue m name
