-- ===== src/Fsm/Laws.antt =====
-- pkg/raft/fsm.go: commands on queues that do not exist.
use doq.Common.{ℕ, ◌≡◌, Option, none, some, []}
use doq.Common.Int.{ℤ, pos}
use doq.Common.Text.{Text}
use doq.Common.Dict
use doq.Errors.{Error, err}
use doq.Entity.{QueueSettings}
use doq.Storage.{Store}
use doq.Memory.Interface.{MemoryQueue}
use doq.Queue.{Queue, Run}
use doq.Queue.Config.{Kind}
use doq.Manager.{QueueManager}
use doq.Manager.Laws.{unknown_queue}
use doq.Fsm.{Command, FsmResponse, failed, apply, on_queue, respond}

-- The queue that a command needs, if it needs one.
unfoldable pub needed : Command → Option Text
needed (Command.enqueue name _) = some name
needed (Command.dequeue name _) = some name
needed (Command.get name _) = some name
needed (Command.delete name _) = some name
needed (Command.ack name _) = some name
needed (Command.nack name _ _ _) = some name
needed (Command.touch name _) = some name
needed (Command.ack_timeout name _) = some name
needed (Command.update_priority name _ _) = some name
needed (Command.create_queue _) = none
needed (Command.update_queue _ _) = none
needed (Command.delete_queue name) = some name

any_settings : QueueSettings
any_settings = record { strategy = []; max_unacked = pos 0; ack_timeout = 0; delivery_limit = 0 }

module _ (M : MemoryQueue) (S : Store) (d : ℕ) (make : Kind → ℤ → M.State)
    (m : QueueManager M S d make) (name : Text) (e : Error)
    (absent : Dict.lookup m.queues name ≡ none) (missing : S.load_queue m.store name ≡ err e) where
  on_queue-unknown :
      {A : Type 0} (op : Queue M S → Run M S A)
      → on_queue M S d make m name op ≡ some (err Error.queue_not_found, m)
  unfolding on_queue
  on_queue-unknown op =
      let (found, _, _) = unknown_queue M S d make m name any_settings e absent missing in rw found

  respond-unknown :
      {A : Type 0} (n : Text) (f : A → FsmResponse) (op : Queue M S → Run M S A)
      → some n ≡ some name
      → respond M S d make n f (on_queue M S d make m n op)
        ≡ some (failed name Error.queue_not_found, m)
  respond-unknown n f op p = let same : n ≡ name = cc in rw (same, on_queue-unknown op)

  -- A command on a queue that neither the map nor the store knows answers with "queue not found", and
  -- changes nothing. Creating a queue needs none; updating one is left out, since it panics.
  pub apply-unknown_queue :
      (c : Command) (index : ℕ) (now : ℤ)
      → needed c ≡ some name
      → apply M S d make m index now c ≡ some (failed name Error.queue_not_found, m)
  unfolding apply needed
  apply-unknown_queue (Command.create_queue c) index now p = cc
  apply-unknown_queue (Command.update_queue n settings) index now p = cc
  apply-unknown_queue (Command.delete_queue n) index now p =
      let same : n ≡ name = cc in
      let (_, deleted, _) = unknown_queue M S d make m name any_settings e absent missing in
      rw (same, deleted)
  apply-unknown_queue c index now p = respond-unknown _ _ _ p
