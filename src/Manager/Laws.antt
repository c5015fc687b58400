-- ===== src/Manager/Laws.antt =====
-- pkg/queue/manager.go: finding, creating, updating and deleting queues.
use doq.Common.{ℕ, ◌≡◌, true, none, some, Option-cases, inl, inr}
use doq.Common.Int.{ℤ}
use doq.Common.Text.{Text, text_eq_refl}
use doq.Common.Dict
use doq.Common.Dict.{lookup-insert}
use doq.Errors.{Error, ok, err}
use doq.Entity.{QueueConfig, QueueSettings}
use doq.Storage.{Store}
use doq.Memory.Interface.{MemoryQueue}
use doq.Queue.{Queue, Run, new_queue}
use doq.Queue.Config.{Kind}
use doq.Queue.Config
use doq.Manager.{
  QueueManager, get_queue, create_queue, update_queue, delete_queue, known_or_loaded, keep_created,
  keep, with_store,
}

module _ (M : MemoryQueue) (S : Store) (d : ℕ) (make : Kind → ℤ → M.State) where
  load-missing :
      (q : Queue M S) (name : Text) (e : Error)
      → S.load_queue q.store name ≡ err e
      → Config.load M S d make q name ≡ some (err e, q)
  unfolding Config.load
  load-missing q name e missing = rw (missing, Config.load)

  -- For a name that neither the map nor the store knows, looking the queue up and deleting it fail with
  -- "queue not found" and change nothing, but updating it panics: the error of loading is ignored, and
  -- the queue has no configuration.
  pub unknown_queue :
      (m : QueueManager M S d make) (name : Text) (settings : QueueSettings) (e : Error)
      → Dict.lookup m.queues name ≡ none
      → S.load_queue m.store name ≡ err e
      → (get_queue M S d make m name ≡ some (err Error.queue_not_found, m))
        × (delete_queue M S d make m name ≡ some (err Error.queue_not_found, m))
        × (update_queue M S d make m name settings ≡ none)
  unfolding get_queue delete_queue update_queue known_or_loaded Config.delete_queue
      Config.update_queue
  unknown_queue m name settings e absent missing =
      let missed = load-missing (new_queue M S m.store) name e missing in
      (
        rw (absent, get_queue, missed),
        rw (absent, delete_queue, known_or_loaded, missed),
        rw (absent, update_queue, known_or_loaded, missed),
      )

  created-get_queue :
      (m m' : QueueManager M S d make) (name : Text) (q : Queue M S) (r : Run M S (Unit {0}))
      → keep_created M S d make m name r ≡ some (ok q, m')
      → get_queue M S d make m' name ≡ some (ok q, m')
  unfolding get_queue
  created-get_queue m m' name q none e = cc
  created-get_queue m m' name q (some (err x, q1)) e = cc
  created-get_queue m m' name q (some (ok u, q1)) e =
      let given : q1 ≡ q = cc in
      let same : keep M S d make m name true q1 ≡ m' = cc in
      let found = lookup-insert m.queues name q1 name in
      rw (← same, ← given) (rw (found, text_eq_refl name, get_queue))

  -- The queue that CreateQueue gives back is the one that GetQueue finds afterwards, whether it was
  -- new or there before; looking it up changes nothing more.
  pub create_queue-get_queue :
      (m m' : QueueManager M S d make) (config : QueueConfig) (q : Queue M S)
      → create_queue M S d make m config ≡ some (ok q, m')
      → get_queue M S d make m' config.name ≡ some (ok q, m')
  unfolding create_queue get_queue
  create_queue-get_queue m m' config q e = elim (Option-cases (Dict.lookup m.queues config.name)) [
    | inl absent ↦
        created-get_queue m m' config.name q
          (Config.create_queue M S d make (new_queue M S m.store) config)
          (rw (absent, create_queue) at e)
    | inr (q0, there) ↦
        let e' = rw (there, create_queue) at e in
        let same : m ≡ m' = cc in
        let given : with_store M S d make m q0 ≡ q = cc in
        rw (← same, ← given) (rw (there, get_queue))
  ]
