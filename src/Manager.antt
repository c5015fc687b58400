-- ===== src/Manager.antt =====
-- pkg/queue/manager.go: the queues by name, loaded from the store when first asked for. The store is
-- shared: a queue takes it for the length of a call, and a queue in the map keeps what a call changed,
-- an error included. `none` is a run-time panic.
pub mod Laws
pub mod Persist
mod Tests
use doq.Common.{ℕ, Bool, true, false, List, [], ◌∷◌, Option, none, some, if◌then◌else◌, ◌>>=◌}
use doq.Common.Int.{ℤ}
use doq.Common.Text.{Text, text_lt}
use doq.Common.Dict
use doq.Errors.{Error, Result, ok, err}
use doq.Entity.{QueueConfig, QueueSettings}
use doq.Storage.{Store}
use doq.Memory.Interface.{MemoryQueue}
use doq.Queue.{Queue, Run, new_queue, notify}
use doq.Queue.Config.{Kind, QueueInfo, get_stats}
use doq.Queue.Config

module _ (M : MemoryQueue) (S : Store) (default_timeout : ℕ) (make : Kind → ℤ → M.State) where
  pub record QueueManager : Type 0 where
    pub queues : List (Text × Queue M S)
    pub store : S.State

  abbrev pub Call : Type 0 → Type 0
  Call A = Option (Result A × QueueManager)

  abbrev pub with_store : QueueManager → Queue M S → Queue M S
  with_store m q = record q { store = m.store }

  -- The manager after a call of queue `q`, which is in the map when `known`.
  abbrev pub keep : QueueManager → Text → Bool → Queue M S → QueueManager
  keep m queue_name known q = record m {
    queues = if known then Dict.insert m.queues queue_name q else m.queues;
    store = q.store;
  }

  unfoldable pub get_queue : QueueManager → Text → Call (Queue M S)
  get_queue m queue_name = elim (Dict.lookup m.queues queue_name) [
    | some q ↦ some (ok (with_store m q), m)
    | none ↦ (do
      r ← Config.load M S default_timeout make (new_queue M S m.store) queue_name
      elim r.0 [
        | ok _ ↦ some (ok r.1, keep m queue_name true r.1)
        | err e ↦ some (err Error.queue_not_found, m)
      ])
  ]

  -- A new queue goes into the map when its creation succeeded.
  abbrev pub keep_created : QueueManager → Text → Run M S (Unit {0}) → Call (Queue M S)
  keep_created m queue_name none = none
  keep_created m queue_name (some (ok _, q)) = some (ok q, keep m queue_name true q)
  keep_created m queue_name (some (err e, q)) = some (err e, keep m queue_name false q)

  -- An existing queue is given back as it is.
  unfoldable pub create_queue : QueueManager → QueueConfig → Call (Queue M S)
  create_queue m config = elim (Dict.lookup m.queues config.name) [
    | some q ↦ some (ok (with_store m q), m)
    | none ↦
        keep_created m config.name
          (Config.create_queue M S default_timeout make (new_queue M S m.store) config)
  ]

  -- The queue of the map, or one loaded from the store; an error of loading is ignored. Whether it
  -- was in the map comes with it.
  unfoldable pub known_or_loaded : QueueManager → Text → Option (Bool × Queue M S)
  known_or_loaded m queue_name = elim (Dict.lookup m.queues queue_name) [
    | some q ↦ some (true, with_store m q)
    | none ↦ (do
      r ← Config.load M S default_timeout make (new_queue M S m.store) queue_name
      some (false, r.1))
  ]

  unfoldable pub update_queue : QueueManager → Text → QueueSettings → Call (Unit {0})
  unfolding known_or_loaded
  update_queue m queue_name settings = do
    q ← known_or_loaded m queue_name
    r ← Config.update_queue M S default_timeout make q.1 settings
    elim r.0 [
      | ok _ ↦ some (ok tt, keep m queue_name true r.1)
      | err e ↦ some (err e, keep m queue_name q.0 r.1)
    ]

  unfoldable pub delete_queue : QueueManager → Text → Call (Unit {0})
  unfolding known_or_loaded
  delete_queue m queue_name = do
    q ← known_or_loaded m queue_name
    r ← Config.delete_queue M S default_timeout make q.1
    elim r.0 [
      | ok _ ↦
          some (ok tt, record m { queues = Dict.remove m.queues queue_name; store = r.1.store })
      | err e ↦ some (err e, keep m queue_name q.0 r.1)
    ]

  -- The queues of the map are gone even when the store fails.
  unfoldable pub reset : QueueManager → Call (Unit {0})
  reset m = elim (S.delete_all m.store) [
    | ok s ↦ some (ok tt, record { queues = []; store = s })
    | err e ↦ some (err e, record m { queues = [] })
  ]

  unfoldable pub stats_of : List (Text × Queue M S) → Option (List QueueInfo)
  stats_of [] = some []
  stats_of ((name, q) ∷ rest) = do
    info ← get_stats M S default_timeout make q
    infos ← stats_of rest
    some (info ∷ infos)

  -- sort.Slice by name, as an insertion sort; names do not repeat.
  unfoldable pub insert_by_name : QueueInfo → List QueueInfo → List QueueInfo
  insert_by_name i [] = i ∷ []
  insert_by_name i (j ∷ rest) =
      if text_lt j.config.name i.config.name then j ∷ insert_by_name i rest else i ∷ j ∷ rest

  unfoldable pub sort_by_name : List QueueInfo → List QueueInfo
  unfolding insert_by_name
  sort_by_name [] = []
  sort_by_name (i ∷ rest) = insert_by_name i (sort_by_name rest)

  unfoldable pub get_queues : QueueManager → Option (List QueueInfo)
  unfolding stats_of sort_by_name
  get_queues m = do infos ← stats_of m.queues; some (sort_by_name infos)
