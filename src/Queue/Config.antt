-- ===== src/Queue/Config.antt =====
-- pkg/queue/queue.go: creating, updating, deleting and loading a queue, and its counts.
pub mod Laws
pub mod Update
use doq.Common.{
  ℕ, ◌+◌, ◌-◌, Bool, true, false, not, ◌&&◌, ◌||◌, List, [], map, Option, none, some, ltb, leb,
  ◌==◌, if◌then◌else◌, ◌>>=◌,
}
use doq.Common.Int.{ℤ, pos, eqb_ℤ}
use doq.Common.Text.{Text, bytes, text_eq}
use doq.Errors.{Error, Result, ok, err, ◌>>?◌}
use doq.Entity.{QueueConfig, QueueSettings}
use doq.Storage.{Store}
use doq.Memory.PriorityQueue.{size}
use doq.Memory.Interface.{MemoryQueue}
use doq.Queue.{Queue, Run, bind, storing, notify, fair}

-- strings.ToUpper, for ASCII.
abbrev pub to_upper : Text → Text
to_upper = map λ c. if leb 97 c && leb c 122 then c - 32 else c

-- The memory queues that Init makes.
pub data Kind : Type 0 where
  round_robin : Kind
  weighted : Kind
  delayed : Kind

-- An unknown strategy falls back to round-robin; an unknown type leaves the queue nil.
unfoldable pub kind_of : Text → Text → Option Kind
kind_of queue_type strategy =
    if text_eq (to_upper queue_type) (bytes "FAIR")
    then if text_eq (to_upper strategy) (bytes "WEIGHTED")
      then some Kind.weighted
      else some Kind.round_robin
    else if text_eq (to_upper queue_type) (bytes "DELAYED")
    then some Kind.delayed
    else none

-- The checks of CreateQueue on the type, the strategy and the unacked limit.
unfoldable pub check_kind : Text → QueueSettings → Result (Unit {0})
check_kind queue_type settings =
    if text_eq queue_type (bytes "delayed")
    then if text_eq settings.strategy (bytes "WEIGHTED")
        || text_eq settings.strategy (bytes "ROUND_ROBIN")
      then err Error.invalid_strategy
      else if eqb_ℤ settings.max_unacked (pos 0)
      then ok tt
      else err Error.invalid_max_unacked
    else if text_eq queue_type fair && text_eq settings.strategy (bytes "STRATEGY_UNSPECIFIED")
    then err Error.invalid_strategy
    else ok tt

-- The acknowledgement timeout: the default for 0, and at least 10 seconds when given.
unfoldable pub with_ack_timeout : ℕ → QueueSettings → Result QueueSettings
with_ack_timeout default_timeout settings =
    if settings.ack_timeout == 0
    then ok (record settings { ack_timeout = default_timeout })
    else if ltb settings.ack_timeout 10
    then err Error.invalid_ack_timeout
    else ok settings

pub record QueueInfo : Type 0 where
  pub config : QueueConfig
  pub ready : ℕ
  pub unacked : ℕ
  pub total : ℕ

-- `default_timeout` is the configured default, as a uint32; `make` is the choice of the constructor.
module _ (M : MemoryQueue) (S : Store) (default_timeout : ℕ) (make : Kind → ℤ → M.State) where
  unfoldable pub init : Queue M S → QueueConfig → Queue M S
  init q config = record q {
    config = some config;
    queue = elim (kind_of config.queue_type config.settings.strategy) [
      | none ↦ none
      | some kind ↦ some (make kind config.settings.max_unacked)
    ];
  }

  unfoldable pub create_queue : Queue M S → QueueConfig → Run M S (Unit {0})
  unfolding init
  create_queue q config =
      elim (check_kind config.queue_type config.settings >>? λ _.
      with_ack_timeout default_timeout config.settings) [
        | err e ↦ some (err e, q)
        | ok settings ↦
            let checked = record config { settings = settings } in
            bind M S
              (storing M S (record q { config = some checked }) (S.create_queue q.store checked))
              λ _ q1. some (ok tt, init q1 checked)
      ]

  unfoldable pub update_queue : Queue M S → QueueSettings → Run M S (Unit {0})
  update_queue q settings = do
    config ← q.config
    if text_eq config.settings.strategy settings.strategy
        then elim (with_ack_timeout default_timeout settings) [
          | err e ↦ some (err e, q)
          | ok settings' ↦
              let changed = record config { settings = settings' } in
              bind M S
                (storing M S (record q { config = some changed }) (S.update_queue q.store changed))
                λ _ q1. do
                  ready ← q1.queue
                  ready' ← M.update_max_unacked ready settings'.max_unacked
                  some (ok tt, record q1 { queue = some ready' })
        ]
        else some (err Error.invalid_queue_settings, q)

  unfoldable pub delete_queue : Queue M S → Run M S (Unit {0})
  delete_queue q = elim q.config [
    | none ↦ some (err Error.queue_not_found, q)
    | some config ↦
        bind M S (storing M S q (S.delete_queue q.store config.name))
          λ _ q1. some (ok tt, notify M S q1)
  ]

  unfoldable pub load : Queue M S → Text → Run M S (Unit {0})
  unfolding init
  load q queue_name = elim (S.load_queue q.store queue_name) [
    | err e ↦ some (err e, q)
    | ok config ↦ some (ok tt, init q config)
  ]

  unfoldable pub get_stats : Queue M S → Option QueueInfo
  get_stats q = do
    config ← q.config
    ready ← q.queue
    some (record {
      config = config;
      ready = M.len ready;
      unacked = size q.ack_queue;
      total = M.len ready + size q.ack_queue;
    })
