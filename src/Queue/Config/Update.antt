-- ===== src/Queue/Config/Update.antt =====
-- pkg/queue/queue.go: UpdateQueue.
use doq.Common.{
  ℕ, ◌≤◌, ◌<◌, ◌≡◌, ◌≢◌, refl, some, true, arith, ltb, ◌==◌, Returns, returns, Bool-cases, ◌⊎◌, inl,
  inr, if◌then◌else◌,
}
use doq.Common.Int.{ℤ}
use doq.Common.Text.{text_eq, eq_of_text_eq, text_eq_refl}
use doq.Errors.{Error, Result, ok, err, Result-cases}
use doq.Entity.{QueueConfig, QueueSettings, config_to_proto}
use doq.Storage.{Badger, badger_store}
use doq.Storage
use doq.Storage.Laws.{IsLawful, store-update_queue_lem}
use doq.Memory.PriorityQueue.{PriorityQueue}
use doq.Memory.Interface.{MemoryQueue}
use doq.Queue.{Queue}
use doq.Queue.Config.{Kind, with_ack_timeout, update_queue}

module _ (b : Badger) (laws : IsLawful b) (M : MemoryQueue) (d : ℕ) (least : 10 ≤ d)
    (make : Kind → ℤ → M.State) (config : QueueConfig) (ready : M.State) (in_flight : PriorityQueue)
    (notified : ℕ) (db : b.Db) (settings : QueueSettings) (limited : M.State)
    (update : M.update_max_unacked ready settings.max_unacked ≡ some limited) where
  -- A queue with a configuration and a memory queue.
  abbrev pub q : Queue M (badger_store b)
  q = record {
    config = some config;
    queue = some ready;
    ack_queue = in_flight;
    notified = notified;
    store = db;
  }

  -- The configuration with the settings, and the default timeout when none is given.
  abbrev pub changed : QueueConfig
  changed = record config {
    settings = record settings {
      ack_timeout = if settings.ack_timeout == 0 then d else settings.ack_timeout;
    };
  }

  -- The new settings are kept, in the store too, and the memory queue has the new limit.
  abbrev pub Updated : Result (Unit {0}) × Queue M (badger_store b) → Type 0
  Updated r =
      (r.0 ≡ ok tt)
      × (10 ≤ changed.settings.ack_timeout)
      × (r.1 ≡ record q { config = some changed; queue = some limited; store = r.1.store })
      × (Storage.load_queue b r.1.store config.name ≡ ok (config_to_proto changed))

  abbrev pub Updates : Result (Unit {0}) × Queue M (badger_store b) → Type 0
  Updates r =
      ((config.settings.strategy ≢ settings.strategy) × (r ≡ (err Error.invalid_queue_settings, q)))
      ⊎ ((0 < settings.ack_timeout)
          × (settings.ack_timeout < 10)
          × (r ≡ (err Error.invalid_ack_timeout, q)))
      ⊎ ((e : Error) × (Storage.update_queue b db changed ≡ err e)
          × (r ≡ (err e, record q { config = some changed })))
      ⊎ ((config.settings.strategy ≡ settings.strategy) × Updated r)

  stored :
      (accepted : with_ack_timeout d settings ≡ ok changed.settings)
      → text_eq config.settings.strategy settings.strategy ≡ true
      → 10 ≤ changed.settings.ack_timeout
      → Returns Updates (update_queue M (badger_store b) d make q settings)
  unfolding update_queue
  stored accepted same enough = elim (Result-cases (Storage.update_queue b db changed)) [
    | inr (e, failed) ↦ rw (same, accepted, failed) (returns (inr (inr (inl (e, failed, refl)))))
    | inl (db', written) ↦
        rw (same, accepted, written, update)
          (returns (
            inr (
              inr (
                inr (
                  eq_of_text_eq config.settings.strategy settings.strategy same,
                  (refl, enough, refl, store-update_queue_lem b laws db db' changed written),
                )))))
  ]

  -- UpdateQueue on a queue whose memory queue takes the new limit, with a default timeout of at least 10
  -- seconds: settings with another strategy are refused, and so is a given timeout
  -- below 10 seconds, and nothing changes. When the store fails, its error is returned, but the queue has
  -- the new configuration all the same, beside a memory queue with the old limit. Otherwise the queue has
  -- the new settings with a timeout of at least 10 seconds, the memory queue has the new limit, and loading
  -- finds the new configuration, as ToProto translates it.
  pub update_queue-Updates : Returns Updates (update_queue M (badger_store b) d make q settings)
  unfolding update_queue with_ack_timeout
  update_queue-Updates = elim (Bool-cases (text_eq config.settings.strategy settings.strategy)) [
    | inr differs ↦
        rw differs (returns (inl ((λ e. let t = rw (e, text_eq_refl) at differs in cc), refl)))
    | inl same ↦ elim (Bool-cases (settings.ack_timeout == 0)) [
      | inl zero ↦ stored (rw zero refl) same (rw zero least)
      | inr given ↦ elim (Bool-cases (ltb settings.ack_timeout 10)) [
        | inl short ↦
            rw (same, given, short) (returns (inr (inl (ground arith, ground arith, refl))))
        | inr long ↦ stored (rw (given, long) refl) same (rw given (ground arith))
      ]
    ]
  ]
