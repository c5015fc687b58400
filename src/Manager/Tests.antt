-- ===== src/Manager/Tests.antt =====
-- pkg/queue/manager.go: the properties at a manager without queues.
use doq.Common.{◌≡◌, refl, [], none, some}
use doq.Common.Dict
use doq.Errors.{Error, err}
use doq.Storage
use doq.Storage.{badger_store}
use doq.Storage.Tests.{name}
use doq.Storage.Tests.Table.{table}
use doq.Memory.Interface.{delayed_queue}
use doq.Queue.Tests.{config, make}
use doq.Manager.{QueueManager, get_queue, update_queue, delete_queue}
use doq.Manager.Laws.{unknown_queue}

abbrev empty : QueueManager delayed_queue (badger_store table) 60 make
empty = record { queues = []; store = [] }

unknown_queue_example :
    (get_queue delayed_queue (badger_store table) 60 make empty name
      ≡ some (err Error.queue_not_found, empty))
    × (delete_queue delayed_queue (badger_store table) 60 make empty name
        ≡ some (err Error.queue_not_found, empty))
    × (update_queue delayed_queue (badger_store table) 60 make empty name config.settings ≡ none)
unfolding Dict.lookup Storage.load_queue
unknown_queue_example =
    unknown_queue delayed_queue (badger_store table) 60 make empty name config.settings
      Error.key_not_found refl refl
