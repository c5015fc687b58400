-- ===== src/Api/Grpc/Streams/Tests.antt =====
-- pkg/grpc/server.go: a consumer that waits once at a queue whose only message is in flight.
use doq.Common.{◌≡◌, refl, false, [], ◌∷◌, List, some, ◌⊎◌}
use doq.Common.Int.{pos}
use doq.Common.Text.{text_eq}
use doq.Common.Dict
use doq.Errors.{ok}
use doq.Entity.{Message}
use doq.Storage.{badger_store}
use doq.Storage.Tests.{name}
use doq.Storage.Tests.Table.{table}
use doq.Memory.DelayedQueue
use doq.Memory.Interface.{delayed_queue}
use doq.Queue
use doq.Queue.Tests.{config, make, in_flight}
use doq.Manager.{get_queue}
use doq.Node.Tests.{cluster, follower}
use doq.Api.Grpc.Streams.{Client, Ending, Round, dequeue_loop}
use doq.Api.Grpc.Streams.Laws.{AllIdle, dequeue_loop-idle}

abbrev client : Client
client = record { Sent = List Message; send = λ sent message. ok (message ∷ sent) }

abbrev round : Round
round = record { now = pos 9; gone = false; gone_waiting = false; signal = ok tt }

dequeue_loop-idle_example :
    (ending : Ending) × ((ending ≡ Ending.open_still) ⊎ (ending ≡ Ending.closed))
    × (dequeue_loop delayed_queue
          (badger_store table)
          60
          make
          cluster
          client
          name
          false
          follower
          []
          (round ∷ [])
        ≡ some (ending, [], follower))
unfolding Dict.lookup text_eq get_queue Queue.peek_ready DelayedQueue.peek_ready AllIdle
dequeue_loop-idle_example =
    dequeue_loop-idle (badger_store table) 60 make cluster client follower name in_flight config
      refl refl false [] (round ∷ []) ((pos 0, refl), tt)
