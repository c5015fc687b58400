-- ===== src/Queue/Snapshot.antt =====
-- pkg/queue/queue.go: the messages in flight in a snapshot, and restoring messages from one.
use doq.Common.{List, [], ◌∷◌, map, Option, none, some, leb, if◌then◌else◌, ◌>>=◌}
use doq.Common.Int.{ℤ}
use doq.Errors.{ok}
use doq.Entity.{Message}
use doq.Proto.{UnackedMessage}
use doq.Storage.{Store}
use doq.Memory.DelayedQueue
use doq.Memory.PriorityQueue.{Item}
use doq.Memory.Interface.{MemoryQueue}
use doq.Queue.{Queue, Run, bind, storing, notify, is_fair, default_group, enqueue_ready}

-- sort.Slice by id, as an insertion sort; ids do not repeat.
unfoldable pub insert_by_id : UnackedMessage → List UnackedMessage → List UnackedMessage
insert_by_id u [] = u ∷ []
insert_by_id u (v ∷ rest) = if leb u.id v.id then u ∷ v ∷ rest else v ∷ insert_by_id u rest

unfoldable pub sort_by_id : List UnackedMessage → List UnackedMessage
unfolding insert_by_id
sort_by_id [] = []
sort_by_id (u ∷ rest) = insert_by_id u (sort_by_id rest)

abbrev pub to_unacked : Item → UnackedMessage
to_unacked item = record { id = item.id; ack_deadline = item.priority }

module _ (M : MemoryQueue) (S : Store) where
  unfoldable pub unacked_snapshot : Queue M S → List UnackedMessage
  unacked_snapshot q = sort_by_id (map to_unacked (DelayedQueue.items q.ack_queue))

  unfoldable pub enqueue_restored : Queue M S → Message → Run M S (Unit {0})
  enqueue_restored q message = do
    config ← q.config
    let msg = if is_fair M S config then message else record message { group = default_group }
    bind M S (storing M S q (S.restore_message q.store config.name msg)) λ _ q1. do
      ready ← q1.queue
      item ← M.get ready msg.group msg.id
      elim item [
        | some _ ↦ some (ok tt, q1)
        | none ↦ (do
          q2 ←
              enqueue_ready M S q1 msg.group
                (record { id = msg.id; group = msg.group; priority = msg.priority })
          some (ok tt, notify M S q2))
      ]

  -- The message goes to those in flight, and out of the ready ones if it is there.
  unfoldable pub move_to_unacked : Queue M S → Message → ℤ → Option (Queue M S)
  move_to_unacked q msg ack_deadline = do
    ready ← q.queue
    item ← M.get ready msg.group msg.id
    ready1 ← elim item [
      | none ↦ some ready
      | some _ ↦ (do r ← M.delete ready msg.group msg.id; some r.1)
    ]
    in_flight ←
        DelayedQueue.enqueue q.ack_queue default_group
          (record { id = msg.id; priority = ack_deadline; group = msg.group })
    ready2 ← M.mark_unacked ready1 msg.group
    some (record q { queue = some ready2; ack_queue = in_flight })

  unfoldable pub restore_unacked : Queue M S → Message → ℤ → Run M S (Unit {0})
  restore_unacked q message ack_deadline = do
    config ← q.config
    let msg = if is_fair M S config then message else record message { group = default_group }
    bind M S (storing M S q (S.restore_message q.store config.name msg)) λ _ q1. do
      unacked ← DelayedQueue.get q1.ack_queue default_group msg.id
      elim unacked [
        | some _ ↦ (do
          in_flight ← DelayedQueue.update_priority q1.ack_queue default_group msg.id ack_deadline
          some (ok tt, record q1 { ack_queue = in_flight }))
        | none ↦ (do q2 ← move_to_unacked q1 msg ack_deadline; some (ok tt, q2))
      ]
