-- ===== src/Queue/Nack.antt =====
-- pkg/queue/queue.go: Nack of a queue of the delayed type, over the Badger store.
use doq.Common.{
  ℕ, ◌≡◌, refl, ap, ◌∙◌, Bool, false, not, ◌&&◌, ◌||◌, List, [], Option, none, some, if◌then◌else◌,
  Returns, returns, Bool-cases, inl, inr,
}
use doq.Common.Int.{ℤ, pos, eqb_ℤ}
use doq.Common.Text.{Text}
use doq.Errors.{Result, ok}
use doq.Entity.{Message, QueueConfig}
use doq.Storage.{Badger, badger_store}
use doq.Storage
use doq.Storage.Keys.{get_messages_key}
use doq.Storage.Laws.{IsLawful}
use doq.Memory.PriorityQueue.{PriorityQueue}
use doq.Memory.PriorityQueue.Slice.{at}
use doq.Memory.PriorityQueue.Valid.{IsValid}
use doq.Memory.Interface.{delayed_queue}
use doq.Queue
use doq.Queue.{
  Queue, Run, bind, nack, redeliver_or_drop, is_exhausted, is_fair, is_some, default_group,
}
use doq.Queue.Laws.{get-known}
use doq.Queue.Redelivery.{Drops, Redelivers, redeliver_or_drop_lem}
use doq.Queue.Redelivery.{ready_item, bind_returns}

-- Whether Nack has a change to store for a message that survives.
abbrev pub has_change : Message → ℤ → Option (List (Text × Text)) → Bool
has_change message priority metadata =
    is_some metadata || (not (eqb_ℤ priority (pos 0)) && not (eqb_ℤ priority message.priority))

module _ (b : Badger) (laws : IsLawful b) (q : Queue delayed_queue (badger_store b))
    (v : IsValid q.ack_queue) (config : QueueConfig) (conf : q.config ≡ some config)
    (plain : is_fair delayed_queue (badger_store b) config ≡ false) (ready : PriorityQueue)
    (rv : IsValid ready) (some_ready : q.queue ≡ some ready) (message : Message) (i : ℕ)
    (known : q.ack_queue.id_to_index message.id ≡ some i)
    (fresh : ready.id_to_index message.id ≡ none)
    (stored : Storage.get b q.store config.name message.id ≡ ok message) (db : b.Db)
    (deleted : b.delete q.store (get_messages_key config.name message.id) ≡ ok db) where
  got :
      Queue.get delayed_queue (badger_store b) q (at q.ack_queue.items i).id ≡ some (ok message, q)
  unfolding Queue.get
  got = simp (conf, (v.indexed.index_at message.id i known).1, stored)

  -- Refusing a message in flight: at the delivery limit it is dropped, whatever else was asked.
  -- Below the limit it goes back to the ready queue, with the new priority unless that is 0, and the
  -- priority and the metadata are stored if there is a change. This is a queue of the delayed type,
  -- whose stored message is not ready yet; the database has to delete the key and to store the change.
  pub nack_lem :
      (priority : ℤ) (metadata : Option (List (Text × Text))) (db2 : b.Db)
      → Storage.update_message b q.store config.name message.id priority [] metadata ≡ ok db2
      → Returns
          (λ (r : Result (Unit {0}) × Queue delayed_queue (badger_store b)).
            (r.0 ≡ ok tt)
            × (if is_exhausted delayed_queue (badger_store b) config message
                then Drops b q ready i config.name message.id r.1
                else ((s : Queue delayed_queue (badger_store b)) × Redelivers b q ready i
                      (ready_item message priority)
                      s
                    × (r.1 ≡ record s {
                      store = if has_change message priority metadata then db2 else q.store;
                    }))))
          (nack delayed_queue (badger_store b) q message.id priority metadata)
  unfolding nack
  nack_lem priority metadata db2 updated =
      let S = badger_store b in
      let Q = Queue delayed_queue S in
      let inside = (v.indexed.index_at message.id i known).0 in
      let outcome =
        redeliver_or_drop_lem b laws q v config conf plain ready rv some_ready message i known fresh
          stored db deleted priority in
      let run = redeliver_or_drop delayed_queue S q message priority in
      simp (get-known q.ack_queue default_group message.id i known inside, got)
        (elim (Bool-cases (is_exhausted delayed_queue S config message)) [
          | inl e ↦ rw e (
              bind_returns delayed_queue S run _ (rw e at outcome)
                λ (q1 : Q) d. simp (d.configured ∙ conf) (returns (refl, d)))
          | inr e ↦ rw e (
              bind_returns delayed_queue S run _ (rw e at outcome) λ (q1 : Q) d.
                simp (d.configured ∙ conf)
                  (elim (Bool-cases (has_change message priority metadata)) [
                    | inl c ↦ rw c (simp (d.stored, updated) (returns (refl, (q1, d, refl))))
                    | inr c ↦
                        rw c (returns (refl, (q1, d, ap (λ st. record q1 { store = st }) d.stored)))
                  ]))
        ])
