-- ===== src/Fsm/Snapshot/Laws.antt =====
-- pkg/raft/fsm.go: restoring what was persisted.
use doq.Common.{
  ℕ, zero, suc, ◌+◌, ◌<◌, ◌≤◌, ◌≡◌, refl, sym, ap, ◌∙◌, List, [], ◌∷◌, ◌++◌, map, Option, none,
  some, arith, ◌>>=◌, length, length-append, append_assoc, append-nil, Option-cases, inl, inr,
}
use std.Path.{subst, fun_ext}
use doq.Common.Int.{ℤ}
use doq.Common.Text.{Text}
use doq.Fsm.Snapshot.Written.{both_written, persist_items-append, persist_snapshot-queues_items}
use doq.Fsm.Snapshot.Items.{leads, Parts, queues_items-Parts}
use doq.Errors.{Result, ok, err}
use doq.Proto.{SnapshotItem, as_read}
use doq.Storage.{Store, Badger, badger_store}
use doq.Storage.Snapshot
use doq.Storage.Snapshot.{
  ItemCodec, SnapshotSink, ReadError, read_snapshot_item, write_snapshot_item, read_full,
  put_uint32,
}
use doq.Storage.Snapshot.Laws.{IsLawful, KeepsWrites, frame, read_frame, write-frame}
use doq.Storage.Persist.{persist_items, queue_items}
use doq.Memory.Interface.{MemoryQueue}
use doq.Queue.Config.{Kind}
use doq.Queue.Persist.{SchedulingStater}
use doq.Manager.{QueueManager, reset}
use doq.Manager.Persist as ManagerPersist
use doq.Node.Leader.{Net}
use doq.Fsm.Snapshot.{
  Fsm, FsmSnapshot, Progress, RestoreError, leader_item, persist, restore_item, restore_loop,
  restore, with_manager, read_end,
}

-- The bytes of the items, one after the other.
unfoldable pub IsStream : ItemCodec → Text → List SnapshotItem → Type 0
IsStream p bytes [] = bytes ≡ []
IsStream p bytes (item ∷ items) =
    (content : Text) × (rest : Text) × (p.marshal item ≡ some content)
    × (bytes ≡ frame content ++ rest)
    × IsStream p rest items

module _ (p : ItemCodec) (laws : IsLawful p) (k : SnapshotSink) (contents : k.Sink → Text)
    (kept : KeepsWrites k contents) where
  -- Writing that succeeds has written every item, and nothing else.
  persist_items-IsStream :
      (sink sink' : k.Sink) (rs : List (Result SnapshotItem))
      → persist_items p k sink rs ≡ (sink', none)
      → (items : List SnapshotItem) × (rs ≡ map (λ i. ok i) items)
        × (added : Text) × (contents sink' ≡ contents sink ++ added)
        × IsStream p added items
  unfolding persist_items IsStream
  persist_items-IsStream sink sink' [] e =
      ([], refl, [], ap contents (cc) ∙ sym (append-nil (contents sink)), refl)
  persist_items-IsStream sink sink' (err x ∷ rs) e = cc
  persist_items-IsStream sink sink' (ok item ∷ rs) e =
      elim (Option-cases (write_snapshot_item p k sink item).1) [
        | inr (x, failed) ↦ cc (rw (failed, persist_items) at e)
        | inl written ↦
            let s1 = (write_snapshot_item p k sink item).0 in
            let (content, encoded, placed) =
              write-frame p laws k contents kept sink s1 item (ap (λ o. (s1, o)) written) in
            let (items, all, added, grown, stream) =
              persist_items-IsStream s1 sink' rs (rw (written, persist_items) at e) in
            (
              item ∷ items,
              ap (λ t. ok item ∷ t) all,
              frame content ++ added,
              grown
                  ∙ (ap (λ t. t ++ added) placed
                      ∙ append_assoc (contents sink) (frame content) added),
              (content, added, encoded, refl, stream),
            )
      ]

module _ (p : ItemCodec) where
  read_end_of_file : read_snapshot_item p [] ≡ (Snapshot.err ReadError.end_of_file, [])
  unfolding read_snapshot_item read_full
  read_end_of_file = refl

  length-frame : (content : Text) → 4 ≤ length (frame content)
  unfolding frame put_uint32
  length-frame content = omega arith

module _ (M : MemoryQueue) (S : Store) (d : ℕ) (make : Kind → ℤ → M.State)
    (stater : Option (SchedulingStater M.State)) (net : Net) where
  -- The items restored one after the other, up to an error.
  unfoldable pub restore_items :
      Progress M S d make stater net
      → List SnapshotItem
      → Option (Fsm M S d make × Option RestoreError)
  restore_items r [] = some (r.fsm, none)
  restore_items r (item ∷ items) = do
    s ← restore_item M S d make stater net r item
    elim s.1 [ some e ↦ some (s.0.fsm, some e) | none ↦ restore_items s.0 items ]

  restore_loop-step :
      (p : ItemCodec) (fuel : ℕ) (r : Progress M S d make stater net) (bytes rest : Text)
      (item : SnapshotItem)
      → read_snapshot_item p bytes ≡ (Snapshot.ok item, rest)
      → restore_loop M S d make stater net p (suc fuel) r bytes ≡ (
          restore_item M S d make stater net r item >>= λ s. elim s.1 [
            | some e ↦ some (s.0.fsm, some e)
            | none ↦ restore_loop M S d make stater net p fuel s.0 rest
          ])
  unfolding restore_loop
  restore_loop-step p fuel r bytes rest item e =
      ap
        (λ (x : Snapshot.Read SnapshotItem × Text).
          elim x.0 as (λ y. Option (Fsm M S d make × Option RestoreError)) [
            | Snapshot.err e ↦ some (read_end M S d make stater net r.fsm e)
            | Snapshot.ok i ↦
                (restore_item M S d make stater net r i >>= λ s. elim s.1 [
                  | some e ↦ some (s.0.fsm, some e)
                  | none ↦ restore_loop M S d make stater net p fuel s.0 x.1
                ])
          ])
        e

  restore_loop-IsStream :
      (p : ItemCodec) (laws : IsLawful p) (fuel : ℕ) (r : Progress M S d make stater net)
      (bytes : Text) (items : List SnapshotItem)
      → IsStream p bytes items
      → length bytes < fuel
      → restore_loop M S d make stater net p fuel r bytes ≡ restore_items r (map as_read items)
  unfolding restore_loop restore_items IsStream
  restore_loop-IsStream p laws zero r bytes items stream h = elim h [ ]
  restore_loop-IsStream p laws (suc fuel) r bytes [] stream h =
      rw (stream, restore_loop, read_end_of_file p) refl
  restore_loop-IsStream p laws (suc fuel) r bytes (item ∷ items)
        (content, rest, encoded, framed, stream) h =
      let l : length bytes ≡ length (frame content) + length rest =
        ap length framed ∙ length-append (frame content) rest in
      let again = λ (r' : Progress M S d make stater net).
        restore_loop-IsStream p laws fuel r' rest items stream
          (omega (arith, l, length-frame p content)) in
      let read : read_snapshot_item p bytes ≡ (Snapshot.ok (as_read item), rest) =
        rw framed (read_frame p laws item content rest encoded) in
      restore_loop-step p fuel r bytes rest (as_read item) read
      ∙ ap
          (λ (next : Progress M S d make stater net
              → Option (Fsm M S d make × Option RestoreError)).
            restore_item M S d make stater net r (as_read item) >>= λ s. elim s.1 [
              | some e ↦ some (s.0.fsm, some e)
              | none ↦ next s.0
            ])
          (fun_ext again)

module _ (M : MemoryQueue) (b : Badger) (d : ℕ) (make : Kind → ℤ → M.State)
    (stater : Option (SchedulingStater M.State)) (net : Net) (p : ItemCodec) (laws : IsLawful p)
    (k : SnapshotSink) (contents : k.Sink → Text) (kept : KeepsWrites k contents) where
  -- When Persist succeeds on an empty sink, the snapshot consists of the leader's addresses and then,
  -- for each queue in turn, of its configuration as protobuf translates it, its markers of messages in
  -- flight, the messages that stand in the database under the prefix of its name, one for each key and in
  -- the order of the keys, and its scheduling state if one was captured; none of them is missing. Restore
  -- on any node, whose old state the store clears, reads exactly these items and no error, up to the first
  -- item that it refuses: its result is that of restoring them one after the other, from an empty manager,
  -- an empty map of metadata as nil. The sink keeps what is written, and protobuf decodes what it encodes,
  -- in less than 2 GiB.
  pub restore-persist :
      (f g : Fsm M (badger_store b) d make) (s : FsmSnapshot M (badger_store b) d make)
      (sink sink' : k.Sink) (m : QueueManager M (badger_store b) d make)
      → contents sink ≡ []
      → persist M (badger_store b) d make p k (queue_items b) f s sink ≡ some (sink', none)
      → reset M (badger_store b) d make g.manager ≡ some (ok tt, m)
      → (others : List SnapshotItem) × Parts b M s.txn f.manager.queues s.queue_states others
        × (restore M (badger_store b) d make stater net p g (contents sink')
            ≡ restore_items M
                (badger_store b)
                d
                make
                stater
                net
                (record {
                  fsm = with_manager M (badger_store b) d make stater net g m;
                  current = none;
                  unacked = none;
                })
                (leader_item f.leader_config ∷ map as_read others))
  unfolding persist restore persist_items
  restore-persist f g s sink sink' m empty persisted cleared =
      let first : List (Result SnapshotItem) = ok (leader_item f.leader_config) ∷ [] in
      let (s1, w1, more) =
        both_written (some (persist_items p k sink first)) sink'
          (λ x.
            ManagerPersist.persist_snapshot M (badger_store b) p k b.Db (queue_items b) x s.txn
              f.manager.queues s.queue_states)
          persisted in
      let (rs, listed, w2) =
        persist_snapshot-queues_items M (badger_store b) (queue_items b) p k s1 sink' s.txn
          f.manager.queues s.queue_states more in
      let w : persist_items p k sink (first ++ rs) ≡ (sink', none) =
        persist_items-append p k sink first rs
        ∙ (let h : persist_items p k sink first ≡ (s1, none) = cc in rw h w2) in
      let (items, all, added, grown, stream) =
        persist_items-IsStream p laws k contents kept sink sink' (first ++ rs) w in
      let (others, same, rest) = leads (leader_item f.leader_config) rs items all in
      let total : contents sink' ≡ added = grown ∙ ap (λ t. t ++ added) empty in
      let start : Progress M (badger_store b) d make stater net = record {
        fsm = with_manager M (badger_store b) d make stater net g m;
        current = none;
        unacked = none;
      } in
      let stream' = subst (λ t. IsStream p t items) (sym total) stream in
      (
        others,
        queues_items-Parts b M s.txn f.manager.queues s.queue_states rs others listed rest,
        rw cleared (
            restore_loop-IsStream M (badger_store b) d make stater net p laws
              (suc (length (contents sink'))) start (contents sink') items stream' (omega arith)
            ∙ ap (λ is. restore_items M (badger_store b) d make stater net start (map as_read is))
                same),
      )
