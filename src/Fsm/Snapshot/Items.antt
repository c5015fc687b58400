-- ===== src/Fsm/Snapshot/Items.antt =====
-- pkg/storage/badger_store.go, pkg/queue/queue.go: what the items of the queues in a snapshot are.
use doq.Common.{
  ◌≡◌, refl, sym, ap, ◌∙◌, List, [], ◌∷◌, ◌++◌, map, Option, none, some, Option-cases, inl, inr,
  append_assoc,
}
use doq.Common.Text.{Text}
use doq.Common.Dict
use doq.Errors.{Result, ok, err, ◌>>?◌}
use doq.Entity.{Message, QueueConfig, config_to_proto}
use doq.Proto.{SnapshotItem, UnackedMessage, RoundRobinNode}
use doq.Storage.{Badger, badger_store}
use doq.Storage.Keys.{get_messages_prefix}
use doq.Storage.Laws.{>>?-inv}
use doq.Storage.Persist.{message_item, message_items, queue_items}
use doq.Memory.Interface.{MemoryQueue}
use doq.Queue.{Queue}
use doq.Queue.Persist.{SnapshotState, round_robin_item, or_empty}
use doq.Fsm.Snapshot.Written.{queues_items}

pub leads :
    (i : SnapshotItem) (rs : List (Result SnapshotItem)) (items : List SnapshotItem)
    → ok i ∷ rs ≡ map (λ j. ok j) items
    → (others : List SnapshotItem) × (items ≡ i ∷ others) × (rs ≡ map (λ j. ok j) others)
leads i rs [] e = cc
leads i rs (j ∷ items) e = (items, cc, cc)

-- A list of successes, split where it was put together.
map_ok-append :
    (xs ys : List (Result SnapshotItem)) (items : List SnapshotItem)
    → xs ++ ys ≡ map (λ i. ok i) items
    → (front : List SnapshotItem) × (back : List SnapshotItem) × (items ≡ front ++ back)
      × (xs ≡ map (λ i. ok i) front)
      × (ys ≡ map (λ i. ok i) back)
map_ok-append [] ys items e = ([], items, refl, refl, e)
map_ok-append (x ∷ xs) ys [] e = cc
map_ok-append (x ∷ xs) ys (i ∷ items) e =
    let (front, back, all, e1, e2) = map_ok-append xs ys items (cc) in
    let first : x ≡ ok i = cc in
    (i ∷ front, back, ap (λ t. i ∷ t) all, rw first (ap (λ t. ok i ∷ t) e1), e2)

map_ok-injective : (xs ys : List SnapshotItem) → map (λ i. ok i) xs ≡ map (λ i. ok i) ys → xs ≡ ys
map_ok-injective [] [] e = refl
map_ok-injective [] (y ∷ ys) e = cc
map_ok-injective (x ∷ xs) [] e = cc
map_ok-injective (x ∷ xs) (y ∷ ys) e =
    let first : x ≡ y = cc in
    let others = map_ok-injective xs ys (cc) in rw first (ap (λ t. y ∷ t) others)

message_item-inv :
    (r : Result Message) (i : SnapshotItem)
    → message_item r ≡ ok i
    → (m : Message) × (r ≡ ok m) × (i ≡ SnapshotItem.message m)
message_item-inv (ok m) i e = (m, refl, sym (cc))
message_item-inv (err x) i e = cc

assemble :
    (i : SnapshotItem)
    (items front others own last tail first msgs marks messages state : List SnapshotItem)
    → items ≡ front ++ others
    → front ≡ own ++ last
    → own ≡ i ∷ tail
    → tail ≡ first ++ msgs
    → first ≡ marks
    → msgs ≡ messages
    → last ≡ state
    → items ≡ i ∷ (marks ++ (messages ++ (state ++ others)))
assemble i items front others own last tail first msgs marks messages state e1 e2 e3 e4 e5 e6 e7 =
    rw (e1, e2, e3, e4, e5, e6, e7)
      (ap (λ t. i ∷ t)
        (append_assoc (marks ++ messages) state others
          ∙ append_assoc marks messages (state ++ others)))

-- The scheduling state, where one was captured.
abbrev pub scheduling : Option (List RoundRobinNode) → List SnapshotItem
scheduling none = []
scheduling (some nodes) = SnapshotItem.round_robin_state nodes ∷ []

round_robin_item-scheduling :
    (state : Option (List RoundRobinNode))
    → round_robin_item state ≡ map (λ i. ok i) (scheduling state)
round_robin_item-scheduling none = refl
round_robin_item-scheduling (some nodes) = refl

markers_ok :
    (us : List UnackedMessage)
    → map (λ u. ok (SnapshotItem.unacked_message u)) us
      ≡ map (λ i. ok i) (map (λ u. SnapshotItem.unacked_message u) us)
markers_ok [] = refl
markers_ok (u ∷ us) = ap (λ t. ok (SnapshotItem.unacked_message u) ∷ t) (markers_ok us)

module _ (b : Badger) where
  -- Under each key stands the message in its place, and there are no others.
  unfoldable pub Reads : b.Db → List Text → List Message → Type 0
  Reads txn [] messages = messages ≡ []
  Reads txn (key ∷ keys) messages =
      (m : Message) × (rest : List Message) × (v : b.Bytes) × (messages ≡ m ∷ rest)
      × (b.get txn key ≡ ok v)
      × (b.unmarshal v ≡ ok m)
      × Reads txn keys rest

  message_items-Reads :
      (txn : b.Db) (keys : List Text) (items : List SnapshotItem)
      → message_items b txn keys ≡ map (λ i. ok i) items
      → (messages : List Message) × Reads txn keys messages
        × (items ≡ map (λ m. SnapshotItem.message m) messages)
  unfolding message_items Reads
  message_items-Reads txn [] [] e = ([], refl, refl)
  message_items-Reads txn [] (i ∷ items) e = cc
  message_items-Reads txn (key ∷ keys) [] e = cc
  message_items-Reads txn (key ∷ keys) (i ∷ items) e =
      let (m, read, first) = message_item-inv (b.get txn key >>? b.unmarshal) i (cc) in
      let (v, got, decoded) = >>?-inv (b.get txn key) b.unmarshal m read in
      let (rest, reads, others) = message_items-Reads txn keys items (cc) in
      (m ∷ rest, (m, rest, v, refl, got, decoded, reads), rw (first, others) refl)

  queue_part :
      (txn : b.Db) (config : QueueConfig) (unacked : List UnackedMessage)
      (state : Option (List RoundRobinNode)) (rs : List (Result SnapshotItem))
      (items : List SnapshotItem)
      → (queue_items b txn config unacked ++ round_robin_item state) ++ rs ≡ map (λ i. ok i) items
      → (messages : List Message) × (others : List SnapshotItem) × Reads txn
          (b.keys_with txn (get_messages_prefix config.name))
          messages
        × (items
            ≡ SnapshotItem.queue (config_to_proto config)
              ∷ (map (λ u. SnapshotItem.unacked_message u) unacked
                  ++ (map (λ m. SnapshotItem.message m) messages ++ (scheduling state ++ others))))
        × (rs ≡ map (λ i. ok i) others)
  unfolding queue_items
  queue_part txn config unacked state rs items e =
      let keys = b.keys_with txn (get_messages_prefix config.name) in
      let marks = map (λ u. SnapshotItem.unacked_message u) unacked in
      let (front, others, all, e1, e2) =
        map_ok-append (queue_items b txn config unacked ++ round_robin_item state) rs items e in
      let (own, last, all1, e3, e4) =
        map_ok-append (queue_items b txn config unacked) (round_robin_item state) front e1 in
      let scheduled : last ≡ scheduling state =
        map_ok-injective last (scheduling state) (sym e4 ∙ round_robin_item-scheduling state) in
      let (tail, all2, e5) = leads (SnapshotItem.queue (config_to_proto config)) _ own e3 in
      let (first, msgs, all3, e6, e7) = map_ok-append _ (message_items b txn keys) tail e5 in
      let marked : first ≡ marks = map_ok-injective first marks (sym e6 ∙ markers_ok unacked) in
      let (messages, reads, all4) = message_items-Reads txn keys msgs e7 in
      (
        messages,
        others,
        reads,
        assemble _ items front others own last tail first msgs marks _ (scheduling state) all all1
            all2 all3 marked all4 scheduled,
        e2,
      )

  module _ (M : MemoryQueue) where
    -- The items of the queues: for each the configuration as ToProto translates it, the markers of the
    -- messages in flight, the messages that stand under its prefix, and the captured scheduling state.
    unfoldable pub Parts :
        b.Db
        → List (Text × Queue M (badger_store b))
        → List (Text × SnapshotState)
        → List SnapshotItem
        → Type 0
    Parts txn [] states items = items ≡ []
    Parts txn ((name, q) ∷ queues) states items =
        let state = or_empty (Dict.lookup states name) in
        (config : QueueConfig) × (messages : List Message) × (others : List SnapshotItem)
        × (q.config ≡ some config)
        × Reads txn (b.keys_with txn (get_messages_prefix config.name)) messages
        × (items
            ≡ SnapshotItem.queue (config_to_proto config)
              ∷ (map (λ u. SnapshotItem.unacked_message u) state.unacked
                  ++ (map (λ m. SnapshotItem.message m) messages
                      ++ (scheduling state.round_robin ++ others))))
        × Parts txn queues states others

    pub queues_items-Parts :
        (txn : b.Db) (queues : List (Text × Queue M (badger_store b)))
        (states : List (Text × SnapshotState)) (rs : List (Result SnapshotItem))
        (items : List SnapshotItem)
        → queues_items M (badger_store b) (queue_items b) txn queues states ≡ some rs
        → rs ≡ map (λ i. ok i) items
        → Parts txn queues states items
    unfolding queues_items Parts
    queues_items-Parts txn [] states rs [] e all = refl
    queues_items-Parts txn [] states rs (i ∷ items) e all = cc
    queues_items-Parts txn ((name, q) ∷ queues) states rs items e all =
        elim (Option-cases q.config) [
          | inl missing ↦ cc (rw missing at e)
          | inr (config, conf) ↦
              elim (Option-cases
                (queues_items M (badger_store b) (queue_items b) txn queues states)) [
                  | inl none_there ↦ cc (rw (conf, none_there) at e)
                  | inr (later, found) ↦
                      let state = or_empty (Dict.lookup states name) in
                      let listed : some (
                            (queue_items b txn config state.unacked
                              ++ round_robin_item state.round_robin)
                            ++ later)
                          ≡ some rs =
                        rw (conf, found) at e in
                      let (messages, others, reads, made, rest) =
                        queue_part txn config state.unacked state.round_robin later items (cc) in
                      (
                        config,
                        messages,
                        others,
                        conf,
                        reads,
                        made,
                        queues_items-Parts txn queues states later others found rest,
                      )
                ]
        ]
