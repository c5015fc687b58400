-- ===== src/Storage/Laws.antt =====
-- pkg/storage/badger_store.go: what the operations on messages promise their callers, over a database
-- that keeps its promises.
use doq.Common.{
  ℕ, ◌+◌, ◌%◌, ◌^◌, ◌<◌, ◌≡◌, ◌≢◌, refl, sym, ap, ◌∙◌, Bool, true, false, [], some, ◌⊎◌, inl, inr,
  if◌then◌else◌,
}
use doq.Common.Int.{ℤ}
use doq.Common.Text.{Text}
use doq.Errors.{Error, Result, ok, err, ◌>>?◌, found_or}
use doq.Entity.{Message, QueueConfig, config_to_proto}
use doq.Storage
use doq.Storage.{Store, Badger, badger_store, write_message, read_message}
use doq.Storage.Keys.{get_queue_key, get_messages_key, get_messages_key-injective}

-- Badger's documented behaviour: a read sees the last write to its key, a deleted key is not found,
-- and other keys are not affected. Protobuf decodes what it
-- encoded; an empty map comes back as nil, and a configuration is a pb.Queue as ToProto makes them: with
-- the name of a strategy of the enumeration and a limit of 32 bits.
pub record IsLawful (b : Badger) : Type 0 where
  pub get_set :
      (db db' : b.Db) (k : Text) (v : b.Bytes) → b.set db k v ≡ ok db' → b.get db' k ≡ ok v
  pub get_set_other :
      (db db' : b.Db) (k j : Text) (v : b.Bytes)
      → b.set db k v ≡ ok db'
      → j ≢ k
      → b.get db' j ≡ b.get db j
  pub get_delete :
      (db db' : b.Db) (k : Text) → b.delete db k ≡ ok db' → b.get db' k ≡ err Error.key_not_found
  pub get_delete_other :
      (db db' : b.Db) (k j : Text) → b.delete db k ≡ ok db' → j ≢ k → b.get db' j ≡ b.get db j
  pub decoded :
      (m : Message) (v : b.Bytes) → m.metadata ≢ some [] → b.marshal m ≡ ok v → b.unmarshal v ≡ ok m
  pub decoded_config :
      (c : QueueConfig) (v : b.Bytes)
      → b.marshal_config (config_to_proto c) ≡ ok v
      → b.unmarshal_config v ≡ ok (config_to_proto c)

pub >>?-inv {ℓ κ} :
    {A : Type ℓ} {B : Type κ} (r : Result A) (f : A → Result B) (y : B)
    → (r >>? f) ≡ ok y
    → (x : A) × (r ≡ ok x) × (f x ≡ ok y)
>>?-inv (ok x) f y e = (x, refl, e)
>>?-inv (err e') f y e = cc

-- The key of another message, of the same queue or another.
other_key :
    (q r : Text) (i j : ℕ)
    → i < 2 ^ 64
    → j < 2 ^ 64
    → (q ≢ r) ⊎ (i ≢ j)
    → get_messages_key q i ≢ get_messages_key r j
other_key q r i j hi hj (inl ne) e = ne (get_messages_key-injective q r i j hi hj e).0
other_key q r i j hi hj (inr ne) e = ne (get_messages_key-injective q r i j hi hj e).1

pub found_or-inv {ℓ} : {A : Type ℓ} (r : Result A) (x : A) → found_or r ≡ ok x → r ≡ ok x
found_or-inv (ok a) x e = e
found_or-inv (err Error.key_not_found) x e = cc
found_or-inv (err Error.queue_not_found) x e = cc
found_or-inv (err Error.empty_queue) x e = cc
found_or-inv (err Error.message_not_found) x e = cc
found_or-inv (err Error.invalid_strategy) x e = cc
found_or-inv (err Error.invalid_ack_timeout) x e = cc
found_or-inv (err Error.invalid_max_unacked) x e = cc
found_or-inv (err Error.invalid_queue_settings) x e = cc
found_or-inv (err Error.no_raft_leader) x e = cc
found_or-inv (err Error.not_raft_leader) x e = cc
found_or-inv (err (Error.failure n)) x e = cc
found_or-inv (err (Error.status code)) x e = cc

read_message_of_get :
    (b : Badger) (db : b.Db) (q : Text) (i : ℕ) (m : Message)
    → Storage.get b db q i ≡ ok m
    → read_message b db q i ≡ ok m
unfolding Storage.get read_message
read_message_of_get b db q i m e =
    let (v, p, s) = >>?-inv (found_or (b.get db (get_messages_key q i))) _ m e in
    rw (found_or-inv (b.get db (get_messages_key q i)) v p) s

-- What Delete does with the message that it read.
abbrev drop_key : (b : Badger) → b.Db → Text → Message → Result (Message × b.Db)
drop_key b db q msg = elim (found_or (b.delete db (get_messages_key q msg.id))) [
  | ok db' ↦ ok (msg, db')
  | err e ↦ (if Storage.is_message_not_found e then err e else ok (msg, db))
]

-- Deleting a message that is stored under its id gives it back, when the database deletes its key.
pub delete_of_get :
    (b : Badger) (db db' : b.Db) (q : Text) (m : Message)
    → Storage.get b db q m.id ≡ ok m
    → b.delete db (get_messages_key q m.id) ≡ ok db'
    → Storage.delete b db q m.id ≡ ok (m, db')
unfolding Storage.get Storage.delete
delete_of_get b db db' q m e d =
    let (v, p, s) = >>?-inv (found_or (b.get db (get_messages_key q m.id))) _ m e in
    let kept = ap (λ r. r >>? drop_key b db q) s ∙ dropped in rw p kept
  where
    dropped : drop_key b db q m ≡ ok (m, db')
    dropped = rw (d, drop_key)

module _ (b : Badger) (laws : IsLawful b) where
  get_of_set :
      (db db' : b.Db) (q : Text) (i : ℕ) (m : Message) (v : b.Bytes)
      → m.metadata ≢ some []
      → b.marshal m ≡ ok v
      → b.set db (get_messages_key q i) v ≡ ok db'
      → Storage.get b db' q i ≡ ok m
  unfolding Storage.get
  get_of_set db db' q i m v plain p s =
      rw (laws.get_set db db' (get_messages_key q i) v s) (laws.decoded m v plain p)

  pub get_of_delete :
      (db db' : b.Db) (q : Text) (i : ℕ)
      → b.delete db (get_messages_key q i) ≡ ok db'
      → Storage.get b db' q i ≡ err Error.message_not_found
  unfolding Storage.get
  get_of_delete db db' q i e = rw (laws.get_delete db db' (get_messages_key q i) e) refl

  write_message_lem :
      (db db' : b.Db) (q : Text) (m : Message)
      → m.metadata ≢ some []
      → write_message b db q m ≡ ok db'
      → Storage.get b db' q m.id ≡ ok m
  unfolding write_message
  write_message_lem db db' q m plain e =
      let (v, p, s) = >>?-inv (b.marshal m) _ db' e in get_of_set db db' q m.id m v plain p s

  write_message-other :
      (db db' : b.Db) (q r : Text) (m : Message) (j : ℕ)
      → m.id < 2 ^ 64
      → j < 2 ^ 64
      → (r ≢ q) ⊎ (j ≢ m.id)
      → write_message b db q m ≡ ok db'
      → Storage.get b db' r j ≡ Storage.get b db r j
  unfolding write_message Storage.get
  write_message-other db db' q r m j hi hj ne e =
      let (v, p, s) = >>?-inv (b.marshal m) _ db' e in
      rw (
        laws.get_set_other db db' (get_messages_key q m.id) (get_messages_key r j) v s
          (other_key r q j m.id hj hi ne))

  -- A message that Enqueue stores is read back with a delivery count of 0, and no other message of
  -- any queue is affected.
  pub store-enqueue_lem :
      (db db' : b.Db) (q : Text) (m m' : Message)
      → m.id < 2 ^ 64
      → m.metadata ≢ some []
      → Storage.enqueue b db q m ≡ ok (m', db')
      → (Storage.get b db' q m.id ≡ ok m')
        × (m' ≡ record m { delivery_count = 0 })
        × ((r : Text) (j : ℕ)
            → j < 2 ^ 64
            → (r ≢ q) ⊎ (j ≢ m.id)
            → Storage.get b db' r j ≡ Storage.get b db r j)
  unfolding Storage.enqueue
  store-enqueue_lem db db' q m m' hi plain e =
      let fresh = record m { delivery_count = 0 } in
      let (db2, p, s) = >>?-inv (write_message b db q fresh) _ (m', db') e in
      let same : fresh ≡ m' = cc in
      let there : db2 ≡ db' = cc in
      (
        rw (← same, ← there) (write_message_lem db db2 q fresh plain p),
        sym same,
        λ r j hj ne. rw (← there) (write_message-other db db2 q r fresh j hi hj ne p),
      )

  -- A message that Ack takes out is not found any more, and no other message is affected.
  pub store-ack_lem :
      (db db' : b.Db) (q : Text) (i : ℕ)
      → i < 2 ^ 64
      → Storage.ack b db q i ≡ ok db'
      → (Storage.get b db' q i ≡ err Error.message_not_found)
        × ((r : Text) (j : ℕ)
            → j < 2 ^ 64
            → (r ≢ q) ⊎ (j ≢ i)
            → Storage.get b db' r j ≡ Storage.get b db r j)
  unfolding Storage.ack Storage.get
  store-ack_lem db db' q i hi e = (
    get_of_delete db db' q i e,
    λ r j hj ne.
        rw
          (laws.get_delete_other db db' (get_messages_key q i) (get_messages_key r j) e
            (other_key r q j i hj hi ne))
          refl,
  )

  -- A delivery adds 1 to the stored delivery count, modulo 2 ^ 32. With automatic acknowledgement the
  -- message is then gone; otherwise it stays, with the new count and no other change.
  pub store-dequeue_lem :
      (db db' : b.Db) (q : Text) (i : ℕ) (ack : Bool) (m m' : Message)
      → Storage.get b db q i ≡ ok m
      → m.metadata ≢ some []
      → Storage.dequeue b db q i ack ≡ ok (m', db')
      → (m' ≡ record m { delivery_count = (m.delivery_count + 1) % 2 ^ 32 })
        × (Storage.get b db' q i ≡ (if ack then err Error.message_not_found else ok m'))
  unfolding Storage.dequeue
  store-dequeue_lem db db' q i true m m' stored plain e =
      let n = record m { delivery_count = (m.delivery_count + 1) % 2 ^ 32 } in
      let e' = rw (read_message_of_get b db q i m stored) at e in
      let (db2, p, s) = >>?-inv (b.delete db (get_messages_key q i)) _ (m', db') e' in
      let same : n ≡ m' = cc in
      let there : db2 ≡ db' = cc in (sym same, rw (← there) (get_of_delete db db2 q i p))
  store-dequeue_lem db db' q i false m m' stored plain e =
      let n = record m { delivery_count = (m.delivery_count + 1) % 2 ^ 32 } in
      let e' = rw (read_message_of_get b db q i m stored) at e in
      let (v, p, s) = >>?-inv (b.marshal n) _ (m', db') e' in
      let (db2, t, u) = >>?-inv (b.set db (get_messages_key q i) v) _ (m', db') s in
      let same : n ≡ m' = cc in
      let there : db2 ≡ db' = cc in
      (sym same, rw (← there) (get_of_set db db2 q i n v plain p t ∙ ap ok same))

  -- LoadQueue finds under its name what CreateQueue stored, as ToProto translates it.
  pub store-create_queue_lem :
      (db db' : b.Db) (c : QueueConfig)
      → Storage.create_queue b db c ≡ ok db'
      → Storage.load_queue b db' c.name ≡ ok (config_to_proto c)
  unfolding Storage.create_queue Storage.load_queue
  store-create_queue_lem db db' c e =
      let (v, p, s) = >>?-inv (b.marshal_config (config_to_proto c)) _ db' e in
      rw (laws.get_set db db' (get_queue_key c.name) v s) (laws.decoded_config c v p)

  -- The same of a configuration that UpdateQueue stores.
  pub store-update_queue_lem :
      (db db' : b.Db) (c : QueueConfig)
      → Storage.update_queue b db c ≡ ok db'
      → Storage.load_queue b db' c.name ≡ ok (config_to_proto c)
  unfolding Storage.update_queue Storage.load_queue
  store-update_queue_lem db db' c e =
      let (v, p, s) = >>?-inv (b.marshal_config (config_to_proto c)) _ db' e in
      rw (laws.get_set db db' (get_queue_key c.name) v s) (laws.decoded_config c v p)

  -- A message that a snapshot restores is stored as it was, its delivery count included.
  pub store-restore_message_lem :
      (db db' : b.Db) (q : Text) (m : Message)
      → m.metadata ≢ some []
      → Storage.restore_message b db q m ≡ ok db'
      → Storage.get b db' q m.id ≡ ok m
  unfolding Storage.restore_message
  store-restore_message_lem db db' q m plain e = write_message_lem db db' q m plain e

  -- A message whose priority the store updates is read back with the new priority.
  pub store-update_priority_lem :
      (db db' : b.Db) (q : Text) (i : ℕ) (priority : ℤ) (m m' : Message)
      → Storage.get b db q i ≡ ok m
      → m.metadata ≢ some []
      → Storage.update_priority b db q i priority ≡ ok (m', db')
      → Storage.get b db' q i ≡ ok (record m { priority = priority })
  unfolding Storage.update_priority
  store-update_priority_lem db db' q i priority m m' stored plain e =
      let n = record m { priority = priority } in
      let (v, p, s) =
        >>?-inv (b.marshal n) _ (m', db') (rw (read_message_of_get b db q i m stored) at e) in
      let (db2, t, u) = >>?-inv (b.set db (get_messages_key q i) v) _ (m', db') s in
      let there : db2 ≡ db' = cc in rw (← there) (get_of_set db db2 q i n v plain p t)
