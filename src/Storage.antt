-- ===== src/Storage.antt =====
-- pkg/storage: the Store interface (store.go) and its implementation (badger_store.go, utils.go) over
-- Badger. Badger and protobuf are parameters: a database with get, set and delete by key, an ordered
-- listing of the keys with a prefix, and encodings. Each transaction is a step on the database; one
-- that fails leaves it alone.
pub mod Keys
pub mod Laws
pub mod DeleteQueue
pub mod Snapshot
pub mod Persist
pub mod Tests
use doq.Common.{
  ℕ, ◌+◌, ◌%◌, ◌^◌, Bool, true, false, List, [], ◌∷◌, Option, none, some, if◌then◌else◌, ◌==◌,
}
use doq.Common.Int.{ℤ, pos, eqb_ℤ}
use doq.Common.Text.{Text}
use doq.Errors.{Error, Result, ok, err, ◌>>?◌, found_or}
use doq.Entity.{Message, QueueConfig, QueueSettings, config_to_proto}
use doq.Storage.Keys
use doq.Storage.Keys.{get_queue_key, get_messages_key, get_messages_prefix}

pub record Store : Type 1 where
  pub State : Type 0
  pub load_queue : State → Text → Result QueueConfig
  pub create_queue : State → QueueConfig → Result State
  pub update_queue : State → QueueConfig → Result State
  pub delete_queue : State → Text → Result State
  pub delete_all : State → Result State
  pub enqueue : State → Text → Message → Result (Message × State)
  pub dequeue : State → Text → ℕ → Bool → Result (Message × State)
  pub get : State → Text → ℕ → Result Message
  pub delete : State → Text → ℕ → Result (Message × State)
  pub ack : State → Text → ℕ → Result State
  pub update_priority : State → Text → ℕ → ℤ → Result (Message × State)
  pub update_message : State → Text → ℕ → ℤ → Text → Option (List (Text × Text)) → Result State
  pub restore_message : State → Text → Message → Result State

-- badger.DB, and the protobuf encodings of the two stored types.
pub record Badger : Type 1 where
  pub Db : Type 0
  pub Bytes : Type 0
  pub get : Db → Text → Result Bytes
  pub set : Db → Text → Bytes → Result Db
  pub delete : Db → Text → Result Db
  pub keys_with : Db → Text → List Text
  pub drop_prefix : Db → List Text → Result Db
  pub marshal : Message → Result Bytes
  pub unmarshal : Bytes → Result Message
  pub marshal_config : QueueConfig → Result Bytes
  pub unmarshal_config : Bytes → Result QueueConfig

abbrev pub is_message_not_found : Error → Bool
is_message_not_found Error.message_not_found = true
is_message_not_found Error.queue_not_found = false
is_message_not_found Error.empty_queue = false
is_message_not_found Error.invalid_strategy = false
is_message_not_found Error.invalid_ack_timeout = false
is_message_not_found Error.invalid_max_unacked = false
is_message_not_found Error.invalid_queue_settings = false
is_message_not_found Error.key_not_found = false
is_message_not_found Error.no_raft_leader = false
is_message_not_found Error.not_raft_leader = false
is_message_not_found (Error.failure n) = false
is_message_not_found (Error.status code) = false

-- What UpdateMessage changes: a priority other than 0, a content that is not empty, a metadata map
-- that is not nil.
unfoldable pub changed_message : Message → ℤ → Text → Option (List (Text × Text)) → Message
changed_message msg priority content metadata = record msg {
  priority = if eqb_ℤ priority (pos 0) then msg.priority else priority;
  content = elim content [ [] ↦ msg.content | c ∷ cs ↦ c ∷ cs ];
  metadata = elim metadata [ none ↦ msg.metadata | some m ↦ some m ];
}

module _ (b : Badger) where
  unfoldable pub write_message : b.Db → Text → Message → Result b.Db
  write_message db queue_name msg =
      b.marshal msg >>? λ payload. b.set db (get_messages_key queue_name msg.id) payload

  unfoldable pub read_message : b.Db → Text → ℕ → Result Message
  read_message db queue_name id =
      b.get db (get_messages_key queue_name id) >>? λ val. b.unmarshal val

  unfoldable pub create_queue : b.Db → QueueConfig → Result b.Db
  create_queue db config = b.marshal_config (config_to_proto config) >>? λ payload.
      b.set db (get_queue_key config.name) payload

  unfoldable pub update_queue : b.Db → QueueConfig → Result b.Db
  update_queue db config = b.marshal_config (config_to_proto config) >>? λ payload.
      b.set db (get_queue_key config.name) payload

  unfoldable pub load_queue : b.Db → Text → Result QueueConfig
  load_queue db queue_name = b.get db (get_queue_key queue_name) >>? λ val. b.unmarshal_config val

  unfoldable pub delete_keys : b.Db → List Text → Result b.Db
  delete_keys db [] = ok db
  delete_keys db (key ∷ keys) = b.delete db key >>? λ db'. delete_keys db' keys

  unfoldable pub delete_queue : b.Db → Text → Result b.Db
  unfolding delete_keys
  delete_queue db queue_name =
      delete_keys db (b.keys_with db (get_messages_prefix queue_name)) >>? λ db'.
      b.delete db' (get_queue_key queue_name)

  unfoldable pub delete_all : b.Db → Result b.Db
  delete_all db = b.drop_prefix db (Keys.queues ∷ Keys.messages ∷ [])

  unfoldable pub enqueue : b.Db → Text → Message → Result (Message × b.Db)
  unfolding write_message
  enqueue db queue_name message =
      let msg = record message { delivery_count = 0 } in
      write_message db queue_name msg >>? λ db'. ok (msg, db')

  -- The delivery counter is a uint32.
  unfoldable pub dequeue : b.Db → Text → ℕ → Bool → Result (Message × b.Db)
  unfolding read_message
  dequeue db queue_name id ack = read_message db queue_name id >>? λ read.
      let msg = record read { delivery_count = (read.delivery_count + 1) % 2 ^ 32 } in
      if ack
      then (b.delete db (get_messages_key queue_name id) >>? λ db'. ok (msg, db'))
      else (b.marshal msg >>? λ payload.
          b.set db (get_messages_key queue_name id) payload >>? λ db'. ok (msg, db'))

  unfoldable pub get : b.Db → Text → ℕ → Result Message
  get db queue_name id =
      found_or (b.get db (get_messages_key queue_name id)) >>? λ val. b.unmarshal val

  -- Only a missing key is an error of the deletion itself; any other failure of it is ignored, and
  -- then the transaction has nothing to write.
  unfoldable pub delete : b.Db → Text → ℕ → Result (Message × b.Db)
  delete db queue_name id = found_or (b.get db (get_messages_key queue_name id)) >>? λ val.
      b.unmarshal val >>? λ msg.
      elim (found_or (b.delete db (get_messages_key queue_name msg.id))) [
        | ok db' ↦ ok (msg, db')
        | err e ↦ (if is_message_not_found e then err e else ok (msg, db))
      ]

  unfoldable pub ack : b.Db → Text → ℕ → Result b.Db
  ack db queue_name id = b.delete db (get_messages_key queue_name id)

  unfoldable pub update_priority : b.Db → Text → ℕ → ℤ → Result (Message × b.Db)
  unfolding read_message
  update_priority db queue_name id priority = read_message db queue_name id >>? λ read.
      let msg = record read { priority = priority } in
      b.marshal msg >>? λ payload.
      b.set db (get_messages_key queue_name id) payload >>? λ db'. ok (msg, db')

  unfoldable pub update_message :
      b.Db → Text → ℕ → ℤ → Text → Option (List (Text × Text)) → Result b.Db
  unfolding read_message
  update_message db queue_name id priority content metadata =
      read_message db queue_name id >>? λ read.
      b.marshal (changed_message read priority content metadata) >>? λ payload.
      b.set db (get_messages_key queue_name id) payload

  unfoldable pub restore_message : b.Db → Text → Message → Result b.Db
  unfolding write_message
  restore_message db queue_name msg = write_message db queue_name msg

  abbrev pub badger_store : Store
  badger_store = record {
    State = b.Db;
    load_queue = load_queue;
    create_queue = create_queue;
    update_queue = update_queue;
    delete_queue = delete_queue;
    delete_all = delete_all;
    enqueue = enqueue;
    dequeue = dequeue;
    get = get;
    delete = delete;
    ack = ack;
    update_priority = update_priority;
    update_message = update_message;
    restore_message = restore_message;
  }
