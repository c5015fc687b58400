-- ===== src/Api/Http.antt =====
-- pkg/http/messages.go, queues.go and cluster.go: the handlers of requests, over a node. A response is
-- its body, or the status of an error; the words in it, and logging, are left out. Ids are in it as
-- strconv.Itoa prints them, after a conversion to int.
use doq.Common.{
  ℕ, ◌+◌, ◌*◌, ◌-◌, ◌^◌, Bool, ◌&&◌, List, [], ◌∷◌, map, Option, some, ◌>>=◌, leb, ltb,
  if◌then◌else◌,
}
use doq.Common.Int.{ℤ, pos, negsuc}
use doq.Common.Text.{Text}
use doq.Errors.{Result, ok, err}
use doq.Entity.{Message, QueueConfig, QueueSettings}
use doq.Storage.{Store}
use doq.Memory.Interface.{MemoryQueue}
use doq.Queue.Config.{Kind}
use doq.Manager.{QueueManager}
use doq.Node
use doq.Node.{Cluster, Node, Reply}
use doq.Node.Members.{Membership, join, leave}
use doq.Api.{http_code}
use doq.Api.Grpc.{to_upper, next_ids}

pub data Response (A : Type 0) : Type 0 where
  body : A → Response A
  failed : ℕ → Response A

-- strconv.ParseUint(s, 10, 64), whose error is dropped: 0 for what is not a number, and the greatest
-- number for one that is out of range.
unfoldable pub parse_digits : ℕ → Text → ℕ
parse_digits n [] = n
parse_digits n (c ∷ rest) =
    let next = n * 10 + (c - 48) in
    let later = parse_digits next rest in
    if leb 48 c && leb c 57 then (if ltb next (2 ^ 64) then later else 2 ^ 64 - 1) else 0

-- int of a uint64.
abbrev pub to_int : ℕ → ℤ
to_int n = if ltb n (2 ^ 63) then pos n else negsuc (2 ^ 64 - 1 - n)

pub record MessageBody : Type 0 where
  pub id : ℤ
  pub group : Text
  pub priority : ℤ
  pub content : Text
  pub metadata : Option (List (Text × Text))
  pub delivery_count : ℕ

pub record EnqueueBody : Type 0 where
  pub id : Text
  pub group : Text
  pub priority : ℤ
  pub content : Text
  pub metadata : Option (List (Text × Text))

-- The body of Enqueue repeats the request, but for the id and the delivery count.
abbrev pub enqueued_body : EnqueueBody → Message → MessageBody
enqueued_body input msg = record {
  id = to_int msg.id;
  group = input.group;
  priority = input.priority;
  content = input.content;
  metadata = input.metadata;
  delivery_count = msg.delivery_count;
}

abbrev pub message_body : Message → MessageBody
message_body msg = record {
  id = to_int msg.id;
  group = msg.group;
  priority = msg.priority;
  content = msg.content;
  metadata = msg.metadata;
  delivery_count = msg.delivery_count;
}

abbrev pub with_upper : QueueSettings → QueueSettings
with_upper settings = record settings { strategy = to_upper settings.strategy }

module _ (M : MemoryQueue) (S : Store) (d : ℕ) (make : Kind → ℤ → M.State)
    (C : Cluster (QueueManager M S d make)) where
  abbrev pub Answer : Type 0 → Type 0
  Answer A = Response A × Node M S d make C

  abbrev pub respond : {A B : Type 0} → (A → B) → Reply M S d make C A → Answer B
  respond f (ok a, n) = (Response.body (f a), n)
  respond f (err e, n) = (Response.failed (http_code e), n)

  -- An id that is not given is 0, for a new one.
  unfoldable pub enqueue : Node M S d make C → Text → EnqueueBody → Answer MessageBody
  unfolding parse_digits
  enqueue n queue_name input = respond (enqueued_body input) (
      Node.enqueue M S d make C n queue_name (record {
        group = input.group;
        id = elim input.id [ [] ↦ 0 | c ∷ rest ↦ parse_digits 0 (c ∷ rest) ];
        priority = input.priority;
        content = input.content;
        metadata = input.metadata;
        delivery_count = 0;
      }))

  unfoldable pub dequeue : Node M S d make C → Text → Bool → ℤ → Option (Answer MessageBody)
  dequeue n queue_name ack now = do
    r ← Node.dequeue M S d make C n queue_name ack now
    some (respond message_body r)

  unfoldable pub get : Node M S d make C → Text → ℕ → Answer MessageBody
  get n queue_name id = respond message_body (Node.get M S d make C n queue_name id)

  unfoldable pub delete : Node M S d make C → Text → ℕ → Answer (Unit {0})
  delete n queue_name id = respond (λ u. u) (Node.delete M S d make C n queue_name id)

  unfoldable pub ack : Node M S d make C → Text → ℕ → Answer ℤ
  ack n queue_name id = respond (λ _. to_int id) (Node.ack M S d make C n queue_name id)

  unfoldable pub nack :
      Node M S d make C
      → Text
      → ℕ
      → ℤ
      → Option (List (Text × Text))
      → Answer (ℤ × Option (List (Text × Text)))
  nack n queue_name id priority metadata =
      respond (λ _. (to_int id, metadata))
        (Node.nack M S d make C n queue_name id priority metadata)

  unfoldable pub touch : Node M S d make C → Text → ℕ → Answer ℤ
  touch n queue_name id = respond (λ _. to_int id) (Node.touch M S d make C n queue_name id)

  unfoldable pub update_priority : Node M S d make C → Text → ℕ → ℤ → Answer (ℤ × ℤ)
  update_priority n queue_name id priority =
      respond (λ _. (to_int id, priority))
        (Node.update_priority M S d make C n queue_name id priority)

  -- The number of ids is checked by the schema of the request.
  unfoldable pub generate_id : Node M S d make C → ℕ → Answer (List ℤ)
  generate_id n number =
      let r = next_ids M S d make C number n.cluster in
      (Response.body (map to_int r.0), record n { cluster = r.1 })

  unfoldable pub create_queue : Node M S d make C → QueueConfig → Answer QueueConfig
  create_queue n input =
      let settings = with_upper input.settings in
      respond (λ _. record input { settings = settings })
        (Node.create_queue M S d make C n input.queue_type input.name settings)

  unfoldable pub update_queue :
      Node M S d make C → Text → QueueSettings → Answer (Text × QueueSettings)
  update_queue n queue_name input =
      let settings = with_upper input in
      respond (λ _. (queue_name, settings)) (Node.update_queue M S d make C n queue_name settings)

  unfoldable pub delete_queue : Node M S d make C → Text → Answer (Unit {0})
  delete_queue n queue_name = respond (λ u. u) (Node.delete_queue M S d make C n queue_name)

-- The handlers of the cluster give the error on as it is.
module _ (R : Membership) where
  unfoldable pub join_cluster : R.State → Text → Text → Result ((Text × Text) × R.State)
  join_cluster s id addr = elim (join R s id addr) [ err e ↦ err e | ok s' ↦ ok ((id, addr), s') ]

  unfoldable pub leave_cluster : R.State → Text → Result (Text × R.State)
  leave_cluster s id = elim (leave R s id) [ err e ↦ err e | ok s' ↦ ok (id, s') ]
