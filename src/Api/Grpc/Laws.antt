-- ===== src/Api/Grpc/Laws.antt =====
-- pkg/grpc/server.go with pkg/raft/commands.go: a client of a follower gets the leader's answer.
use doq.Common.{ℕ, ◌≡◌, refl, sym, ap, ◌∙◌, false, [], Option, none, some, Bool-cases, inl, inr}
use doq.Common.Int.{ℤ, pos}
use doq.Common.Text.{Text, bytes, text_eq, eq_of_text_eq}
use doq.Errors.{Error, Result, ok, err}
use doq.Entity.{Message, QueueSettings, to_strategy, to_proto}
use doq.Storage.{Store}
use doq.Memory.Interface.{MemoryQueue}
use doq.Queue.Config.{Kind}
use doq.Queue.Config.Laws.{to_uint32-idempotent}
use doq.Manager.{QueueManager}
use doq.Fsm.{Command}
use doq.Node
use doq.Node.{Cluster, Node, Reply, leader_grpc_addr, forward, submit, submit_for_message}
use doq.Api.Laws.{http_code-grpc_code}
use doq.Api.Grpc
use doq.Api.Grpc.{map_error, to_upper}

-- What a reply is worth to a client.
abbrev pub classified : {A : Type 0} → Result A → Result A
classified (ok a) = ok a
classified (err e) = err (map_error e)

abbrev pub no_content : Message
no_content = record {
  group = [];
  id = 0;
  priority = pos 0;
  content = [];
  metadata = none;
  delivery_count = 0;
}

-- A response that says no more than that the request succeeded.
abbrev pub bare : {A : Type 0} → Result A → Result Message
bare (ok _) = ok no_content
bare (err e) = err e

abbrev pub in_group : Text → Result Message → Result Message
in_group group (ok m) = ok (record m { group = group })
in_group group (err e) = err e

map_error-idempotent : (e : Error) → map_error (map_error e) ≡ map_error e
map_error-idempotent e = ap (λ c. Error.status c) (http_code-grpc_code e).1

classified-idempotent : {A : Type 0} (r : Result A) → classified (classified r) ≡ classified r
classified-idempotent (ok a) = refl
classified-idempotent (err e) = ap (λ x. err x) (map_error-idempotent e)

bare-classified :
    {A : Type 0} (r : Result A) → bare (classified (bare (classified r))) ≡ bare (classified r)
bare-classified (ok a) = refl
bare-classified (err e) = ap (λ x. err x) (map_error-idempotent e)

classified-in_group :
    (group : Text) (r : Result Message)
    → classified (in_group group (classified (in_group group r))) ≡ classified (in_group group r)
classified-in_group group (ok m) = refl
classified-in_group group (err e) = ap (λ x. err x) (map_error-idempotent e)

-- The settings that reach the log are the same after a second translation.
to_strategy-idempotent : (t : Text) → to_strategy (to_upper (to_strategy t)) ≡ to_strategy t
unfolding text_eq
to_strategy-idempotent t = elim (Bool-cases (text_eq t (bytes "ROUND_ROBIN"))) [
  | inl same ↦ rw (eq_of_text_eq t (bytes "ROUND_ROBIN") same) refl
  | inr differs ↦ elim (Bool-cases (text_eq t (bytes "WEIGHTED"))) [
    | inl same ↦ rw (eq_of_text_eq t (bytes "WEIGHTED") same) refl
    | inr differs' ↦ rw (differs, differs') refl
  ]
]

abbrev pub translated : QueueSettings → QueueSettings
translated s = to_proto (record s { strategy = to_upper s.strategy })

translated-idempotent : (s : QueueSettings) → translated (translated s) ≡ translated s
translated-idempotent s = λ i. record s {
  strategy = to_strategy-idempotent (to_upper s.strategy) i;
  max_unacked = to_uint32-idempotent s.max_unacked i;
}

module _ (M : MemoryQueue) (S : Store) (d : ℕ) (make : Kind → ℤ → M.State)
    (C : Cluster (QueueManager M S d make)) where
  -- What a client gets for the request that a command stands for. Dequeue, which a node may answer by
  -- itself, has none here, and no request stands for an expired deadline.
  unfoldable pub reply : Node M S d make C → Command → Option (Result Message)
  reply n (Command.enqueue q msg) = some (Grpc.enqueue M S d make C n q msg).0
  reply n (Command.get q id) = some (Grpc.get M S d make C n q id).0
  reply n (Command.delete q id) = some (bare (Grpc.delete M S d make C n q id).0)
  reply n (Command.ack q id) = some (bare (Grpc.ack M S d make C n q id).0)
  reply n (Command.nack q id priority metadata) =
      some (bare (Grpc.nack M S d make C n q id priority metadata).0)
  reply n (Command.touch q id) = some (bare (Grpc.touch M S d make C n q id).0)
  reply n (Command.update_priority q id priority) =
      some (bare (Grpc.update_priority M S d make C n q id priority).0)
  reply n (Command.create_queue c) =
      some (bare (Grpc.create_queue M S d make C n c.queue_type c.name (some c.settings)).0)
  reply n (Command.update_queue q settings) =
      some (bare (Grpc.update_queue M S d make C n q (some settings)).0)
  reply n (Command.delete_queue q) = some (bare (Grpc.delete_queue M S d make C n q).0)
  reply n (Command.dequeue q auto_ack) = none
  reply n (Command.ack_timeout q id) = none

  mapped-classified :
      {A : Type 0} (r : Reply M S d make C A) → (Grpc.mapped M S d make C r).0 ≡ classified r.0
  mapped-classified (ok a, n) = refl
  mapped-classified (err e, n) = refl

  in_group-on_ok :
      {A : Type 0} (group : Text) (f : A → Message) (r : Reply M S d make C A)
      → (Node.on_ok M S d make C (λ a. record (f a) { group = group }) r).0
        ≡ in_group group (Node.on_ok M S d make C (λ a. record (f a) { group = group }) r).0
  in_group-on_ok group f (ok a, n) = refl
  in_group-on_ok group f (err e, n) = refl

  on_ok-in_group :
      (group : Text) (r : Reply M S d make C Message)
      → (Node.on_ok M S d make C (λ (m : Message). record m { group = group }) r).0
        ≡ in_group group r.0
  on_ok-in_group group (ok a, n) = refl
  on_ok-in_group group (err e, n) = refl

  bare-on_ok :
      (r : Reply M S d make C Message)
      → bare (Grpc.mapped M S d make C (Node.on_ok M S d make C (λ _. tt) r)).0
        ≡ bare (classified r.0)
  bare-on_ok (ok a, n) = refl
  bare-on_ok (err e, n) = refl

  same_settings :
      (other : Node M S d make C) (c : QueueSettings → Command) (s : QueueSettings)
      → bare
          (Grpc.mapped M S d make C (submit M S d make C other (c (translated (translated s))))).0
        ≡ bare (Grpc.mapped M S d make C (submit M S d make C other (c (translated s)))).0
  same_settings other c s =
      ap (λ t. bare (Grpc.mapped M S d make C (submit M S d make C other (c t))).0)
        (translated-idempotent s)

  -- Every answer to Enqueue carries the group of the request.
  enqueue-in_group :
      (n : Node M S d make C) (q : Text) (msg : Message)
      → (Node.enqueue M S d make C n q msg).0
        ≡ in_group msg.group (Node.enqueue M S d make C n q msg).0
  unfolding Node.enqueue
  enqueue-in_group n q msg = elim (Bool-cases (C.is_leader n.cluster)) [
    | inl leads ↦ rw leads (in_group-on_ok msg.group (λ r. Node.response_message M S d make C r) _)
    | inr follows ↦ rw follows (in_group-on_ok msg.group (λ r. r) _)
  ]

  module _ (n : Node M S d make C) (follows : C.is_leader n.cluster ≡ false) (address : Text)
      (known : leader_grpc_addr M S d make C n ≡ ok address) where
    forward-call : (c : Command) → (forward M S d make C n c).0 ≡ (C.call n.cluster address c).0
    unfolding forward
    forward-call c = rw known refl

    submit_for_message-call :
        (c : Command) (x : Reply M S d make C Message)
        → (C.call n.cluster address c).0 ≡ (Grpc.mapped M S d make C x).0
        → some (Grpc.mapped M S d make C (submit_for_message M S d make C n c)).0
          ≡ some (Grpc.mapped M S d make C x).0
    submit_for_message-call c x e =
        rw (follows, submit_for_message)
          (ap (λ r. some r)
            (mapped-classified (forward M S d make C n c)
              ∙ (ap classified (forward-call c ∙ (e ∙ mapped-classified x))
                  ∙ (classified-idempotent x.0 ∙ sym (mapped-classified x)))))

    submit-call :
        (c : Command) (x : Reply M S d make C (Unit {0}))
        → (C.call n.cluster address c).0 ≡ bare (Grpc.mapped M S d make C x).0
        → some (bare (Grpc.mapped M S d make C (submit M S d make C n c)).0)
          ≡ some (bare (Grpc.mapped M S d make C x).0)
    submit-call c x e =
        rw (follows, submit)
          (ap (λ r. some r)
            (bare-on_ok (forward M S d make C n c)
              ∙ (ap (λ r. bare (classified r))
                    (forward-call c ∙ (e ∙ ap bare (mapped-classified x)))
                  ∙ (bare-classified x.0 ∙ sym (ap bare (mapped-classified x))))))

    enqueue-call :
        (other : Node M S d make C) (q : Text) (msg : Message)
        → (C.call n.cluster address (Command.enqueue q msg)).0
          ≡ (Grpc.mapped M S d make C (Node.enqueue M S d make C other q msg)).0
        → some (Grpc.mapped M S d make C (Node.enqueue M S d make C n q msg)).0
          ≡ some (Grpc.mapped M S d make C (Node.enqueue M S d make C other q msg)).0
    unfolding Node.enqueue
    enqueue-call other q msg e =
        let theirs = Node.enqueue M S d make C other q msg in
        let answer : (C.call n.cluster address (Command.enqueue q msg)).0
            ≡ classified (in_group msg.group theirs.0) =
          e ∙ (mapped-classified theirs ∙ ap classified (enqueue-in_group other q msg)) in
        let mine : (Node.enqueue M S d make C n q msg).0
            ≡ in_group msg.group (classified (in_group msg.group theirs.0)) =
          rw (follows, Node.enqueue)
            (on_ok-in_group msg.group (forward M S d make C n (Command.enqueue q msg))
              ∙ ap (in_group msg.group) (forward-call (Command.enqueue q msg) ∙ answer)) in
        ap (λ r. some r)
          (mapped-classified (Node.enqueue M S d make C n q msg)
            ∙ (ap classified mine
                ∙ (classified-in_group msg.group theirs.0
                    ∙ (ap classified (sym (enqueue-in_group other q msg))
                        ∙ sym (mapped-classified theirs)))))

    -- A client of a node that does not lead, but knows an address, gets for every request but Dequeue
    -- the answer that the node at that address gives to the same request: the same message, or a status
    -- error with the same code. Queue settings are those that the address's node would put into the log.
    -- Whether that node leads does not matter. The call over gRPC brings back that node's answer.
    pub reply-forwarded :
        (other : Node M S d make C)
        → ((c : Command) (r : Result Message)
            → reply other c ≡ some r
            → (C.call n.cluster address c).0 ≡ r)
        → (c : Command) → reply n c ≡ reply other c
    unfolding reply Grpc.enqueue Grpc.get Grpc.delete Grpc.ack Grpc.nack Grpc.touch
        Grpc.update_priority Grpc.create_queue Grpc.update_queue Grpc.delete_queue Node.enqueue
        Node.get Node.delete Node.ack Node.nack Node.touch Node.update_priority Node.create_queue
        Node.update_queue Node.delete_queue
    reply-forwarded other answers (Command.enqueue q msg) =
        enqueue-call other q msg (answers _ _ refl)
    reply-forwarded other answers (Command.get q id) =
        submit_for_message-call (Command.get q id) (Node.get M S d make C other q id)
          (answers _ _ refl)
    reply-forwarded other answers (Command.delete q id) =
        submit-call (Command.delete q id) (Node.delete M S d make C other q id) (answers _ _ refl)
    reply-forwarded other answers (Command.ack q id) =
        submit-call (Command.ack q id) (Node.ack M S d make C other q id) (answers _ _ refl)
    reply-forwarded other answers (Command.nack q id priority metadata) =
        submit-call (Command.nack q id priority metadata)
          (Node.nack M S d make C other q id priority metadata) (answers _ _ refl)
    reply-forwarded other answers (Command.touch q id) =
        submit-call (Command.touch q id) (Node.touch M S d make C other q id) (answers _ _ refl)
    reply-forwarded other answers (Command.update_priority q id priority) =
        submit-call (Command.update_priority q id priority)
          (Node.update_priority M S d make C other q id priority) (answers _ _ refl)
    reply-forwarded other answers (Command.create_queue config) =
        let settings = translated config.settings in
        let c = λ (s : QueueSettings). Command.create_queue (record config { settings = s }) in
        submit-call (c settings) (submit M S d make C other (c settings))
          (answers _ _ refl ∙ same_settings other c config.settings)
    reply-forwarded other answers (Command.update_queue q settings) =
        let kept = record settings { delivery_limit = 0 } in
        let c = λ (s : QueueSettings). Command.update_queue q s in
        submit-call (c (translated kept)) (submit M S d make C other (c (translated kept)))
          (answers _ _ refl ∙ same_settings other c kept)
    reply-forwarded other answers (Command.delete_queue q) =
        submit-call (Command.delete_queue q) (Node.delete_queue M S d make C other q)
          (answers _ _ refl)
    reply-forwarded other answers (Command.dequeue q auto_ack) = refl
    reply-forwarded other answers (Command.ack_timeout q id) = refl
