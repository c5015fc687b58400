-- ===== src/Queue/Config/Laws.antt =====
-- pkg/queue/queue.go: what CreateQueue stores is what Load finds.
use doq.Common.{
  ℕ, ◌≡◌, refl, ap, ◌∙◌, some, arith, ltb, ◌==◌, Returns, returns, Bool-cases, inl, inr,
}
use doq.Common.Int.{ℤ, pos, negsuc}
use doq.Common.Text.{Text, bytes, text_eq, eq_of_text_eq}
use doq.Errors.{Result, ok, ◌>>?◌}
use doq.Entity.{QueueConfig, QueueSettings, to_strategy, to_uint32, to_proto, config_to_proto}
use doq.Storage.{Store, Badger, badger_store}
use doq.Storage
use doq.Storage.Laws.{IsLawful, store-create_queue_lem, >>?-inv}
use doq.Memory.Interface.{MemoryQueue}
use doq.Queue.{Queue, new_queue}
use doq.Queue.Config.{Kind, check_kind, with_ack_timeout, create_queue, load, init}

to_strategy-idempotent : (t : Text) → to_strategy (to_strategy t) ≡ to_strategy t
unfolding text_eq
to_strategy-idempotent t = elim (Bool-cases (text_eq t (bytes "ROUND_ROBIN"))) [
  | inl same ↦ rw (eq_of_text_eq t (bytes "ROUND_ROBIN") same) refl
  | inr differs ↦ elim (Bool-cases (text_eq t (bytes "WEIGHTED"))) [
    | inl same ↦ rw (eq_of_text_eq t (bytes "WEIGHTED") same) refl
    | inr differs' ↦ rw (differs, differs') refl
  ]
]

pub to_uint32-idempotent : (n : ℤ) → to_uint32 (to_uint32 n) ≡ to_uint32 n
to_uint32-idempotent (pos n) = ap (λ k. pos k) (omega arith)
to_uint32-idempotent (negsuc n) = ap (λ k. pos k) (omega arith)

to_proto-idempotent : (s : QueueSettings) → to_proto (to_proto s) ≡ to_proto s
to_proto-idempotent s = λ i. record s {
  strategy = to_strategy-idempotent s.strategy i;
  max_unacked = to_uint32-idempotent s.max_unacked i;
}

-- The default timeout does not undo the translation.
with_ack_timeout-to_proto :
    (d : ℕ) (s settings : QueueSettings)
    → with_ack_timeout d (to_proto s) ≡ ok settings
    → to_proto settings ≡ settings
unfolding with_ack_timeout
with_ack_timeout-to_proto d s settings e = elim (Bool-cases (s.ack_timeout == 0)) [
  | inl zero ↦
      let same : record (to_proto s) { ack_timeout = d } ≡ settings = cc (rw zero at e) in
      let change : QueueSettings → QueueSettings = λ t. record t { ack_timeout = d } in
      rw (← same) (ap change (to_proto-idempotent s))
  | inr given ↦ elim (Bool-cases (ltb s.ack_timeout 10)) [
    | inl small ↦ cc (rw (given, small) at e)
    | inr large ↦
        let same : to_proto s ≡ settings = cc (rw (given, large) at e) in
        rw (← same) (to_proto-idempotent s)
  ]
]

module _ (b : Badger) (laws : IsLawful b) (M : MemoryQueue) (d : ℕ)
    (make : Kind → ℤ → M.State) where
  -- A configuration reaches CreateQueue as protobuf has translated it for the command. When the checks
  -- accept its settings and the store keeps them, CreateQueue succeeds, and loading the queue from the
  -- store again, where protobuf translates once more, gives the same configuration, the default timeout
  -- included, and the same empty memory queue.
  pub create_queue-load :
      (q : Queue M (badger_store b)) (given : QueueConfig) (settings : QueueSettings) (db : b.Db)
      → (check_kind given.queue_type (to_proto given.settings) >>? λ _.
          with_ack_timeout d (to_proto given.settings))
        ≡ ok settings
      → Storage.create_queue b q.store (record given { settings = settings }) ≡ ok db
      → Returns
          (λ (r : Result (Unit {0}) × Queue M (badger_store b)).
            (r.0 ≡ ok tt)
            × (r.1.config ≡ some (record given { settings = settings }))
            × (load M (badger_store b) d make (new_queue M (badger_store b) r.1.store) given.name
                ≡ some (
                  ok tt,
                  record (new_queue M (badger_store b) r.1.store) {
                    config = r.1.config;
                    queue = r.1.queue;
                  },
                )))
          (create_queue M (badger_store b) d make q (config_to_proto given))
  unfolding create_queue load init
  create_queue-load q given settings db accepted stored =
      let checked = record given { settings = settings } in
      let (u, p, s) =
        >>?-inv (check_kind given.queue_type (to_proto given.settings)) _ settings accepted in
      let plain : to_proto settings ≡ settings =
        with_ack_timeout-to_proto d given.settings settings s in
      let found =
        store-create_queue_lem b laws q.store db checked stored
        ∙ ap (λ t. ok (record given { settings = t })) plain in
      rw (accepted, create_queue, stored) (returns (refl, refl, rw (found, load)))
