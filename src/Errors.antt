-- ===== src/Errors.antt =====
-- pkg/errors/errors.go, with the two kinds of failure of the database library that the code tells apart,
-- the gRPC status errors by their code, and the results of functions that return an error beside their
-- value.
use doq.Common.{ℕ, ◌≡◌, refl, ◌⊎◌, inl, inr}

pub data Error : Type 0 where
  queue_not_found : Error
  empty_queue : Error
  message_not_found : Error
  invalid_strategy : Error
  invalid_ack_timeout : Error
  invalid_max_unacked : Error
  invalid_queue_settings : Error
  no_raft_leader : Error
  not_raft_leader : Error
  key_not_found : Error
  failure : ℕ → Error
  status : ℕ → Error

pub data Result {ℓ} (A : Type ℓ) : Type ℓ where
  ok : A → Result A
  err : Error → Result A

-- `if err != nil { return err }` between two steps.
infixl 5 ◌>>?◌
abbrev pub ◌>>?◌ {ℓ κ} : {A : Type ℓ} {B : Type κ} → Result A → (A → Result B) → Result B
ok a >>? f = f a
err e >>? f = err e

-- badger.ErrKeyNotFound becomes ErrMessageNotFound.
abbrev pub found_or {ℓ} : {A : Type ℓ} → Result A → Result A
found_or (ok a) = ok a
found_or (err Error.key_not_found) = err Error.message_not_found
found_or (err Error.queue_not_found) = err Error.queue_not_found
found_or (err Error.empty_queue) = err Error.empty_queue
found_or (err Error.message_not_found) = err Error.message_not_found
found_or (err Error.invalid_strategy) = err Error.invalid_strategy
found_or (err Error.invalid_ack_timeout) = err Error.invalid_ack_timeout
found_or (err Error.invalid_max_unacked) = err Error.invalid_max_unacked
found_or (err Error.invalid_queue_settings) = err Error.invalid_queue_settings
found_or (err Error.no_raft_leader) = err Error.no_raft_leader
found_or (err Error.not_raft_leader) = err Error.not_raft_leader
found_or (err (Error.failure n)) = err (Error.failure n)
found_or (err (Error.status code)) = err (Error.status code)

pub Result-cases {ℓ} :
    {A : Type ℓ} (r : Result A) → ((a : A) × (r ≡ ok a)) ⊎ ((e : Error) × (r ≡ err e))
Result-cases (ok a) = inl (a, refl)
Result-cases (err e) = inr (e, refl)
