-- ===== src/Api/Laws.antt =====
-- pkg/grpc/errors.go and pkg/http/errors.go: an error that comes from the leader by gRPC.
use doq.Common.{◌≡◌, refl, Bool, true, false, if◌then◌else◌}
use doq.Errors.{Error}
use doq.Api.{grpc_code, http_code}

abbrev pub is_no_raft_leader : Error → Bool
is_no_raft_leader Error.no_raft_leader = true
is_no_raft_leader Error.queue_not_found = false
is_no_raft_leader Error.message_not_found = false
is_no_raft_leader Error.empty_queue = false
is_no_raft_leader Error.invalid_strategy = false
is_no_raft_leader Error.invalid_ack_timeout = false
is_no_raft_leader Error.invalid_max_unacked = false
is_no_raft_leader Error.invalid_queue_settings = false
is_no_raft_leader Error.not_raft_leader = false
is_no_raft_leader Error.key_not_found = false
is_no_raft_leader (Error.failure n) = false
is_no_raft_leader (Error.status code) = false

-- An HTTP client gets the same status for an error whether the node that it asks has met the error itself,
-- or has it from the gRPC service of the node that it asked in turn; only "no raft leader available", which
-- is 503 at first hand, is 500 at second hand. A second hop does not change the gRPC code.
pub http_code-grpc_code :
    (e : Error)
    → (http_code (Error.status (grpc_code e)) ≡ (if is_no_raft_leader e then 500 else http_code e))
      × (grpc_code (Error.status (grpc_code e)) ≡ grpc_code e)
unfolding http_code grpc_code
http_code-grpc_code Error.queue_not_found = (refl, refl)
http_code-grpc_code Error.message_not_found = (refl, refl)
http_code-grpc_code Error.empty_queue = (refl, refl)
http_code-grpc_code Error.invalid_strategy = (refl, refl)
http_code-grpc_code Error.invalid_ack_timeout = (refl, refl)
http_code-grpc_code Error.invalid_max_unacked = (refl, refl)
http_code-grpc_code Error.invalid_queue_settings = (refl, refl)
http_code-grpc_code Error.no_raft_leader = (refl, refl)
http_code-grpc_code Error.not_raft_leader = (refl, refl)
http_code-grpc_code Error.key_not_found = (refl, refl)
http_code-grpc_code (Error.failure n) = (refl, refl)
http_code-grpc_code (Error.status code) = (refl, refl)
