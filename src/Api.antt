-- ===== src/Api.antt =====
-- pkg/grpc/errors.go and pkg/http/errors.go: what clients see of an error. The wording is left out.
pub mod Laws
pub mod Grpc
pub mod Http
mod Tests
use doq.Common.{ℕ, if◌then◌else◌, ◌==◌}
use doq.Errors.{Error}

-- The codes of google.golang.org/grpc/codes that the services use.
abbrev pub invalid_argument : ℕ
invalid_argument = 3

abbrev pub not_found : ℕ
not_found = 5

abbrev pub internal : ℕ
internal = 13

abbrev pub unavailable : ℕ
unavailable = 14

-- mapError of pkg/grpc: the code of the status error that a client of the gRPC service gets.
unfoldable pub grpc_code : Error → ℕ
grpc_code Error.queue_not_found = not_found
grpc_code Error.message_not_found = not_found
grpc_code Error.empty_queue = not_found
grpc_code Error.invalid_strategy = invalid_argument
grpc_code Error.invalid_ack_timeout = invalid_argument
grpc_code Error.invalid_max_unacked = invalid_argument
grpc_code Error.invalid_queue_settings = invalid_argument
grpc_code Error.no_raft_leader = unavailable
grpc_code (Error.status code) = code
grpc_code Error.not_raft_leader = internal
grpc_code Error.key_not_found = internal
grpc_code (Error.failure n) = internal

abbrev pub status_code : ℕ → ℕ
status_code code = if code == not_found then 404 else if code == invalid_argument then 422 else 500

-- mapError of pkg/http: the status of the response.
unfoldable pub http_code : Error → ℕ
http_code Error.queue_not_found = 404
http_code Error.message_not_found = 404
http_code Error.empty_queue = 404
http_code Error.invalid_strategy = 422
http_code Error.invalid_ack_timeout = 422
http_code Error.invalid_max_unacked = 422
http_code Error.invalid_queue_settings = 422
http_code Error.no_raft_leader = 503
http_code (Error.status code) = status_code code
http_code Error.not_raft_leader = 500
http_code Error.key_not_found = 500
http_code (Error.failure n) = 500
