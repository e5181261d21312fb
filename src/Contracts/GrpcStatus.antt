-- ===== src/Contracts/GrpcStatus.antt =====
-- The status codes of gRPC that the services name, by their numbers in the protocol.
use polyglot_ticketing_v.Base.{ℕ}

abbrev pub invalid_argument : ℕ
invalid_argument = 3

abbrev pub not_found : ℕ
not_found = 5

abbrev pub already_exists : ℕ
already_exists = 6

abbrev pub permission_denied : ℕ
permission_denied = 7

abbrev pub resource_exhausted : ℕ
resource_exhausted = 8

abbrev pub internal : ℕ
internal = 13

abbrev pub unavailable : ℕ
unavailable = 14

abbrev pub unauthenticated : ℕ
unauthenticated = 16
