-- ===== src/Parameter.antt =====
-- parameter.h: the constants that the components share.
use blockchain_raft.Base.{ℕ, ℤ, negsuc}

abbrev pub client_count : ℕ
client_count = 3

abbrev pub server_count : ℕ
server_count = 3

abbrev pub null_candidate_id : ℤ
null_candidate_id = negsuc 0

abbrev pub election_timeout_ms : ℕ
election_timeout_ms = 10_000

abbrev pub client_base_port : ℕ
client_base_port = 11_000

abbrev pub client_port_mult : ℕ
client_port_mult = 10

abbrev pub client_req_timeout_ms : ℕ
client_req_timeout_ms = 5000

abbrev pub replica_client_base_port : ℕ
replica_client_base_port = 8900

abbrev pub heartbeat_period_ms : ℕ
heartbeat_period_ms = 2000

abbrev pub leader_handle_time_ms : ℕ
leader_handle_time_ms = 7000
