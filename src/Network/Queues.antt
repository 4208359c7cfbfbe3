-- ===== src/Network/Queues.antt =====
-- The sending functions of network.cpp against the queue of received messages.
use blockchain_raft.Base.{ℕ, zero, suc, ◌+◌, ◌≡◌, refl, arith, ◌==◌, if◌then◌else◌, ℤ, pos, negsuc}
use blockchain_raft.Parameter.{server_count}
use blockchain_raft.Raft.{ReplicaMsg}
use blockchain_raft.Network.{Network, send_to, send_others, replica_send_message}

send_to-queue :
    (msg : ReplicaMsg) (id : ℕ) (n : Network)
    → (send_to msg id n).replica_msg_queue ≡ n.replica_msg_queue
unfolding send_to
send_to-queue msg id n = ground arith

send_others-queue :
    (k i self : ℕ) (msg : ReplicaMsg) (n : Network)
    → (send_others k i self msg n).replica_msg_queue ≡ n.replica_msg_queue
unfolding send_others
send_others-queue zero i self msg n = refl
send_others-queue (suc k) i self msg n =
    let rest = send_others-queue k (i + 1) self msg (if i == self then n else send_to msg i n) in
    ground (arith, rest, send_to-queue msg i n)

-- To send leaves the received messages alone.
pub replica_send_message-queue :
    (self : ℕ) (msg : ReplicaMsg) (id : ℤ) (n : Network)
    → (replica_send_message self msg id n).replica_msg_queue ≡ n.replica_msg_queue
unfolding replica_send_message
replica_send_message-queue self msg (pos id) n = ground (arith, send_to-queue msg id n)
replica_send_message-queue self msg (negsuc zero) n = send_others-queue server_count 0 self msg n
replica_send_message-queue self msg (negsuc (suc k)) n = refl
