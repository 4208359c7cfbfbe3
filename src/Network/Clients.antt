-- ===== src/Network/Clients.antt =====
-- The server's side of its clients, in network.cpp: `client_wait_handler` that accepts connections,
-- `client_recv_handler` that reads requests, and the message that `client_send_message` builds.
use blockchain_raft.Base.{
  ℕ, ◌/◌, Bool, true, false, Option, none, some, List, [], ◌∷◌, if◌then◌else◌, get_or, set, ℤ, pos,
  negsuc, pos_part, neg_part, ◌-ℤ◌,
}
use blockchain_raft.Frame.{Frame, lost, broken, whole, read_body, read_loose}
use blockchain_raft.Parameter.{client_base_port, client_port_mult}
use blockchain_raft.Msg.{TxnMsg, RequestMsgT, ResponseMsgT, ReplicaMsgT}
use blockchain_raft.Block.{Transaction, transfer_txn}
use blockchain_raft.Raft.{
  Request, Response, MessageType, transaction_request, type_number, type_of_number,
}
use blockchain_raft.Network.{Network, client_push_request, field_or, replica_receive}

-- The division of `int`, which drops the fraction of a negative quotient too.
abbrev pub quotient_int : ℤ → ℕ → ℤ
quotient_int a d = pos (pos_part a / d) -ℤ pos (neg_part a / d)

-- The id that belongs to the port of a connection, for the server of that id.
unfoldable pub client_id_of_port : ℕ → ℕ → ℤ
unfolding ◌-ℤ◌
client_id_of_port server_id port =
    quotient_int (pos port -ℤ pos client_base_port -ℤ pos server_id) client_port_mult

-- A connection that was accepted. An id out of the array of clients is not checked by the code; it is taken
-- to change nothing.
unfoldable pub accept_client : ℕ → ℕ → Network → Network
unfolding client_id_of_port
accept_client server_id port n = elim (client_id_of_port server_id port) [
  | negsuc k ↦ n
  | pos id ↦
      if get_or n.connected id false then n else record n { connected = set n.connected id true }
]

-- The end of the thread that reads a client's requests.
unfoldable pub lose_client : ℕ → Network → Network
lose_client id n = record n { connected = set n.connected id false }

abbrev pub default_txn : TxnMsg
default_txn = record { sender_id = 0; recver_id = 0; amount = 0; bal_txn_flag = none }

-- The payload of a request for a transaction.
abbrev pub payload_of : MessageType → Option TxnMsg → Option Transaction
payload_of transaction_request t =
    let m = field_or default_txn t in some (transfer_txn m.sender_id m.recver_id m.amount)
payload_of _ t = none

unfoldable pub request_of : RequestMsgT → Request
request_of m = record {
  type = type_of_number m.type;
  client_id = m.client_id;
  request_id = m.request_id;
  payload = payload_of (type_of_number m.type) m.transaction;
}

-- The loop of `client_recv_handler` over the messages of a client, the latest of which it awaits.
unfoldable pub client_recv_handler : ℕ → List (Frame RequestMsgT) → Network → Network
client_recv_handler id [] n = if get_or n.connected id false then n else lose_client id n
client_recv_handler id (f ∷ fs) n =
    let next : Network = elim (read_loose f) [
      | lost ↦ lose_client id n
      | broken ↦ client_recv_handler id fs n
      | whole m ↦ client_recv_handler id fs (client_push_request (request_of m) n)
    ] in
    if get_or n.connected id false then next else lose_client id n

-- The message that `client_send_message` builds.
unfoldable pub response_msg : Response → ResponseMsgT
response_msg r = record {
  type = type_number r.type;
  request_id = r.request_id;
  succeed = r.succeed;
  balance = some r.balance;
  leader_id = some r.leader_id;
}

-- The loop of `replica_recv_handler` over what the mesh sends; the result says whether the
-- connection still stands. Its flag is not cleared at the end.
unfoldable pub replica_recv_handler : List (Frame ReplicaMsgT) → Network → Bool × Network
replica_recv_handler [] n = (true, n)
replica_recv_handler (f ∷ fs) n = elim (read_body f) [
  | lost ↦ (false, n)
  | broken ↦ replica_recv_handler fs n
  | whole m ↦ replica_recv_handler fs (replica_receive m n)
]
