-- ===== src/Network/Requests.antt =====
-- From the client of client.cpp to the server of network.cpp and back: ports, requests, responses and the
-- change of the leader.
use blockchain_raft.Base.{
  ℕ, ◌<◌, ◌≡◌, refl, sym, ap, ◌∙◌, inl, inr, true, false, some, List, [], ◌∷◌, ◌++◌, map,
  append-nil, append_assoc, arith, get_or, pos, ◌-ℤ◌, int_of_ℕ, u32_of_int, int_max_suc,
  int_of_ℕ-small, u32_of_int-pos,
}
use blockchain_raft.Frame.{Frame, Read, whole, read_loose, Read-cases, accepted}
use blockchain_raft.Msg.{RequestMsgT}
use blockchain_raft.Float32
use blockchain_raft.Block.{transfer_txn}
use blockchain_raft.Raft.{
  Response, MessageType, transaction_request, balance_request, transaction_response,
  balance_response, leader_change, other_type, type_number, type_of_number,
}
use blockchain_raft.Network.{Network, client_push_request}
use blockchain_raft.Network.Clients.{
  client_id_of_port, lose_client, request_of, client_recv_handler, response_msg,
}
use blockchain_raft.Client.{
  Client, conn_port, recv_typed, recv_response, response_queue_push, set_leader_id, send_message,
  send_transaction, transaction_msg,
}
use blockchain_raft.Server.{Server}
use blockchain_raft.Leader.Main.{announcement}

-- a
pub client_id_of_port-conn_port :
    (client_id server_id : ℕ)
    → client_id_of_port server_id (conn_port client_id server_id) ≡ pos client_id
unfolding client_id_of_port ◌-ℤ◌
client_id_of_port-conn_port client_id server_id = ground arith

-- b
pub client_recv_handler-queue :
    (id : ℕ) (fs : List (Frame RequestMsgT)) (n : Network)
    → get_or n.connected id false ≡ true
    → (client_recv_handler id fs n).client_req_queue
      ≡ n.client_req_queue ++ map request_of (accepted (map read_loose fs))
unfolding client_recv_handler client_push_request lose_client
client_recv_handler-queue id [] n h = rw h (sym (append-nil n.client_req_queue))
client_recv_handler-queue id (f ∷ fs) n h = elim (Read-cases (read_loose f)) [
  | inl e ↦ rw (h, e) (sym (append-nil n.client_req_queue))
  | inr (inl e) ↦ rw (h, e) (client_recv_handler-queue id fs n h)
  | inr (inr (m, e)) ↦
      rw (h, e)
        (client_recv_handler-queue id fs (client_push_request (request_of m) n) h
          ∙ append_assoc n.client_req_queue (request_of m ∷ [])
              (map request_of (accepted (map read_loose fs))))
]

-- After a client has received a new leader's announcement, its next message goes to that leader,
-- provided that it is connected to it and the id fits an int.
pub redirected :
    (s : Server) (c : Client) (m : RequestMsgT)
    → s.id < int_max_suc
    → get_or c.connected s.id false ≡ true
    → (send_message m (recv_response (response_msg (announcement s)) c)).written
      ≡ c.written ++ (s.id, m) ∷ []
unfolding send_message recv_response recv_typed response_msg set_leader_id
redirected s c m small up =
    let id : u32_of_int (int_of_ℕ s.id) ≡ s.id =
      ap u32_of_int (int_of_ℕ-small s.id small) ∙ u32_of_int-pos s.id (omega arith) in
    rw (id, up) refl

-- A transfer that a client sends, connected to the server that it takes for the leader, is written
-- to that server, and when its message is read whole there, on a connection that is up, it is
-- queued as one request for the transaction from the client to the receiver, with the amount as a
-- float.
pub request_arrives :
    (recv_id amount req_id i : ℕ) (c : Client) (n : Network) (f : Frame RequestMsgT)
    → c.leader_id ≡ pos i
    → i < int_max_suc
    → get_or c.connected i false ≡ true
    → get_or n.connected c.client_id false ≡ true
    → read_loose f ≡ whole (transaction_msg recv_id amount req_id c)
    → ((send_transaction recv_id amount req_id c).written
        ≡ c.written ++ (i, transaction_msg recv_id amount req_id c) ∷ [])
      × ((client_recv_handler c.client_id (f ∷ []) n).client_req_queue
          ≡ n.client_req_queue
            ++ (record {
              type = transaction_request;
              client_id = c.client_id;
              request_id = req_id;
              payload = some (transfer_txn c.client_id recv_id (Float32.of_ℕ amount));
            })
              ∷ [])
unfolding send_transaction send_message request_of
request_arrives recv_id amount req_id i c n f leader small up known e =
    let m = transaction_msg recv_id amount req_id c in
    let id : u32_of_int c.leader_id ≡ i = ap u32_of_int leader ∙ u32_of_int-pos i (omega arith) in
    (
      rw (id, up) refl,
      client_recv_handler-queue c.client_id (f ∷ []) n known
          ∙ ap (λ (l : List RequestMsgT). n.client_req_queue ++ map request_of l)
              (ap (λ (r : Read RequestMsgT). accepted (r ∷ [])) e),
    )

-- What a client keeps of a response.
abbrev pub kept : MessageType → Response → List Response
kept transaction_response r =
    record r { type = transaction_response; balance = 0; leader_id = 0 } ∷ []
kept balance_response r = record r { type = balance_response; leader_id = 0 } ∷ []
kept _ r = []

-- One of the five types of the enumeration.
abbrev pub IsNamed : MessageType → Type 0
IsNamed (other_type n) = ⊥
IsNamed _ = Unit

response_arrives_as :
    (type : MessageType) (r : Response) (c : Client)
    → IsNamed type
    → (recv_typed (type_of_number (type_number type)) (response_msg r) c).response_queue
      ≡ c.response_queue ++ kept type r
unfolding recv_typed response_queue_push set_leader_id response_msg
response_arrives_as transaction_request r c h = sym (append-nil c.response_queue)
response_arrives_as balance_request r c h = sym (append-nil c.response_queue)
response_arrives_as transaction_response r c h = refl
response_arrives_as balance_response r c h = refl
response_arrives_as leader_change r c h = sym (append-nil c.response_queue)
response_arrives_as (other_type n) r c h = absurd h

-- A response of one of the five types that a server sends adds to the client's queue itself
-- without the leader's id if it answers a balance request, also without the balance if it answers
-- a transfer, and nothing otherwise.
pub response_arrives :
    (r : Response) (c : Client)
    → IsNamed r.type
    → (recv_response (response_msg r) c).response_queue ≡ c.response_queue ++ kept r.type r
unfolding recv_response response_msg
response_arrives r c h = response_arrives_as r.type r c h
