-- ===== src/Client.antt =====
-- The client of client.h and client.cpp: `class Client` and its `class Network` as one state, with
-- the queue that the receiving threads fill and the messages written on the servers' sockets.
-- Ids of clients and servers are at most 2, the connection attempts' outcomes are arguments.
pub mod Queue
pub mod Receive
pub mod Wait
pub mod Commands
use blockchain_raft.Base.{
  ℕ, zero, suc, ◌+◌, ◌-◌, ◌*◌, Bool, true, false, Option, none, some, List, [], ◌∷◌, ◌++◌, ltb, leb,
  if◌then◌else◌, get_or, set, length, ℤ, pos, int_of_ℕ, u32_of_int,
}
use blockchain_raft.Float32
use blockchain_raft.Frame.{Frame, Read, lost, broken, whole, read_body}
use blockchain_raft.Parameter.{
  server_count, client_base_port, client_port_mult, client_req_timeout_ms,
}
use blockchain_raft.Msg.{RequestMsgT, ResponseMsgT}
use blockchain_raft.Network.{field_or}
use blockchain_raft.Raft.{
  Response, MessageType, transaction_request, balance_request, transaction_response,
  balance_response, leader_change, type_number, type_of_number,
}

pub record Client : Type 0 where
  pub client_id : ℕ
  pub leader_id : ℤ
  pub connected : List Bool
  pub response_queue : List Response
  pub written : List (ℕ × RequestMsgT)

-- The constructor, before a connection is made.
abbrev pub new_client : ℕ → Client
new_client id = record {
  client_id = id;
  leader_id = pos 0;
  connected = false ∷ false ∷ false ∷ [];
  response_queue = [];
  written = [];
}

unfoldable pub set_leader_id : ℤ → Client → Client
set_leader_id id c = record c { leader_id = id }

-- The port that the client binds for its connection to server `i`.
abbrev pub conn_port : ℕ → ℕ → ℕ
conn_port client_id i = client_base_port + client_id * client_port_mult + i

-- One turn of the inner loop of `conn_handler`; the outcome is that every socket call succeeded.
unfoldable pub conn_server : Bool → ℕ → Client → Client
conn_server succeeded i c =
    if get_or c.connected i false
    then c
    else (if succeeded then record c { connected = set c.connected i true } else c)

-- for (int i = start; i < start + rounds; i++)
unfoldable pub conn_round : ℕ → ℕ → (ℕ → Bool) → Client → Client
conn_round zero i outcome c = c
conn_round (suc n) i outcome c = conn_round n (i + 1) outcome (conn_server (outcome i) i c)

unfoldable pub response_queue_push : Response → Client → Client
response_queue_push r c = record c { response_queue = c.response_queue ++ r ∷ [] }

unfoldable pub response_queue_pop : Client → Option Response × Client
response_queue_pop c = elim c.response_queue [
  | [] ↦ (none, c)
  | r ∷ rs ↦ (some r, record c { response_queue = rs })
]

unfoldable pub response_queue_get_count : Client → ℕ
response_queue_get_count c = length c.response_queue

-- The fields that `recv_handler` copies; the others are zero.
abbrev pub received : MessageType → ResponseMsgT → Response
received type m = record {
  type = type;
  request_id = m.request_id;
  succeed = m.succeed;
  balance = 0;
  leader_id = 0;
}

-- What `recv_handler` does with a message that was parsed.
unfoldable pub recv_typed : MessageType → ResponseMsgT → Client → Client
recv_typed leader_change m c = set_leader_id (int_of_ℕ (field_or 0 m.leader_id)) c
recv_typed transaction_response m c = response_queue_push (received transaction_response m) c
recv_typed balance_response m c =
    response_queue_push (record (received balance_response m) { balance = field_or 0 m.balance }) c
recv_typed _ m c = c

unfoldable pub recv_response : ResponseMsgT → Client → Client
recv_response m c = recv_typed (type_of_number m.type) m c

-- The end of the thread.
unfoldable pub lose_server : ℕ → Client → Client
lose_server i c = record c { connected = set c.connected i false }

-- The loop of `recv_handler` over the messages of server `i`, the latest of which it awaits.
unfoldable pub recv_handler : ℕ → List (Frame ResponseMsgT) → Client → Client
recv_handler i [] c = if get_or c.connected i false then c else lose_server i c
recv_handler i (f ∷ fs) c =
    let next : Client = elim (read_body f) [
      | lost ↦ lose_server i c
      | broken ↦ recv_handler i fs c
      | whole m ↦ recv_handler i fs (recv_response m c)
    ] in
    if get_or c.connected i false then next else lose_server i c

-- To the server taken for the leader; an id out of the array is taken as not connected.
unfoldable pub send_message : RequestMsgT → Client → Client
send_message m c =
    let leader_id = u32_of_int c.leader_id in
    if get_or c.connected leader_id false
    then record c { written = c.written ++ (leader_id, m) ∷ [] }
    else c

-- The message that `send_transaction` builds: the amount, a `uint32_t`, becomes a float.
abbrev pub transaction_msg : ℕ → ℕ → ℕ → Client → RequestMsgT
transaction_msg recv_id amount req_id c = record {
  type = type_number transaction_request;
  client_id = c.client_id;
  request_id = req_id;
  transaction = some (record {
    sender_id = c.client_id;
    recver_id = recv_id;
    amount = Float32.of_ℕ amount;
    bal_txn_flag = none;
  });
}

unfoldable pub send_transaction : ℕ → ℕ → ℕ → Client → Client
send_transaction recv_id amount req_id c = send_message (transaction_msg recv_id amount req_id c) c

abbrev pub balance_msg : ℕ → Client → RequestMsgT
balance_msg req_id c = record {
  type = type_number balance_request;
  client_id = c.client_id;
  request_id = req_id;
  transaction = none;
}

unfoldable pub send_balance : ℕ → Client → Client
send_balance req_id c = send_message (balance_msg req_id c) c

-- What one turn of the loop of `client_wait_reply` sees: the responses that have arrived before it,
-- and the clock.
pub record Poll : Type 0 where
  pub arrivals : List ResponseMsgT
  pub time : ℕ

abbrev pub arrive : List ResponseMsgT → Client → Client
arrive [] c = c
arrive (m ∷ ms) c = arrive ms (recv_response m c)

-- How the wait ends; `still` if it goes on behind the turns given.
pub data Reply : Type 0 where
  replied : Response → Client → Reply
  timed_out : Client → Reply
  still : Client → Reply

-- The response that was popped, or else how the turn goes on.
abbrev pub reply_or : Reply → Option Response × Client → Reply
reply_or reply (some r, c) = replied r c
reply_or reply (none, c) = reply

-- `t0` is the start.
unfoldable pub wait_reply : ℕ → ℕ → List Poll → Client → Reply
wait_reply timeout_ms t0 [] c = still c
wait_reply timeout_ms t0 (p ∷ ps) c =
    let c1 = arrive p.arrivals c in
    let rest = wait_reply timeout_ms t0 ps c1 in
    reply_or (if ltb timeout_ms (p.time - t0) then timed_out c1 else rest) (response_queue_pop c1)

-- while (response_queue_get_count()) response_queue_pop();
unfoldable pub clear_rounds : ℕ → Client → Client
clear_rounds zero c = c
clear_rounds (suc n) c =
    let rest = clear_rounds n (response_queue_pop c).1 in
    if ltb 0 (response_queue_get_count c) then rest else c

unfoldable pub clear_responses : Client → Client
clear_responses c = clear_rounds (response_queue_get_count c) c

-- What a command shows.
pub data Shown : Type 0 where
  request_timeout wrong_type : Shown
  status : Bool → Shown
  balance_amount : ℕ → Shown

abbrev pub is_type : MessageType → Response → Bool
is_type transaction_response r = elim r.type [ transaction_response ↦ true | _ ↦ false ]
is_type balance_response r = elim r.type [ balance_response ↦ true | _ ↦ false ]
is_type _ r = false

-- What both commands do with the reply; `none` while they wait.
abbrev pub conclude : MessageType → (Response → Shown) → Reply → Option (Shown × Client)
conclude type show (replied r c) =
    some (if is_type type r then (show r, c) else (wrong_type, clear_responses c))
conclude type show (timed_out c) = some (request_timeout, c)
conclude type show (still c) = none

-- The command `transfer`, behind its arguments: the float amount becomes a `uint32_t`.
unfoldable pub transfer : ℕ → ℕ → ℕ → List Poll → Client → Option (Shown × Client)
transfer recv_id amount t0 polls c =
    conclude transaction_response (λ r. status r.succeed)
      (wait_reply client_req_timeout_ms t0 polls
        (send_transaction recv_id (Float32.to_u32 amount) 0 c))

abbrev pub show_balance : Response → Shown
show_balance r = if r.succeed then balance_amount r.balance else status false

-- The command `balance`.
unfoldable pub check_balance : ℕ → List Poll → Client → Option (Shown × Client)
check_balance t0 polls c =
    conclude balance_response show_balance
      (wait_reply client_req_timeout_ms t0 polls (send_balance 0 c))
