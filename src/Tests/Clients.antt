-- ===== src/Tests/Clients.antt =====
-- A client and its requests on small values.
use blockchain_raft.Base.{
  ℕ, ◌+◌, ◌<◌, ◌≡◌, refl, inl, inr, Bool, true, false, none, some, List, [], ◌∷◌, ◌++◌, ok, arith,
  pos, negsuc, replicate, get_or,
}
use blockchain_raft.Float32
use blockchain_raft.Frame.{Frame, read_frame}
use blockchain_raft.Msg.{ResponseMsgT}
use blockchain_raft.Block.{transfer_txn}
use blockchain_raft.Raft.{Response, transaction_request, transaction_response, balance_response}
use blockchain_raft.Network.{Network}
use blockchain_raft.Network.Clients.{client_recv_handler, response_msg}
use blockchain_raft.Network.Requests.{request_arrives, response_arrives, redirected}
use blockchain_raft.Network.Link.{Link, LinkRun, end_receiving, goes, turns, stays, lost_for_good}
use blockchain_raft.Client.{
  Client, new_client, Poll, recv_response, recv_handler, lose_server, send_message,
  send_transaction, transaction_msg, balance_msg, transfer, status,
}
use blockchain_raft.Client.Receive.{recv_handler-arrive}
use blockchain_raft.Client.Wait.{
  HasLate, Expires, supply, IsConcluded, transfer-IsConcluded, stale_reply,
}
use blockchain_raft.Client.Commands.{run_line}
use blockchain_raft.Client.Commands.Laws.{IsFinished, run_line-IsFinished}
use blockchain_raft.Balance.{table_text}
use blockchain_raft.Balance.Load.{load_file, load_file-table}
use blockchain_raft.Leader.Main.{announcement}
use blockchain_raft.Tests.{server, chain, idle}

-- Client 2, connected to all servers, takes server 1 for the leader.
abbrev client : Client
client = record (new_client 2) { leader_id = pos 1; connected = true ∷ true ∷ true ∷ [] }

abbrev yes_msg : ResponseMsgT
yes_msg = record { type = 2; request_id = 0; succeed = true; balance = none; leader_id = none }

-- Nothing arrives in time, then the clock passes the timeout.
abbrev late : List Poll
late = record { arrivals = []; time = 200 } ∷ record { arrivals = []; time = 5300 } ∷ []

-- The answer arrives first.
abbrev prompt : List Poll
prompt = record { arrivals = yes_msg ∷ []; time = 200 } ∷ late

prompt-HasLate : HasLate 5000 0 prompt
prompt-HasLate = inr (inr (inl (omega arith)))

transfer-IsConcluded_example :
    IsConcluded transaction_response
      (λ r. status r.succeed)
      (Expires 5000 0 prompt client)
      (supply prompt client)
      (transfer 1 Float32.ten 0 prompt client)
transfer-IsConcluded_example = transfer-IsConcluded 1 Float32.ten 0 prompt client prompt-HasLate

transfer_now :
    transfer 1 Float32.ten 0 prompt client
    ≡ some (status true, record client { written = (1, transaction_msg 1 10 0 client) ∷ [] })
unfolding transfer blockchain_raft.Client.wait_reply blockchain_raft.Client.response_queue_pop
    recv_response blockchain_raft.Client.recv_typed blockchain_raft.Client.response_queue_push
    send_transaction send_message blockchain_raft.Base.u32_of_int Float32.to_u32
transfer_now = refl

run_line-IsFinished_example : IsFinished (run_line (b'b' ∷ []) 0 late client)
run_line-IsFinished_example =
    run_line-IsFinished (b'b' ∷ []) 0 late client (inr (inl (omega arith))) tt

abbrev waiting : Client
waiting = record client {
  response_queue =
      (record {
        type = transaction_response;
        request_id = 0;
        succeed = true;
        balance = 0;
        leader_id = 0;
      })
      ∷ [];
}

stale_reply_example : (c' : Client) × (transfer 0 0 0 late waiting ≡ some (status true, c'))
stale_reply_example =
    stale_reply 0 0 0 (record { arrivals = []; time = 200 })
      (record { arrivals = []; time = 5300 } ∷ []) waiting refl refl

-- A buffer with `n` bytes received, that is parsed as that message.
abbrev frame : {A : Type 0} → ℕ → A → Frame A
frame n m = record {
  header_count = pos 4;
  msg_bytes = n;
  body_count = pos n;
  received = replicate n 0;
  leftover = [];
  parse = λ bytes. m;
}

abbrev lost_frame : {A : Type 0} → A → Frame A
lost_frame m = record {
  header_count = pos 0;
  msg_bytes = 0;
  body_count = pos 0;
  received = [];
  leftover = [];
  parse = λ bytes. m;
}

recv_handler-arrive_example :
    recv_handler 1 (frame 9 yes_msg ∷ lost_frame yes_msg ∷ []) client
    ≡ lose_server 1 (recv_response yes_msg client)
unfolding lose_server read_frame
recv_handler-arrive_example =
    recv_handler-arrive 1 (frame 9 yes_msg ∷ lost_frame yes_msg ∷ []) client refl

request_arrives_example :
    ((send_transaction 0 10 0 client).written ≡ (1, transaction_msg 0 10 0 client) ∷ [])
    × ((client_recv_handler 2 (frame 20 (transaction_msg 0 10 0 client) ∷ []) idle).client_req_queue
        ≡ (record {
          type = transaction_request;
          client_id = 2;
          request_id = 0;
          payload = some (transfer_txn 2 0 (Float32.of_ℕ 10));
        })
          ∷ [])
unfolding read_frame
request_arrives_example =
    request_arrives 0 10 0 1 client idle (frame 20 (transaction_msg 0 10 0 client)) refl
      (omega arith) refl refl refl

abbrev answer : Response
answer = record {
  type = balance_response;
  request_id = 0;
  succeed = true;
  balance = Float32.ten;
  leader_id = 1;
}

response_arrives_example :
    (recv_response (response_msg answer) client).response_queue
    ≡ (record answer { leader_id = 0 }) ∷ []
response_arrives_example = response_arrives answer client tt

redirected_example :
    (send_message
      (balance_msg 0 client)
      (recv_response (response_msg (announcement (server 2 (chain (negsuc 0) [])))) client)).written
    ≡ (2, balance_msg 0 client) ∷ []
redirected_example =
    redirected (server 2 (chain (negsuc 0) [])) client (balance_msg 0 client) (omega arith) refl

lost_for_good_example :
    (end_receiving (record { mesh_connected = true; receiving = true })).receiving ≡ false
unfolding end_receiving blockchain_raft.Network.Link.conn_turn
lost_for_good_example =
    lost_for_good (record { mesh_connected = true; receiving = true }) refl
      (goes (turns true (end_receiving (record { mesh_connected = true; receiving = true })))
        (stays _))

abbrev ten_table : List ℕ
ten_table = Float32.ten ∷ Float32.minus_one ∷ 0 ∷ []

load_file-table_example :
    load_file true (some (table_text 3 0 ten_table)) (0 ∷ 0 ∷ 0 ∷ [])
    ≡ ok (record { bal_tab = ten_table; file = table_text 3 0 ten_table })
unfolding blockchain_raft.Float32.Parse.stof table_text load_file Float32.to_text
load_file-table_example = load_file-table true Float32.ten Float32.minus_one 0 0 0 0

-- Five of nine bytes; the request id is read from behind them.
abbrev partial : Frame ResponseMsgT
partial = record {
  header_count = pos 4;
  msg_bytes = 9;
  body_count = pos 5;
  received = 8 ∷ 1 ∷ 2 ∷ 16 ∷ 1 ∷ [];
  leftover = 24 ∷ 7 ∷ 0 ∷ 0 ∷ [];
  parse = λ bytes. record yes_msg { request_id = get_or bytes 6 0 };
}
