-- ===== src/Leader/Wait.antt =====
-- `LeaderState::run` of state.cpp: one round of the wait for the followers, the whole wait over a
-- sequence of rounds, and the answer to the client.
use blockchain_raft.Base.{
  ℕ, ◌+◌, ◌-◌, ◌/◌, Bool, not, ◌&&◌, List, [], ◌∷◌, ◌++◌, ltb, ◌==◌, if◌then◌else◌, get_or, set,
  Result, ok, ◌>>=◌, ℤ, pos, negsuc, ◌-ℤ◌, ltb_ℤ, eqb_ℤ, int_of_ℕ,
}
use blockchain_raft.Parameter.{server_count, leader_handle_time_ms}
use blockchain_raft.Chain.{get_block_by_index, get_blockchain_length}
use blockchain_raft.Balance.{get_balance}
use blockchain_raft.Raft.{
  AppendEntryReply, ReplicaMsg, req_vote_rpc, app_entr_rpc, app_entr_rpl, Request, Response,
  MessageType, transaction_request, balance_request, transaction_response, balance_response,
}
use blockchain_raft.Network.{replica_pop_message, client_send_message}
use blockchain_raft.Server.{Server, follower, set_state, update_bal_tab_and_committed_index}
use blockchain_raft.Leader.Main.{Waiting, send, slot, append_msg, entries_from}

-- How a round of the wait ends.
pub data Waited : Type 0 where
  waits : Waiting → Waited
  times_out : Waiting → Waited
  yields : Server → Waited

-- A follower that did not accept: one entry more is sent to it, unless there is none.
unfoldable pub retry : ℤ → Waiting → Result Waiting
retry sender w =
    let i = slot sender in
    let next_index = get_or w.next_index i (pos 0) -ℤ pos 1 in
    let prev = next_index -ℤ pos 1 in
    let w1 = record w { next_index = set w.next_index i next_index; prev_log_index = prev } in
    if ltb_ℤ prev (negsuc 0)
    then ok w1
    else (let s = w.server in
        let before : Result (ℕ × ℤ) =
          if eqb_ℤ prev (negsuc 0)
          then ok (0, negsuc 0)
          else get_block_by_index s.bc_log prev >>= λ b. ok (b.term, b.index) in
        before >>= λ (prev_term, prev_index). entries_from next_index s.bc_log >>= λ es.
        ok (record w1 {
          server = send (app_entr_rpc (append_msg prev_term prev_index es s)) sender s;
        }))

-- A reply of the current term also restarts the timer.
unfoldable pub count_reply : AppendEntryReply → ℕ → Waiting → Result Waiting
count_reply reply now w =
    let w1 = record w { last = now } in
    if reply.success && not reply.reply_hearbeat
    then ok (record w1 {
      num_accept = w.num_accept + 1;
      next_index =
          set w.next_index (slot reply.sender_id)
            (int_of_ℕ (get_blockchain_length w.server.bc_log));
    })
    else retry reply.sender_id w1

unfoldable pub wait_message : ReplicaMsg → ℕ → Waiting → Result Waited
wait_message (req_vote_rpc rpc) now w =
    if ltb w.server.curr_term rpc.term
    then ok (yields (set_state follower w.server))
    else ok (waits w)
wait_message (app_entr_rpc rpc) now w =
    if ltb w.server.curr_term rpc.term
    then ok (yields (set_state follower w.server))
    else ok (waits w)
wait_message (app_entr_rpl reply) now w =
    if ltb w.server.curr_term reply.term
    then ok (yields (set_state follower w.server))
    else (if reply.term == w.server.curr_term
        then (count_reply reply now w >>= λ w'. ok (waits w'))
        else ok (waits w))
wait_message _ now w = ok (waits w)

-- One round of `while (num_accept < SERVER_COUNT / 2 + 1)`.
unfoldable pub wait_round : ℕ → ℕ → Waiting → Result Waited
wait_round curr now w =
    if ltb leader_handle_time_ms (curr - w.last)
    then ok (times_out w)
    else elim w.server.network.replica_msg_queue [
      | [] ↦ ok (waits w)
      | _ ∷ _ ↦
          let (msg, n) = replica_pop_message w.server.network in
          wait_message msg now (record w { server = record w.server { network = n } })
    ]

-- The answer to the client; `committed` is that the wait did not time out.
abbrev pub response_type : MessageType → MessageType
response_type transaction_request = transaction_response
response_type balance_request = balance_response
response_type t = t

unfoldable pub commit_all : Server → Result Server
commit_all s =
    update_bal_tab_and_committed_index (int_of_ℕ (get_blockchain_length s.bc_log) -ℤ pos 1) s

unfoldable pub finish_request : Bool → Request → Server → Result Server
finish_request committed r s =
    let done : Result Server = if committed then commit_all s else ok s in
    done >>= λ s1. get_balance s1.bal_tab r.client_id >>= λ balance.
    let response : Response = record {
      type = response_type r.type;
      request_id = r.request_id;
      succeed = committed;
      balance = balance;
      leader_id = s1.id;
    } in
    ok (record s1 { network = client_send_message response (int_of_ℕ r.client_id) s1.network })

-- What one round of the wait sees: two readings of the clock, and what the receiving thread has put
-- into the queue before it.
pub record Tick : Type 0 where
  pub curr : ℕ
  pub now : ℕ
  pub arrivals : List ReplicaMsg

abbrev pub arrive : List ReplicaMsg → Waiting → Waiting
arrive msgs w =
    let n = w.server.network in
    record w {
      server = record w.server {
        network = record n { replica_msg_queue = n.replica_msg_queue ++ msgs };
      };
    }

-- How the wait ends, after the rounds given; `still` if it goes on.
pub data Outcome : Type 0 where
  accepted : Waiting → Outcome
  timed_out : Waiting → Outcome
  yielded : Server → Outcome
  still : Waiting → Outcome

unfoldable pub wait_loop : List Tick → Waiting → Result Outcome
wait_loop [] w = ok (if ltb w.num_accept (server_count / 2 + 1) then still w else accepted w)
wait_loop (t ∷ ts) w =
    let round = wait_round t.curr t.now (arrive t.arrivals w) in
    let rest : Result Outcome = round >>= λ r. elim r [
      | waits w' ↦ wait_loop ts w'
      | times_out w' ↦ ok (timed_out w')
      | yields s ↦ ok (yielded s)
    ] in
    if ltb w.num_accept (server_count / 2 + 1) then rest else ok (accepted w)
