-- ===== src/Follower.antt =====
-- `FollowerState::run` of state.cpp. One call of `follower_round` is one round of the loop; the
-- clock's readings are arguments. A clock that went back reads as no time passed, which the
-- comparison with the timeout cannot tell from a negative difference.
pub mod Vote
pub mod Append
pub mod Late
pub mod Extended
pub mod Rounds
pub mod Commits
use blockchain_raft.Base.{
  ℕ, ◌+◌, ◌-◌, ◌/◌, ◌%◌, Bool, true, false, not, ◌&&◌, ◌||◌, Option, none, some, List, [], ◌∷◌, ltb,
  leb, ◌==◌, if◌then◌else◌, Result, ok, exited, ◌>>=◌, ℤ, pos, negsuc, ◌+ℤ◌, ltb_ℤ, leb_ℤ, eqb_ℤ,
  int_of_ℕ, u32_of_int,
}
use blockchain_raft.Parameter.{null_candidate_id, election_timeout_ms}
use blockchain_raft.Float32.{minus_one}
use blockchain_raft.Msg.{Extern}
use blockchain_raft.Block.{Block}
use blockchain_raft.Chain.{
  Blockchain, get_last_index, get_last_term, get_block_by_index, clean_up_blocks,
}
use blockchain_raft.Raft.{
  RequestVoteRpc, RequestVoteReply, AppendEntryRpc, AppendEntryReply, ReplicaMsg, no_msg,
  req_vote_rpc, req_vote_rpl, app_entr_rpc, app_entr_rpl, other, Request, Response, leader_change,
}
use blockchain_raft.Network.{
  Network, replica_send_message, replica_pop_message, client_pop_request, client_send_message,
}
use blockchain_raft.Server.{
  Server, Role, candidate, clear_voted_candidate, set_state, update_bal_tab_and_committed_index,
}

-- `gen_election_timeout`, from the value that `rand` gives.
unfoldable pub gen_election_timeout : ℕ → ℕ
gen_election_timeout r = election_timeout_ms / 2 + r % (election_timeout_ms / 2)

-- A message with a higher term: take the term, and forget the vote.
unfoldable pub adopt_term : ℕ → Server → Server
adopt_term term s =
    if ltb s.curr_term term then clear_voted_candidate (record s { curr_term = term }) else s

-- The candidate's log is as recent as ours, or more.
unfoldable pub is_up_to_date : RequestVoteRpc → Server → Bool
is_up_to_date rpc s =
    ltb (get_last_term s.bc_log) rpc.last_log_term
    || ((get_last_term s.bc_log == rpc.last_log_term)
        && leb_ℤ (get_last_index s.bc_log) rpc.last_log_index)

-- The vote is still free, or already that candidate's.
unfoldable pub may_vote : RequestVoteRpc → Server → Bool
may_vote rpc s =
    eqb_ℤ s.voted_candidate null_candidate_id || eqb_ℤ s.voted_candidate rpc.candidate_id

-- The server after the request, and the reply. A granted vote also resets the timer.
unfoldable pub handle_vote : RequestVoteRpc → Server → Server × RequestVoteReply
handle_vote rpc s =
    let s1 = adopt_term rpc.term s in
    if (rpc.term == s1.curr_term) && (may_vote rpc s1 && is_up_to_date rpc s1)
    then (
      record s1 { voted_candidate = rpc.candidate_id },
      record { term = s1.curr_term; vote_granted = true },
    )
    else (s1, record { term = s1.curr_term; vote_granted = false })

abbrev pub reply_of : Server → Bool → Bool → AppendEntryReply
reply_of s success is_heartbeat = record {
  term = s.curr_term;
  sender_id = pos s.id;
  success = success;
  reply_hearbeat = is_heartbeat;
}

unfoldable pub note_leader : AppendEntryRpc → Server → Server
note_leader rpc s =
    let leader_id = u32_of_int rpc.leader_id in
    if leader_id == s.curr_leader then s else record s { curr_leader = leader_id }

-- The logs end alike, and the leader has committed more.
unfoldable pub may_advance : AppendEntryRpc → Server → Bool
may_advance rpc s =
    eqb_ℤ rpc.prev_log_index (get_last_index s.bc_log)
    && (rpc.prev_log_term == get_last_term s.bc_log)
    && ltb_ℤ s.bc_log.committed_index rpc.commit_index

unfoldable pub advance : AppendEntryRpc → Server → Result Server
advance rpc s =
    if may_advance rpc s then update_bal_tab_and_committed_index rpc.commit_index s else ok s

-- Case 1: no entry. The leader is noted, and its committed index taken if the logs end alike.
unfoldable pub handle_heartbeat : AppendEntryRpc → Server → Result (Server × AppendEntryReply)
handle_heartbeat rpc s = advance rpc (note_leader rpc s) >>= λ s1. ok (s1, reply_of s1 true true)

module _ (x : Extern) where
  unfoldable pub accept_entries : AppendEntryRpc → Server → Result (Server × AppendEntryReply)
  accept_entries rpc s =
      let (bc, r) = clean_up_blocks x (rpc.prev_log_index +ℤ pos 1) rpc.entries s.bc_log in
      r >>= λ _. let s1 = record s { bc_log = bc } in ok (s1, reply_of s1 true false)

  -- Case 2: entries. The log must reach the entry before them, with its term.
  unfoldable pub handle_entries : AppendEntryRpc → Server → Result (Server × AppendEntryReply)
  handle_entries rpc s =
      if ltb_ℤ (get_last_index s.bc_log) rpc.prev_log_index
      then ok (s, reply_of s false false)
      else (if eqb_ℤ rpc.prev_log_index (negsuc 0)
          then accept_entries rpc s
          else get_block_by_index s.bc_log rpc.prev_log_index >>= λ b.
              if b.term == rpc.prev_log_term
              then accept_entries rpc s
              else ok (s, reply_of s false false))

  -- The server after the message, and the reply. Unless the term is outdated the timer is reset.
  unfoldable pub handle_append : AppendEntryRpc → Server → Result (Server × AppendEntryReply)
  handle_append rpc s =
      if ltb rpc.term s.curr_term
      then ok (s, reply_of s false true)
      else (let s1 = adopt_term rpc.term s in
          elim rpc.entries [ [] ↦ handle_heartbeat rpc s1 | _ ∷ _ ↦ handle_entries rpc s1 ])

-- A client's request is answered with the leader's id.
abbrev pub redirect : Request → Server → Response
redirect r s = record {
  type = leader_change;
  request_id = r.request_id;
  succeed = false;
  balance = minus_one;
  leader_id = s.curr_leader;
}

unfoldable pub redirect_client : Server → Server
redirect_client s =
    let (front, n) = client_pop_request s.network in
    elim front [
      | none ↦ s
      | some r ↦ record s { network = client_send_message (redirect r s) (int_of_ℕ r.client_id) n }
    ]

abbrev pub reply_to : ReplicaMsg → ℤ → Server → Server
reply_to msg id s = record s { network = replica_send_message s.id msg id s.network }

-- What a round leaves: the server, the time from which the timeout counts, and whether `run`
-- returns.
pub record Round : Type 0 where
  pub server : Server
  pub last_time : ℕ
  pub returns : Bool

-- The message that was popped, at the time `now` where the timer is reset.
unfoldable pub handle_message : Extern → ℕ → ℕ → ReplicaMsg → Server → Result Round
handle_message x last_time now (app_entr_rpc rpc) s =
    let last = if ltb rpc.term s.curr_term then last_time else now in
    handle_append x rpc s >>= λ (s1, reply). ok (record {
      server = reply_to (app_entr_rpl reply) rpc.leader_id s1;
      last_time = last;
      returns = false;
    })
handle_message x last_time now (req_vote_rpc rpc) s =
    let (s1, reply) = handle_vote rpc s in
    ok (record {
      server = reply_to (req_vote_rpl reply) rpc.candidate_id s1;
      last_time = if reply.vote_granted then now else last_time;
      returns = false;
    })
handle_message x last_time now _ s =
    ok (record { server = s; last_time = last_time; returns = false })

-- The message at the front of the queue, if there is one.
unfoldable pub read_message : Extern → ℕ → ℕ → Server → Result Round
read_message x last_time now s = elim s.network.replica_msg_queue [
  | [] ↦ ok (record { server = s; last_time = last_time; returns = false })
  | _ ∷ _ ↦
      let (msg, n) = replica_pop_message s.network in
      handle_message x last_time now msg (record s { network = n })
]

-- One round of the loop: `curr_time` is read at its top, `now` where the timer may be reset.
unfoldable pub follower_round : Extern → ℕ → ℕ → ℕ → ℕ → Server → Result Round
follower_round x timeout last_time curr_time now s =
    if ltb timeout (curr_time - last_time)
    then ok (record { server = set_state candidate s; last_time = last_time; returns = true })
    else read_message x last_time now (redirect_client s)
