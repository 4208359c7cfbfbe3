-- ===== src/Candidate.antt =====
-- `CandidateState::run` of state.cpp: the start of an election, one round of its loop, and the loop
-- over a sequence of rounds.
pub mod Election
use blockchain_raft.Base.{
  ℕ, ◌+◌, ◌-◌, ◌/◌, Bool, true, false, ◌&&◌, List, [], ◌∷◌, ◌++◌, ltb, leb, ◌==◌, if◌then◌else◌, ℤ,
  pos, negsuc,
}
use blockchain_raft.Parameter.{server_count}
use blockchain_raft.Chain.{get_last_index, get_last_term}
use blockchain_raft.Raft.{
  RequestVoteRpc, RequestVoteReply, AppendEntryRpc, ReplicaMsg, req_vote_rpc, req_vote_rpl,
  app_entr_rpc,
}
use blockchain_raft.Network.{replica_send_message, replica_pop_message}
use blockchain_raft.Server.{Server, Role, follower, candidate, leader, increment_term, set_state}

abbrev pub vote_request : Server → RequestVoteRpc
vote_request s = record {
  candidate_id = pos s.id;
  term = s.curr_term;
  last_log_term = get_last_term s.bc_log;
  last_log_index = get_last_index s.bc_log;
}

-- What a round leaves: the server, the votes counted, and whether `run` returns.
pub record Round : Type 0 where
  pub server : Server
  pub vote_count : ℕ
  pub returns : Bool

abbrev pub goes_on : ℕ → Server → Round
goes_on votes s = record { server = s; vote_count = votes; returns = false }

abbrev pub turns : Role → ℕ → Server → Round
turns role votes s = record { server = set_state role s; vote_count = votes; returns = true }

-- The next term begins with the own vote, and the others are asked for theirs.
unfoldable pub start_election : Server → Round
start_election s =
    let s1 = record (increment_term s) { voted_candidate = pos s.id } in
    goes_on 1 (record s1 {
      network = replica_send_message s.id (req_vote_rpc (vote_request s1)) (negsuc 0) s1.network;
    })

unfoldable pub handle_message : ReplicaMsg → ℕ → Server → Round
handle_message (req_vote_rpc rpc) votes s =
    if ltb s.curr_term rpc.term then turns follower votes s else goes_on votes s
handle_message (req_vote_rpl reply) votes s =
    if ltb s.curr_term reply.term
    then turns follower votes s
    else (if (reply.term == s.curr_term) && reply.vote_granted
        then (if leb (server_count / 2 + 1) (votes + 1)
            then turns leader (votes + 1) s
            else goes_on (votes + 1) s)
        else goes_on votes s)
handle_message (app_entr_rpc rpc) votes s =
    if leb s.curr_term rpc.term then turns follower votes s else goes_on votes s
handle_message _ votes s = goes_on votes s

-- One round; `election_timestamp` is when the election started.
unfoldable pub candidate_round : ℕ → ℕ → ℕ → ℕ → Server → Round
candidate_round timeout election_timestamp curr_timestamp votes s =
    if ltb timeout (curr_timestamp - election_timestamp)
    then turns candidate votes s
    else elim s.network.replica_msg_queue [
      | [] ↦ goes_on votes s
      | _ ∷ _ ↦
          let (msg, n) = replica_pop_message s.network in
          handle_message msg votes (record s { network = n })
    ]

-- What a round sees: a reading of the clock, and what the receiving thread has put into the queue
-- before it.
pub record Turn : Type 0 where
  pub curr : ℕ
  pub arrivals : List ReplicaMsg

abbrev pub arrive : List ReplicaMsg → Server → Server
arrive msgs s = record s {
  network = record s.network { replica_msg_queue = s.network.replica_msg_queue ++ msgs };
}

-- The loop over the rounds given, until `run` returns.
unfoldable pub candidate_run : ℕ → ℕ → List Turn → ℕ → Server → Round
candidate_run timeout election_timestamp [] votes s = goes_on votes s
candidate_run timeout election_timestamp (t ∷ ts) votes s =
    let r = candidate_round timeout election_timestamp t.curr votes (arrive t.arrivals s) in
    let rest = candidate_run timeout election_timestamp ts r.vote_count r.server in
    if r.returns then r else rest
