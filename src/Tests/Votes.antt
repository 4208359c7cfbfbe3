-- ===== src/Tests/Votes.antt =====
-- Votes and elections on small servers, and what the network makes of a message.
use blockchain_raft.Base.{
  ◌+◌, ◌≡◌, ◌≤◌, ◌↔◌, refl, some, List, [], ◌∷◌, ◌++◌, map, arith, pos, negsuc, true,
}
use blockchain_raft.Parameter.{server_count}
use blockchain_raft.Msg.{ReplicaMsgT}
use blockchain_raft.Raft.{RequestVoteRpc, req_vote_rpc, req_vote_rpl}
use blockchain_raft.Network.{Network, pack, unpack, replica_send_message}
use blockchain_raft.Network.Wire.{arrived, unpack-pack, deliveries, others, broadcast_delivers}
use blockchain_raft.Server.{Server}
use blockchain_raft.Follower.{handle_vote, follower_round}
use blockchain_raft.Follower.Vote.{IsFree, AsRecentAs, vote_granted_iff}
use blockchain_raft.Candidate.{Round, Turn, start_election, handle_message, candidate_run}
use blockchain_raft.Candidate.Election.{grants, arriving, won-majority}
use blockchain_raft.Replica.{receives, Run, done, next, IsBounded}
use blockchain_raft.Replica.Votes.{vote_once}
use blockchain_raft.Tests.{demo, chain, idle, server}

abbrev voter : Server
voter = server 0 (chain (negsuc 0) [])

-- Candidate 1 asks in term 2.
abbrev asks_1 : RequestVoteRpc
asks_1 = record { candidate_id = pos 1; term = 2; last_log_term = 1; last_log_index = pos 0 }

-- It asks again, with a longer log.
abbrev asks_again : RequestVoteRpc
asks_again = record asks_1 { last_log_index = pos 4 }

vote_granted_iff_example :
    ((handle_vote asks_1 voter).1.vote_granted ≡ true)
    ↔ (IsFree asks_1 voter × AsRecentAs voter 1 (pos 0))
vote_granted_iff_example = vote_granted_iff asks_1 voter

abbrev voted : Server
voted = (handle_vote asks_1 voter).0

abbrev later : Run demo voted (record voted { network = idle })
later = next (receives idle voted) (done (record voted { network = idle }))

later-IsBounded : IsBounded later
unfolding handle_vote blockchain_raft.Follower.adopt_term
    blockchain_raft.Server.clear_voted_candidate blockchain_raft.Follower.may_vote
    blockchain_raft.Follower.is_up_to_date blockchain_raft.Chain.get_last_term
later-IsBounded = (ground arith, ground arith)

vote_once_example : asks_again.candidate_id ≡ asks_1.candidate_id
unfolding handle_vote blockchain_raft.Follower.adopt_term
    blockchain_raft.Server.clear_voted_candidate blockchain_raft.Follower.may_vote
    blockchain_raft.Follower.is_up_to_date blockchain_raft.Chain.get_last_term
vote_once_example =
    vote_once voter asks_1 asks_again later later-IsBounded (ground arith) refl refl refl

-- A candidate gets one vote in its second round.
abbrev turns : List Turn
turns =
    record { curr = 10; arrivals = [] }
    ∷ record { curr = 20; arrivals = req_vote_rpl (record { term = 1; vote_granted = true }) ∷ [] }
    ∷ []

won-majority_example :
    2 ≤ 1 + grants voter.curr_term (voter.network.replica_msg_queue ++ arriving turns)
unfolding candidate_run blockchain_raft.Candidate.candidate_round handle_message
    blockchain_raft.Network.replica_pop_message blockchain_raft.Server.set_state
won-majority_example = won-majority 6000 0 1 turns voter (refl, refl)

unpack-pack_example :
    (m : ReplicaMsgT) × (pack (req_vote_rpc asks_1) 2 ≡ some m)
    × (m.receiver_id ≡ 2)
    × (unpack m ≡ arrived (req_vote_rpc asks_1))
unpack-pack_example = unpack-pack (req_vote_rpc asks_1) 2 (omega arith)

broadcast_delivers_example :
    deliveries (replica_send_message 1 (req_vote_rpc asks_1) (negsuc 0) idle)
    ≡ deliveries idle ++ map (λ j. (j, arrived (req_vote_rpc asks_1))) (others server_count 0 1)
broadcast_delivers_example = broadcast_delivers 1 (req_vote_rpc asks_1) idle (omega arith)
