-- ===== src/Tests/Elections.antt =====
-- An election in a cluster of three replicas: replica 0 stands, replica 1 votes for it, and it leads.
use blockchain_raft.Base.{
  ℕ, ◌+◌, ◌<◌, ◌≡◌, ◌≢◌, refl, Bool, true, false, get_or, get_elem?, none, some, [], ◌∷◌, ok, arith,
  pos, negsuc, u32_mod,
}
use blockchain_raft.Msg.{ReplicaMsgT}
use blockchain_raft.Raft.{AppendEntryRpc, app_entr_rpc}
use blockchain_raft.Network.{Network, unpack, replica_receive, blank_msg}
use blockchain_raft.Server.{Server, candidate, leader, set_state, run_state}
use blockchain_raft.Follower
use blockchain_raft.Follower.{handle_vote, reply_to, follower_round}
use blockchain_raft.Candidate.{start_election, candidate_round, vote_request}
use blockchain_raft.Leader.Main.{start_leading}
use blockchain_raft.Cluster.{
  following, leading, campaigning, Node, Nodes, put, moved, with_server, follows, stands, campaigns,
  leads, LocalStep, acts, delivers, ClusterRun, done, next, HasTerms, IsBounded,
}
use blockchain_raft.Cluster.Ballots.{put-all, ballots_of}
use blockchain_raft.Cluster.Runs.{IsInitial}
use blockchain_raft.Cluster.Elections.{one_leader, leader_votes, one_voice}
use blockchain_raft.Tests.{demo, server, chain, idle}

abbrev pub start : Nodes
start i = record {
  server = record (server i (chain (negsuc 0) [])) { curr_term = 0 };
  phase = following;
  ballots = λ _. negsuc 0;
}

pub start-IsInitial : IsInitial start
start-IsInitial = record {
  own_id = λ i. refl;
  empty = λ i. refl;
  quiet = λ i. refl;
  no_vote = λ i. refl;
  no_ballot = λ i term. refl;
  all_follow = λ i. refl;
  no_leader = λ i e. cc;
}

pub start-HasTerms : HasTerms start
start-HasTerms i = omega arith

put-HasTerms :
    (c : Nodes) (i : ℕ) (n : Node)
    → n.server.curr_term + 1 < u32_mod
    → HasTerms c
    → HasTerms (put c i n)
put-HasTerms c i n h k = put-all (λ _ n. n.server.curr_term + 1 < u32_mod) c i n h k

-- Replica 0 has waited too long.
abbrev pub timed_out : Follower.Round
timed_out = record { server = set_state candidate (start 0).server; last_time = 0; returns = true }

timeout : follower_round demo 5000 0 6000 0 (start 0).server ≡ ok timed_out
unfolding follower_round
timeout = refl

abbrev pub waited : Nodes
waited = put start 0 (moved following timed_out.server (start 0))

pub times_out : LocalStep demo following (start 0).server following timed_out.server
times_out = follows 5000 0 6000 0 (start 0).server timed_out timeout

-- It stands in term 1, and asks the others.
abbrev pub request : ℕ → ReplicaMsgT
request id = record (blank_msg 1 id) {
  request_vote_rpc_msg =
      some (record { candidate_id = 0; term = 1; last_log_term = 0; last_log_index = negsuc 0 });
}

abbrev pub standing : Server
standing = record (start 0).server {
  curr_term = 1;
  voted_candidate = pos 0;
  network = record idle { replica_out = request 1 ∷ request 2 ∷ [] };
  next_state = none;
}

abbrev pub asked : Nodes
asked = put waited 0 (moved (campaigning 1) standing (waited 0))

pub stands_up : LocalStep demo following timed_out.server (campaigning 1) standing
unfolding set_state start_election blockchain_raft.Server.increment_term
    blockchain_raft.Network.replica_send_message run_state blockchain_raft.Network.send_others
    blockchain_raft.Network.send_to blockchain_raft.Network.pack blockchain_raft.Base.u32_of_int
    blockchain_raft.Chain.get_last_term blockchain_raft.Chain.get_last_index
stands_up = stands following none timed_out.server refl

-- The request reaches replica 1.
abbrev pub delivered : Nodes
delivered = put asked 1 (
    with_server (asked 1)
      (record (asked 1).server { network = replica_receive (request 1) (asked 1).server.network }))

-- Replica 1 grants its vote.
abbrev pub grant : ReplicaMsgT
grant = record (blank_msg 2 0) {
  request_vote_reply_msg = some (record { term = 1; vote_granted = true });
}

abbrev pub answered : Follower.Round
answered = record {
  server = record (start 1).server {
    curr_term = 1;
    voted_candidate = pos 0;
    network = record idle { replica_out = grant ∷ [] };
  };
  last_time = 2000;
  returns = false;
}

abbrev pub voted : Nodes
voted = put delivered 1 (moved following answered.server (delivered 1))

pub votes : LocalStep demo following (delivered 1).server following answered.server
unfolding follower_round Follower.read_message Follower.redirect_client
    blockchain_raft.Network.client_pop_request replica_receive Follower.handle_message
    blockchain_raft.Network.replica_pop_message unpack handle_vote
    blockchain_raft.Network.replica_send_message Follower.adopt_term
    blockchain_raft.Server.clear_voted_candidate Follower.may_vote blockchain_raft.Base.int_of_ℕ
    Follower.is_up_to_date blockchain_raft.Network.send_to blockchain_raft.Chain.get_last_term
    blockchain_raft.Network.pack blockchain_raft.Chain.get_last_index
votes = follows 5000 0 1000 2000 (delivered 1).server answered refl

-- The vote reaches replica 0.
abbrev pub returned : Nodes
returned = put voted 0 (
    with_server (voted 0)
      (record (voted 0).server { network = replica_receive grant (voted 0).server.network }))

-- It has two votes.
abbrev pub elected : Server
elected = record standing { next_state = some leader }

abbrev pub counted : Nodes
counted = put returned 0 (moved (campaigning 2) elected (returned 0))

pub counts : LocalStep demo (campaigning 1) (returned 0).server (campaigning 2) elected
unfolding candidate_round replica_receive blockchain_raft.Candidate.handle_message
    blockchain_raft.Network.replica_pop_message unpack set_state
counts = campaigns 5000 0 3000 1 (returned 0).server

-- It leads.
abbrev pub leads_now : Server
leads_now = start_leading (run_state none elected).1

abbrev pub won : Nodes
won = put counted 0 (moved leading leads_now (counted 0))

pub takes_office : LocalStep demo (campaigning 2) elected leading leads_now
takes_office = leads (campaigning 2) none elected refl

leader_term : leads_now.curr_term ≡ 1
unfolding start_leading blockchain_raft.Leader.Main.send_heartbeat run_state
leader_term = refl

pub waited-HasTerms : HasTerms waited
unfolding set_state
waited-HasTerms = put-HasTerms start 0 _ (omega arith) start-HasTerms

pub asked-HasTerms : HasTerms asked
asked-HasTerms = put-HasTerms waited 0 _ (omega arith) waited-HasTerms

pub delivered-HasTerms : HasTerms delivered
delivered-HasTerms = put-HasTerms asked 1 _ (omega arith) asked-HasTerms

pub voted-HasTerms : HasTerms voted
voted-HasTerms = put-HasTerms delivered 1 _ (omega arith) delivered-HasTerms

pub returned-HasTerms : HasTerms returned
returned-HasTerms = put-HasTerms voted 0 _ (omega arith) voted-HasTerms

pub counted-HasTerms : HasTerms counted
counted-HasTerms = put-HasTerms returned 0 _ (omega arith) returned-HasTerms

pub won-HasTerms : HasTerms won
won-HasTerms = put-HasTerms counted 0 _ (omega (arith, leader_term)) counted-HasTerms

election : ClusterRun demo start won
election = next (acts 0 start following timed_out.server (omega arith) times_out) (
    next (acts 0 waited (campaigning 1) standing (omega arith) stands_up) (
      next (delivers 1 0 0 (request 1) asked refl refl) (
        next (acts 1 delivered following answered.server (omega arith) votes) (
          next (delivers 0 1 0 grant voted refl refl) (
            next (acts 0 returned (campaigning 2) elected (omega arith) counts)
              (next (acts 0 counted leading leads_now (omega arith) takes_office) (done won)))))))

election-IsBounded : IsBounded election
unfolding election
election-IsBounded = (
  start-HasTerms,
  (
    waited-HasTerms,
    (
      asked-HasTerms,
      (delivered-HasTerms, (voted-HasTerms, (returned-HasTerms, (counted-HasTerms, won-HasTerms)))),
    ),
  ),
)

one_leader_example : ◌≡◌ {A = ℕ} 0 0
one_leader_example =
    one_leader 0 0 election (done won) start-IsInitial election-IsBounded won-HasTerms (omega arith)
      (omega arith) refl refl refl

leader_votes_example :
    (ballots_of won 0 1 ≡ pos 0) × ((w : ℕ) × (w < 3) × (w ≢ 0) × (ballots_of won w 1 ≡ pos 0))
unfolding start_leading blockchain_raft.Leader.Main.send_heartbeat run_state
leader_votes_example = leader_votes 0 election start-IsInitial election-IsBounded refl

-- The heartbeats of the new leader.
abbrev beat : AppendEntryRpc
beat = record {
  term = 1;
  leader_id = pos 0;
  prev_log_term = 0;
  prev_log_index = negsuc 0;
  commit_index = negsuc 0;
  entries = [];
}

abbrev beat_to : ℕ → ReplicaMsgT
beat_to id = record (blank_msg 3 id) {
  append_entry_rpc_msg = some (record {
    term = 1;
    leader_id = 0;
    prev_log_term = 0;
    prev_log_index = negsuc 0;
    commit_index = negsuc 0;
    entries = [];
  });
}

first_beat : get_elem? (won 0).server.network.replica_out 2 ≡ some (beat_to 1)
unfolding start_leading blockchain_raft.Network.client_send_message
    blockchain_raft.Network.client_send_all blockchain_raft.Network.client_send_one
    blockchain_raft.Leader.Main.send_heartbeat blockchain_raft.Network.replica_send_message
    blockchain_raft.Network.send_others run_state blockchain_raft.Network.send_to
    blockchain_raft.Network.pack blockchain_raft.Base.u32_of_int blockchain_raft.Chain.get_last_term
    blockchain_raft.Chain.get_last_index
first_beat = refl

second_beat : get_elem? (won 0).server.network.replica_out 3 ≡ some (beat_to 2)
unfolding start_leading blockchain_raft.Network.client_send_message
    blockchain_raft.Network.client_send_all blockchain_raft.Network.client_send_one
    blockchain_raft.Leader.Main.send_heartbeat blockchain_raft.Network.replica_send_message
    blockchain_raft.Network.send_others run_state blockchain_raft.Network.send_to
    blockchain_raft.Network.pack blockchain_raft.Base.u32_of_int blockchain_raft.Chain.get_last_term
    blockchain_raft.Chain.get_last_index
second_beat = refl

beat_unpacks : (id : ℕ) → unpack (beat_to id) ≡ app_entr_rpc beat
unfolding unpack blockchain_raft.Base.int_of_ℕ
beat_unpacks id = refl

one_voice_example : beat.leader_id ≡ beat.leader_id
one_voice_example =
    one_voice election 0 0 2 3 beat beat start-IsInitial election-IsBounded first_beat
      (beat_unpacks 1) second_beat (beat_unpacks 2) refl
