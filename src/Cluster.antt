-- ===== src/Cluster.antt =====
-- The replicas together: each runs `run_state_machine` of server.cpp, and a message that one of them
-- has sent may reach its receiver at any later time, any number of times, or never, which is more
-- than mesh.cpp does. No replica restarts. For each replica the cluster also keeps which vote it has
-- given in each term; the program does not read it.
pub mod Mail
pub mod Quiet
pub mod Leads
pub mod Waits
pub mod Just
pub mod Follows
pub mod Grants
pub mod Campaigns
pub mod Safe
pub mod Ballots
pub mod Runs
pub mod Elections
use blockchain_raft.Base.{
  ℕ, ◌+◌, ◌<◌, ◌≡◌, Bool, Option, some, List, ◌==◌, if◌then◌else◌, get_elem?, ℤ, ok, u32_mod,
}
use blockchain_raft.Parameter.{server_count}
use blockchain_raft.Msg.{Extern, ReplicaMsgT}
use blockchain_raft.Raft.{Request}
use blockchain_raft.Network.{replica_receive, client_push_request}
use blockchain_raft.Server.{Server, Role, follower, candidate, leader, run_state}
use blockchain_raft.Follower
use blockchain_raft.Follower.{follower_round}
use blockchain_raft.Candidate.{start_election, candidate_round}
use blockchain_raft.Leader.Main.{start_leading, begin_request, Begun, Waiting, main_round}
use blockchain_raft.Leader.Wait.{Waited, wait_round, finish_request}
use blockchain_raft.Leader.Votes.{begun_server, main_server, waited_server}

-- Which `run` a replica is in; a candidate's is in its loop, with the votes that it has counted.
pub data Phase : Type 0 where
  following leading : Phase
  campaigning : ℕ → Phase

pub record Node : Type 0 where
  pub server : Server
  pub phase : Phase
  pub ballots : ℕ → ℤ

-- What a replica does by itself.
pub data LocalStep (x : Extern) : Phase → Server → Phase → Server → Type 0 where
  follows :
      (timeout last curr now : ℕ) (s : Server) (r : Follower.Round)
      → follower_round x timeout last curr now s ≡ ok r
      → LocalStep x following s following r.server
  enters :
      (p : Phase) (curr : Option Role) (s : Server)
      → s.next_state ≡ some follower
      → LocalStep x p s following (run_state curr s).1
  stands :
      (p : Phase) (curr : Option Role) (s : Server)
      → s.next_state ≡ some candidate
      → LocalStep x p s
          (campaigning (start_election (run_state curr s).1).vote_count)
          (start_election (run_state curr s).1).server
  campaigns :
      (timeout start curr votes : ℕ) (s : Server)
      → LocalStep x
          (campaigning votes)
          s
          (campaigning (candidate_round timeout start curr votes s).vote_count)
          (candidate_round timeout start curr votes s).server
  leads :
      (p : Phase) (curr : Option Role) (s : Server)
      → s.next_state ≡ some leader
      → LocalStep x p s leading (start_leading (run_state curr s).1)
  rules :
      (last curr now : ℕ) (next : List ℤ) (s : Server)
      → LocalStep x leading s leading (main_server (main_round last curr now next s))
  begins :
      (draws : List ℕ) (now : ℕ) (r : Request) (s : Server) (b : Begun)
      → begin_request x draws now r s ≡ ok b
      → LocalStep x leading s leading (begun_server s b)
  waits_on :
      (curr now : ℕ) (w : Waiting) (r : Waited)
      → wait_round curr now w ≡ ok r
      → LocalStep x leading w.server leading (waited_server r)
  answers :
      (committed : Bool) (r : Request) (s s' : Server)
      → finish_request committed r s ≡ ok s'
      → LocalStep x leading s leading s'

abbrev pub Nodes : Type 0
Nodes = ℕ → Node

abbrev pub put : Nodes → ℕ → Node → Nodes
put c i n j = if j == i then n else c j

-- The vote of the server's term is entered.
abbrev pub entered : Server → (ℕ → ℤ) → ℕ → ℤ
entered s ballots term = if term == s.curr_term then s.voted_candidate else ballots term

abbrev pub moved : Phase → Server → Node → Node
moved p s n = record { server = s; phase = p; ballots = entered s n.ballots }

abbrev pub with_server : Node → Server → Node
with_server n s = record n { server = s }

pub data ClusterStep (x : Extern) : Nodes → Nodes → Type 0 where
  acts :
      (i : ℕ) (c : Nodes) (p : Phase) (s : Server)
      → i < server_count
      → LocalStep x (c i).phase (c i).server p s
      → ClusterStep x c (put c i (moved p s (c i)))
  delivers :
      (i j k : ℕ) (m : ReplicaMsgT) (c : Nodes)
      → get_elem? (c j).server.network.replica_out k ≡ some m
      → m.receiver_id ≡ i
      → ClusterStep x c (
          put c i (
            with_server
              (c i)
              (record (c i).server { network = replica_receive m (c i).server.network })))
  asks :
      (i : ℕ) (r : Request) (c : Nodes)
      → ClusterStep x c (
          put c i (
            with_server
              (c i)
              (record (c i).server { network = client_push_request r (c i).server.network })))

pub data ClusterRun (x : Extern) : Nodes → Nodes → Type 0 where
  done : (c : Nodes) → ClusterRun x c c
  next : {c d e : Nodes} → ClusterStep x c d → ClusterRun x d e → ClusterRun x c e

-- No replica has the last term there is, at any time of the run.
abbrev pub HasTerms : Nodes → Type 0
HasTerms c = (i : ℕ) → (c i).server.curr_term + 1 < u32_mod

abbrev pub IsBounded : {x : Extern} {c d : Nodes} → ClusterRun x c d → Type 0
IsBounded (done c) = HasTerms c
IsBounded (next {c = c} step run) = HasTerms c × IsBounded run
