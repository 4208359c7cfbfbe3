-- ===== src/Replica.antt =====
-- A replica over time: `run_state_machine` of server.cpp runs the `run` of the current state again
-- and again, while the receiving threads fill its queues. A step is one round of a state's loop, the
-- change from one state to the next, or a change by the threads. The relation lets any round of any
-- state follow any other, which is more than the program does.
pub mod Votes
pub mod Restart
use blockchain_raft.Base.{ℕ, Option, List, ◌+◌, ◌<◌, ◌≡◌, Bool, ℤ, ok, u32_mod}
use blockchain_raft.Msg.{Extern}
use blockchain_raft.Raft.{Request}
use blockchain_raft.Network.{Network}
use blockchain_raft.Server.{Server, Role, run_state}
use blockchain_raft.Follower
use blockchain_raft.Follower.{follower_round}
use blockchain_raft.Candidate.{start_election, candidate_round}
use blockchain_raft.Leader.Main.{start_leading, begin_request, Begun, Waiting, main_round}
use blockchain_raft.Leader.Wait.{Waited, wait_round, finish_request}
use blockchain_raft.Leader.Votes.{main_server, begun_server, waited_server}

pub data Step (x : Extern) : Server → Server → Type 0 where
  receives : (n : Network) (s : Server) → Step x s (record s { network = n })
  follows :
      (timeout last curr now : ℕ) (s : Server) (r : Follower.Round)
      → follower_round x timeout last curr now s ≡ ok r
      → Step x s r.server
  enters : (curr : Option Role) (s : Server) → Step x s (run_state curr s).1
  stands : (s : Server) → Step x s (start_election s).server
  campaigns :
      (timeout start curr votes : ℕ) (s : Server)
      → Step x s (candidate_round timeout start curr votes s).server
  leads : (s : Server) → Step x s (start_leading s)
  rules :
      (last curr now : ℕ) (next : List ℤ) (s : Server)
      → Step x s (main_server (main_round last curr now next s))
  begins :
      (draws : List ℕ) (now : ℕ) (r : Request) (s : Server) (b : Begun)
      → begin_request x draws now r s ≡ ok b
      → Step x s (begun_server s b)
  waits_on :
      (curr now : ℕ) (w : Waiting) (r : Waited)
      → wait_round curr now w ≡ ok r
      → Step x w.server (waited_server r)
  answers :
      (committed : Bool) (r : Request) (s s' : Server)
      → finish_request committed r s ≡ ok s'
      → Step x s s'

pub data Run (x : Extern) : Server → Server → Type 0 where
  done : (s : Server) → Run x s s
  next : {s t u : Server} → Step x s t → Run x t u → Run x s u

-- No server of the run has the last term there is.
abbrev pub IsBounded : {x : Extern} {s t : Server} → Run x s t → Type 0
IsBounded (done s) = s.curr_term + 1 < u32_mod
IsBounded (next {s = s} step run) = (s.curr_term + 1 < u32_mod) × IsBounded run
