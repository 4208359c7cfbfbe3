-- ===== src/System.antt =====
-- The replicas and the simulated network between them: what a replica sends is read by mesh.cpp, and
-- what mesh.cpp writes to a replica is read by `replica_recv_handler` of network.cpp.
pub mod Elections
use blockchain_raft.Base.{ℕ, ◌≡◌, ◌<◌, ◌+◌, some, get_elem?, u32_mod}
use blockchain_raft.Parameter.{server_count}
use blockchain_raft.Frame.{whole, read_loose}
use blockchain_raft.Msg.{Extern, ReplicaMsgT}
use blockchain_raft.Raft.{Request}
use blockchain_raft.Network.{replica_receive, client_push_request}
use blockchain_raft.Server.{Server}
use blockchain_raft.Mesh.{Servers, MeshStep, receives}
use blockchain_raft.Cluster.{Phase, Nodes, LocalStep, put, moved, with_server, HasTerms}

-- A message that the mesh reads from a replica is one that the replica has sent.
abbrev pub IsFromReplica : {m m' : Servers} → Nodes → MeshStep m m' → Type 0
IsFromReplica c (receives j f now m) =
    (msg : ReplicaMsgT)
    → read_loose f ≡ whole msg
    → (k : ℕ) × (get_elem? (c j).server.network.replica_out k ≡ some msg)
IsFromReplica c _ = Unit

pub data SystemStep (x : Extern) : Nodes → Servers → Nodes → Servers → Type 0 where
  acts :
      (i : ℕ) (c : Nodes) (p : Phase) (s : Server) (m : Servers)
      → i < server_count
      → LocalStep x (c i).phase (c i).server p s
      → SystemStep x c m (put c i (moved p s (c i))) m
  asks :
      (i : ℕ) (r : Request) (c : Nodes) (m : Servers)
      → SystemStep x c m
          (put c i (
            with_server
              (c i)
              (record (c i).server { network = client_push_request r (c i).server.network })))
          m
  meshes :
      (c : Nodes) (m m' : Servers) (step : MeshStep m m')
      → IsFromReplica c step
      → SystemStep x c m c m'
  hears :
      (i k : ℕ) (msg : ReplicaMsgT) (c : Nodes) (m : Servers)
      → get_elem? (m i).written k ≡ some msg
      → SystemStep x c m
          (put c i (
            with_server
              (c i)
              (record (c i).server { network = replica_receive msg (c i).server.network })))
          m

pub data SystemRun (x : Extern) : Nodes → Servers → Nodes → Servers → Type 0 where
  done : (c : Nodes) (m : Servers) → SystemRun x c m c m
  next :
      {c d e : Nodes} {m n o : Servers}
      → SystemStep x c m d n
      → SystemRun x d n e o
      → SystemRun x c m e o

-- No replica has the last term there is, at any time of the run.
abbrev pub IsBounded : {x : Extern} {c d : Nodes} {m n : Servers} → SystemRun x c m d n → Type 0
IsBounded (done c m) = HasTerms c
IsBounded (next {c = c} step run) = HasTerms c × IsBounded run
