-- ===== src/Network/Link.antt =====
-- The replica's connection to the mesh, in network.cpp: `replica_conn_handler` that connects and
-- `replica_recv_handler` that reads until the connection is lost.
use blockchain_raft.Base.{ℕ, ◌+◌, ◌≡◌, refl, Bool, true, false, if◌then◌else◌, arith}
use blockchain_raft.Parameter.{replica_client_base_port}

-- The flag `mesh_connected`, and that the receiving thread runs.
pub record Link : Type 0 where
  pub mesh_connected : Bool
  pub receiving : Bool

-- The port that a replica binds, from which the mesh tells its id.
abbrev pub replica_port : ℕ → ℕ
replica_port id = replica_client_base_port + id

-- One turn of the loop of `replica_conn_handler`; the outcome is that every socket call succeeded.
unfoldable pub conn_turn : Bool → Link → Link
conn_turn succeeded l =
    if l.mesh_connected
    then l
    else (if succeeded then record { mesh_connected = true; receiving = true } else l)

-- The receiving thread ends. It leaves the flag as it is.
unfoldable pub end_receiving : Link → Link
end_receiving l = record l { receiving = false }

-- What the two threads do.
pub data LinkStep : Link → Link → Type 0 where
  turns : (succeeded : Bool) (l : Link) → LinkStep l (conn_turn succeeded l)
  ends_receiving : (l : Link) → LinkStep l (end_receiving l)

pub data LinkRun : Link → Link → Type 0 where
  stays : (l : Link) → LinkRun l l
  goes : {l l1 l2 : Link} → LinkStep l l1 → LinkRun l1 l2 → LinkRun l l2

abbrev IsDead : Link → Type 0
IsDead l = (l.mesh_connected ≡ true) × (l.receiving ≡ false)

conn_turn-IsDead : (succeeded : Bool) (l : Link) → IsDead l → IsDead (conn_turn succeeded l)
unfolding conn_turn
conn_turn-IsDead succeeded l h = ground (arith, h)

LinkStep-IsDead : {l l1 : Link} → LinkStep l l1 → IsDead l → IsDead l1
unfolding end_receiving
LinkStep-IsDead (turns succeeded l) h = conn_turn-IsDead succeeded l h
LinkStep-IsDead (ends_receiving l) h = (h.0, refl)

LinkRun-IsDead : {l l1 : Link} → LinkRun l l1 → IsDead l → IsDead l1
LinkRun-IsDead (stays l) h = h
LinkRun-IsDead (goes step run) h = LinkRun-IsDead run (LinkStep-IsDead step h)

-- Once the thread that receives from the mesh has ended on a connection that was up, it never runs
-- again, whatever the connecting thread does.
pub lost_for_good :
    (l : Link) {l1 : Link}
    → l.mesh_connected ≡ true
    → LinkRun (end_receiving l) l1
    → l1.receiving ≡ false
unfolding end_receiving
lost_for_good l up run = (LinkRun-IsDead run (up, refl)).1
