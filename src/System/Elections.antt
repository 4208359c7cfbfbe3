-- ===== src/System/Elections.antt =====
-- The elections of the replicas with the simulated network between them.
use blockchain_raft.Base.{
  ℕ, zero, suc, ◌≡◌, ◌<◌, refl, sym, ◌∙◌, inl, inr, some, List, [], ◌∷◌, ◌++◌, get_elem?, ◌==◌,
  arith, Bool-cases,
}
use mathlib.Core.List.{Sublistᴰ}
use mathlib.Core.Path.{subst}
use blockchain_raft.Parameter.{server_count}
use blockchain_raft.Frame.{Read, lost, broken, whole, read_loose}
use blockchain_raft.Msg.{Extern, ReplicaMsgT}
use blockchain_raft.Network.{unpack, replica_receive, client_push_request}
use blockchain_raft.Mesh.{
  ServerInfo, Servers, MeshStep, connects, receives, disconnects, takes_item, transfers, toggles,
}
use blockchain_raft.Mesh.Order.{held_msgs, msgs}
use blockchain_raft.Mesh.Channel.{ChannelRun-Sublist}
use blockchain_raft.Mesh.Refines.{channel, addressed, read_msgs, step_msgs, MeshStep-Runs, Runs}
use blockchain_raft.Cluster.{Nodes, leading, HasTerms}
use blockchain_raft.Cluster.Mail.{All, All-append, All-mono}
use blockchain_raft.Cluster.Quiet.{Mail}
use blockchain_raft.Cluster.Just.{Ballots, IsJust, Extends, IsJust-Extends}
use blockchain_raft.Cluster.Safe.{LocalStep-VoteKept}
use blockchain_raft.Cluster.Ballots.{ballots_of, IsClusterSafe}
use blockchain_raft.Cluster.Runs.{
  IsInitial, sent_at, acts-Extends, same_ballots, acts-IsClusterSafe, received-IsClusterSafe,
  IsInitial-IsClusterSafe,
}
use blockchain_raft.Cluster.Elections.{same_leader}
use blockchain_raft.System.{
  SystemStep, acts, asks, meshes, hears, SystemRun, done, next, IsBounded, IsFromReplica,
}

-- A message on its way to replica `i`.
abbrev pub IsJustTo : Ballots → ℕ → ReplicaMsgT → Type 0
IsJustTo votes i msg = (msg.receiver_id ≡ i) × IsJust votes i (unpack msg)

-- All that is written to the replica, and that waits.
abbrev pub on_way : ServerInfo → List ReplicaMsgT
on_way p = p.written ++ (held_msgs p.held ++ msgs p.trans_queue)

pub record IsSystemSafe (c : Nodes) (m : Servers) : Type 0 where
  pub cluster : IsClusterSafe c
  pub way : (i : ℕ) → All (IsJustTo (ballots_of c) i) (on_way (m i))

way-Extends :
    (votes votes' : Ballots) (m : Servers)
    → Extends votes votes'
    → ((i : ℕ) → All (IsJustTo votes i) (on_way (m i)))
    → (i : ℕ) → All (IsJustTo votes' i) (on_way (m i))
way-Extends votes votes' m more h i =
    All-mono (IsJustTo votes i) (IsJustTo votes' i) (on_way (m i))
      (λ msg j. (j.0, IsJust-Extends votes votes' i (unpack msg) more j.1)) (h i)

All-Sublist :
    (P : ReplicaMsgT → Type 0) {xs ys : List ReplicaMsgT} → Sublistᴰ xs ys → All P ys → All P xs
All-Sublist P Sublistᴰ.slnil h = h
All-Sublist P (Sublistᴰ.cons d) h = All-Sublist P d h.1
All-Sublist P (Sublistᴰ.cons-cons e d) h = (subst P (sym e) h.0, All-Sublist P d h.1)

addressed-IsJustTo :
    (votes : Ballots) (i : ℕ) (msg : ReplicaMsgT)
    → IsJust votes msg.receiver_id (unpack msg)
    → All (IsJustTo votes i) (addressed i msg)
addressed-IsJustTo votes i msg just = elim (Bool-cases (msg.receiver_id == i)) [
  | inl own ↦
      let to : msg.receiver_id ≡ i = ground (arith, own) in
      rw own ((to, subst (λ (k : ℕ). IsJust votes k (unpack msg)) to just), tt)
  | inr other_id ↦ rw other_id tt
]

read-IsJustTo :
    (votes : Ballots) (i : ℕ) (r : Read ReplicaMsgT)
    → ((msg : ReplicaMsgT) → r ≡ whole msg → IsJust votes msg.receiver_id (unpack msg))
    → All (IsJustTo votes i) (read_msgs i r)
read-IsJustTo votes i lost h = tt
read-IsJustTo votes i broken h = tt
read-IsJustTo votes i (whole msg) h = addressed-IsJustTo votes i msg (h msg refl)

step_msgs-IsJustTo :
    (c : Nodes) (i : ℕ) {m m' : Servers} (step : MeshStep m m')
    → IsClusterSafe c
    → IsFromReplica c step
    → All (IsJustTo (ballots_of c) i) (step_msgs i step)
step_msgs-IsJustTo c i (receives j f now m) h from =
    let votes = ballots_of c in
    read-IsJustTo votes i (read_loose f) (λ msg e.
      let (k, at) = from msg e in
      sent_at (Mail (IsJust votes)) (c j).server.network.replica_out k (h.safe j).sent at)
step_msgs-IsJustTo c i (connects id m) h from = tt
step_msgs-IsJustTo c i (disconnects j m) h from = tt
step_msgs-IsJustTo c i (takes_item j m) h from = tt
step_msgs-IsJustTo c i (transfers j m) h from = tt
step_msgs-IsJustTo c i (toggles line m) h from = tt

-- What is on the way after a step of the mesh was on the way before, or is read in the step.
meshes-IsJustTo :
    (c : Nodes) (i : ℕ) {m m' : Servers} (step : MeshStep m m')
    → IsClusterSafe c
    → IsFromReplica c step
    → All (IsJustTo (ballots_of c) i) (on_way (m i))
    → All (IsJustTo (ballots_of c) i) (on_way (m' i))
unfolding channel Runs
meshes-IsJustTo c i {m = m} step h from before =
    let sub = ChannelRun-Sublist (MeshStep-Runs i step) in
    All-Sublist (IsJustTo (ballots_of c) i) sub (
      All-append (IsJustTo (ballots_of c) i) (on_way (m i)) (step_msgs i step) before
        (step_msgs-IsJustTo c i step h from))

written_at :
    (P : ReplicaMsgT → Type 0) (out rest : List ReplicaMsgT) (k : ℕ) {msg : ReplicaMsgT}
    → All P (out ++ rest)
    → get_elem? out k ≡ some msg
    → P msg
written_at P [] rest k h e = cc
written_at P (y ∷ out) rest zero {msg = msg} h e = let same : y ≡ msg = cc in subst P same h.0
written_at P (y ∷ out) rest (suc k) h e = written_at P out rest k h.1 e

SystemStep-IsSystemSafe :
    {x : Extern} {c d : Nodes} {m n : Servers}
    → SystemStep x c m d n
    → HasTerms c
    → IsSystemSafe c m
    → IsSystemSafe d n
unfolding replica_receive client_push_request
SystemStep-IsSystemSafe (acts i c p s m inside step) bound h = record {
  cluster = acts-IsClusterSafe i c p s inside step bound h.cluster;
  way =
      way-Extends _ _ m
        (acts-Extends c i p s (LocalStep-VoteKept step (bound i)) (h.cluster.recorded i)) h.way;
}
SystemStep-IsSystemSafe (asks i r c m) bound h = record {
  cluster =
      received-IsClusterSafe i c (client_push_request r (c i).server.network)
        (h.cluster.safe i).queue refl h.cluster;
  way = way-Extends _ _ m (same_ballots c i _) h.way;
}
SystemStep-IsSystemSafe (meshes c m m' step from) bound h = record {
  cluster = h.cluster;
  way = λ i. meshes-IsJustTo c i step h.cluster from (h.way i);
}
SystemStep-IsSystemSafe (hears i k msg c m at) bound h =
    let votes = ballots_of c in
    let to = written_at (IsJustTo votes i) (m i).written _ k (h.way i) at in
    record {
      cluster =
          received-IsClusterSafe i c (replica_receive msg (c i).server.network)
            (All-append (IsJust votes i) (c i).server.network.replica_msg_queue (unpack msg ∷ [])
              (h.cluster.safe i).queue (to.1, tt))
            refl h.cluster;
      way = way-Extends _ _ m (same_ballots c i _) h.way;
    }

SystemStep-Extends :
    {x : Extern} {c d : Nodes} {m n : Servers}
    → SystemStep x c m d n
    → HasTerms c
    → IsClusterSafe c
    → Extends (ballots_of c) (ballots_of d)
SystemStep-Extends (acts i c p s m inside step) bound h =
    acts-Extends c i p s (LocalStep-VoteKept step (bound i)) (h.recorded i)
SystemStep-Extends (asks i r c m) bound h = same_ballots c i _
SystemStep-Extends (meshes c m m' step from) bound h = λ i term real. refl
SystemStep-Extends (hears i k msg c m at) bound h = same_ballots c i _

SystemRun-IsSystemSafe :
    {x : Extern} {c d : Nodes} {m n : Servers} (run : SystemRun x c m d n)
    → IsBounded run
    → IsSystemSafe c m
    → IsSystemSafe d n
SystemRun-IsSystemSafe (done c m) bound h = h
SystemRun-IsSystemSafe (next step run) bound h =
    SystemRun-IsSystemSafe run bound.1 (SystemStep-IsSystemSafe step bound.0 h)

SystemRun-Extends :
    {x : Extern} {c d : Nodes} {m n : Servers} (run : SystemRun x c m d n)
    → IsBounded run
    → IsSystemSafe c m
    → Extends (ballots_of c) (ballots_of d)
SystemRun-Extends (done c m) bound h i term real = refl
SystemRun-Extends (next step run) bound h i term real =
    let first = SystemStep-Extends step bound.0 h.cluster i term real in
    SystemRun-Extends run bound.1 (SystemStep-IsSystemSafe step bound.0 h) i term
      (λ e. real (sym first ∙ e))
    ∙ first

-- Nothing is written to a replica, and nothing waits.
abbrev pub IsEmpty : Servers → Type 0
IsEmpty m = (i : ℕ) → on_way (m i) ≡ []

-- In a run of three replicas with the simulated network between them, from a start where all are
-- followers, no vote is given and no message is on its way, where the network reads from a replica
-- what that replica has sent and a replica what the network has written to it, and where no
-- replica restarts and no term is the last one of 32 bits, two replicas that lead in one term, the
-- second at the same time as the first or later, are one, whatever the network loses, delays and
-- cuts off.
pub one_leader_over_mesh :
    {x : Extern} {b c d : Nodes} {l m n : Servers} (i j : ℕ) (before : SystemRun x b l c m)
    (run : SystemRun x c m d n)
    → IsInitial b
    → IsEmpty l
    → IsBounded before
    → IsBounded run
    → i < server_count
    → j < server_count
    → (c i).phase ≡ leading
    → (d j).phase ≡ leading
    → (c i).server.curr_term ≡ (d j).server.curr_term
    → i ≡ j
one_leader_over_mesh {b = b} {c = c} {d = d} i j before run init empty bound bound' li lj leads
      leads' same =
    let start : IsSystemSafe b _ = record {
      cluster = IsInitial-IsClusterSafe b init;
      way = λ i. subst (All (IsJustTo (ballots_of b) i)) (sym (empty i)) tt;
    } in
    let h = SystemRun-IsSystemSafe before bound start in
    let h' = SystemRun-IsSystemSafe run bound' h in
    same_leader c d i j h.cluster h'.cluster (SystemRun-Extends run bound' h) li lj leads leads'
      same
