-- ===== src/Cluster/Runs.antt =====
-- What the votes of a cluster say of all its replicas, over any run.
use blockchain_raft.Base.{
  ℕ, zero, suc, ◌<◌, ◌≡◌, ◌≢◌, refl, sym, ap, ◌∙◌, true, some, List, [], ◌∷◌, map, get_elem?, arith,
  ◌==◌,
}
use mathlib.Core.Path.{subst}
use blockchain_raft.Parameter.{server_count, null_candidate_id}
use blockchain_raft.Msg.{Extern, ReplicaMsgT}
use blockchain_raft.Raft.{ReplicaMsg}
use blockchain_raft.Network.{Network, unpack, replica_receive, client_push_request}
use blockchain_raft.Network.Wire.{delivery}
use blockchain_raft.Server.{Server, leader}
use blockchain_raft.Follower.Vote.{VoteKept}
use blockchain_raft.Cluster.Mail.{All, All-append, All-mono}
use blockchain_raft.Cluster.Quiet.{Mail}
use blockchain_raft.Cluster.Just.{Ballots, IsJust, Extends, IsJust-Extends}
use blockchain_raft.Cluster.Safe.{IsPhase, IsSafe, LocalStep-VoteKept, LocalStep-IsSafe}
use blockchain_raft.Cluster.{
  Phase, following, leading, campaigning, Node, LocalStep, Nodes, put, moved, with_server,
  ClusterStep, acts, delivers, asks, ClusterRun, done, next, HasTerms, IsBounded,
}
use blockchain_raft.Cluster.Ballots.{
  ballots_of, IsRecorded, IsClusterSafe, IsSafe-Extends, entered-IsRecorded, entered-kept, put_self,
  put-all,
}

-- What is known of a replica, with the votes apart.
IsKnown : Ballots → ℕ → Node → Type 0
IsKnown votes i n = IsSafe votes i n.phase n.server

pub acts-Extends :
    (c : Nodes) (i : ℕ) (p : Phase) (s : Server)
    → VoteKept (c i).server s
    → IsRecorded (c i)
    → Extends (ballots_of c) (ballots_of (put c i (moved p s (c i))))
acts-Extends c i p s k r j =
    put-all
      (λ j n.
        (term : ℕ) → (c j).ballots term ≢ null_candidate_id → n.ballots term ≡ (c j).ballots term)
      c i (moved p s (c i)) (λ term real. entered-kept s (c i) term k r real) (λ j term real. refl)
      j

cast_now :
    (c : Nodes) (i : ℕ) (p : Phase) (s : Server)
    → ballots_of (put c i (moved p s (c i))) i s.curr_term ≡ s.voted_candidate
cast_now c i p s =
    let now : (s.curr_term == s.curr_term) ≡ true = ground arith in
    ap (λ (n : Node). n.ballots s.curr_term) (put_self c i (moved p s (c i))) ∙ rw now refl

pub acts-IsClusterSafe :
    {x : Extern} (i : ℕ) (c : Nodes) (p : Phase) (s : Server)
    → i < server_count
    → LocalStep x (c i).phase (c i).server p s
    → HasTerms c
    → IsClusterSafe c
    → IsClusterSafe (put c i (moved p s (c i)))
unfolding IsKnown
acts-IsClusterSafe i c p s inside step bound h =
    let votes' = ballots_of (put c i (moved p s (c i))) in
    let k = LocalStep-VoteKept step (bound i) in
    let more = acts-Extends c i p s k (h.recorded i) in
    let before : (j : ℕ) → IsKnown votes' j (c j) =
      λ j. IsSafe-Extends (ballots_of c) votes' j (c j).phase (c j).server more (h.safe j) in
    record {
      recorded =
          put-all (λ j n. IsRecorded n) c i (moved p s (c i))
            (entered-IsRecorded p s (c i) k (h.recorded i)) h.recorded;
      safe =
          put-all (IsKnown votes') c i (moved p s (c i))
            (LocalStep-IsSafe votes' i inside step (bound i) (cast_now c i p s) (before i)) before;
    }

-- A step that adds to what a replica has received, with the votes as they are.
abbrev pub with_network : Node → Network → Node
with_network n net = with_server n (record n.server { network = net })

IsPhase-network :
    (votes : Ballots) (i : ℕ) (p : Phase) (s : Server) (net : Network)
    → IsPhase votes i p s
    → IsPhase votes i p (record s { network = net })
IsPhase-network votes i following s net h = h
IsPhase-network votes i leading s net h = h
IsPhase-network votes i (campaigning count) s net h = h

pub same_ballots :
    (c : Nodes) (i : ℕ) (s : Server)
    → Extends (ballots_of c) (ballots_of (put c i (with_server (c i) s)))
same_ballots c i s =
    put-all
      (λ j n.
        (term : ℕ) → (c j).ballots term ≢ null_candidate_id → n.ballots term ≡ (c j).ballots term)
      c i (with_server (c i) s) (λ term real. refl) (λ j term real. refl)

pub received-IsClusterSafe :
    (i : ℕ) (c : Nodes) (net : Network)
    → All (IsJust (ballots_of c) i) net.replica_msg_queue
    → net.replica_out ≡ (c i).server.network.replica_out
    → IsClusterSafe c
    → IsClusterSafe (put c i (with_network (c i) net))
unfolding IsKnown
received-IsClusterSafe i c net just same h =
    let n = with_network (c i) net in
    let votes = ballots_of c in
    let votes' = ballots_of (put c i n) in
    let more : Extends votes votes' = same_ballots c i (record (c i).server { network = net }) in
    let known : (j : ℕ) → IsKnown votes' j (c j) =
      λ j. IsSafe-Extends votes votes' j (c j).phase (c j).server more (h.safe j) in
    record {
      recorded =
          put-all (λ j n. IsRecorded n) c i n
            (record { now = (h.recorded i).now; later = (h.recorded i).later }) h.recorded;
      safe =
          put-all (IsKnown votes') c i n
            (record {
              own_id = (h.safe i).own_id;
              queue =
                  All-mono (IsJust votes i) (IsJust votes' i) net.replica_msg_queue
                    (λ m. IsJust-Extends votes votes' i m more) just;
              sent =
                  subst (λ (out : List ReplicaMsgT). All (Mail (IsJust votes')) (map delivery out))
                    (sym same) (known i).sent;
              in_phase = IsPhase-network votes' i (c i).phase (c i).server net (known i).in_phase;
            })
            known;
    }

pub sent_at :
    (P : ℕ × ReplicaMsg → Type 0) (out : List ReplicaMsgT) (k : ℕ) {m : ReplicaMsgT}
    → All P (map delivery out)
    → get_elem? out k ≡ some m
    → P (delivery m)
sent_at P [] k h e = cc
sent_at P (y ∷ out) zero {m = m} h e =
    let same : y ≡ m = cc in subst (λ (z : ReplicaMsgT). P (delivery z)) same h.0
sent_at P (y ∷ out) (suc k) h e = sent_at P out k h.1 e

ClusterStep-IsClusterSafe :
    {x : Extern} {c d : Nodes} → ClusterStep x c d → HasTerms c → IsClusterSafe c → IsClusterSafe d
unfolding replica_receive client_push_request
ClusterStep-IsClusterSafe (acts i c p s inside step) bound h =
    acts-IsClusterSafe i c p s inside step bound h
ClusterStep-IsClusterSafe (delivers i j k m c e to) bound h =
    let votes = ballots_of c in
    let just : IsJust votes m.receiver_id (unpack m) =
      sent_at (Mail (IsJust votes)) (c j).server.network.replica_out k (h.safe j).sent e in
    received-IsClusterSafe i c (replica_receive m (c i).server.network)
      (All-append (IsJust votes i) (c i).server.network.replica_msg_queue (unpack m ∷ [])
        (h.safe i).queue (subst (λ (l : ℕ). IsJust votes l (unpack m)) to just, tt))
      refl h
ClusterStep-IsClusterSafe (asks i r c) bound h =
    received-IsClusterSafe i c (client_push_request r (c i).server.network) (h.safe i).queue refl h

pub ClusterRun-IsClusterSafe :
    {x : Extern} {c d : Nodes} (run : ClusterRun x c d)
    → IsBounded run
    → IsClusterSafe c
    → IsClusterSafe d
ClusterRun-IsClusterSafe (done c) bound h = h
ClusterRun-IsClusterSafe (next step run) bound h =
    ClusterRun-IsClusterSafe run bound.1 (ClusterStep-IsClusterSafe step bound.0 h)

ClusterStep-Extends :
    {x : Extern} {c d : Nodes}
    → ClusterStep x c d
    → HasTerms c
    → IsClusterSafe c
    → Extends (ballots_of c) (ballots_of d)
ClusterStep-Extends (acts i c p s inside step) bound h =
    acts-Extends c i p s (LocalStep-VoteKept step (bound i)) (h.recorded i)
ClusterStep-Extends (delivers i j k m c e to) bound h = same_ballots c i _
ClusterStep-Extends (asks i r c) bound h = same_ballots c i _

pub ClusterRun-Extends :
    {x : Extern} {c d : Nodes} (run : ClusterRun x c d)
    → IsBounded run
    → IsClusterSafe c
    → Extends (ballots_of c) (ballots_of d)
ClusterRun-Extends (done c) bound h i term real = refl
ClusterRun-Extends (next {c = c} step run) bound h i term real =
    let first = ClusterStep-Extends step bound.0 h i term real in
    ClusterRun-Extends run bound.1 (ClusterStep-IsClusterSafe step bound.0 h) i term
      (λ e. real (sym first ∙ e))
    ∙ first

-- How a cluster begins: no message, no vote, and every replica a follower.
pub record IsInitial (c : Nodes) : Type 0 where
  pub own_id : (i : ℕ) → (c i).server.id ≡ i
  pub empty : (i : ℕ) → (c i).server.network.replica_msg_queue ≡ []
  pub quiet : (i : ℕ) → (c i).server.network.replica_out ≡ []
  pub no_vote : (i : ℕ) → (c i).server.voted_candidate ≡ null_candidate_id
  pub no_ballot : (i term : ℕ) → (c i).ballots term ≡ null_candidate_id
  pub all_follow : (i : ℕ) → (c i).phase ≡ following
  pub no_leader : (i : ℕ) → (c i).server.next_state ≡ some leader → ⊥

pub IsInitial-IsClusterSafe : (c : Nodes) → IsInitial c → IsClusterSafe c
IsInitial-IsClusterSafe c h = record {
  recorded = λ i. record {
    now = h.no_ballot i (c i).server.curr_term ∙ sym (h.no_vote i);
    later = λ term _. h.no_ballot i term;
  };
  safe = λ i. record {
    own_id = h.own_id i;
    queue = subst (All (IsJust (ballots_of c) i)) (sym (h.empty i)) tt;
    sent =
        subst (λ (out : List ReplicaMsgT). All (Mail (IsJust (ballots_of c))) (map delivery out))
          (sym (h.quiet i)) tt;
    in_phase =
        subst (λ (p : Phase). IsPhase (ballots_of c) i p (c i).server) (sym (h.all_follow i))
          (h.no_leader i);
  };
}
