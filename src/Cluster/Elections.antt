-- ===== src/Cluster/Elections.antt =====
-- The elections of a whole cluster: over any run, a term has one leader.
use blockchain_raft.Base.{
  ℕ, ◌<◌, ◌≡◌, ◌≢◌, sym, ap, ◌∙◌, inl, inr, Bool-cases, some, get_elem?, pos, pos_part, arith, ◌==◌,
}
use mathlib.Core.Path.{subst}
use blockchain_raft.Parameter.{server_count}
use blockchain_raft.Msg.{Extern, ReplicaMsgT}
use blockchain_raft.Raft.{AppendEntryRpc, app_entr_rpc}
use blockchain_raft.Network.{unpack}
use blockchain_raft.Cluster.Quiet.{Mail}
use blockchain_raft.Cluster.Just.{
  Ballots, IsJust, Extends, HasLed, HasBacker, pos-real, HasBacker-Extends,
}
use blockchain_raft.Cluster.Safe.{IsPhase}
use blockchain_raft.Cluster.{Phase, leading, Nodes, ClusterRun, IsBounded}
use blockchain_raft.Cluster.Ballots.{ballots_of, IsClusterSafe}
use blockchain_raft.Cluster.Runs.{
  sent_at, IsInitial, ClusterRun-IsClusterSafe, ClusterRun-Extends, IsInitial-IsClusterSafe,
}

leader-HasWon :
    (c : Nodes) (i : ℕ)
    → IsClusterSafe c
    → (c i).phase ≡ leading
    → (ballots_of c i (c i).server.curr_term ≡ pos i)
      × HasBacker (ballots_of c) i (c i).server.curr_term
leader-HasWon c i h leads =
    let (mine, backer) =
      subst (λ (p : Phase). IsPhase (ballots_of c) i p (c i).server) leads (h.safe i).in_phase in
    ((h.recorded i).now ∙ mine, backer)

pos_inj : {i j : ℕ} → pos i ≡ pos j → i ≡ j
pos_inj e = ap pos_part e

-- Two winners of one term, of three replicas, are one: the third has one vote.
one_winner :
    (votes : Ballots) (i j term : ℕ)
    → i < server_count
    → j < server_count
    → votes i term ≡ pos i
    → HasBacker votes i term
    → votes j term ≡ pos j
    → HasBacker votes j term
    → i ≡ j
one_winner votes i j term li lj vi (w, lw, wi, vw) vj (u, lu, uj, vu) = elim (Bool-cases (i == j)) [
  | inl same ↦ ground (arith, same)
  | inr differ ↦
      let ij : i ≢ j = ground (arith, differ) in
      let wj : w ≢ j = λ e. ij (pos_inj (sym vw ∙ ap (λ (z : ℕ). votes z term) e ∙ vj)) in
      let ui : u ≢ i = λ e. ij (pos_inj (sym vi ∙ ap (λ (z : ℕ). votes z term) (sym e) ∙ vu)) in
      let wu : w ≡ u = ground (arith, li, lj, lw, lu, ij, wi, wj, ui, uj) in
      pos_inj (sym vw ∙ ap (λ (z : ℕ). votes z term) wu ∙ vu)
]

-- Two that have won, the second not before the first.
pub same_leader :
    (c d : Nodes) (i j : ℕ)
    → IsClusterSafe c
    → IsClusterSafe d
    → Extends (ballots_of c) (ballots_of d)
    → i < server_count
    → j < server_count
    → (c i).phase ≡ leading
    → (d j).phase ≡ leading
    → (c i).server.curr_term ≡ (d j).server.curr_term
    → i ≡ j
same_leader c d i j h h' more li lj leads leads' same =
    let (mine, backer) = leader-HasWon c i h leads in
    let (mine', backer') = leader-HasWon d j h' leads' in
    let term = (c i).server.curr_term in
    one_winner (ballots_of d) i j (d j).server.curr_term li lj
      (subst (λ (t : ℕ). ballots_of d i t ≡ pos i) same
        (more i term (λ e. pos-real i (sym mine ∙ e)) ∙ mine))
      (subst (HasBacker (ballots_of d) i) same
        (HasBacker-Extends (ballots_of c) (ballots_of d) i term more backer))
      mine' backer'

-- In a run of a cluster of three replicas from a start where all are followers, no vote is given
-- and no message is on its way, and where messages may be lost, repeated and reordered, no replica
-- restarts and no term is the last one of 32 bits, two replicas that lead in one term, the second
-- at the same time as the first or later, are one.
pub one_leader :
    {x : Extern} {b c d : Nodes} (i j : ℕ) (before : ClusterRun x b c) (run : ClusterRun x c d)
    → IsInitial b
    → IsBounded before
    → IsBounded run
    → i < server_count
    → j < server_count
    → (c i).phase ≡ leading
    → (d j).phase ≡ leading
    → (c i).server.curr_term ≡ (d j).server.curr_term
    → i ≡ j
one_leader {c = c} {d = d} i j before run init bound bound' li lj leads leads' same =
    let h = ClusterRun-IsClusterSafe before bound (IsInitial-IsClusterSafe _ init) in
    same_leader c d i j h (ClusterRun-IsClusterSafe run bound' h) (ClusterRun-Extends run bound' h)
      li lj leads leads' same

-- In such a run a replica that leads has voted for itself in its term, and so has another replica
-- of the three.
pub leader_votes :
    {x : Extern} {b c : Nodes} (i : ℕ) (run : ClusterRun x b c)
    → IsInitial b
    → IsBounded run
    → (c i).phase ≡ leading
    → (ballots_of c i (c i).server.curr_term ≡ pos i)
      × HasBacker (ballots_of c) i (c i).server.curr_term
leader_votes {c = c} i run init bound leads =
    leader-HasWon c i (ClusterRun-IsClusterSafe run bound (IsInitial-IsClusterSafe _ init)) leads

sent_at-HasLed :
    (c : Nodes) (i k : ℕ) {m : ReplicaMsgT} {r : AppendEntryRpc}
    → IsClusterSafe c
    → get_elem? (c i).server.network.replica_out k ≡ some m
    → unpack m ≡ app_entr_rpc r
    → HasLed (ballots_of c) r.leader_id r.term
sent_at-HasLed c i k {m = m} h at is =
    subst (IsJust (ballots_of c) m.receiver_id) is
      (sent_at (Mail (IsJust (ballots_of c))) (c i).server.network.replica_out k (h.safe i).sent at)

-- In such a run, all append messages of one term that any of the replicas have sent carry the id
-- of one leader.
pub one_voice :
    {x : Extern} {b c : Nodes} (run : ClusterRun x b c) (i j k l : ℕ) {m m' : ReplicaMsgT}
    (r r' : AppendEntryRpc)
    → IsInitial b
    → IsBounded run
    → get_elem? (c i).server.network.replica_out k ≡ some m
    → unpack m ≡ app_entr_rpc r
    → get_elem? (c j).server.network.replica_out l ≡ some m'
    → unpack m' ≡ app_entr_rpc r'
    → r.term ≡ r'.term
    → r.leader_id ≡ r'.leader_id
one_voice {c = c} run i j k l r r' init bound at is at' is' same =
    let votes = ballots_of c in
    let h = ClusterRun-IsClusterSafe run bound (IsInitial-IsClusterSafe _ init) in
    let (a, id, la, va, wa) = sent_at-HasLed c i k h at is in
    let (d, id', ld, vd, wd) = sent_at-HasLed c j l h at' is' in
    id
    ∙ ap pos (
        one_winner votes a d r'.term la ld (subst (λ (t : ℕ). votes a t ≡ pos a) same va)
          (subst (HasBacker votes a) same wa) vd wd)
    ∙ sym id'
