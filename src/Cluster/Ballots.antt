-- ===== src/Cluster/Ballots.antt =====
-- The record of the votes of a cluster, and how a step of one replica changes it.
use blockchain_raft.Base.{
  ℕ, ◌<◌, ◌≡◌, ◌≢◌, refl, sym, ap, ◌∙◌, inl, inr, Bool-cases, true, arith, ◌==◌,
}
use mathlib.Core.Path.{subst}
use blockchain_raft.Parameter.{null_candidate_id}
use blockchain_raft.Network.Wire.{deliveries}
use blockchain_raft.Server.{Server}
use blockchain_raft.Follower.Vote.{VoteKept}
use blockchain_raft.Cluster.Mail.{All-mono}
use blockchain_raft.Cluster.Quiet.{Mail}
use blockchain_raft.Cluster.Just.{Ballots, IsJust, Extends, HasBacker-Extends, IsJust-Extends}
use blockchain_raft.Cluster.Safe.{IsPhase, IsSafe}
use blockchain_raft.Cluster.{
  Phase, following, leading, campaigning, Node, Nodes, put, entered, moved,
}

abbrev pub ballots_of : Nodes → Ballots
ballots_of c i = (c i).ballots

-- The record of a replica's votes: its term's is the one it holds, and there is none of a later term.
pub record IsRecorded (n : Node) : Type 0 where
  pub now : n.ballots n.server.curr_term ≡ n.server.voted_candidate
  pub later : (term : ℕ) → n.server.curr_term < term → n.ballots term ≡ null_candidate_id

-- Of the whole cluster.
pub record IsClusterSafe (c : Nodes) : Type 0 where
  pub recorded : (i : ℕ) → IsRecorded (c i)
  pub safe : (i : ℕ) → IsSafe (ballots_of c) i (c i).phase (c i).server

IsPhase-Extends :
    (votes votes' : Ballots) (i : ℕ) (p : Phase) (s : Server)
    → Extends votes votes'
    → IsPhase votes i p s
    → IsPhase votes' i p s
IsPhase-Extends votes votes' i following s more h = h
IsPhase-Extends votes votes' i leading s more h =
    (h.0, HasBacker-Extends votes votes' i s.curr_term more h.1)
IsPhase-Extends votes votes' i (campaigning count) s more h = (
  h.0,
  (
    (λ two. HasBacker-Extends votes votes' i s.curr_term more (h.1.0 two)),
    λ e. HasBacker-Extends votes votes' i s.curr_term more (h.1.1 e),
  ),
)

pub IsSafe-Extends :
    (votes votes' : Ballots) (i : ℕ) (p : Phase) (s : Server)
    → Extends votes votes'
    → IsSafe votes i p s
    → IsSafe votes' i p s
IsSafe-Extends votes votes' i p s more h = record {
  own_id = h.own_id;
  queue =
      All-mono (IsJust votes i) (IsJust votes' i) s.network.replica_msg_queue
        (λ m. IsJust-Extends votes votes' i m more) h.queue;
  sent =
      All-mono (Mail (IsJust votes)) (Mail (IsJust votes')) (deliveries s.network)
        (λ d. IsJust-Extends votes votes' d.0 d.1 more) h.sent;
  in_phase = IsPhase-Extends votes votes' i p s more h.in_phase;
}

-- A step of one replica enters its vote, and changes none that was entered.
pub entered-IsRecorded :
    (p : Phase) (s : Server) (n : Node)
    → VoteKept n.server s
    → IsRecorded n
    → IsRecorded (moved p s n)
entered-IsRecorded p s n k r = record {
  now = ground arith;
  later = λ term after.
      ground (arith, after, k.term_grows, r.later term (omega (arith, after, k.term_grows)));
}

pub entered-kept :
    (s : Server) (n : Node) (term : ℕ)
    → VoteKept n.server s
    → IsRecorded n
    → n.ballots term ≢ null_candidate_id
    → entered s n.ballots term ≡ n.ballots term
entered-kept s n term k r real = elim (Bool-cases (term == s.curr_term)) [
  | inr old ↦ rw old refl
  | inl current ↦
      let same : term ≡ s.curr_term = ground (arith, current) in
      elim (Bool-cases (n.server.curr_term == s.curr_term)) [
        | inl stays ↦
            let e : n.server.curr_term ≡ s.curr_term = ground (arith, stays) in
            let was : n.ballots term ≡ n.server.voted_candidate =
              ap n.ballots (same ∙ sym e) ∙ r.now in
            rw current (k.vote_stays e (λ z. real (was ∙ z)) ∙ sym was)
        | inr grows ↦
            let up : n.server.curr_term < term = ground (arith, same, grows, k.term_grows) in
            absurd (real (r.later term up))
      ]
]

pub put_self : (c : Nodes) (i : ℕ) (n : Node) → put c i n i ≡ n
put_self c i n = let own : (i == i) ≡ true = ground arith in rw own refl

-- What holds of the replica that is replaced and of all others holds of all.
pub put-all :
    (P : ℕ → Node → Type 0) (c : Nodes) (i : ℕ) (n : Node)
    → P i n
    → ((j : ℕ) → P j (c j))
    → (j : ℕ) → P j (put c i n j)
put-all P c i n h k j = elim (Bool-cases (j == i)) [
  | inl own ↦
      let same : j ≡ i = ground (arith, own) in rw own (subst (λ (l : ℕ). P l n) (sym same) h)
  | inr other_id ↦ rw other_id (k j)
]
