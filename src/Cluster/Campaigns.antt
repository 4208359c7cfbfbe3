-- ===== src/Cluster/Campaigns.antt =====
-- The rounds of `CandidateState::run`: a second vote that is counted comes from another replica.
use blockchain_raft.Base.{
  ℕ, ◌+◌, ◌-◌, ◌/◌, ◌<◌, ◌≤◌, ◌≡◌, ◌≢◌, refl, sym, Bool, true, false, ◌&&◌, some, List, [], ◌∷◌,
  pos, negsuc, ltb, leb, ◌==◌, if◌then◌else◌, int_max_suc, arith,
}
use mathlib.Core.Path.{subst}
use blockchain_raft.Parameter.{server_count}
use blockchain_raft.Raft.{
  ReplicaMsg, no_msg, req_vote_rpc, req_vote_rpl, app_entr_rpc, app_entr_rpl, other,
}
use blockchain_raft.Network.{Network, replica_pop_message}
use blockchain_raft.Server.{Server, Role, leader, follower, candidate, set_state, increment_term}
use blockchain_raft.Follower.Vote.{SameVote}
use blockchain_raft.Candidate.{
  Round, turns, goes_on, vote_request, start_election, handle_message, candidate_round,
}
use blockchain_raft.Cluster.Mail.{All}
use blockchain_raft.Cluster.Quiet.{Quiet, Carried, Carried-refl, Carried-trans, send-Carried}
use blockchain_raft.Cluster.Just.{Ballots, IsJust, HasBacker}

module _ (votes : Ballots) (i : ℕ) where
  pub start_election-Quiet :
      (s : Server) → s.id < int_max_suc → Quiet (IsJust votes) i s (start_election s).server
  unfolding start_election increment_term
  start_election-Quiet s small =
      let s1 = record (increment_term s) { voted_candidate = pos s.id } in
      record {
        same_id = refl;
        not_promoted = λ e. e;
        carried =
            send-Carried (IsJust votes) i s.id (req_vote_rpc (vote_request s1)) (negsuc 0) s.network
              small (λ id reached. (s.id, refl, λ e. reached (sym e)));
      }

  -- A candidate with two votes, or that is to lead, has the vote of another replica.
  abbrev pub IsBacked : ℕ → Server → Type 0
  IsBacked count s =
      (2 ≤ count → HasBacker votes i s.curr_term)
      × (s.next_state ≡ some leader → HasBacker votes i s.curr_term)

  -- What a round leaves of the state before it.
  pub record Campaigned (count : ℕ) (s : Server) (r : Round) : Type 0 where
    pub same_id : r.server.id ≡ s.id
    pub same_vote : SameVote s r.server
    pub carried : Carried (IsJust votes) i s.network r.server.network
    pub backed : IsBacked count s → IsBacked r.vote_count r.server

  goes_on-Campaigned : (count : ℕ) (s : Server) → Campaigned count s (goes_on count s)
  goes_on-Campaigned count s = record {
    same_id = refl;
    same_vote = (refl, refl);
    carried = Carried-refl (IsJust votes) i s.network;
    backed = λ h. h;
  }

  turns-Campaigned :
      (role : Role) (count : ℕ) (s : Server)
      → role ≢ leader
      → Campaigned count s (turns role count s)
  unfolding set_state
  turns-Campaigned role count s other_role = record {
    same_id = refl;
    same_vote = (refl, refl);
    carried = Carried-refl (IsJust votes) i s.network;
    backed = λ h. (h.0, λ e. absurd (other_role cc));
  }

  counts-Campaigned :
      (count : ℕ) (s : Server) (b : Bool)
      → HasBacker votes i s.curr_term
      → Campaigned count s (if b then turns leader (count + 1) s else goes_on (count + 1) s)
  unfolding set_state
  counts-Campaigned count s true backer = record {
    same_id = refl;
    same_vote = (refl, refl);
    carried = Carried-refl (IsJust votes) i s.network;
    backed = λ _. (λ _. backer, λ _. backer);
  }
  counts-Campaigned count s false backer = record {
    same_id = refl;
    same_vote = (refl, refl);
    carried = Carried-refl (IsJust votes) i s.network;
    backed = λ _. (λ _. backer, λ _. backer);
  }

  test_cases :
      (b : Bool) (count : ℕ) (s : Server) (r t : Round)
      → (b ≡ true → Campaigned count s r)
      → (b ≡ false → Campaigned count s t)
      → Campaigned count s (if b then r else t)
  test_cases true count s r t h k = h refl
  test_cases false count s r t h k = k refl

  handle_message-Campaigned :
      (msg : ReplicaMsg) (count : ℕ) (s : Server)
      → IsJust votes i msg
      → Campaigned count s (handle_message msg count s)
  unfolding handle_message
  handle_message-Campaigned (req_vote_rpc rpc) count s just =
      test_cases (ltb s.curr_term rpc.term) count s _ _
        (λ _. turns-Campaigned follower count s (λ e. cc)) (λ _. goes_on-Campaigned count s)
  handle_message-Campaigned (req_vote_rpl reply) count s just =
      test_cases (ltb s.curr_term reply.term) count s _ _
        (λ _. turns-Campaigned follower count s (λ e. cc))
        (λ _.
          test_cases ((reply.term == s.curr_term) && reply.vote_granted) count s _ _
            (λ counted.
              let term : reply.term ≡ s.curr_term = ground (arith, counted) in
              let granted : reply.vote_granted ≡ true = ground (arith, counted) in
              counts-Campaigned count s (leb (server_count / 2 + 1) (count + 1))
                (subst (HasBacker votes i) term (just granted)))
            (λ _. goes_on-Campaigned count s))
  handle_message-Campaigned (app_entr_rpc rpc) count s just =
      test_cases (leb s.curr_term rpc.term) count s _ _
        (λ _. turns-Campaigned follower count s (λ e. cc)) (λ _. goes_on-Campaigned count s)
  handle_message-Campaigned (app_entr_rpl r) count s just = goes_on-Campaigned count s
  handle_message-Campaigned no_msg count s just = goes_on-Campaigned count s
  handle_message-Campaigned (other n) count s just = goes_on-Campaigned count s

  popped-Campaigned :
      (count : ℕ) (s : Server) (n : Network) (r : Round)
      → Carried (IsJust votes) i s.network n
      → Campaigned count (record s { network = n }) r
      → Campaigned count s r
  popped-Campaigned count s n r h c = record {
    same_id = c.same_id;
    same_vote = c.same_vote;
    carried = Carried-trans (IsJust votes) i s.network n r.server.network h c.carried;
    backed = c.backed;
  }

  abbrev with_queue : List ReplicaMsg → Server → Server
  with_queue q s = record s { network = record s.network { replica_msg_queue = q } }

  queue_cases :
      (timeout start curr count : ℕ) (q : List ReplicaMsg) (s : Server)
      → All (IsJust votes i) q
      → Campaigned count
          (with_queue q s)
          (candidate_round timeout start curr count (with_queue q s))
  unfolding candidate_round replica_pop_message
  queue_cases timeout start curr count [] s just =
      test_cases (ltb timeout (curr - start)) count (with_queue [] s) _ _
        (λ _. turns-Campaigned candidate count (with_queue [] s) (λ e. cc))
        (λ _. goes_on-Campaigned count (with_queue [] s))
  queue_cases timeout start curr count (m ∷ ms) s just =
      let s1 = with_queue (m ∷ ms) s in
      test_cases (ltb timeout (curr - start)) count s1 _ _
        (λ _. turns-Campaigned candidate count s1 (λ e. cc))
        (λ _.
          popped-Campaigned count s1 (with_queue ms s).network _
            (record { queue = λ q. q.1; sent = λ q. q })
            (handle_message-Campaigned m count (with_queue ms s) just.0))

  pub candidate_round-Campaigned :
      (timeout start curr count : ℕ) (s : Server)
      → All (IsJust votes i) s.network.replica_msg_queue
      → Campaigned count s (candidate_round timeout start curr count s)
  candidate_round-Campaigned timeout start curr count s just =
      queue_cases timeout start curr count s.network.replica_msg_queue s just
