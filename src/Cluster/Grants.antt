-- ===== src/Cluster/Grants.antt =====
-- A round of `FollowerState::run`: each vote that it sends is the one that it has cast.
use blockchain_raft.Base.{
  ℕ, ◌-◌, ◌<◌, ◌≡◌, ◌≢◌, refl, sym, ap, ◌∙◌, Bool, true, false, Option, none, some, List, [], ◌∷◌,
  ℤ, pos, ltb, if◌then◌else◌, int_of_ℕ, IsInt, OnOk, OnOk->>=, OnOk-map, OnOk-if, OnOk-list, arith,
}
use mathlib.Core.Path.{subst}
use blockchain_raft.Parameter.{server_count}
use blockchain_raft.Msg.{Extern}
use blockchain_raft.Raft.{
  ReplicaMsg, RequestVoteRpc, RequestVoteReply, AppendEntryReply, no_msg, req_vote_rpc,
  req_vote_rpl, app_entr_rpc, app_entr_rpl, other, Request,
}
use blockchain_raft.Network.{Network, replica_pop_message, client_pop_request, client_send_message}
use blockchain_raft.Server.{Server, candidate, set_state}
use blockchain_raft.Follower.{
  Round, adopt_term, handle_vote, handle_append, redirect, redirect_client, handle_message,
  read_message, follower_round,
}
use blockchain_raft.Follower.Vote.{vote_recorded}
use blockchain_raft.Cluster.Mail.{All, IsReached}
use blockchain_raft.Cluster.Quiet.{
  Quiet, Quiet-refl, Quiet-trans, network-Quiet, Carried, Carried-refl, Carried-trans, send-Carried,
  pop-Carried, request-Carried, respond-Carried,
}
use blockchain_raft.Cluster.Just.{Ballots, IsJust}
use blockchain_raft.Cluster.Follows.{adopt_term-Quiet, handle_append-Replied, Replied}

reply_term :
    (rpc : RequestVoteRpc) (s : Server)
    → (handle_vote rpc s).1.term ≡ (handle_vote rpc s).0.curr_term
unfolding handle_vote
reply_term rpc s = ground arith

module _ (votes : Ballots) (x : Extern) (i : ℕ) (inside : i < server_count) where
  -- The vote of the server in its term is on record.
  abbrev pub IsCast : Server → Type 0
  IsCast s = votes i s.curr_term ≡ s.voted_candidate

  pair_cases :
      (b : Bool) (s : Server) (r t : Server × RequestVoteReply)
      → Quiet (IsJust votes) i s r.0
      → Quiet (IsJust votes) i s t.0
      → Quiet (IsJust votes) i s (if b then r else t).0
  pair_cases true s r t h k = h
  pair_cases false s r t h k = k

  handle_vote-Quiet :
      (rpc : RequestVoteRpc) (s : Server) → Quiet (IsJust votes) i s (handle_vote rpc s).0
  unfolding handle_vote
  handle_vote-Quiet rpc s =
      let s1 = adopt_term rpc.term s in
      let h = adopt_term-Quiet votes x i inside rpc.term s in
      pair_cases _ s (record s1 { voted_candidate = rpc.candidate_id }, _) (s1, _)
        (record { same_id = h.same_id; not_promoted = h.not_promoted; carried = h.carried }) h

  granted-IsJust :
      (rpc : RequestVoteRpc) (s : Server) (k : ℕ)
      → IsCast (handle_vote rpc s).0
      → rpc.candidate_id ≡ pos k
      → k ≢ i
      → IsJust votes k (req_vote_rpl (handle_vote rpc s).1)
  granted-IsJust rpc s k cast names another granted =
      let (recorded, _) = vote_recorded rpc s granted in
      (i, inside, (λ e. another (sym e)), ap (votes i) (reply_term rpc s) ∙ cast ∙ recorded ∙ names)

  small :
      (s : Server) (reply : AppendEntryReply)
      → s.id ≡ i
      → reply.sender_id ≡ pos s.id
      → IsInt reply.sender_id
  small s reply own sender = subst IsInt (sym (sender ∙ ap pos own)) (omega (arith, inside))

  handle_message-Quiet :
      (last now : ℕ) (msg : ReplicaMsg) (s : Server)
      → s.id ≡ i
      → IsJust votes i msg
      → OnOk
          (λ (r : Round). IsCast r.server → Quiet (IsJust votes) i s r.server)
          (handle_message x last now msg s)
  unfolding handle_message Replied
  handle_message-Quiet last now (req_vote_rpc rpc) s own just = λ cast.
      let (k, names, another) = just in
      let s1 = (handle_vote rpc s).0 in
      let reply = req_vote_rpl (handle_vote rpc s).1 in
      Quiet-trans (IsJust votes) i s s1 _ (handle_vote-Quiet rpc s) (
        network-Quiet (IsJust votes) i s1 _ (
          send-Carried (IsJust votes) i s1.id reply rpc.candidate_id s1.network tt (λ id reached.
            let same : id ≡ k = subst (λ (z : ℤ). IsReached s1.id z id) names reached in
            granted-IsJust rpc s id cast (names ∙ ap pos (sym same))
              (λ e. another (sym same ∙ e)))))
  handle_message-Quiet last now (app_entr_rpc rpc) s own just =
      OnOk->>= (Replied votes x i inside s)
        (λ (r : Round). IsCast r.server → Quiet (IsJust votes) i s r.server) (handle_append x rpc s)
        _ (handle_append-Replied votes x i inside rpc s)
        (λ r h cast. Quiet-trans (IsJust votes) i s r.0 _ h.0 (
          network-Quiet (IsJust votes) i r.0 _ (
            send-Carried (IsJust votes) i r.0.id (app_entr_rpl r.1) rpc.leader_id r.0.network
              (small r.0 r.1 (h.0.same_id ∙ own) h.1) (λ id reached. tt))))
  handle_message-Quiet last now (req_vote_rpl r) s own just = λ _. Quiet-refl (IsJust votes) i s
  handle_message-Quiet last now (app_entr_rpl r) s own just = λ _. Quiet-refl (IsJust votes) i s
  handle_message-Quiet last now no_msg s own just = λ _. Quiet-refl (IsJust votes) i s
  handle_message-Quiet last now (other n) s own just = λ _. Quiet-refl (IsJust votes) i s

  -- What a round leaves of a server `s`.
  Left : Server → Round → Type 0
  Left s r = IsCast r.server → Quiet (IsJust votes) i s r.server

  front_cases :
      (q : List ReplicaMsg) (n : Network)
      → q ≢ []
      → All (IsJust votes i) q
      → IsJust votes i
          (elim q as (λ _. ReplicaMsg × Network) [
            | [] ↦ (no_msg, n)
            | m ∷ ms ↦ (m, record n { replica_msg_queue = ms })
          ]).0
  front_cases [] n filled h = absurd (filled refl)
  front_cases (m ∷ ms) n filled h = h.0

  read_message-Quiet :
      (last now : ℕ) (s : Server)
      → s.id ≡ i
      → All (IsJust votes i) s.network.replica_msg_queue
      → OnOk (Left s) (read_message x last now s)
  unfolding read_message Left replica_pop_message
  read_message-Quiet last now s own just =
      let (msg, n) = replica_pop_message s.network in
      let s1 = record s { network = n } in
      OnOk-list (Left s) s.network.replica_msg_queue _ _ (λ _ _. Quiet-refl (IsJust votes) i s)
        (λ filled.
          OnOk-map (Left s1) (Left s) (handle_message x last now msg s1)
            (handle_message-Quiet last now msg s1 own
              (front_cases s.network.replica_msg_queue s.network filled just))
            (λ r h cast.
              Quiet-trans (IsJust votes) i s s1 r.server
                (network-Quiet (IsJust votes) i s n (pop-Carried (IsJust votes) i s.network))
                (h cast)))

  redirect_cases :
      (o : Option Request) (s : Server) (n : Network)
      → Carried (IsJust votes) i s.network n
      → Quiet (IsJust votes) i s (elim o as (λ _. Server) [
        | none ↦ s
        | some r ↦ record s {
          network = client_send_message (redirect r s) (int_of_ℕ r.client_id) n;
        }
      ])
  redirect_cases none s n h = Quiet-refl (IsJust votes) i s
  redirect_cases (some r) s n h = network-Quiet (IsJust votes) i s _ (
      Carried-trans (IsJust votes) i s.network n _ h
        (respond-Carried (IsJust votes) i (redirect r s) (int_of_ℕ r.client_id) n))

  redirect-Quiet : (s : Server) → Quiet (IsJust votes) i s (redirect_client s)
  unfolding redirect_client
  redirect-Quiet s =
      let (front, n) = client_pop_request s.network in
      redirect_cases front s n (request-Carried (IsJust votes) i s.network)

  stand-Quiet : (s : Server) → Quiet (IsJust votes) i s (set_state candidate s)
  unfolding set_state
  stand-Quiet s = record {
    same_id = refl;
    not_promoted = λ e. cc;
    carried = Carried-refl (IsJust votes) i s.network;
  }

  -- A round of the follower that returns, on just messages, leaves what it sends just and what is
  -- still queued, if its vote is on record.
  pub follower_round-Quiet :
      (timeout last curr now : ℕ) (s : Server)
      → s.id ≡ i
      → All (IsJust votes i) s.network.replica_msg_queue
      → OnOk
          (λ (r : Round). IsCast r.server → Quiet (IsJust votes) i s r.server)
          (follower_round x timeout last curr now s)
  unfolding follower_round Left
  follower_round-Quiet timeout last curr now s own just =
      let s1 = redirect_client s in
      let quiet = redirect-Quiet s in
      OnOk-if (Left s) (ltb timeout (curr - last)) _ _ (λ _ _. stand-Quiet s)
        (λ _.
          OnOk-map (Left s1) (Left s) (read_message x last now s1)
            (read_message-Quiet last now s1 (quiet.same_id ∙ own) (quiet.carried.queue just))
            (λ r h cast. Quiet-trans (IsJust votes) i s s1 r.server quiet (h cast)))
