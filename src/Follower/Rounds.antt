-- ===== src/Follower/Rounds.antt =====
-- A whole round of the follower's loop, and the votes.
use blockchain_raft.Base.{
  ℕ, ◌≡◌, refl, inl, inr, arith, Bool-cases, ltb, ok, OnOk, OnOk->>=, OnOk-map, OnOk-list, OnOk-eq,
  ◌-◌,
}
use blockchain_raft.Msg.{Extern}
use blockchain_raft.Raft.{
  ReplicaMsg, no_msg, req_vote_rpc, req_vote_rpl, app_entr_rpc, app_entr_rpl, other,
}
use blockchain_raft.Network.{replica_pop_message}
use blockchain_raft.Server.{Server, set_state}
use blockchain_raft.Follower.{
  Round, redirect_client, handle_append, handle_message, read_message, follower_round,
}
use blockchain_raft.Follower.Vote.{
  VoteKept, VoteKept-refl, VoteKept-trans, handle_vote-VoteKept, handle_append-Kept,
}

module _ (x : Extern) where
  handle_message-VoteKept :
      (last now : ℕ) (msg : ReplicaMsg) (s : Server)
      → OnOk (λ r. VoteKept s r.server) (handle_message x last now msg s)
  unfolding handle_message
  handle_message-VoteKept last now (app_entr_rpc rpc) s =
      OnOk->>= (λ r. VoteKept s r.0) (λ r. VoteKept s r.server) (handle_append x rpc s) _
        (handle_append-Kept x rpc s)
        (λ r k. record { term_grows = k.term_grows; vote_stays = k.vote_stays })
  handle_message-VoteKept last now (req_vote_rpc rpc) s =
      let k = handle_vote-VoteKept rpc s in
      record { term_grows = k.term_grows; vote_stays = k.vote_stays }
  handle_message-VoteKept last now (req_vote_rpl r) s = VoteKept-refl s
  handle_message-VoteKept last now (app_entr_rpl r) s = VoteKept-refl s
  handle_message-VoteKept last now no_msg s = VoteKept-refl s
  handle_message-VoteKept last now (other n) s = VoteKept-refl s

  redirect_client-VoteKept : (s : Server) → VoteKept s (redirect_client s)
  unfolding redirect_client
  redirect_client-VoteKept s = ground arith

  -- The network is no part of what the votes depend on.
  read_message-VoteKept :
      (last now : ℕ) (s : Server) → OnOk (λ r. VoteKept s r.server) (read_message x last now s)
  unfolding read_message
  read_message-VoteKept last now s =
      let (msg, n) = replica_pop_message s.network in
      OnOk-list (λ r. VoteKept s r.server) s.network.replica_msg_queue _ _ (λ _. VoteKept-refl s)
        (λ _.
          OnOk-map (λ r. VoteKept (record s { network = n }) r.server) (λ r. VoteKept s r.server)
            (handle_message x last now msg (record s { network = n }))
            (handle_message-VoteKept last now msg (record s { network = n }))
            (λ r k. record { term_grows = k.term_grows; vote_stays = k.vote_stays }))

  round-VoteKept :
      (timeout last curr now : ℕ) (s : Server)
      → OnOk (λ r. VoteKept s r.server) (follower_round x timeout last curr now s)
  unfolding follower_round set_state
  round-VoteKept timeout last curr now s = elim (Bool-cases (ltb timeout (curr - last))) [
    | inl late ↦ rw late (record { term_grows = omega arith; vote_stays = λ _ _. refl })
    | inr early ↦ rw early (
        OnOk-map (λ r. VoteKept (redirect_client s) r.server) (λ r. VoteKept s r.server)
          (read_message x last now (redirect_client s))
          (read_message-VoteKept last now (redirect_client s))
          (λ r k. VoteKept-trans s (redirect_client s) r.server (redirect_client-VoteKept s) k))
  ]

  -- A round of the follower's loop that returns never lowers the term, and within a term it keeps
  -- a vote that is given.
  pub follower_round-VoteKept :
      (timeout last curr now : ℕ) (s : Server) {r : Round}
      → follower_round x timeout last curr now s ≡ ok r
      → VoteKept s r.server
  follower_round-VoteKept timeout last curr now s e =
      OnOk-eq (λ (r : Round). VoteKept s r.server) (follower_round x timeout last curr now s)
        (round-VoteKept timeout last curr now s) e
