-- ===== src/Cluster/Waits.antt =====
-- The leader's wait for its followers and the answer to the client send append messages only.
use blockchain_raft.Base.{
  ℕ, ◌≡◌, ◌-◌, ◌<◌, refl, Bool, true, false, not, ◌&&◌, ℤ, pos, negsuc, ◌+ℤ◌, ◌-ℤ◌, pos_part, leb,
  u32_of_int, ltb, ◌==◌, ltb_ℤ, eqb_ℤ, get_or, if◌then◌else◌, int_of_ℕ, Result, ok, ◌>>=◌, OnOk,
  OnOk->>=, OnOk-map, OnOk-any, OnOk-if, OnOk-list,
}
use blockchain_raft.Parameter.{server_count, leader_handle_time_ms}
use blockchain_raft.Balance.{get_balance}
use blockchain_raft.Chain.{get_block_by_index, get_blockchain_length}
use blockchain_raft.Raft.{
  ReplicaMsg, AppendEntryRpc, AppendEntryReply, no_msg, req_vote_rpc, req_vote_rpl, app_entr_rpc,
  app_entr_rpl, other, Request,
}
use blockchain_raft.Network.{replica_pop_message}
use blockchain_raft.Server.{
  Server, follower, set_state, update_bal_tab_and_committed_index, apply_blocks,
}
use blockchain_raft.Leader.Main.{slot, append_msg, entries_from, Waiting}
use blockchain_raft.Leader.Wait.{
  Waited, waits, yields, retry, count_reply, wait_message, wait_round, commit_all, finish_request,
}
use blockchain_raft.Leader.Votes.{waited_server}
use blockchain_raft.Cluster.Quiet.{
  Quiet, Quiet-refl, Quiet-trans, network-Quiet, step_down-Quiet, pop-Carried, respond-Carried,
}
use blockchain_raft.Cluster.Leads.{IsAtTerm, send-Quiet}

module _ (J : ℕ → ReplicaMsg → Type 0) (i : ℕ) where
  pub commit-Quiet :
      (index : ℤ) (s : Server) → OnOk (Quiet J i s) (update_bal_tab_and_committed_index index s)
  unfolding update_bal_tab_and_committed_index
  commit-Quiet index s =
      let old = s.bc_log.committed_index in
      let applied = apply_blocks (pos_part (index -ℤ old)) (old +ℤ pos 1) s.bc_log s.bal_tab in
      OnOk-if (Quiet J i s) (leb (get_blockchain_length s.bc_log) (u32_of_int index)) (ok s) _
        (λ _. Quiet-refl J i s)
        (λ _.
          OnOk->>= (λ _. Unit {0}) (Quiet J i s) applied _ (OnOk-any applied)
            (λ tab _. record {
              same_id = refl;
              not_promoted = λ e. e;
              carried = record { queue = λ q. q; sent = λ q. q };
            }))

module _ (J : ℕ → ReplicaMsg → Type 0) (i term : ℕ) (inside : i < server_count)
    (append : (id : ℕ) (r : AppendEntryRpc)
      → r.leader_id ≡ pos i
      → r.term ≡ term
      → J id (app_entr_rpc r)) where
  -- Between the two states of a wait.
  QuietWait : Waiting → Waiting → Type 0
  QuietWait w w' = Quiet J i w.server w'.server

  retry-Quiet :
      (sender : ℤ) (w : Waiting) → IsAtTerm i term w.server → OnOk (QuietWait w) (retry sender w)
  unfolding retry QuietWait
  retry-Quiet sender w at_term =
      let s = w.server in
      let next_index = get_or w.next_index (slot sender) (pos 0) -ℤ pos 1 in
      let prev = next_index -ℤ pos 1 in
      OnOk-if (QuietWait w) (ltb_ℤ prev (negsuc 0)) _ _ (λ _. Quiet-refl J i s)
        (λ _.
          OnOk->>= (λ _. Unit {0}) (QuietWait w)
            (if eqb_ℤ prev (negsuc 0)
              then ok (0, negsuc 0)
              else get_block_by_index s.bc_log prev >>= λ b. ok (b.term, b.index))
            _ (OnOk-any _)
            (λ at _.
              OnOk->>= (λ _. Unit {0}) (QuietWait w) (entries_from next_index s.bc_log) _
                (OnOk-any (entries_from next_index s.bc_log))
                (λ es _.
                  send-Quiet J i term inside append (append_msg at.0 at.1 es s) sender s refl refl
                    at_term)))

  count_reply-Quiet :
      (reply : AppendEntryReply) (now : ℕ) (w : Waiting)
      → IsAtTerm i term w.server
      → OnOk (QuietWait w) (count_reply reply now w)
  unfolding count_reply QuietWait
  count_reply-Quiet reply now w at_term =
      OnOk-if (QuietWait w) (reply.success && not reply.reply_hearbeat) _ _
        (λ _. Quiet-refl J i w.server)
        (λ _. retry-Quiet reply.sender_id (record w { last = now }) at_term)

  -- Between the wait and what a round makes of it.
  QuietRound : Waiting → Waited → Type 0
  QuietRound w r = Quiet J i w.server (waited_server r)

  yields_if-Quiet :
      (b : Bool) (w : Waiting) (r : Result Waited)
      → OnOk (QuietRound w) r
      → OnOk (QuietRound w) (if b then ok (yields (set_state follower w.server)) else r)
  unfolding QuietRound waited_server
  yields_if-Quiet true w r h = step_down-Quiet J i w.server
  yields_if-Quiet false w r h = h

  wait_message-Quiet :
      (msg : ReplicaMsg) (now : ℕ) (w : Waiting)
      → IsAtTerm i term w.server
      → OnOk (QuietRound w) (wait_message msg now w)
  unfolding wait_message QuietRound waited_server QuietWait
  wait_message-Quiet (req_vote_rpc rpc) now w at_term =
      yields_if-Quiet (ltb w.server.curr_term rpc.term) w (ok (waits w)) (Quiet-refl J i w.server)
  wait_message-Quiet (app_entr_rpc rpc) now w at_term =
      yields_if-Quiet (ltb w.server.curr_term rpc.term) w (ok (waits w)) (Quiet-refl J i w.server)
  wait_message-Quiet (app_entr_rpl reply) now w at_term =
      yields_if-Quiet (ltb w.server.curr_term reply.term) w _ (
        OnOk-if (QuietRound w) (reply.term == w.server.curr_term) _ _
          (λ _.
            OnOk->>= (QuietWait w) (QuietRound w) (count_reply reply now w) _
              (count_reply-Quiet reply now w at_term) (λ w' h. h))
          (λ _. Quiet-refl J i w.server))
  wait_message-Quiet (req_vote_rpl r) now w at_term = Quiet-refl J i w.server
  wait_message-Quiet no_msg now w at_term = Quiet-refl J i w.server
  wait_message-Quiet (other n) now w at_term = Quiet-refl J i w.server

  pub wait_round-Quiet :
      (curr now : ℕ) (w : Waiting)
      → IsAtTerm i term w.server
      → OnOk (λ r. Quiet J i w.server (waited_server r)) (wait_round curr now w)
  unfolding wait_round QuietRound waited_server
  wait_round-Quiet curr now w at_term =
      let (msg, n) = replica_pop_message w.server.network in
      let w1 = record w { server = record w.server { network = n } } in
      OnOk-if (QuietRound w) (ltb leader_handle_time_ms (curr - w.last)) _ _
        (λ _. Quiet-refl J i w.server)
        (λ _.
          OnOk-list (QuietRound w) w.server.network.replica_msg_queue _ _
            (λ _. Quiet-refl J i w.server)
            (λ _.
              OnOk-map (QuietRound w1) (QuietRound w) (wait_message msg now w1)
                (wait_message-Quiet msg now w1 at_term)
                (λ r h.
                  Quiet-trans J i w.server w1.server (waited_server r)
                    (network-Quiet J i w.server n (pop-Carried J i w.server.network)) h)))

  pub finish_request-Quiet :
      (committed : Bool) (r : Request) (s : Server)
      → OnOk (Quiet J i s) (finish_request committed r s)
  unfolding finish_request commit_all
  finish_request-Quiet committed r s =
      let all = int_of_ℕ (get_blockchain_length s.bc_log) -ℤ pos 1 in
      OnOk->>= (Quiet J i s) (Quiet J i s) (if committed then commit_all s else ok s) _
        (OnOk-if (Quiet J i s) committed (commit_all s) (ok s) (λ _. commit-Quiet J i all s)
          (λ _. Quiet-refl J i s))
        (λ s1 h.
          OnOk->>= (λ _. Unit {0}) (Quiet J i s) (get_balance s1.bal_tab r.client_id) _
            (OnOk-any (get_balance s1.bal_tab r.client_id))
            (λ balance _.
              Quiet-trans J i s s1 _ h
                (network-Quiet J i s1 _ (respond-Carried J i _ (int_of_ℕ r.client_id) s1.network))))
