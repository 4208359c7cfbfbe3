-- ===== src/Cluster/Follows.antt =====
-- The rounds of `FollowerState::run`: a vote that is granted is cast, and all else that is sent is no vote.
use blockchain_raft.Base.{
  ℕ, ◌<◌, ◌≡◌, refl, Bool, true, false, pos, negsuc, ◌+ℤ◌, ltb, ◌==◌, ltb_ℤ, eqb_ℤ, if◌then◌else◌,
  u32_of_int, OnOk, OnOk->>=, OnOk-map, OnOk-any, OnOk-if, OnOk-list,
}
use blockchain_raft.Parameter.{server_count}
use blockchain_raft.Msg.{Extern}
use blockchain_raft.Chain.{get_last_index, get_block_by_index, clean_up_blocks}
use blockchain_raft.Raft.{AppendEntryRpc, AppendEntryReply}
use blockchain_raft.Server.{Server, clear_voted_candidate}
use blockchain_raft.Follower.{
  adopt_term, reply_of, note_leader, may_advance, advance, handle_heartbeat, accept_entries,
  handle_entries, handle_append,
}
use blockchain_raft.Cluster.Quiet.{Quiet, Quiet-refl, Quiet-trans, Carried-refl}
use blockchain_raft.Cluster.Waits.{commit-Quiet}
use blockchain_raft.Cluster.Just.{Ballots, IsJust}

module _ (votes : Ballots) (x : Extern) (i : ℕ) (inside : i < server_count) where
  choose-Quiet :
      (b : Bool) (s r t : Server)
      → Quiet (IsJust votes) i s r
      → Quiet (IsJust votes) i s t
      → Quiet (IsJust votes) i s (if b then r else t)
  choose-Quiet true s r t h k = h
  choose-Quiet false s r t h k = k

  pub adopt_term-Quiet : (term : ℕ) (s : Server) → Quiet (IsJust votes) i s (adopt_term term s)
  unfolding adopt_term clear_voted_candidate
  adopt_term-Quiet term s =
      choose-Quiet (ltb s.curr_term term) s _ s
        (record {
          same_id = refl;
          not_promoted = λ e. e;
          carried = Carried-refl (IsJust votes) i s.network;
        })
        (Quiet-refl (IsJust votes) i s)

  note_leader-Quiet :
      (rpc : AppendEntryRpc) (s : Server) → Quiet (IsJust votes) i s (note_leader rpc s)
  unfolding note_leader
  note_leader-Quiet rpc s =
      choose-Quiet (u32_of_int rpc.leader_id == s.curr_leader) s s _ (Quiet-refl (IsJust votes) i s)
        (record {
          same_id = refl;
          not_promoted = λ e. e;
          carried = Carried-refl (IsJust votes) i s.network;
        })

  -- What a handler of append messages returns: a quiet server, and a reply with its id.
  unfoldable pub Replied : Server → Server × AppendEntryReply → Type 0
  Replied s r = Quiet (IsJust votes) i s r.0 × (r.1.sender_id ≡ pos r.0.id)

  heartbeat-Replied :
      (rpc : AppendEntryRpc) (s : Server) → OnOk (Replied s) (handle_heartbeat rpc s)
  unfolding handle_heartbeat advance Replied
  heartbeat-Replied rpc s =
      let s1 = note_leader rpc s in
      OnOk->>= (Quiet (IsJust votes) i s1) (Replied s) (advance rpc s1) _
        (OnOk-if (Quiet (IsJust votes) i s1) (may_advance rpc s1) _ _
          (λ _. commit-Quiet (IsJust votes) i rpc.commit_index s1)
          (λ _. Quiet-refl (IsJust votes) i s1))
        (λ s2 h. (Quiet-trans (IsJust votes) i s s1 s2 (note_leader-Quiet rpc s) h, refl))

  accept_entries-Replied :
      (rpc : AppendEntryRpc) (s : Server) → OnOk (Replied s) (accept_entries x rpc s)
  unfolding accept_entries Replied
  accept_entries-Replied rpc s =
      let (bc, r) = clean_up_blocks x (rpc.prev_log_index +ℤ pos 1) rpc.entries s.bc_log in
      OnOk->>= (λ _. Unit {0}) (Replied s) r _ (OnOk-any r)
        (λ _ _. (
          record {
            same_id = refl;
            not_promoted = λ e. e;
            carried = Carried-refl (IsJust votes) i s.network;
          },
          refl,
        ))

  refused : (s : Server) (b c : Bool) → Replied s (s, reply_of s b c)
  unfolding Replied
  refused s b c = (Quiet-refl (IsJust votes) i s, refl)

  handle_entries-Replied :
      (rpc : AppendEntryRpc) (s : Server) → OnOk (Replied s) (handle_entries x rpc s)
  unfolding handle_entries
  handle_entries-Replied rpc s =
      OnOk-if (Replied s) (ltb_ℤ (get_last_index s.bc_log) rpc.prev_log_index) _ _
        (λ _. refused s false false)
        (λ _.
          OnOk-if (Replied s) (eqb_ℤ rpc.prev_log_index (negsuc 0)) _ _
            (λ _. accept_entries-Replied rpc s)
            (λ _.
              OnOk->>= (λ _. Unit {0}) (Replied s) (get_block_by_index s.bc_log rpc.prev_log_index)
                _ (OnOk-any _)
                (λ b _.
                  OnOk-if (Replied s) (b.term == rpc.prev_log_term) _ _
                    (λ _. accept_entries-Replied rpc s) (λ _. refused s false false))))

  pub handle_append-Replied :
      (rpc : AppendEntryRpc) (s : Server) → OnOk (Replied s) (handle_append x rpc s)
  unfolding handle_append Replied
  handle_append-Replied rpc s =
      let s1 = adopt_term rpc.term s in
      let behind : (r : Server × AppendEntryReply) → Replied s1 r → Replied s r =
        λ r h. (Quiet-trans (IsJust votes) i s s1 r.0 (adopt_term-Quiet rpc.term s) h.0, h.1) in
      OnOk-if (Replied s) (ltb rpc.term s.curr_term) _ _ (λ _. refused s false true)
        (λ _.
          OnOk-list (Replied s) rpc.entries _ _
            (λ _.
              OnOk-map (Replied s1) (Replied s) (handle_heartbeat rpc s1) (heartbeat-Replied rpc s1)
                behind)
            (λ _.
              OnOk-map (Replied s1) (Replied s) (handle_entries x rpc s1)
                (handle_entries-Replied rpc s1) behind))
