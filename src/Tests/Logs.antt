-- ===== src/Tests/Logs.antt =====
-- Replicated logs on small servers: what a follower takes over, what is committed, and what a
-- leader sends and counts.
use blockchain_raft.Base.{
  ℕ, zero, suc, ◌+◌, ◌-◌, ◌≡◌, ◌≢◌, ◌≤◌, ◌<◌, refl, some, none, List, [], ◌∷◌, ◌++◌, arith, Result,
  ok, ◌>>=◌, pos, negsuc, ℤ, true, false, take, drop, length, ltb, if◌then◌else◌, u32_of_int,
  get_or,
}
use blockchain_raft.Block.{Block}
use blockchain_raft.Float32
use blockchain_raft.Float32.{ten}
use blockchain_raft.Parameter.{client_count}
use blockchain_raft.Balance.{BalanceTable, table_text}
use blockchain_raft.Chain.{Blockchain, set_committed_index}
use blockchain_raft.Raft.{
  Request, balance_request, AppendEntryRpc, AppendEntryReply, app_entr_rpc, app_entr_rpl,
}
use blockchain_raft.Server.{Server, update_bal_tab_and_committed_index}
use blockchain_raft.Server.Commit.{replay, IsReplayed, commit_lem}
use blockchain_raft.Follower.{handle_append, adopt_term, reply_of}
use blockchain_raft.Follower.Append.{
  IsSound, in_term, entries_result, handle_append_entries, append_catches_up,
}
use blockchain_raft.Leader.Main.{Waiting}
use blockchain_raft.Leader.Wait.{finish_request, retry, Tick, wait_loop, accepted}
use blockchain_raft.Leader.Commits.{finish_request-IsReplayed}
use blockchain_raft.Server.Total.{commit_total}
use blockchain_raft.Follower.Commits.{HasReplayed, handle_append-HasReplayed}
use blockchain_raft.Network.Wire.{deliveries}
use blockchain_raft.Follower.Late.{late_append}
use blockchain_raft.Leader.Repairs.{flagless, retry_repairs}
use blockchain_raft.Leader.Replies.{accepts, arriving, accepted-majority}
use blockchain_raft.Tests.{demo, block_0, block_1, block_2, chain, balances, server}

-- A follower whose second block is of an older term than the leader's.
abbrev behind : Server
behind = server 1 (chain (negsuc 0) (block_0 ∷ block_1 ∷ []))

abbrev log : List Block
log = block_0 ∷ block_2 ∷ []

abbrev entries : AppendEntryRpc
entries = record {
  term = 2;
  leader_id = pos 0;
  prev_log_term = 1;
  prev_log_index = pos 0;
  commit_index = negsuc 0;
  entries = block_2 ∷ [];
}

behind-IsSound : IsSound demo behind.bc_log
unfolding blockchain_raft.Base.int_of_ℕ
behind-IsSound = record {
  linked = (refl, refl, (refl, refl, tt));
  storable = omega arith;
  short = omega arith;
}

append_catches_up_example :
    (s' : Server) × (reply : AppendEntryReply) × (handle_append demo entries behind
      ≡ ok (s', reply))
    × (reply.success ≡ true)
    × (reply.term ≡ 2)
    × (s'.bc_log.blocks ≡ log)
    × (s'.bc_log.committed_index ≡ behind.bc_log.committed_index)
append_catches_up_example =
    append_catches_up demo entries 1 log behind behind-IsSound (omega arith) refl refl refl
      (omega arith) refl

handle_append_entries_example : handle_append demo entries behind ≡ (
    if ltb entries.term behind.curr_term
    then ok (behind, reply_of behind false true)
    else entries_result demo entries 1 (in_term entries.term behind))
handle_append_entries_example =
    handle_append_entries demo entries 1 behind refl (λ e. cc) behind-IsSound

-- A message with the first block comes late, when the follower has two.
abbrev late : AppendEntryRpc
late = record entries { prev_log_index = negsuc 0; entries = block_0 ∷ [] }

late_append_example :
    (s' : Server) × (reply : AppendEntryReply) × (handle_append demo late behind ≡ ok (s', reply))
    × (reply.success ≡ true)
    × (s'.bc_log.blocks ≡ block_0 ∷ [])
    × (length s'.bc_log.blocks < 2)
    × (s'.bc_log.committed_index ≡ behind.bc_log.committed_index)
late_append_example =
    late_append demo late 0 1 behind behind-IsSound (omega arith) refl refl refl (omega arith)
      (omega arith)

-- A leader of term 2 that has committed nothing, with the follower's slot beyond its log.
abbrev leading : Server
leading = record (server 0 (chain (negsuc 0) log)) { curr_term = 2 }

leading-IsSound : IsSound demo leading.bc_log
unfolding blockchain_raft.Base.int_of_ℕ
leading-IsSound = record {
  linked = (refl, refl, (refl, refl, tt));
  storable = omega arith;
  short = omega arith;
}

abbrev waiting : Waiting
waiting = record {
  server = leading;
  next_index = pos 2 ∷ pos 2 ∷ pos 2 ∷ [];
  num_accept = 1;
  prev_log_index = pos 1;
  last = 0;
}

retry_repairs_example :
    (w' : Waiting) × (rpc : AppendEntryRpc) × (retry (pos 1) waiting ≡ ok w')
    × (deliveries w'.server.network ≡ deliveries leading.network ++ (1, app_entr_rpc rpc) ∷ [])
    × (t' : Server) × (reply : AppendEntryReply) × (handle_append demo rpc behind ≡ ok (t', reply))
    × (reply.success ≡ true)
    × (flagless t'.bc_log.blocks ≡ flagless log)
    × IsSound demo t'.bc_log
retry_repairs_example =
    retry_repairs demo 1 1 waiting behind refl (omega arith) (omega arith) (omega arith)
      leading-IsSound behind-IsSound (omega arith) refl

-- Replica 1 accepts in the second round of the wait.
abbrev ticks : List Tick
ticks =
    record { curr = 1; now = 1; arrivals = [] }
    ∷ record {
      curr = 2;
      now = 2;
      arrivals =
          app_entr_rpl
            (record { term = 2; sender_id = pos 1; success = true; reply_hearbeat = false })
          ∷ [];
    }
    ∷ []

accepted-majority_example :
    2 ≤ 1 + accepts 2 (waiting.server.network.replica_msg_queue ++ arriving ticks)
unfolding wait_loop blockchain_raft.Leader.Wait.wait_round blockchain_raft.Leader.Wait.wait_message
    blockchain_raft.Network.replica_pop_message blockchain_raft.Leader.Wait.count_reply
accepted-majority_example = accepted-majority ticks waiting refl

fresh : IsReplayed balances 0 leading
unfolding replay
fresh = record { committed = refl; within = omega arith; replayed = refl }

-- The balances after the first block's payment.
abbrev paid : BalanceTable
paid =
    let bals = Float32.sub ten ten ∷ Float32.add ten ten ∷ ten ∷ [] in
    record { bal_tab = bals; file = table_text client_count 0 bals }

abbrev committed : Server
committed = record leading { bal_tab = paid; bc_log = set_committed_index (pos 0) leading.bc_log }

commits : update_bal_tab_and_committed_index (pos 0) leading ≡ ok committed
unfolding update_bal_tab_and_committed_index blockchain_raft.Chain.get_blockchain_length u32_of_int
    blockchain_raft.Server.apply_blocks blockchain_raft.Base.◌-ℤ◌
    blockchain_raft.Chain.get_block_by_index blockchain_raft.Base.◌+ℤ◌
    blockchain_raft.Balance.update_balance blockchain_raft.Balance.write_bal_tab_to_file
commits = refl

commit_lem_example : update_bal_tab_and_committed_index (pos 1) leading ≡ (
    replay (take 2 (drop 0 log)) balances >>= λ tab.
    ok (record leading { bal_tab = tab; bc_log = set_committed_index (pos 1) leading.bc_log }))
commit_lem_example = commit_lem 0 1 leading refl (omega arith) (omega arith) (omega arith)

commit_total_example :
    (s' : Server) × (update_bal_tab_and_committed_index (pos 1) leading ≡ ok s')
    × IsReplayed balances 2 s'
commit_total_example =
    commit_total balances 0 1 leading fresh (omega arith) (omega arith) (omega arith) refl
      (omega arith, omega arith, (omega arith, omega arith, tt))

-- A heartbeat of term 2 that has committed the first block.
abbrev beat : AppendEntryRpc
beat = record {
  term = 2;
  leader_id = pos 0;
  prev_log_term = 2;
  prev_log_index = pos 1;
  commit_index = pos 0;
  entries = [];
}

heard : handle_append demo beat leading ≡ ok (committed, reply_of committed true true)
unfolding handle_append blockchain_raft.Follower.handle_heartbeat blockchain_raft.Follower.advance
    blockchain_raft.Follower.may_advance blockchain_raft.Chain.get_last_index
    blockchain_raft.Follower.note_leader u32_of_int adopt_term blockchain_raft.Chain.get_last_term
    update_bal_tab_and_committed_index blockchain_raft.Chain.get_blockchain_length
    blockchain_raft.Server.apply_blocks blockchain_raft.Base.◌-ℤ◌
    blockchain_raft.Chain.get_block_by_index blockchain_raft.Base.◌+ℤ◌
    blockchain_raft.Balance.update_balance blockchain_raft.Balance.write_bal_tab_to_file
heard = refl

handle_append-HasReplayed_example : HasReplayed balances 0 committed
handle_append-HasReplayed_example =
    handle_append-HasReplayed balances 0 beat demo leading (omega arith) fresh leading-IsSound
      (λ _ some_entry. absurd (some_entry refl)) heard

-- Client 0 asked for its balance.
abbrev asked_for : Request
asked_for = record { type = balance_request; client_id = 0; request_id = 7; payload = none }

abbrev one_block : Server
one_block = record leading { bc_log = chain (negsuc 0) (block_0 ∷ []) }

finished : (s' : Server) × (finish_request true asked_for one_block ≡ ok s')
unfolding finish_request blockchain_raft.Leader.Wait.commit_all update_bal_tab_and_committed_index
    blockchain_raft.Chain.get_blockchain_length u32_of_int blockchain_raft.Base.◌-ℤ◌
    blockchain_raft.Base.int_of_ℕ blockchain_raft.Server.apply_blocks
    blockchain_raft.Chain.get_block_by_index blockchain_raft.Base.◌+ℤ◌
    blockchain_raft.Balance.update_balance blockchain_raft.Balance.get_balance
finished = (_, refl)

finish_request-IsReplayed_example : IsReplayed balances 1 finished.0
unfolding replay
finish_request-IsReplayed_example =
    finish_request-IsReplayed balances 0 0 asked_for one_block
      (record { committed = refl; within = omega arith; replayed = refl }) refl (omega arith)
      finished.1
