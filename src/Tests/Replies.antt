-- ===== src/Tests/Replies.antt =====
-- A leader that takes a request with a reply to an earlier one still in its queue.
use blockchain_raft.Base.{
  ◌≡◌, refl, some, none, [], ◌∷◌, arith, Result, ok, exited, pos, negsuc, true, false,
}
use blockchain_raft.Raft.{Request, transaction_request, AppendEntryReply, app_entr_rpl}
use blockchain_raft.Server.{Server}
use blockchain_raft.Leader.Main.{Waiting, Begun, dropped, searching, asked, begin_request}
use blockchain_raft.Leader.Wait.{Tick, wait_loop, accepted}
use blockchain_raft.Leader.Stale.{stale_accept}
use blockchain_raft.Tests.{demo, payment, block_0, chain, server, idle}

-- The reply is to the block that the leader holds already.
abbrev reply : AppendEntryReply
reply = record { term = 1; sender_id = pos 2; success = true; reply_hearbeat = false }

abbrev busy : Server
busy = record (server 0 (chain (pos 0) (block_0 ∷ []))) {
  curr_term = 1;
  network = record idle { replica_msg_queue = app_entr_rpl reply ∷ [] };
}

abbrev request : Request
request = record {
  type = transaction_request;
  client_id = 0;
  request_id = 0;
  payload = some payment;
}

abbrev waiting_of : Result Begun → Waiting
waiting_of (ok (asked w)) = w
waiting_of _ = record {
  server = busy;
  next_index = [];
  num_accept = 0;
  prev_log_index = negsuc 0;
  last = 0;
}

abbrev begun : Waiting
begun = waiting_of (begin_request demo (0 ∷ []) 50 request busy)

begins : begin_request demo (0 ∷ []) 50 request busy ≡ ok (asked begun)
unfolding begin_request blockchain_raft.Chain.add_transaction blockchain_raft.Block.new_block
    blockchain_raft.Block.find_nonce blockchain_raft.Block.accepts blockchain_raft.Block.sha256
    blockchain_raft.Text.hex blockchain_raft.Leader.Main.send_entries
    blockchain_raft.Leader.Main.entries_from blockchain_raft.Base.◌+ℤ◌
    blockchain_raft.Chain.get_last_index blockchain_raft.Leader.Main.collect
    blockchain_raft.Chain.get_blockchain_length blockchain_raft.Chain.write_block_to_file
    blockchain_raft.Chain.get_block_by_index
begins = refl

abbrev tick : Tick
tick = record { curr = 60; now = 61; arrivals = [] }

stale_accept_example :
    (w' : Waiting) × (wait_loop (tick ∷ []) begun ≡ ok (accepted w'))
    × (w'.server.bc_log ≡ begun.server.bc_log)
stale_accept_example =
    stale_accept demo (0 ∷ []) 50 request busy begun reply [] tick [] begins refl refl refl refl
      (omega arith)
