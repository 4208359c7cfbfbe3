-- ===== src/Server.antt =====
-- `class Server` of server.h and server.cpp: what the states of the replica work on. The current
-- state is the one whose `run` is modelled; `set_state` names the next.
pub mod Commit
pub mod Total
use blockchain_raft.Base.{
  ℕ, zero, suc, ◌+◌, ◌%◌, Option, none, some, List, leb, if◌then◌else◌, Result, ok, exited, ◌>>=◌,
  ℤ, pos, pos_part, ◌+ℤ◌, ◌-ℤ◌, u32_mod, u32_of_int,
}
use blockchain_raft.Parameter.{null_candidate_id}
use blockchain_raft.Msg.{Extern}
use blockchain_raft.Chain.{
  Blockchain, load_file, set_committed_index, get_block_by_index, get_blockchain_length,
}
use blockchain_raft.Balance.{BalanceTable, update_balance}
use blockchain_raft.Network.{Network}

pub data Role : Type 0 where
  follower candidate leader : Role

pub record Server : Type 0 where
  pub id : ℕ
  pub network : Network
  pub curr_leader : ℕ
  pub curr_term : ℕ
  pub voted_candidate : ℤ
  pub bc_log : Blockchain
  pub bal_tab : BalanceTable
  pub next_state : Option Role

-- `++curr_term`
unfoldable pub increment_term : Server → Server
increment_term s = record s { curr_term = (s.curr_term + 1) % u32_mod }

unfoldable pub clear_voted_candidate : Server → Server
clear_voted_candidate s = record s { voted_candidate = null_candidate_id }

unfoldable pub set_state : Role → Server → Server
set_state r s = record s { next_state = some r }

-- The state that runs next; the one before it is dropped.
unfoldable pub run_state : Option Role → Server → Option Role × Server
run_state curr_state s = elim s.next_state [
  | none ↦ (curr_state, s)
  | some r ↦ (some r, record s { next_state = none })
]

-- The constructor, once the network is set up and the balance table is loaded.
unfoldable pub new_server : Extern → ℕ → Network → Option (List ℕ) → BalanceTable → Result Server
new_server x server_id network bc_file bal_tab = load_file x bc_file >>= λ bc_log. ok (record {
  id = server_id;
  network = network;
  curr_leader = 0;
  curr_term = 0;
  voted_candidate = null_candidate_id;
  bc_log = bc_log;
  bal_tab = bal_tab;
  next_state = some follower;
})

-- The transactions of the blocks from `bid` on, as many as there are rounds.
unfoldable pub apply_blocks : ℕ → ℤ → Blockchain → BalanceTable → Result BalanceTable
apply_blocks zero bid bc tab = ok tab
apply_blocks (suc n) bid bc tab = get_block_by_index bc bid >>= λ b.
    (update_balance tab b.txn.sender_id b.txn.recver_id b.txn.amount >>= λ tab'.
    apply_blocks n (bid +ℤ pos 1) bc tab')

-- The new index is compared as a `uint32_t`.
unfoldable pub update_bal_tab_and_committed_index : ℤ → Server → Result Server
update_bal_tab_and_committed_index new_index s =
    if leb (get_blockchain_length s.bc_log) (u32_of_int new_index)
    then ok s
    else (let old_index = s.bc_log.committed_index in
        apply_blocks (pos_part (new_index -ℤ old_index)) (old_index +ℤ pos 1) s.bc_log s.bal_tab
        >>= λ tab. ok (record s { bal_tab = tab; bc_log = set_committed_index new_index s.bc_log }))
