-- ===== src/Tests.antt =====
-- Small servers, chains and messages, for the tests.
pub mod Storage
pub mod Votes
pub mod Logs
pub mod Links
pub mod Elections
pub mod Clients
pub mod Systems
pub mod Replies
use blockchain_raft.Base.{
  ℕ, ◌+◌, ◌-◌, Bool, true, false, Option, none, some, List, [], ◌∷◌, ◌++◌, ◌==◌, length, take, drop,
  replicate, ℤ, pos, negsuc, pos_part,
}
use blockchain_raft.Msg.{BlockMsg, Extern}
use blockchain_raft.Float32
use blockchain_raft.Parameter.{client_count}
use blockchain_raft.Block.{Transaction, Block, transfer_txn, no_hash, find_hash}
use blockchain_raft.Balance.{BalanceTable, table_text}
use blockchain_raft.Chain.{Blockchain}
use blockchain_raft.Chain.Saved.{image}
use blockchain_raft.Network.{Network}
use blockchain_raft.Raft.{RequestVoteRpc, AppendEntryRpc}
use blockchain_raft.Server.{Server}

abbrev flag_byte : Option Bool → ℕ
flag_byte (some true) = 33
flag_byte _ = 32

-- An encoding that, as the protocol buffers' does, writes a small term as one byte.
abbrev demo_to_bytes : BlockMsg → List ℕ
demo_to_bytes m =
    m.term
    ∷ (m.txn.sender_id + 32)
    ∷ (m.txn.recver_id + 32)
    ∷ (m.txn.amount + 32)
    ∷ flag_byte m.txn.bal_txn_flag
    ∷ (pos_part m.index + 32)
    ∷ (length m.phash + 32)
    ∷ (m.phash ++ m.nonce)

abbrev demo_of_bytes : List ℕ → BlockMsg
demo_of_bytes (t ∷ s ∷ r ∷ a ∷ f ∷ i ∷ n ∷ rest) = record {
  term = t;
  phash = take (n - 32) rest;
  nonce = drop (n - 32) rest;
  txn = record {
    sender_id = s - 32;
    recver_id = r - 32;
    amount = a - 32;
    bal_txn_flag = some (f == 33);
  };
  index = pos (i - 32);
}
demo_of_bytes _ = record {
  term = 0;
  phash = [];
  nonce = [];
  txn = record { sender_id = 0; recver_id = 0; amount = 0; bal_txn_flag = none };
  index = pos 0;
}

-- A hash whose last digit is 0, so that the first nonce fits.
abbrev pub demo : Extern
demo = record {
  digest = λ bs. replicate 32 0;
  block_to_bytes = demo_to_bytes;
  block_of_bytes = demo_of_bytes;
}

-- Client 0 sends 10 to client 1.
abbrev pub payment : Transaction
payment = transfer_txn 0 1 Float32.ten

-- A block of a term, at a position, behind a hash.
abbrev pub block_at : ℕ → ℕ → List ℕ → Block
block_at term i phash = record {
  term = term;
  phash = phash;
  nonce = b'a' ∷ [];
  txn = payment;
  index = pos i;
}

abbrev pub block_0 : Block
block_0 = block_at 1 0 no_hash

abbrev pub block_1 : Block
block_1 = block_at 1 1 (find_hash demo block_0)

abbrev pub block_2 : Block
block_2 = block_at 2 1 (find_hash demo block_0)

-- A chain and its file.
abbrev pub chain : ℤ → List Block → Blockchain
chain committed bs =
    let c : Blockchain = record { blocks = bs; committed_index = committed; file = [] } in
    record c { file = image demo c }

abbrev pub balances : BalanceTable
balances =
    let bals = Float32.ten ∷ Float32.ten ∷ Float32.ten ∷ [] in
    record { bal_tab = bals; file = table_text client_count 0 bals }

abbrev pub idle : Network
idle = record {
  replica_msg_queue = [];
  client_req_queue = [];
  connected = true ∷ false ∷ true ∷ [];
  replica_out = [];
  client_out = [];
}

-- A server of term 1 that has not voted, and whose log is that chain.
abbrev pub server : ℕ → Blockchain → Server
server id bc = record {
  id = id;
  network = idle;
  curr_leader = 0;
  curr_term = 1;
  voted_candidate = negsuc 0;
  bc_log = bc;
  bal_tab = balances;
  next_state = none;
}
