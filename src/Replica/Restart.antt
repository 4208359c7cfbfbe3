-- ===== src/Replica/Restart.antt =====
-- A replica that ends and is started again: the constructor of server.cpp takes the chain from its
-- file, and the term and the vote from nowhere.
use blockchain_raft.Base.{◌<◌, ◌≡◌, refl, ◌∙◌, ap, ℕ, true, some, ok, arith}
use blockchain_raft.Msg.{Extern}
use blockchain_raft.Balance.{BalanceTable}
use blockchain_raft.Chain.{Blockchain}
use blockchain_raft.Chain.Saved.{IsSaved}
use blockchain_raft.Chain.Load.{Readable, load_saved}
use blockchain_raft.Raft.{RequestVoteRpc}
use blockchain_raft.Network.{Network}
use blockchain_raft.Parameter.{null_candidate_id}
use blockchain_raft.Server.{Server, follower, new_server, clear_voted_candidate}
use blockchain_raft.Follower.{handle_vote, adopt_term}
use blockchain_raft.Follower.Vote.{IsFree, AsRecentAs, vote_granted_iff}

-- The server that starts on a chain.
abbrev fresh : ℕ → Network → BalanceTable → Blockchain → Server
fresh id net bal_tab bc = record {
  id = id;
  network = net;
  curr_leader = 0;
  curr_term = 0;
  voted_candidate = null_candidate_id;
  bc_log = bc;
  bal_tab = bal_tab;
  next_state = some follower;
}

-- A vote changes nothing in the log.
handle_vote-log : (rpc : RequestVoteRpc) (s : Server) → (handle_vote rpc s).0.bc_log ≡ s.bc_log
unfolding handle_vote adopt_term clear_voted_candidate
handle_vote-log rpc s = ground arith

restart_lem :
    (x : Extern) (id : ℕ) (net : Network) (bal_tab : BalanceTable) (bc : Blockchain)
    → Readable x bc.blocks
    → IsSaved x bc
    → new_server x id net (some bc.file) bal_tab ≡ ok (fresh id net bal_tab bc)
unfolding new_server
restart_lem x id net bal_tab bc readable saved = rw (load_saved x bc readable saved) refl

-- If a replica whose chain is saved, and is encoded without newline bytes, grants a vote in a term
-- above 0, and is then started again on its file, it has the same log, and it grants a vote of
-- that term to any candidate whose last entry is that of the first one.
pub votes_again :
    (x : Extern) (rpc rpc' : RequestVoteRpc) (s : Server) (net : Network) (bal_tab : BalanceTable)
    → Readable x s.bc_log.blocks
    → IsSaved x s.bc_log
    → (handle_vote rpc s).1.vote_granted ≡ true
    → 0 < rpc.term
    → rpc'.term ≡ rpc.term
    → rpc'.last_log_term ≡ rpc.last_log_term
    → rpc'.last_log_index ≡ rpc.last_log_index
    → (s' : Server) × (new_server x s.id net (some (handle_vote rpc s).0.bc_log.file) bal_tab
        ≡ ok s')
      × (s'.bc_log ≡ s.bc_log)
      × ((handle_vote rpc' s').1.vote_granted ≡ true)
votes_again x rpc rpc' s net bal_tab readable saved granted above term last index =
    let s' = fresh s.id net bal_tab s.bc_log in
    let recent = ((vote_granted_iff rpc s).0 granted).1 in
    let free : IsFree rpc' s' = ground (arith, above, term) in
    let recent' : AsRecentAs s' rpc'.last_log_term rpc'.last_log_index =
      ground (arith, recent, last, index) in
    (
      s',
      ap (λ (bc : Blockchain). new_server x s.id net (some bc.file) bal_tab) (handle_vote-log rpc s)
          ∙ restart_lem x s.id net bal_tab s.bc_log readable saved,
      refl,
      (vote_granted_iff rpc' s').1 (free, recent'),
    )
