-- ===== src/Server/Total.antt =====
-- When `Server::update_bal_tab_and_committed_index` returns.
use blockchain_raft.Base.{
  ℕ, suc, zero, ◌-◌, ◌≤◌, ◌<◌, ◌≡◌, refl, ap, ◌∙◌, List, [], ◌∷◌, length, take, drop, Result, ok,
  ◌>>=◌, pos, u32_mod,
}
use blockchain_raft.Parameter.{client_count}
use blockchain_raft.Block.{Block}
use blockchain_raft.Balance.{BalanceTable}
use blockchain_raft.Balance.Update.{update_balance-IsTransfer}
use blockchain_raft.Chain.{set_committed_index}
use blockchain_raft.Server.{Server, update_bal_tab_and_committed_index}
use blockchain_raft.Server.Commit.{replay, IsReplayed, commit_lem, commit-IsReplayed}

-- Every payment is between clients.
abbrev pub IsPayable : List Block → Type 0
IsPayable [] = Unit {0}
IsPayable (b ∷ bs) =
    (b.txn.sender_id < client_count) × (b.txn.recver_id < client_count) × IsPayable bs

IsPayable-take : (k : ℕ) (bs : List Block) → IsPayable bs → IsPayable (take k bs)
IsPayable-take zero bs h = tt
IsPayable-take (suc k) [] h = tt
IsPayable-take (suc k) (b ∷ bs) h = (h.0, h.1, IsPayable-take k bs h.2)

IsPayable-drop : (k : ℕ) (bs : List Block) → IsPayable bs → IsPayable (drop k bs)
IsPayable-drop zero bs h = h
IsPayable-drop (suc k) [] h = tt
IsPayable-drop (suc k) (b ∷ bs) h = IsPayable-drop k bs h.2

replay_total :
    (bs : List Block) (tab : BalanceTable)
    → length tab.bal_tab ≡ client_count
    → IsPayable bs
    → (tab' : BalanceTable) × (replay bs tab ≡ ok tab')
unfolding replay
replay_total [] tab sized h = (tab, refl)
replay_total (b ∷ bs) tab sized h =
    let (paid, done, t) =
      update_balance-IsTransfer tab b.txn.sender_id b.txn.recver_id b.txn.amount sized h.0 h.1 in
    let (tab', rest) = replay_total bs paid t.stored.sized h.2 in
    (tab', ap (λ (r : Result BalanceTable). r >>= replay bs) done ∙ rest)

-- If the balances of all clients are the replay of the c committed blocks on some start balances,
-- and every payment of the log is between clients, then a commit up to a position m of the log, at
-- or behind the last committed one, returns, and the balances are the replay of the first m + 1
-- blocks, all committed; the log has fewer than 2^32 blocks.
pub commit_total :
    (start : BalanceTable) (c m : ℕ) (s : Server)
    → IsReplayed start c s
    → c ≤ suc m
    → m < length s.bc_log.blocks
    → length s.bc_log.blocks < u32_mod
    → length s.bal_tab.bal_tab ≡ client_count
    → IsPayable s.bc_log.blocks
    → (s' : Server) × (update_bal_tab_and_committed_index (pos m) s ≡ ok s')
      × IsReplayed start (suc m) s'
commit_total start c m s r l h small sized payable =
    let pending = take (suc m - c) (drop c s.bc_log.blocks) in
    let (tab, paid) = replay_total pending s.bal_tab sized (
      IsPayable-take (suc m - c) (drop c s.bc_log.blocks)
        (IsPayable-drop c s.bc_log.blocks payable)) in
    let s' = record s { bal_tab = tab; bc_log = set_committed_index (pos m) s.bc_log } in
    let done : update_bal_tab_and_committed_index (pos m) s ≡ ok s' =
      commit_lem c m s r.committed l h small
      ∙ ap
          (λ (b : Result BalanceTable). b >>= λ tab.
            ok (record s { bal_tab = tab; bc_log = set_committed_index (pos m) s.bc_log }))
          paid in
    (s', done, commit-IsReplayed start c m s r l h small done)
